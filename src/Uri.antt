-- ===== src/Uri.antt =====
-- include/clsp/Uri.hpp and src/Uri.cpp. `std::isalnum` and `std::isalpha` are those of the "C"
-- locale; `std::filesystem::path` is a parameter. A string is its bytes.
pub mod Codec
pub mod Paths
use Prim.Native.Nat.{bit_and, bit_or}
use clsp.Base.{
  ℕ, zero, suc, ◌+◌, ◌-◌, ◌*◌, ◌/◌, ◌%◌, ◌^◌, ◌≤◌, ◌<◌, String, ◌<>◌, ◌≡◌, refl, sym, ap, ◌∙◌,
  subst, ◌≢◌, ◌↔◌, ◌⊎◌, inl, inr, Bool, true, false, not, ◌&&◌, ◌||◌, Option, none, some, List, [],
  ◌∷◌, ◌++◌, map, append_assoc, append-nil, arith, ltb, leb, ◌=ℕ=◌, if◌then◌else◌, ltb→lt, lt→ltb,
  Bool-cases, Option-cases, is_some, Bytes, codes, length, get_elem?, set, take, drop, replicate,
  length-append, take-append-drop, length-take, length-drop, take_all, drop_all, take-append,
  drop-append, All, All-append, Eq, ◌==◌, string_eq, ==_refl, ==_ne,
}

abbrev pub file_scheme : Bytes
file_scheme = codes "file://"

unfoldable pub between : ℕ → ℕ → ℕ → Bool
between lo hi c = leb lo c && leb c hi

unfoldable pub is_alpha : ℕ → Bool
unfolding between
is_alpha c = between b'A' b'Z' c || between b'a' b'z' c

unfoldable pub is_unreserved : ℕ → Bool
unfolding is_alpha
is_unreserved c =
    (is_alpha c || between b'0' b'9' c)
    || (c =ℕ= b'-' || (c =ℕ= b'.' || (c =ℕ= b'_' || c =ℕ= b'~')))

-- `c` is one of the bytes.
unfoldable pub is_one_of : Bytes → ℕ → Bool
is_one_of [] c = false
is_one_of (b ∷ bs) c = c =ℕ= b || is_one_of bs c

unfoldable pub is_path_pass_through : ℕ → Bool
unfolding is_unreserved is_one_of
is_path_pass_through c =
    (is_unreserved c || (c =ℕ= b'/' || (c =ℕ= b':' || c =ℕ= b'@')))
    || is_one_of (codes "!$&'()*+,;=") c

-- `none` for -1.
unfoldable pub hex_value : ℕ → Option ℕ
unfolding between
hex_value c =
    if between b'0' b'9' c
    then some (c - b'0')
    else if between b'a' b'f' c
    then some (10 + (c - b'a'))
    else if between b'A' b'F' c
    then some (10 + (c - b'A'))
    else none

-- `hex[n]`
unfoldable pub hex_digit : ℕ → ℕ
hex_digit n = if ltb n 10 then b'0' + n else b'A' + (n - 10)

-- What the loop of `percentEncode` appends for a byte: `c >> 4` and `c & 0xF`.
unfoldable pub encode_byte : ℕ → Bytes
unfolding is_path_pass_through hex_digit
encode_byte c =
    if is_path_pass_through c
    then c ∷ []
    else b'%' ∷ hex_digit (c / 16 % 16) ∷ hex_digit (c % 16) ∷ []

unfoldable pub percent_encode : Bytes → Bytes
unfolding encode_byte
percent_encode [] = []
percent_encode (c ∷ s) = encode_byte c ++ percent_encode s

-- The byte of a valid escape.
unfoldable pub decode_pair : ℕ → ℕ → Option ℕ
unfolding hex_value
decode_pair a b = elim (hex_value a) [
  | none ↦ none
  | some hi ↦ elim (hex_value b) [ none ↦ none | some lo ↦ some (bit_or (hi * 16) lo) ]
]

-- The loop of `percentDecode`: an escape that is cut off or no hexadecimal stays as it is.
unfoldable pub percent_decode : Bytes → Bytes
unfolding decode_pair
percent_decode [] = []
percent_decode (c ∷ []) = c ∷ []
percent_decode (c ∷ a ∷ []) = c ∷ percent_decode (a ∷ [])
percent_decode (c ∷ a ∷ b ∷ rest) =
    let decoded = percent_decode rest in
    let copied = percent_decode (a ∷ b ∷ rest) in
    if c =ℕ= b'%'
    then elim (decode_pair a b) [ none ↦ c ∷ copied | some d ↦ d ∷ decoded ]
    else c ∷ copied

unfoldable pub starts_slash : Bytes → Bool
starts_slash [] = true
starts_slash (c ∷ s) = c =ℕ= b'/'

-- `fromPath` on `path.generic_string()`.
unfoldable pub from_generic : Bytes → Bytes
unfolding starts_slash percent_encode
from_generic generic =
    (if starts_slash generic then file_scheme else file_scheme ++ b'/' ∷ [])
    ++ percent_encode generic

-- `uri.substr(0, n) == prefix`, and the rest.
unfoldable pub strip : Bytes → Bytes → Option Bytes
strip [] s = some s
strip (p ∷ ps) [] = none
strip (p ∷ ps) (c ∷ s) = let rest = strip ps s in if c =ℕ= p then rest else none

-- The slash before a drive letter goes.
unfoldable pub strip_drive : Bytes → Bytes
unfolding is_alpha
strip_drive (a ∷ b ∷ c ∷ rest) =
    if a =ℕ= b'/' && (is_alpha b && c =ℕ= b':') then b ∷ c ∷ rest else a ∷ b ∷ c ∷ rest
strip_drive s = s

-- `std::filesystem::path`, which depends on the platform: `generic_string()` has slashes for the
-- preferred separators, which are backslashes on Windows alone.
pub record PathLib : Type 1 where
  pub FilePath : Type 0
  pub empty : FilePath
  pub of_string : Bytes → FilePath
  pub generic_string : FilePath → Bytes

module _ (F : PathLib) where
  open F use {empty, of_string, generic_string}

  unfoldable pub from_path : F.FilePath → Bytes
  unfolding from_generic
  from_path path = from_generic (generic_string path)

  unfoldable pub to_path : Bytes → F.FilePath
  unfolding strip strip_drive percent_decode
  to_path uri = elim (strip file_scheme uri) [
    | none ↦ empty
    | some rest ↦ of_string (percent_decode (strip_drive rest))
  ]
