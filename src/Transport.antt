-- ===== src/Transport.antt =====
-- src/StdioTransport.cpp. A stream of input is the bytes that are still to come, and whether
-- `eof()` or `fail()` holds; `out_` is the bytes written. The loop that reads headers runs on fuel:
-- `none` is a loop that has not ended.
pub mod Framing
pub mod Eof
use clsp.Base.{
  ℕ, zero, suc, ◌+◌, ◌-◌, ◌*◌, ◌/◌, ◌%◌, ◌^◌, ◌≤◌, ◌<◌, String, ◌<>◌, ◌≡◌, refl, sym, ap, ◌∙◌,
  subst, ◌≢◌, ◌↔◌, ◌⊎◌, inl, inr, Bool, true, false, not, ◌&&◌, ◌||◌, Option, none, some, List, [],
  ◌∷◌, ◌++◌, map, append_assoc, append-nil, arith, ltb, leb, ◌=ℕ=◌, if◌then◌else◌, ltb→lt, lt→ltb,
  Bool-cases, Option-cases, is_some, Bytes, codes, length, get_elem?, set, take, drop, replicate,
  length-append, take-append-drop, length-take, length-drop, take_all, drop_all, take-append,
  drop-append, All, All-append, Eq, ◌==◌, string_eq, ==_refl, ==_ne,
}
use clsp.Base.Int.{ℤ, pos, negsuc}
use clsp.Uri.{strip}

pub record InputStream : Type 0 where
  pub rest : Bytes
  pub failed : Bool

-- `read(&c, 1)` leaves `c` as it is where nothing is left.
unfoldable pub read_char : ℕ → InputStream → ℕ × InputStream
read_char c s = elim s.rest [
  | [] ↦ (c, record s { failed = true })
  | b ∷ rest ↦ if s.failed then (c, s) else (b, record s { rest = rest })
]

abbrev pub cr : ℕ
cr = 13

abbrev pub lf : ℕ
lf = 10

-- The test on the last four characters of `headers`, which come last first.
unfoldable pub ends_block : Bytes → Bool
ends_block (d ∷ c ∷ b ∷ a ∷ rest) = (a =ℕ= cr) && ((b =ℕ= lf) && ((c =ℕ= cr) && (d =ℕ= lf)))
ends_block _ = false

unfoldable pub reverse_onto : Bytes → Bytes → Bytes
reverse_onto [] ys = ys
reverse_onto (x ∷ xs) ys = reverse_onto xs (x ∷ ys)

-- The loop of `readHeaders`; `c` is the variable, whose first value nothing sets.
unfoldable pub read_block : ℕ → ℕ → Bytes → InputStream → Option (Bytes × InputStream)
unfolding read_char ends_block reverse_onto
read_block zero c headers s = none
read_block (suc fuel) c headers s =
    let (b, q) = read_char c s in
    let more = read_block fuel b (b ∷ headers) q in
    if ends_block (b ∷ headers) then some (reverse_onto (b ∷ headers) [], q) else more

-- What is behind the first `key` in `headers`.
unfoldable pub find_key : Bytes → Bytes → Option Bytes
unfolding strip
find_key key [] = none
find_key key (b ∷ s) = elim (strip key (b ∷ s)) [ some v ↦ some v | none ↦ find_key key s ]

unfoldable pub until_cr : Bytes → Bytes
until_cr [] = []
until_cr (b ∷ s) = let rest = until_cr s in if b =ℕ= cr then [] else b ∷ rest

-- `nullopt`, the overflow of an `int32_t` product, which is undefined, or a length.
pub data ContentLength : Type 0 where
  no_length overflow : ContentLength
  length_of : ℤ → ContentLength

-- The `int32_t` that has the low 32 bits of a `size_t`.
unfoldable pub to_int32 : ℕ → ℤ
to_int32 n =
    if ltb (n % 2 ^ 32) (2 ^ 31) then pos (n % 2 ^ 32) else negsuc (2 ^ 32 - 1 - n % 2 ^ 32)

-- The loop over `valueStr`. The product overflows for each negative length that it can have, since
-- those are at most `8 - 2 ^ 31`.
unfoldable pub read_digits : ℤ → Bytes → ContentLength
unfolding to_int32
read_digits n [] = length_of n
read_digits n (c ∷ s) = if ltb c b'0' || ltb b'9' c then no_length else elim n [
  | pos m ↦
      if ltb (2 ^ 31 - 1) (m * 10) then overflow else read_digits (to_int32 (m * 10 + (c - b'0'))) s
  | negsuc m ↦ overflow
]

unfoldable pub read_value : Bytes → ContentLength
unfolding read_digits
read_value [] = no_length
read_value (c ∷ s) = read_digits (pos 0) (c ∷ s)

abbrev pub key : Bytes
key = codes "Content-Length: "

unfoldable pub content_length : Bytes → ContentLength
unfolding find_key until_cr read_value
content_length headers = elim (find_key key headers) [
  | none ↦ no_length
  | some v ↦ read_value (until_cr v)
]

unfoldable pub read_headers : ℕ → ℕ → InputStream → Option (ContentLength × InputStream)
unfolding read_block content_length
read_headers fuel c s = if s.failed then some (no_length, s) else elim (read_block fuel c [] s) [
  | none ↦ none
  | some (headers, q) ↦ some (content_length headers, q)
]

-- What `readMessage` returns, or how else it ends: the `std::length_error` of a string of negative
-- length, or what is undefined.
pub data Received : Type 0 where
  end_of_input too_long undefined : Received
  message : Bytes → Received

-- `read(body.data(), n)`
unfoldable pub read_body : ℕ → InputStream → Received × InputStream
read_body n s =
    if s.failed
    then (end_of_input, s)
    else if ltb (length s.rest) n
    then (end_of_input, record { rest = []; failed = true })
    else (message (take n s.rest), record s { rest = drop n s.rest })

unfoldable pub receive_body : ContentLength × InputStream → Received × InputStream
unfolding read_body
receive_body (no_length, s) = (end_of_input, s)
receive_body (overflow, s) = (undefined, s)
receive_body (length_of (pos n), s) = read_body n s
receive_body (length_of (negsuc n), s) = (too_long, s)

unfoldable pub read_message : ℕ → ℕ → InputStream → Option (Received × InputStream)
unfolding read_headers receive_body
read_message fuel c s = elim (read_headers fuel c s) [
  | none ↦ none
  | some r ↦ some (receive_body r)
]

-- What `<<` writes for a `size_t`; there are fewer digits than the number has units.
unfoldable pub decimal : ℕ → ℕ → Bytes
decimal zero n = []
decimal (suc fuel) n =
    let front = decimal fuel (n / 10) in
    if ltb n 10 then (b'0' + n) ∷ [] else front ++ (b'0' + n % 10) ∷ []

abbrev pub blank_line : Bytes
blank_line = cr ∷ lf ∷ cr ∷ lf ∷ []

unfoldable pub send_message : Bytes → Bytes → Bytes
unfolding decimal
send_message body out =
    out ++ (key ++ (decimal (suc (length body)) (length body) ++ (blank_line ++ body)))
