-- ===== src/Json/Tree/Chars.antt =====
-- Texts as numbers and back: each character by its code plus one, and 0 at the end.
use clsp.Base.{
  ℕ, zero, suc, String, ◌≡◌, refl, ap, Option, none, some, [], ◌∷◌, ◌++◌, Bytes, string_eq,
}
use Prim.Native.Char.{Char, char, code, IsLt, IsScalar}
use Prim.Native.Nat.{compare, Ordering}
use text.Mathlib.TextEquality.{Char-path}

-- With the clauses of the helpers behind `IsScalar`.
abbrev Both : Ordering → Ordering → Type 0
Both Ordering.lt o = IsLt o
Both Ordering.eq _ = ⊥
Both Ordering.gt _ = ⊥

abbrev Scalar : Ordering → Ordering → Ordering → Type 0
Scalar Ordering.lt _ _ = Unit
Scalar Ordering.eq o p = Both o p
Scalar Ordering.gt o p = Both o p

IsLt_dec : (o : Ordering) → Dec (IsLt o)
IsLt_dec Ordering.lt = yes tt
IsLt_dec Ordering.eq = no (λ h. h)
IsLt_dec Ordering.gt = no (λ h. h)

both_dec : (o p : Ordering) → Dec (Both o p)
unfolding IsLt_dec
both_dec Ordering.lt p = IsLt_dec p
both_dec Ordering.eq p = no (λ h. h)
both_dec Ordering.gt p = no (λ h. h)

scalar_dec : (o p q : Ordering) → Dec (Scalar o p q)
unfolding both_dec
scalar_dec Ordering.lt p q = yes tt
scalar_dec Ordering.eq p q = both_dec p q
scalar_dec Ordering.gt p q = both_dec p q

unfoldable pub IsScalar_dec : (n : ℕ) → Dec (IsScalar n)
unfolding scalar_dec
IsScalar_dec n = scalar_dec (compare n 55296) (compare 57343 n) (compare n 1114112)

char_of : (n : ℕ) → Dec (IsScalar n) → Option Char
char_of n (yes p) = some (char n p)
char_of n (no h) = none

char_of-code : (c : Char) (d : Dec (IsScalar (code c))) → char_of (code c) d ≡ some c
unfolding char_of
char_of-code (char m p) (yes q) = ap some (Char-path (char m q) (char m p) refl)
char_of-code (char m p) (no h) = absurd (h p)

unfoldable pub encode_string : String → Bytes
encode_string String.[] = 0 ∷ []
encode_string (String.◌∷◌ c s) = suc (code c) ∷ encode_string s

push : Option Char → Option (String × Bytes) → Option (String × Bytes)
push (some c) (some (s, rest)) = some (String.◌∷◌ c s, rest)
push none r = none
push (some c) none = none

unfoldable pub decode_string : Bytes → Option (String × Bytes)
unfolding IsScalar_dec char_of push
decode_string [] = none
decode_string (zero ∷ rest) = some (String.[], rest)
decode_string (suc n ∷ rest) = push (char_of n (IsScalar_dec n)) (decode_string rest)

pub decode_string-encode_string :
    (s : String) (rest : Bytes) → decode_string (encode_string s ++ rest) ≡ some (s, rest)
unfolding decode_string encode_string
decode_string-encode_string String.[] rest = refl
decode_string-encode_string (String.◌∷◌ c s) rest =
    rw (char_of-code c (IsScalar_dec (code c)), decode_string-encode_string s rest) refl

-- The same for any numbers.
unfoldable pub encode_bytes : Bytes → Bytes
encode_bytes [] = 0 ∷ []
encode_bytes (c ∷ s) = suc c ∷ encode_bytes s

keep : ℕ → Option (Bytes × Bytes) → Option (Bytes × Bytes)
keep c none = none
keep c (some (s, rest)) = some (c ∷ s, rest)

unfoldable pub decode_bytes : Bytes → Option (Bytes × Bytes)
unfolding keep
decode_bytes [] = none
decode_bytes (zero ∷ rest) = some ([], rest)
decode_bytes (suc n ∷ rest) = keep n (decode_bytes rest)

pub decode_bytes-encode_bytes :
    (s rest : Bytes) → decode_bytes (encode_bytes s ++ rest) ≡ some (s, rest)
unfolding decode_bytes encode_bytes
decode_bytes-encode_bytes [] rest = refl
decode_bytes-encode_bytes (c ∷ s) rest = rw (decode_bytes-encode_bytes s rest) refl
