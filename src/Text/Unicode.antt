-- ===== src/Text/Unicode.antt =====
-- UTF-8 and UTF-16 as their standards define them, and `decodeUtf8` on well-formed text.
use clsp.Base.{
  ℕ, ◌+◌, ◌/◌, ◌%◌, ◌≤◌, ◌<◌, ◌≡◌, refl, ◌≢◌, Bool, true, ◌&&◌, List, [], ◌∷◌, ◌++◌, arith, ltb,
  ◌=ℕ=◌, if◌then◌else◌, Bytes, length, string_eq, holds_below, holds_below_lem,
}
use native.Mathlib.Decide.{dec_lt}
use clsp.Text.{PositionEncoding, utf8, utf16, utf32, newline, lead_length, lead_units}

-- The UTF-8 form of a code point.
unfoldable pub encode : ℕ → Bytes
encode c =
    if ltb c 0x80
    then c ∷ []
    else if ltb c 0x800
    then (0xC0 + c / 64) ∷ (0x80 + c % 64) ∷ []
    else if ltb c 0x10000
    then (0xE0 + c / 4096) ∷ (0x80 + c / 64 % 64) ∷ (0x80 + c % 64) ∷ []
    else (0xF0 + c / 262144) ∷ (0x80 + c / 4096 % 64) ∷ (0x80 + c / 64 % 64) ∷ (0x80 + c % 64) ∷ []

unfoldable pub encode_all : List ℕ → Bytes
unfolding encode
encode_all [] = []
encode_all (c ∷ cs) = encode c ++ encode_all cs

-- How far a character counts in a position.
unfoldable pub width : PositionEncoding → ℕ → ℕ
width utf8 c = length (encode c)
width utf16 c = if ltb c 0x10000 then 1 else 2
width utf32 c = 1

unfoldable pub width_all : PositionEncoding → List ℕ → ℕ
unfolding width
width_all e [] = 0
width_all e (c ∷ cs) = width e c + width_all e cs

-- A code point that may stand within a line.
abbrev pub IsChar : ℕ → Type 0
IsChar c = (c < 0x110000) × (c ≢ newline)

-- What the lead byte of a form of `len` bytes announces.
abbrev announces : ℕ → ℕ → ℕ → Bool
announces b0 len units = (lead_length b0 =ℕ= len) && (lead_units b0 =ℕ= units)

two_table : holds_below 32 (λ i. announces (0xC0 + i) 2 1) ≡ true
unfolding holds_below lead_length lead_units
two_table = refl

three_table : holds_below 16 (λ i. announces (0xE0 + i) 3 1) ≡ true
unfolding holds_below lead_length lead_units
three_table = refl

four_table : holds_below 8 (λ i. announces (0xF0 + i) 4 2) ≡ true
unfolding holds_below lead_length lead_units
four_table = refl

announces_eq :
    (b0 len units : ℕ)
    → announces b0 len units ≡ true
    → (lead_length b0 ≡ len) × (lead_units b0 ≡ units)
announces_eq b0 len units h = ground arith

-- The form of a code point begins with a byte that announces its length and its UTF-16 units, and
-- that is no newline unless the code point is.
pub record Encoded (c : ℕ) : Type 0 where
  pub lead : ℕ
  pub tail : Bytes
  pub form : encode c ≡ lead ∷ tail
  pub len : lead_length lead ≡ length (encode c)
  pub units : lead_units lead ≡ width utf16 c
  pub not_newline : c ≢ newline → lead ≢ newline

one_byte : (c : ℕ) → c < 0x80 → Encoded c
unfolding encode width lead_length lead_units
one_byte c h = record {
  lead = c;
  tail = [];
  form = ground arith;
  len = ground arith;
  units = ground arith;
  not_newline = λ n. n;
}

two_bytes : (c : ℕ) → 0x80 ≤ c → c < 0x800 → Encoded c
unfolding encode width
two_bytes c a b =
    let (l, u) =
      announces_eq (0xC0 + c / 64) 2 1 (holds_below_lem _ 32 two_table (c / 64) (omega arith)) in
    record {
      lead = 0xC0 + c / 64;
      tail = (0x80 + c % 64) ∷ [];
      form = ground arith;
      len = ground arith;
      units = ground arith;
      not_newline = λ n. omega arith;
    }

three_bytes : (c : ℕ) → 0x800 ≤ c → c < 0x10000 → Encoded c
unfolding encode width
three_bytes c a b =
    let (l, u) =
      announces_eq (0xE0 + c / 4096) 3 1
        (holds_below_lem _ 16 three_table (c / 4096) (omega arith)) in
    record {
      lead = 0xE0 + c / 4096;
      tail = (0x80 + c / 64 % 64) ∷ (0x80 + c % 64) ∷ [];
      form = ground arith;
      len = ground arith;
      units = ground arith;
      not_newline = λ n. omega arith;
    }

four_bytes : (c : ℕ) → 0x10000 ≤ c → c < 0x110000 → Encoded c
unfolding encode width
four_bytes c a b =
    let (l, u) =
      announces_eq (0xF0 + c / 262144) 4 2
        (holds_below_lem _ 8 four_table (c / 262144) (omega arith)) in
    record {
      lead = 0xF0 + c / 262144;
      tail = (0x80 + c / 4096 % 64) ∷ (0x80 + c / 64 % 64) ∷ (0x80 + c % 64) ∷ [];
      form = ground arith;
      len = ground arith;
      units = ground arith;
      not_newline = λ n. omega arith;
    }

pub encode-Encoded : (c : ℕ) → c < 0x110000 → Encoded c
encode-Encoded c h = elim (dec_lt c 0x80) [
  | yes a ↦ one_byte c a
  | no a ↦ elim (dec_lt c 0x800) [
    | yes b ↦ two_bytes c (omega arith) b
    | no b ↦ elim (dec_lt c 0x10000) [
      | yes d ↦ three_bytes c (omega arith) d
      | no d ↦ four_bytes c (omega arith) h
    ]
  ]
]
