-- ===== src/Text/Bounds.antt =====
-- Offsets stay in the text, and the character loop ends.
use clsp.Base.{
  ℕ, zero, suc, ◌+◌, ◌≤◌, ◌<◌, ◌≡◌, refl, ◌≢◌, inl, inr, none, some, ◌%◌, ◌^◌, List, [], ◌∷◌, arith,
  ltb, ◌=ℕ=◌, if◌then◌else◌, Bool-cases, Option-cases, Bytes, length, get_elem?, string_eq,
}
use clsp.Text.{
  counted, continues, PositionEncoding, utf8, utf16, utf32, Position, newline, lead_length,
  clamp_length, decode_utf8, seek_line, seek_character, position_to_offset,
}

pub lead_length_bounds : (b0 : ℕ) → (1 ≤ lead_length b0) × (lead_length b0 ≤ 4)
unfolding lead_length
lead_length_bounds b0 = ground arith

-- The clamp keeps a character that starts in the text within the text, and never empty.
clamp_length_bounds :
    (size offset len : ℕ)
    → offset < size
    → 1 ≤ len
    → (1 ≤ clamp_length size offset len) × (offset + clamp_length size offset len ≤ size)
unfolding clamp_length
clamp_length_bounds size offset len h k = ground arith

pub decode_utf8_bounds :
    (text : Bytes) (offset b0 : ℕ)
    → offset < length text
    → (1 ≤ (decode_utf8 text offset b0).0) × (offset + (decode_utf8 text offset b0).0 ≤ length text)
unfolding decode_utf8
decode_utf8_bounds text offset b0 h =
    clamp_length_bounds (length text) offset (lead_length b0) h (lead_length_bounds b0).0

get_elem?-some_lt {ℓ} :
    {A : Type ℓ} (xs : List A) (i : ℕ) (a : A) → get_elem? xs i ≡ some a → i < length xs
get_elem?-some_lt [] i a h = absurd (ground arith)
get_elem?-some_lt (x ∷ xs) zero a h = omega arith
get_elem?-some_lt (x ∷ xs) (suc i) a h = omega (arith, get_elem?-some_lt xs i a h)

pub continues-some :
    (text : Bytes) (character consumed offset b0 : ℕ)
    → continues text character consumed offset ≡ some b0
    → (consumed < character) × (offset < length text)
unfolding continues
continues-some text character consumed offset b0 h = elim (Option-cases (get_elem? text offset)) [
  | inl n ↦ absurd (ground arith)
  | inr (b, n) ↦ (ground arith, get_elem?-some_lt text offset b n)
]

pub seek_line-le :
    (rest : Bytes) (offset line target : ℕ)
    → seek_line rest offset line target ≤ offset + length rest
unfolding seek_line
seek_line-le [] offset line target = omega arith
seek_line-le (c ∷ rest) offset line target = elim (Bool-cases (ltb line target)) [
  | inl t ↦
      rw (t, seek_line)
        (omega
          (arith, seek_line-le rest (offset + 1) (if c =ℕ= newline then line + 1 else line) target))
  | inr t ↦ rw (t, seek_line) (omega arith)
]

pub seek_character-le :
    (fuel : ℕ) (text : Bytes) (e : PositionEncoding) (character consumed offset : ℕ)
    → offset ≤ length text
    → seek_character fuel text e character consumed offset ≤ length text
unfolding seek_character
seek_character-le zero text e character consumed offset h = h
seek_character-le (suc fuel) text e character consumed offset h =
    elim (Option-cases (continues text character consumed offset)) [
      | inl n ↦ rw (n, seek_character) h
      | inr (b0, n) ↦
          rw (n, seek_character)
            (seek_character-le fuel text e character _ _
              (decode_utf8_bounds text offset b0
                (continues-some text character consumed offset b0 n).1).1)
    ]

-- In UTF-16 and UTF-32 no position, however far out, leads past the end of the text.
pub position_to_offset-le :
    (e : PositionEncoding) (text : Bytes) (pos : Position)
    → e ≢ utf8
    → position_to_offset e text pos ≤ length text
unfolding position_to_offset
position_to_offset-le utf8 text pos h = absurd (h refl)
position_to_offset-le utf16 text pos h =
    seek_character-le (length text) text utf16 pos.character 0 _
      (omega (arith, seek_line-le text 0 0 pos.line))
position_to_offset-le utf32 text pos h =
    seek_character-le (length text) text utf32 pos.character 0 _
      (omega (arith, seek_line-le text 0 0 pos.line))

-- The rounds of the character loop, from `consumed` and `offset` to the end of the loop with the
-- offset `result`: the condition of the loop fails, or it holds and a round is made.
module _ (text : Bytes) (e : PositionEncoding) (character : ℕ) where
  pub data Seeks : ℕ → ℕ → ℕ → Type 0 where
    ended :
        {consumed offset : ℕ}
        → continues text character consumed offset ≡ none
        → Seeks consumed offset offset
    round :
        {consumed offset result : ℕ} (b0 : ℕ)
        → continues text character consumed offset ≡ some b0
        → Seeks
            ((consumed + counted e (decode_utf8 text offset b0).1) % 2 ^ 32)
            (offset + (decode_utf8 text offset b0).0)
            result
        → Seeks consumed offset result

-- The character loop ends, by its own condition and with the offset that the model returns, when
-- the fuel is at least the bytes that are left.
pub seek_character-Seeks :
    (fuel : ℕ) (text : Bytes) (e : PositionEncoding) (character consumed offset : ℕ)
    → length text ≤ offset + fuel
    → Seeks text e character consumed offset (seek_character fuel text e character consumed offset)
unfolding seek_character
seek_character-Seeks zero text e character consumed offset h =
    elim (Option-cases (continues text character consumed offset)) [
      | inl n ↦ ended n
      | inr (b0, n) ↦
          let lt = (continues-some text character consumed offset b0 n).1 in absurd (omega arith)
    ]
seek_character-Seeks (suc fuel) text e character consumed offset h =
    elim (Option-cases (continues text character consumed offset)) [
      | inl n ↦ rw (n, seek_character) (ended n)
      | inr (b0, n) ↦
          let lt = (continues-some text character consumed offset b0 n).1 in
          let one = (decode_utf8_bounds text offset b0 lt).0 in
          rw (n, seek_character)
            (round b0 n (seek_character-Seeks fuel text e character _ _ (omega arith)))
    ]
