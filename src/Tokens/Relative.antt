-- ===== src/Tokens/Relative.antt =====
-- The relative encoding, and how a client reads it.
use clsp.Base.{
  ℕ, ◌+◌, ◌-◌, ◌^◌, ◌≤◌, ◌<◌, ◌≡◌, refl, ◌⊎◌, inl, inr, true, false, not, ◌||◌, List, [], ◌∷◌,
  arith, ◌=ℕ=◌, if◌then◌else◌, All, string_eq,
}
use mathlib.Core.Path.{ap₂}
use clsp.Tokens.{Token, sub32, relative}

-- As the protocol has it: lines relative to the token before, characters too on one line.
unfoldable pub absolute : ℕ → ℕ → List ℕ → List Token
absolute line char (dl ∷ dc ∷ len ∷ ty ∷ ms ∷ rest) =
    let c = if dl =ℕ= 0 then char + dc else dc in
    record { line = line + dl; start_char = c; length = len; token_type = ty; token_modifiers = ms }
    ∷ absolute (line + dl) c rest
absolute line char _ = []

-- The position of the token is not before the one given.
abbrev pub IsAfter : ℕ → ℕ → Token → Type 0
IsAfter line char t = (line < t.line) ⊎ ((line ≡ t.line) × (char ≤ t.start_char))

-- The tokens are in the order of their positions, from the one given.
abbrev pub Ordered : ℕ → ℕ → List Token → Type 0
Ordered line char [] = Unit
Ordered line char (t ∷ ts) = IsAfter line char t × Ordered t.line t.start_char ts

abbrev pub Fits : Token → Type 0
Fits t = (t.line < 2 ^ 32) × (t.start_char < 2 ^ 32)

sub32_lem : (a b : ℕ) → b ≤ a → a < 2 ^ 32 → sub32 a b ≡ a - b
unfolding sub32
sub32_lem a b le lt = ground arith

sub32-add : (a b : ℕ) → b ≤ a → a < 2 ^ 32 → b + sub32 a b ≡ a
sub32-add a b le lt = rw (sub32_lem a b le lt) (omega arith)

-- The character that the client computes from the two numbers.
char_of :
    (line char : ℕ) (t : Token)
    → Fits t
    → IsAfter line char t
    → (if sub32 t.line line =ℕ= 0
        then char
          + (if false || not (sub32 t.line line =ℕ= 0)
              then t.start_char
              else sub32 t.start_char char)
        else (if false || not (sub32 t.line line =ℕ= 0)
            then t.start_char
            else sub32 t.start_char char))
      ≡ t.start_char
char_of line char t (fl, fc) (inl lt) =
    let e = sub32_lem t.line line (omega arith) fl in ground arith
char_of line char t (fl, fc) (inr (e, le)) =
    let d = sub32_lem t.line line (omega arith) fl in
    let a = sub32-add t.start_char char le fc in ground arith

line_of :
    (line char : ℕ) (t : Token) → Fits t → IsAfter line char t → line + sub32 t.line line ≡ t.line
line_of line char t (fl, fc) (inl lt) = sub32-add t.line line (omega arith) fl
line_of line char t (fl, fc) (inr (e, le)) = sub32-add t.line line (omega arith) fl

absolute-relative_later :
    (line char : ℕ) (ts : List Token)
    → All Fits ts
    → Ordered line char ts
    → absolute line char (relative false line char ts) ≡ ts
unfolding absolute relative
absolute-relative_later line char [] f o = refl
absolute-relative_later line char (t ∷ ts) (f, fs) (a, o) =
    let ih = absolute-relative_later t.line t.start_char ts fs o in
    rw (line_of line char t f a, char_of line char t f a, ih) refl

-- Beside the first token nothing differs.
relative_first : (ts : List Token) → All Fits ts → relative true 0 0 ts ≡ relative false 0 0 ts
unfolding relative
relative_first [] f = refl
relative_first (t ∷ ts) ((fl, fc), fs) =
    let e = sub32-add t.line 0 (omega arith) fl in
    let c = sub32-add t.start_char 0 (omega arith) fc in
    ap₂
      (λ (l c : ℕ).
        l ∷ c ∷ t.length ∷ t.token_type ∷ t.token_modifiers ∷ relative false t.line t.start_char ts)
      (ground arith) (ground arith)

-- A client that reads the numbers computed from a list of tokens in the order of their positions
-- finds those tokens, with their positions, lengths, types and modifiers.
pub absolute-relative :
    (ts : List Token) → All Fits ts → Ordered 0 0 ts → absolute 0 0 (relative true 0 0 ts) ≡ ts
absolute-relative ts f o = rw (relative_first ts f) (absolute-relative_later 0 0 ts f o)
