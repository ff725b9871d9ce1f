-- ===== src/Tokens.antt =====
-- `SemanticTokensBuilder` of include/clsp/protocol/SemanticTokens.hpp. `std::sort` may leave tokens
-- at one position in any order: `sort` is one such sort, and `Tokens.Relative` speaks of every one.
pub mod Relative
pub mod Sorted
use clsp.Base.{
  length, ℕ, zero, suc, ◌+◌, ◌-◌, ◌*◌, ◌/◌, ◌%◌, ◌^◌, ◌≤◌, ◌<◌, String, ◌<>◌, ◌≡◌, refl, sym, ap,
  ◌∙◌, subst, ◌≢◌, ◌↔◌, ◌⊎◌, inl, inr, Bool, true, false, not, ◌&&◌, ◌||◌, Option, none, some, List,
  [], ◌∷◌, ◌++◌, map, append_assoc, append-nil, arith, ltb, leb, ◌=ℕ=◌, if◌then◌else◌, ltb→lt,
  lt→ltb, Bool-cases, Option-cases, is_some, Bytes, codes, length, get_elem?, set, take, drop,
  replicate, length-append, take-append-drop, length-take, length-drop, take_all, drop_all,
  take-append, drop-append, All, All-append, Eq, ◌==◌, string_eq, ==_refl, ==_ne,
}

-- `uint32_t` fields.
pub record Token : Type 0 where
  pub line : ℕ
  pub start_char : ℕ
  pub length : ℕ
  pub token_type : ℕ
  pub token_modifiers : ℕ

-- `tokens_`
abbrev pub SemanticTokensBuilder : Type 0
SemanticTokensBuilder = List Token

unfoldable pub push : Token → SemanticTokensBuilder → SemanticTokensBuilder
push t tokens = if t.length =ℕ= 0 then tokens else tokens ++ t ∷ []

unfoldable pub clear : SemanticTokensBuilder → SemanticTokensBuilder
clear tokens = []

-- The comparison that `build` sorts by.
unfoldable pub less : Token → Token → Bool
less a b = if not (a.line =ℕ= b.line) then ltb a.line b.line else ltb a.start_char b.start_char

unfoldable pub insert : Token → List Token → List Token
unfolding less
insert t [] = t ∷ []
insert t (u ∷ us) = let rest = insert t us in if less t u then t ∷ u ∷ us else u ∷ rest

unfoldable pub sort : List Token → List Token
unfolding insert
sort [] = []
sort (t ∷ ts) = insert t (sort ts)

-- `a - b` on `uint32_t`
unfoldable pub sub32 : ℕ → ℕ → ℕ
sub32 a b = (a + 2 ^ 32 - b) % 2 ^ 32

-- The loop of `build`; the arguments are `first`, `prevLine` and `prevChar`.
unfoldable pub relative : Bool → ℕ → ℕ → List Token → List ℕ
unfolding sub32
relative first prev_line prev_char [] = []
relative first prev_line prev_char (t ∷ ts) =
    let delta_line = if first then t.line else sub32 t.line prev_line in
    let delta_char =
      if first || not (delta_line =ℕ= 0) then t.start_char else sub32 t.start_char prev_char in
    delta_line
    ∷ delta_char
    ∷ t.length
    ∷ t.token_type
    ∷ t.token_modifiers
    ∷ relative false t.line t.start_char ts

-- The `data` of what `build` returns.
unfoldable pub build : SemanticTokensBuilder → List ℕ
unfolding sort relative
build tokens = relative true 0 0 (sort tokens)

unfoldable pub token_count : SemanticTokensBuilder → ℕ
token_count tokens = length tokens

unfoldable pub is_empty : SemanticTokensBuilder → Bool
is_empty [] = true
is_empty (t ∷ ts) = false
