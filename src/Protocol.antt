-- ===== src/Protocol.antt =====
-- include/clsp/protocol: the protocol types and their `from_json` and `to_json`. A `from_json` is a
-- function into `Result`; a `to_json` is a function into `Json`.
pub mod Documents
pub mod Capabilities
pub mod Lifecycle
pub mod Diagnostics
pub mod Hover
pub mod Completion
pub mod SemanticTokens
pub mod Reading
pub mod Places
pub mod Roundtrip
pub mod Written
use clsp.Base.{
  ℕ, zero, suc, ◌+◌, ◌-◌, ◌*◌, ◌/◌, ◌%◌, ◌^◌, ◌≤◌, ◌<◌, String, ◌<>◌, ◌≡◌, refl, sym, ap, ◌∙◌,
  subst, ◌≢◌, ◌↔◌, ◌⊎◌, inl, inr, Bool, true, false, not, ◌&&◌, ◌||◌, Option, none, some, List, [],
  ◌∷◌, ◌++◌, map, append_assoc, append-nil, arith, ltb, leb, ◌=ℕ=◌, if◌then◌else◌, ltb→lt, lt→ltb,
  Bool-cases, Option-cases, is_some, Bytes, codes, length, get_elem?, set, take, drop, replicate,
  length-append, take-append-drop, length-take, length-drop, take_all, drop_all, take-append,
  drop-append, All, All-append, Eq, ◌==◌, string_eq, ==_refl, ==_ne,
}
use clsp.Base.Int.{ℤ, pos}
use clsp.Errors.{Result, ok, err, ◌>>=◌}
use clsp.Json.{JsonLib, at}
use clsp.Text.{Position, Range}

module _ (J : JsonLib) where
  open J use {Json, find, is_null, is_array, items, array_error, get_uint, assign}

  unfoldable pub traverse {ℓ} : {A : Type ℓ} → (Json → Result A) → List Json → Result (List A)
  traverse f [] = ok []
  traverse f (j ∷ js) = do a ← f j; as' ← traverse f js; ok (a ∷ as')

  -- `j.get<std::vector<T>>()`
  unfoldable pub get_list {ℓ} : {A : Type ℓ} → (Json → Result A) → Json → Result (List A)
  unfolding traverse
  get_list f j = if is_array j then traverse f (items j) else err (array_error j)

  -- `if (j.contains(k) && !j[k].is_null()) x = j[k].get<T>();`
  unfoldable pub read_optional {ℓ} :
      {A : Type ℓ} → (Json → Result A) → String → Json → Result (Option A)
  read_optional f k j = elim (find k j) [
    | none ↦ ok none
    | some v ↦ if is_null v then ok none else (do a ← f v; ok (some a))
  ]

  -- `if (j.contains(k)) x = j[k].get<T>();`
  unfoldable pub read_present {ℓ} :
      {A : Type ℓ} → (Json → Result A) → String → Json → Result (Option A)
  read_present f k j = elim (find k j) [ none ↦ ok none | some v ↦ (do a ← f v; ok (some a)) ]

  -- `if (x) j[k] = *x;`
  unfoldable pub put_optional {ℓ} : {A : Type ℓ} → (A → Json) → String → Option A → Json → Json
  put_optional f k none j = j
  put_optional f k (some a) j = assign j k (f a)

  -- NLOHMANN_DEFINE_TYPE_NON_INTRUSIVE(Position, line, character)
  unfoldable pub position_from_json : Json → Result Position
  position_from_json j = do
    l ← at J j "line"
    line ← get_uint l
    c ← at J j "character"
    character ← get_uint c
    ok (record { line = line; character = character })

  -- NLOHMANN_DEFINE_TYPE_NON_INTRUSIVE(Range, start, end)
  unfoldable pub range_from_json : Json → Result Range
  unfolding position_from_json
  range_from_json j = do
    s ← at J j "start"
    start ← position_from_json s
    e ← at J j "end"
    end ← position_from_json e
    ok (record { start = start; end = end })
