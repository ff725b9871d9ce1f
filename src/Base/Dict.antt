-- ===== src/Base/Dict.antt =====
-- `std::unordered_map` and `std::map` as association lists: what `find`, `operator[]` with an
-- assignment, `emplace` and `erase` do. The laws are all that clients use.
use mathlib.Core.Path.{◌≡◌, refl}
use mathlib.Core.List.{List, [], ◌∷◌}
use mathlib.Core.Option.{Option, none, some}
use native.Mathlib.Omega.{arith}
use clsp.Base.Equality.{Eq, ◌==◌}
use clsp.Base.Tests.{if◌then◌else◌, is_some}

abbrev pub Dict {ℓ κ} : Type ℓ → Type κ → Type (ℓ ⊔ κ)
Dict K V = List (K × V)

module _ {ℓ κ} {K : Type ℓ} {V : Type κ} ⦃e : Eq K⦄ where
  unfoldable pub lookup : K → Dict K V → Option V
  lookup k [] = none
  lookup k ((j, v) ∷ d) = if j == k then some v else lookup k d

  -- `d[k] = v`, `insert_or_assign`
  unfoldable pub insert : K → V → Dict K V → Dict K V
  insert k v [] = (k, v) ∷ []
  insert k v ((j, w) ∷ d) = if j == k then (j, v) ∷ d else (j, w) ∷ insert k v d

  -- `d.emplace(k, v)` leaves an entry of that key as it is.
  unfoldable pub emplace : K → V → Dict K V → Dict K V
  unfolding lookup
  emplace k v d = if is_some (lookup k d) then d else (k, v) ∷ d

  unfoldable pub erase : K → Dict K V → Dict K V
  erase k [] = []
  erase k ((j, w) ∷ d) = let rest = erase k d in if j == k then rest else (j, w) ∷ rest

  pub lookup-insert :
      (k j : K) (v : V) (d : Dict K V)
      → lookup j (insert k v d) ≡ (if k == j then some v else lookup j d)
  unfolding lookup insert
  lookup-insert k j v [] = refl
  lookup-insert k j v ((i, w) ∷ d) =
      ground (arith, e.same_iff k j, e.same_iff i k, e.same_iff i j, lookup-insert k j v d)

  -- A second value under the same key takes the place of the first.
  pub insert-insert : (k : K) (v w : V) (d : Dict K V) → insert k w (insert k v d) ≡ insert k w d
  unfolding insert
  insert-insert k v w [] = ground (arith, e.same_iff k k)
  insert-insert k v w ((i, u) ∷ d) = ground (arith, e.same_iff i k, insert-insert k v w d)

  pub lookup-emplace :
      (k j : K) (v : V) (d : Dict K V)
      → lookup k d ≡ none
      → lookup j (emplace k v d) ≡ (if k == j then some v else lookup j d)
  unfolding emplace
  lookup-emplace k j v d h = ground arith

  pub lookup-erase :
      (k j : K) (d : Dict K V) → lookup j (erase k d) ≡ (if k == j then none else lookup j d)
  unfolding lookup erase
  lookup-erase k j [] = ground arith
  lookup-erase k j ((i, w) ∷ d) =
      ground (arith, e.same_iff k j, e.same_iff i k, e.same_iff i j, lookup-erase k j d)

  pub erase-none : (k : K) (d : Dict K V) → lookup k d ≡ none → erase k d ≡ d
  unfolding lookup erase
  erase-none k [] h = refl
  erase-none k ((i, w) ∷ d) h = ground (arith, e.same_iff i k, erase-none k d)

  pub erase-emplace :
      (k : K) (v : V) (d : Dict K V) → lookup k d ≡ none → erase k (emplace k v d) ≡ d
  unfolding emplace erase
  erase-emplace k v d h = ground (arith, e.same_iff k k, erase-none k d h)
