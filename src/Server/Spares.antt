-- ===== src/Server/Spares.antt =====
-- Actions that leave a view of the state as it is, whether they return or throw, and what actions
-- return.
use clsp.Base.{◌≡◌, refl, ◌∙◌, inl, inr, string_eq, subst}
use clsp.Errors.{Result-cases, Exception, Result, ok, err}
use clsp.Server.Exec.{Exec, lift, ◌>>=◌, catch, pure}

abbrev pub Spares {ℓ} : {S A : Type 0} {V : Type ℓ} → (S → V) → Exec S A → Type ℓ
Spares {S} view m = (s : S) → view (m s).1 ≡ view s

module _ {ℓ} {S A B : Type 0} {V : Type ℓ} (view : S → V) where
  pub Spares-lift :
      (r : Result A) (f : A → Exec S B) → ((a : A) → Spares view (f a)) → Spares view (lift r >>= f)
  Spares-lift (ok a) f h s = h a s
  Spares-lift (err e) f h s = refl

  pub Spares-bind :
      (m : Exec S A) (f : A → Exec S B)
      → Spares view m
      → ((a : A) → Spares view (f a))
      → Spares view (m >>= f)
  Spares-bind m f h k s = Spares-lift (m s).0 f k (m s).1 ∙ h s

module _ {ℓ} {S A : Type 0} {V : Type ℓ} (view : S → V) where
  pub Spares-catch :
      (m : Exec S A) (f : Exception → Exec S A)
      → Spares view m
      → ((e : Exception) → Spares view (f e))
      → Spares view (catch m f)
  Spares-catch m f h k s = elim (Result-cases (m s).0) [
    | inl (a, e) ↦ rw e (h s)
    | inr (x, e) ↦ rw e (k x (m s).1 ∙ h s)
  ]

-- What the action returns has the property.
abbrev pub Yields {ℓ} : {S A : Type 0} → (A → Type ℓ) → Exec S A → Type ℓ
Yields {S} {A} P m = (s : S) (a : A) → (m s).0 ≡ ok a → P a

module _ {ℓ} {S A B : Type 0} (P : B → Type ℓ) where
  pub Yields-lift :
      (r : Result A) (f : A → Exec S B) → ((a : A) → Yields P (f a)) → Yields P (lift r >>= f)
  Yields-lift (ok a) f h s b e = h a s b e
  Yields-lift (err x) f h s b e = absurd (cc)

module _ {ℓ} {S A : Type 0} (P : A → Type ℓ) where
  pub Yields-pure : (a : A) → P a → Yields P (pure {S = S} a)
  Yields-pure a p s b e = let q : a ≡ b = cc in subst P q p
