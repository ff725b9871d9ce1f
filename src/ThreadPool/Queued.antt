-- ===== src/ThreadPool/Queued.antt =====
-- What a pool that is not shut down has queued: all that was submitted.
use clsp.Base.{
  ◌≡◌, refl, sym, ap, ◌∙◌, inl, inr, Bool, true, false, some, List, [], ◌∷◌, ◌++◌, append_assoc,
  append-nil, arith, Option-cases, All, string_eq,
}
use clsp.ThreadPool.{
  ThreadPool, Event, submits, stops, wakes, finishes, History, step, observe, run, submit,
}
use clsp.ThreadPool.Steps.{finish_cases}
use clsp.ThreadPool.Contents.{wake-stopping}

module _ {ℓ} {T : Type ℓ} where
  unfoldable pub submitted : List (Event T) → List T
  submitted [] = []
  submitted (submits t ∷ es) = t ∷ submitted es
  submitted (_ ∷ es) = submitted es

  abbrev is_stop : Event T → Bool
  is_stop stops = true
  is_stop _ = false

  abbrev pub GoesOn : Event T → Type 0
  GoesOn e = is_stop e ≡ false

  step-queued :
      (p q : ThreadPool T) (e : Event T) (h : History T)
      → step p e ≡ some q
      → GoesOn e
      → p.stopping ≡ false
      → (q.stopping ≡ false) × ((observe p e h).queued ≡ h.queued ++ submitted (e ∷ []))
  unfolding observe submitted step submit
  step-queued p q (submits t) h e g k = (ground arith, rw k refl)
  step-queued p q stops h e g k = absurd (cc)
  step-queued p q (wakes i) h e g k = (wake-stopping p q i e ∙ k, sym (append-nil h.queued))
  step-queued p q (finishes i) h e g k =
      let (t, at_i, after) = finish_cases p q i e in
      (ap (λ x. x.stopping) after ∙ k, sym (append-nil h.queued))

  submitted_cons :
      (e : Event T) (es : List (Event T)) → submitted (e ∷ es) ≡ submitted (e ∷ []) ++ submitted es
  unfolding submitted
  submitted_cons (submits t) es = refl
  submitted_cons stops es = refl
  submitted_cons (wakes i) es = refl
  submitted_cons (finishes i) es = refl

  pub run-queued :
      (es : List (Event T)) (p q : ThreadPool T) (h g : History T)
      → run p h es ≡ some (q, g)
      → All GoesOn es
      → p.stopping ≡ false
      → g.queued ≡ h.queued ++ submitted es
  unfolding run submitted
  run-queued [] p q h g r a k = let e : h ≡ g = ground arith in rw (e, append-nil) refl
  run-queued (e ∷ es) p q h g r (a, rest) k = elim (Option-cases (step p e)) [
    | inl n ↦ absurd (ground arith)
    | inr (p', n) ↦
        let (k', now) = step-queued p p' e h n a k in
        run-queued es p' q (observe p e h) g (ground arith) rest k'
        ∙ ap (λ x. x ++ submitted es) now
        ∙ append_assoc h.queued (submitted (e ∷ [])) (submitted es)
        ∙ ap (λ x. h.queued ++ x) (sym (submitted_cons e es))
  ]
