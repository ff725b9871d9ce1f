-- ===== src/ThreadPool/Fifo.antt =====
-- The order in which the pool takes its tasks, and that none is lost.
use mathlib.Core.List.{Perm, perm_middle}
use mathlib.Core.List.Perm
use clsp.Base.{
  ℕ, zero, suc, ◌≡◌, refl, ap, some, List, [], ◌∷◌, ◌++◌, get_elem?, set, replicate, arith,
  append_assoc, append-nil, Option-cases, inl, inr,
}
use clsp.ThreadPool.Steps.{wake_cases, finish_cases, submit_cases, stop_cases}
use clsp.ThreadPool.{
  Worker, waiting, running, exited, ThreadPool, Event, submits, stops, wakes, finishes, History,
  make, step, observe, run, no_history,
}

module _ {ℓ} {T : Type ℓ} where
  -- The tasks that workers are running.
  unfoldable pub active : List (Worker T) → List T
  active [] = []
  active (running t ∷ ws) = t ∷ active ws
  active (waiting ∷ ws) = active ws
  active (exited ∷ ws) = active ws

  active-set_running :
      (ws : List (Worker T)) (i : ℕ) (t : T)
      → get_elem? ws i ≡ some waiting
      → Perm (active ws ++ t ∷ []) (active (set ws i (running t)))
  unfolding active
  active-set_running [] i t h = absurd (ground arith)
  active-set_running (waiting ∷ ws) zero t h =
      rw (append-nil (active ws)) at (perm_middle {a = t} (active ws) [])
  active-set_running (running s ∷ ws) zero t h = absurd (ground arith)
  active-set_running (exited ∷ ws) zero t h = absurd (ground arith)
  active-set_running (waiting ∷ ws) (suc i) t h = active-set_running ws i t h
  active-set_running (running s ∷ ws) (suc i) t h = Perm.cons s (active-set_running ws i t h)
  active-set_running (exited ∷ ws) (suc i) t h = active-set_running ws i t h

  active-set_waiting :
      (ws : List (Worker T)) (i : ℕ) (t : T)
      → get_elem? ws i ≡ some (running t)
      → Perm (active ws) (t ∷ active (set ws i waiting))
  unfolding active
  active-set_waiting [] i t h = absurd (ground arith)
  active-set_waiting (waiting ∷ ws) zero t h = absurd (ground arith)
  active-set_waiting (running s ∷ ws) zero t h = let e : s ≡ t = ground arith in rw e (Perm.refl _)
  active-set_waiting (exited ∷ ws) zero t h = absurd (ground arith)
  active-set_waiting (waiting ∷ ws) (suc i) t h = active-set_waiting ws i t h
  active-set_waiting (running s ∷ ws) (suc i) t h =
      Perm.trans (Perm.cons s (active-set_waiting ws i t h)) (Perm.swap t s _)
  active-set_waiting (exited ∷ ws) (suc i) t h = active-set_waiting ws i t h

  active-set_exited :
      (ws : List (Worker T)) (i : ℕ)
      → get_elem? ws i ≡ some waiting
      → active (set ws i exited) ≡ active ws
  unfolding active
  active-set_exited [] i h = refl
  active-set_exited (waiting ∷ ws) zero h = refl
  active-set_exited (running s ∷ ws) zero h = absurd (ground arith)
  active-set_exited (exited ∷ ws) zero h = refl
  active-set_exited (waiting ∷ ws) (suc i) h = active-set_exited ws i h
  active-set_exited (running s ∷ ws) (suc i) h = ap (◌∷◌ s) (active-set_exited ws i h)
  active-set_exited (exited ∷ ws) (suc i) h = active-set_exited ws i h

  -- Every queued task has been taken or waits in the queue, in order; every task taken has returned
  -- or is being run.
  pub record Accounts (p : ThreadPool T) (h : History T) : Type ℓ where
    pub order : h.queued ≡ h.started ++ p.tasks
    pub places : Perm h.started (h.finished ++ active p.workers)

  wake-Accounts :
      (p q : ThreadPool T) (i : ℕ) (h : History T)
      → step p (wakes i) ≡ some q
      → Accounts p h
      → Accounts q (observe p (wakes i) h)
  unfolding observe
  wake-Accounts p q i h e a = elim (wake_cases p q i e).1 [
    | inl (t, rest, k) ↦ rw k.after (
        rw k.front (record {
          order = ground (arith, append_assoc h.started (t ∷ []) rest);
          places = Perm.trans (Perm.append_right (t ∷ []) a.places) (
              rw append_assoc (
                Perm.append_left h.finished
                  (active-set_running p.workers i t (wake_cases p q i e).0)));
        }))
    | inr k ↦ rw k.after (
        rw k.empty (record {
          order = ground (arith, append-nil h.started);
          places = rw (append-nil, active-set_exited p.workers i (wake_cases p q i e).0) a.places;
        }))
  ]

  finish-Accounts :
      (p q : ThreadPool T) (i : ℕ) (h : History T)
      → step p (finishes i) ≡ some q
      → Accounts p h
      → Accounts q (observe p (finishes i) h)
  unfolding observe
  finish-Accounts p q i h e a =
      let (t, at_i, after) = finish_cases p q i e in
      rw after (
        rw at_i (record {
          order = a.order;
          places = rw append_assoc (
              Perm.trans a.places
                (Perm.append_left h.finished (active-set_waiting p.workers i t at_i)));
        }))

  submit-Accounts :
      (p q : ThreadPool T) (t : T) (h : History T)
      → step p (submits t) ≡ some q
      → Accounts p h
      → Accounts q (observe p (submits t) h)
  unfolding observe
  submit-Accounts p q t h e a = elim (submit_cases p q t e) [
    | inl (s, after) ↦ rw after (simp s a)
    | inr (s, after) ↦ rw after (
        rw s (record {
          order = ground (arith, append_assoc h.started p.tasks (t ∷ []));
          places = a.places;
        }))
  ]

  step-Accounts :
      (p q : ThreadPool T) (e : Event T) (h : History T)
      → step p e ≡ some q
      → Accounts p h
      → Accounts q (observe p e h)
  unfolding observe
  step-Accounts p q (submits t) h e a = submit-Accounts p q t h e a
  step-Accounts p q stops h e a =
      rw (stop_cases p q e) (record { order = a.order; places = a.places })
  step-Accounts p q (wakes i) h e a = wake-Accounts p q i h e a
  step-Accounts p q (finishes i) h e a = finish-Accounts p q i h e a

  pub run-Accounts :
      (p : ThreadPool T) (h : History T) (es : List (Event T)) (q : ThreadPool T) (g : History T)
      → run p h es ≡ some (q, g)
      → Accounts p h
      → Accounts q g
  unfolding run
  run-Accounts p h [] q g r a =
      let e : p ≡ q = ground arith in let f : h ≡ g = ground arith in rw (← e, ← f) a
  run-Accounts p h (e ∷ es) q g r a = elim (Option-cases (step p e)) [
    | inl n ↦ absurd (ground arith)
    | inr (p', n) ↦
        run-Accounts p' (observe p e h) es q g (ground arith) (step-Accounts p p' e h n a)
  ]

  active-replicate_waiting : (n : ℕ) → active (replicate {A = Worker T} n waiting) ≡ []
  unfolding active
  active-replicate_waiting zero = refl
  active-replicate_waiting (suc n) = active-replicate_waiting n

  pub make-Accounts : (n : ℕ) → Accounts (make n) no_history
  unfolding make
  make-Accounts n = record { order = refl; places = rw (active-replicate_waiting _) (Perm.refl []) }

  -- In every run of a new pool of any size, the tasks that were queued are those that workers took,
  -- in that order, followed by the queue; and each task taken has returned or is being run, once.
  pub run-make :
      (n : ℕ) (es : List (Event T)) (q : ThreadPool T) (g : History T)
      → run (make n) no_history es ≡ some (q, g)
      → (g.queued ≡ g.started ++ q.tasks) × Perm g.started (g.finished ++ active q.workers)
  run-make n es q g r =
      let a = run-Accounts (make n) no_history es q g r (make-Accounts n) in (a.order, a.places)
