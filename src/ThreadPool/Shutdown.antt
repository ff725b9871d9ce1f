-- ===== src/ThreadPool/Shutdown.antt =====
-- `shutdown` returns, if every task does: the workers of a stopping pool can always go on until
-- they have left, and they have only so many steps.
use clsp.Base.{
  ℕ, zero, suc, ◌+◌, ◌*◌, ◌≤◌, ◌≡◌, refl, ap, ◌⊎◌, inl, inr, Bool, true, false, some, List, [], ◌∷◌,
  arith, if◌then◌else◌, Option-cases, length, get_elem?, set, string_eq,
}
use clsp.ThreadPool.Steps.{wake_cases, finish_cases, submit_cases, stop_cases}
use clsp.ThreadPool.{
  Worker, waiting, running, exited, ThreadPool, Event, submits, stops, wakes, finishes, History,
  step, observe, run, is_joined, wake, end_task, next_task, finish,
}

module _ {ℓ} {T : Type ℓ} where
  -- The steps that a worker of a stopping pool still owes by itself.
  owed : List (Worker T) → ℕ
  owed [] = 0
  owed (waiting ∷ ws) = owed ws + 1
  owed (running t ∷ ws) = owed ws + 2
  owed (exited ∷ ws) = owed ws

  unfoldable pub measure : ThreadPool T → ℕ
  unfolding owed
  measure p = 3 * length p.tasks + owed p.workers

  -- The events of workers.
  abbrev pub is_work : Event T → Bool
  is_work (wakes i) = true
  is_work (finishes i) = true
  is_work _ = false

  unfoldable pub count_work : List (Event T) → ℕ
  count_work [] = 0
  count_work (e ∷ es) = count_work es + (if is_work e then 1 else 0)

  owed-set_running :
      (ws : List (Worker T)) (i : ℕ) (t : T)
      → get_elem? ws i ≡ some waiting
      → owed (set ws i (running t)) ≡ owed ws + 1
  unfolding owed
  owed-set_running [] i t h = absurd (ground arith)
  owed-set_running (waiting ∷ ws) zero t h = omega arith
  owed-set_running (running s ∷ ws) zero t h = absurd (ground arith)
  owed-set_running (exited ∷ ws) zero t h = absurd (ground arith)
  owed-set_running (waiting ∷ ws) (suc i) t h = omega (arith, owed-set_running ws i t h)
  owed-set_running (running s ∷ ws) (suc i) t h = omega (arith, owed-set_running ws i t h)
  owed-set_running (exited ∷ ws) (suc i) t h = omega (arith, owed-set_running ws i t h)

  owed-set_exited :
      (ws : List (Worker T)) (i : ℕ)
      → get_elem? ws i ≡ some waiting
      → owed (set ws i exited) + 1 ≡ owed ws
  unfolding owed
  owed-set_exited [] i h = absurd (ground arith)
  owed-set_exited (waiting ∷ ws) zero h = omega arith
  owed-set_exited (running s ∷ ws) zero h = absurd (ground arith)
  owed-set_exited (exited ∷ ws) zero h = absurd (ground arith)
  owed-set_exited (waiting ∷ ws) (suc i) h = omega (arith, owed-set_exited ws i h)
  owed-set_exited (running s ∷ ws) (suc i) h = omega (arith, owed-set_exited ws i h)
  owed-set_exited (exited ∷ ws) (suc i) h = omega (arith, owed-set_exited ws i h)

  owed-set_waiting :
      (ws : List (Worker T)) (i : ℕ) (t : T)
      → get_elem? ws i ≡ some (running t)
      → owed (set ws i waiting) + 1 ≡ owed ws
  unfolding owed
  owed-set_waiting [] i t h = absurd (ground arith)
  owed-set_waiting (waiting ∷ ws) zero t h = absurd (ground arith)
  owed-set_waiting (running s ∷ ws) zero t h = omega arith
  owed-set_waiting (exited ∷ ws) zero t h = absurd (ground arith)
  owed-set_waiting (waiting ∷ ws) (suc i) t h = omega (arith, owed-set_waiting ws i t h)
  owed-set_waiting (running s ∷ ws) (suc i) t h = omega (arith, owed-set_waiting ws i t h)
  owed-set_waiting (exited ∷ ws) (suc i) t h = omega (arith, owed-set_waiting ws i t h)

  step-measure :
      (p q : ThreadPool T) (e : Event T)
      → step p e ≡ some q
      → p.stopping ≡ true
      → (q.stopping ≡ true) × (measure q + (if is_work e then 1 else 0) ≤ measure p)
  unfolding measure
  step-measure p q (submits t) e s = elim (submit_cases p q t e) [
    | inl (_, after) ↦ rw after (s, omega arith)
    | inr (f, after) ↦ absurd (ground arith)
  ]
  step-measure p q stops e s = rw (stop_cases p q e) (refl, omega arith)
  step-measure p q (wakes i) e s = elim (wake_cases p q i e).1 [
    | inl (t, rest, k) ↦
        rw k.after (
          s,
          omega (arith, ap length k.front, owed-set_running p.workers i t (wake_cases p q i e).0),
        )
    | inr k ↦
        rw (k.after, k.empty) (s, omega (arith, owed-set_exited p.workers i (wake_cases p q i e).0))
  ]
  step-measure p q (finishes i) e s =
      let (t, at_i, after) = finish_cases p q i e in
      rw after (s, omega (arith, owed-set_waiting p.workers i t at_i))

  -- From a stopping pool, the events of workers in a run and the `measure` of the pool at its end are
  -- together at most its `measure` at the start: only so many events of workers are left.
  pub run-count_work :
      (p : ThreadPool T) (h : History T) (es : List (Event T)) (q : ThreadPool T) (g : History T)
      → p.stopping ≡ true
      → run p h es ≡ some (q, g)
      → count_work es + measure q ≤ measure p
  unfolding run count_work
  run-count_work p h [] q g s r = let e : p ≡ q = ground arith in rw (← e) (omega arith)
  run-count_work p h (e ∷ es) q g s r = elim (Option-cases (step p e)) [
    | inl n ↦ absurd (ground arith)
    | inr (p', n) ↦
        let (s', m) = step-measure p p' e n s in
        omega (arith, run-count_work p' (observe p e h) es q g s' (ground arith))
  ]

  -- The first worker that has not left.
  first_live : List (Worker T) → ℕ
  first_live [] = 0
  first_live (exited ∷ ws) = suc (first_live ws)
  first_live (_ ∷ ws) = 0

  first_live_lem :
      (ws : List (Worker T))
      → is_joined ws ≡ false
      → (get_elem? ws (first_live ws) ≡ some waiting)
        ⊎ ((t : T) × (get_elem? ws (first_live ws) ≡ some (running t)))
  unfolding first_live is_joined
  first_live_lem [] h = cc
  first_live_lem (waiting ∷ ws) h = inl refl
  first_live_lem (running t ∷ ws) h = inr (t, refl)
  first_live_lem (exited ∷ ws) h = first_live_lem ws h

  next_task-stopping :
      (p : ThreadPool T) (i : ℕ) (ts : List T)
      → p.stopping ≡ true
      → (q : ThreadPool T) × (next_task p i ts ≡ some q)
  unfolding next_task
  next_task-stopping p i [] s = (record p { workers = set p.workers i exited }, ground arith)
  next_task-stopping p i (t ∷ rest) s = (_, refl)

  -- While a worker of a stopping pool has not left, some worker can go on: the joins of a shutdown
  -- are never stuck while tasks return.
  pub step-progress :
      (p : ThreadPool T)
      → p.stopping ≡ true
      → is_joined p.workers ≡ false
      → (e : Event T) × (is_work e ≡ true) × ((q : ThreadPool T) × (step p e ≡ some q))
  unfolding step wake end_task
  step-progress p s j = elim (first_live_lem p.workers j) [
    | inl idle ↦
        let (q, n) = next_task-stopping p (first_live p.workers) p.tasks s in
        (wakes (first_live p.workers), refl, (q, rw (idle, wake) n))
    | inr (t, busy) ↦ (
      finishes (first_live p.workers),
      refl,
      (finish p (first_live p.workers), rw (busy, end_task) refl),
    )
  ]
