-- ===== src/ThreadPool/Drain.antt =====
-- Shutting down: the workers leave only when the queue is empty, and they do leave.
use mathlib.Core.List.{Perm}
use mathlib.Core.List.Perm
use clsp.ThreadPool.Steps.{wake_cases, finish_cases, submit_cases, stop_cases}
use clsp.Base.{
  ℕ, zero, suc, ◌<◌, ◌≡◌, refl, ◌≢◌, inl, inr, Bool, true, false, some, List, [], ◌∷◌, append-nil,
  arith, ◌=ℕ=◌, if◌then◌else◌, Option-cases, set, replicate, string_eq,
}
use clsp.ThreadPool.{
  Worker, waiting, running, exited, ThreadPool, Event, submits, stops, wakes, finishes, History,
  step, observe, run, make, is_joined, no_history,
}
use clsp.ThreadPool.Fifo.{active, run-Accounts, make-Accounts}

module _ {ℓ} {T : Type ℓ} where
  any_exited : List (Worker T) → Bool
  any_exited [] = false
  any_exited (exited ∷ ws) = true
  any_exited (waiting ∷ ws) = any_exited ws
  any_exited (running t ∷ ws) = any_exited ws

  -- A worker has left only if the pool is stopping and its queue is empty; there is a worker.
  record IsOrderly (p : ThreadPool T) : Type ℓ where
    left : any_exited p.workers ≡ true → (p.stopping ≡ true) × (p.tasks ≡ [])
    some_worker : p.workers ≢ []

  set-ne-nil : (ws : List (Worker T)) (i : ℕ) (w : Worker T) → ws ≢ [] → set ws i w ≢ []
  set-ne-nil [] i w h = h
  set-ne-nil (x ∷ ws) zero w h = λ e. cc
  set-ne-nil (x ∷ ws) (suc i) w h = λ e. cc

  any_exited-set_running :
      (ws : List (Worker T)) (i : ℕ) (t : T)
      → any_exited (set ws i (running t)) ≡ true
      → any_exited ws ≡ true
  unfolding any_exited
  any_exited-set_running [] i t h = h
  any_exited-set_running (waiting ∷ ws) zero t h = h
  any_exited-set_running (running s ∷ ws) zero t h = h
  any_exited-set_running (exited ∷ ws) zero t h = refl
  any_exited-set_running (waiting ∷ ws) (suc i) t h = any_exited-set_running ws i t h
  any_exited-set_running (running s ∷ ws) (suc i) t h = any_exited-set_running ws i t h
  any_exited-set_running (exited ∷ ws) (suc i) t h = refl

  any_exited-set_waiting :
      (ws : List (Worker T)) (i : ℕ) → any_exited (set ws i waiting) ≡ true → any_exited ws ≡ true
  unfolding any_exited
  any_exited-set_waiting [] i h = h
  any_exited-set_waiting (waiting ∷ ws) zero h = h
  any_exited-set_waiting (running s ∷ ws) zero h = h
  any_exited-set_waiting (exited ∷ ws) zero h = refl
  any_exited-set_waiting (waiting ∷ ws) (suc i) h = any_exited-set_waiting ws i h
  any_exited-set_waiting (running s ∷ ws) (suc i) h = any_exited-set_waiting ws i h
  any_exited-set_waiting (exited ∷ ws) (suc i) h = refl

  step-IsOrderly :
      (p q : ThreadPool T) (e : Event T) → step p e ≡ some q → IsOrderly p → IsOrderly q
  step-IsOrderly p q (submits t) e a = elim (submit_cases p q t e) [
    | inl (s, after) ↦ rw after a
    | inr (s, after) ↦
        rw after
          (record { left = λ x. absurd (ground (arith, a.left x)); some_worker = a.some_worker })
  ]
  step-IsOrderly p q stops e a =
      rw (stop_cases p q e)
        (record { left = λ x. (refl, (a.left x).1); some_worker = a.some_worker })
  step-IsOrderly p q (wakes i) e a = elim (wake_cases p q i e).1 [
    | inl (t, rest, k) ↦ rw k.after (record {
      left = λ x.
          let f = a.left (any_exited-set_running p.workers i t x) in
          let g = k.front in absurd (ground arith);
      some_worker = set-ne-nil p.workers i _ a.some_worker;
    })
    | inr k ↦ rw k.after (record {
      left = λ x. (k.stopped, k.empty);
      some_worker = set-ne-nil p.workers i _ a.some_worker;
    })
  ]
  step-IsOrderly p q (finishes i) e a =
      let (t, at_i, after) = finish_cases p q i e in
      rw after (record {
        left = λ x. a.left (any_exited-set_waiting p.workers i x);
        some_worker = set-ne-nil p.workers i _ a.some_worker;
      })

  run-IsOrderly :
      (p : ThreadPool T) (h : History T) (es : List (Event T)) (q : ThreadPool T) (g : History T)
      → run p h es ≡ some (q, g)
      → IsOrderly p
      → IsOrderly q
  unfolding run
  run-IsOrderly p h [] q g r a = let e : p ≡ q = ground arith in rw (← e) a
  run-IsOrderly p h (e ∷ es) q g r a = elim (Option-cases (step p e)) [
    | inl n ↦ absurd (ground arith)
    | inr (p', n) ↦
        run-IsOrderly p' (observe p e h) es q g (ground arith) (step-IsOrderly p p' e n a)
  ]

  -- Joined workers, of which there is one, have left.
  any_exited-is_joined :
      (ws : List (Worker T)) → ws ≢ [] → is_joined ws ≡ true → any_exited ws ≡ true
  unfolding any_exited is_joined
  any_exited-is_joined [] n h = absurd (n refl)
  any_exited-is_joined (waiting ∷ ws) n h = cc
  any_exited-is_joined (running t ∷ ws) n h = cc
  any_exited-is_joined (exited ∷ ws) n h = refl

  active-is_joined : (ws : List (Worker T)) → is_joined ws ≡ true → active ws ≡ []
  unfolding active is_joined
  active-is_joined [] h = refl
  active-is_joined (waiting ∷ ws) h = cc
  active-is_joined (running t ∷ ws) h = cc
  active-is_joined (exited ∷ ws) h = active-is_joined ws h

module _ {ℓ} (T : Type ℓ) where
  any_exited-replicate : (n : ℕ) → any_exited (replicate {A = Worker T} n waiting) ≡ false
  unfolding any_exited
  any_exited-replicate zero = refl
  any_exited-replicate (suc n) = any_exited-replicate n

  replicate-ne-nil : (n : ℕ) → 0 < n → replicate {A = Worker T} n waiting ≢ []
  replicate-ne-nil zero h = absurd (omega arith)
  replicate-ne-nil (suc n) h = λ e. cc

  make-IsOrderly : (n : ℕ) → IsOrderly {T = T} (make n)
  unfolding make
  make-IsOrderly n = record {
    left = λ x. let z = any_exited-replicate (if n =ℕ= 0 then 1 else n) in absurd (ground arith);
    some_worker = replicate-ne-nil _ (ground arith);
  }

module _ {ℓ} {T : Type ℓ} where
  -- Once every worker of a pool has been joined, the pool was stopping, and every task ever queued
  -- has been taken in order and has returned: a shutdown abandons none of them.
  pub run-is_joined :
      (n : ℕ) (es : List (Event T)) (q : ThreadPool T) (g : History T)
      → run (make n) no_history es ≡ some (q, g)
      → is_joined q.workers ≡ true
      → (q.stopping ≡ true) × (g.started ≡ g.queued) × Perm g.finished g.queued
  run-is_joined n es q g r j =
      let a = run-Accounts (make n) no_history es q g r (make-Accounts n) in
      let o = run-IsOrderly (make n) no_history es q g r (make-IsOrderly T n) in
      let (s, t) = o.left (any_exited-is_joined q.workers o.some_worker j) in
      let drained : g.started ≡ g.queued = rw (a.order, t, append-nil) refl in
      let places : Perm g.started g.finished =
        rw (active-is_joined q.workers j, append-nil) at a.places in
      (s, drained, rw (← drained) (Perm.symm places))
