-- ===== src/ThreadPool/Serial.antt =====
-- A pool of one worker is a serial executor.
use clsp.Base.{
  ℕ, zero, suc, ◌≡◌, refl, some, List, [], ◌∷◌, ◌++◌, get_elem?, arith, append-nil, Option-cases,
  inl, inr,
}
use clsp.ThreadPool.Steps.{wake_cases, finish_cases, submit_cases, stop_cases}
use clsp.ThreadPool.{
  Worker, waiting, running, exited, ThreadPool, Event, submits, stops, wakes, finishes, History,
  make, step, observe, run, no_history,
}

module _ {ℓ} {T : Type ℓ} where
  -- The task of the only worker.
  abbrev pub current : Worker T → List T
  current (running t) = t ∷ []
  current waiting = []
  current exited = []

  record IsSerial (p : ThreadPool T) (h : History T) : Type ℓ where
    worker : Worker T
    only : p.workers ≡ worker ∷ []
    order : h.started ≡ h.finished ++ current worker

  only-waiting :
      (ws : List (Worker T)) (w v : Worker T) (i : ℕ)
      → ws ≡ w ∷ []
      → get_elem? ws i ≡ some v
      → (i ≡ 0) × (w ≡ v)
  only-waiting ws w v zero e h = ground arith
  only-waiting ws w v (suc i) e h = absurd (ground arith)

  step-IsSerial :
      (p q : ThreadPool T) (e : Event T) (h : History T)
      → step p e ≡ some q
      → IsSerial p h
      → IsSerial q (observe p e h)
  unfolding observe
  step-IsSerial p q (submits t) h e a = elim (submit_cases p q t e) [
    | inl (s, after) ↦ rw after (simp s a)
    | inr (s, after) ↦
        rw after (rw s (record { worker = a.worker; only = a.only; order = a.order }))
  ]
  step-IsSerial p q stops h e a =
      rw (stop_cases p q e) (record { worker = a.worker; only = a.only; order = a.order })
  step-IsSerial p q (wakes i) h e a =
      let (at_i, k) = wake_cases p q i e in
      let (first, idle) = only-waiting p.workers a.worker waiting i a.only at_i in
      elim k [
        | inl (t, rest, k) ↦ rw k.after (
            rw k.front (record {
              worker = running t;
              only = rw (first, a.only);
              order = ground (arith, append-nil h.finished);
            }))
        | inr k ↦ rw k.after (
            rw k.empty (record {
              worker = exited;
              only = rw (first, a.only);
              order = ground (arith, append-nil h.started);
            }))
      ]
  step-IsSerial p q (finishes i) h e a =
      let (t, at_i, after) = finish_cases p q i e in
      let (first, busy) = only-waiting p.workers a.worker (running t) i a.only at_i in
      rw after (
        rw at_i (record {
          worker = waiting;
          only = rw (first, a.only);
          order = ground (arith, append-nil (h.finished ++ t ∷ []));
        }))

  run-IsSerial :
      (p : ThreadPool T) (h : History T) (es : List (Event T)) (q : ThreadPool T) (g : History T)
      → run p h es ≡ some (q, g)
      → IsSerial p h
      → IsSerial q g
  unfolding run
  run-IsSerial p h [] q g r a =
      let e : p ≡ q = ground arith in let f : h ≡ g = ground arith in rw (← e, ← f) a
  run-IsSerial p h (e ∷ es) q g r a = elim (Option-cases (step p e)) [
    | inl n ↦ absurd (ground arith)
    | inr (p', n) ↦
        run-IsSerial p' (observe p e h) es q g (ground arith) (step-IsSerial p p' e h n a)
  ]

  -- In every run of a new pool of one worker, the tasks taken are those that have returned, in that
  -- order, followed by the one that the worker is running, if any: the next task is taken only when
  -- the one before has returned.
  pub run-make_one :
      (es : List (Event T)) (q : ThreadPool T) (g : History T)
      → run (make 1) no_history es ≡ some (q, g)
      → (w : Worker T) × (q.workers ≡ w ∷ []) × (g.started ≡ g.finished ++ current w)
  unfolding make
  run-make_one es q g r =
      let a =
        run-IsSerial (make 1) no_history es q g r
          (record { worker = waiting; only = refl; order = refl }) in
      (a.worker, a.only, a.order)
