-- ===== src/ThreadPool/Contents.antt =====
-- What a pool holds: sums over its tasks, waiting or running, and what holds of all of them.
use clsp.Base.{
  ℕ, zero, suc, ◌+◌, ◌≡◌, refl, subst, inl, inr, false, some, List, [], ◌∷◌, ◌++◌, arith, ◌=ℕ=◌,
  if◌then◌else◌, Bool-cases, get_elem?, set, replicate, All, All-append, string_eq, ap,
}
use clsp.ThreadPool.Steps.{wake_cases}
use clsp.ThreadPool.{
  Worker, waiting, running, exited, ThreadPool, wakes, make, submit, finish, step,
}

module _ {ℓ} {T : Type ℓ} (w : T → ℕ) where
  unfoldable pub total : List T → ℕ
  total [] = 0
  total (t ∷ ts) = w t + total ts

  unfoldable pub workers_total : List (Worker T) → ℕ
  workers_total [] = 0
  workers_total (running t ∷ ws) = w t + workers_total ws
  workers_total (waiting ∷ ws) = workers_total ws
  workers_total (exited ∷ ws) = workers_total ws

  unfoldable pub pool_total : ThreadPool T → ℕ
  unfolding total workers_total
  pool_total p = total p.tasks + workers_total p.workers

  total-append : (ts : List T) (t : T) → total (ts ++ t ∷ []) ≡ total ts + w t
  unfolding total
  total-append [] t = omega arith
  total-append (s ∷ ts) t = omega (arith, total-append ts t)

  pub workers_total-running :
      (ws : List (Worker T)) (i : ℕ) (t : T)
      → get_elem? ws i ≡ some waiting
      → workers_total (set ws i (running t)) ≡ w t + workers_total ws
  unfolding workers_total
  workers_total-running [] i t h = absurd (ground arith)
  workers_total-running (waiting ∷ ws) zero t h = refl
  workers_total-running (running s ∷ ws) zero t h = absurd (ground arith)
  workers_total-running (exited ∷ ws) zero t h = absurd (ground arith)
  workers_total-running (waiting ∷ ws) (suc i) t h = workers_total-running ws i t h
  workers_total-running (running s ∷ ws) (suc i) t h = omega (arith, workers_total-running ws i t h)
  workers_total-running (exited ∷ ws) (suc i) t h = workers_total-running ws i t h

  workers_total-exited :
      (ws : List (Worker T)) (i : ℕ)
      → get_elem? ws i ≡ some waiting
      → workers_total (set ws i exited) ≡ workers_total ws
  unfolding workers_total
  workers_total-exited [] i h = absurd (ground arith)
  workers_total-exited (waiting ∷ ws) zero h = refl
  workers_total-exited (running s ∷ ws) zero h = absurd (ground arith)
  workers_total-exited (exited ∷ ws) zero h = absurd (ground arith)
  workers_total-exited (waiting ∷ ws) (suc i) h = workers_total-exited ws i h
  workers_total-exited (running s ∷ ws) (suc i) h = omega (arith, workers_total-exited ws i h)
  workers_total-exited (exited ∷ ws) (suc i) h = workers_total-exited ws i h

  workers_total-waiting :
      (ws : List (Worker T)) (i : ℕ) (t : T)
      → get_elem? ws i ≡ some (running t)
      → workers_total (set ws i waiting) + w t ≡ workers_total ws
  unfolding workers_total
  workers_total-waiting [] i t h = absurd (ground arith)
  workers_total-waiting (waiting ∷ ws) zero t h = absurd (ground arith)
  workers_total-waiting (running s ∷ ws) zero t h =
      let e : s ≡ t = ground arith in rw e (omega arith)
  workers_total-waiting (exited ∷ ws) zero t h = absurd (ground arith)
  workers_total-waiting (waiting ∷ ws) (suc i) t h = workers_total-waiting ws i t h
  workers_total-waiting (running s ∷ ws) (suc i) t h = omega (arith, workers_total-waiting ws i t h)
  workers_total-waiting (exited ∷ ws) (suc i) t h = workers_total-waiting ws i t h

  pub pool_total-submit :
      (t : T) (p : ThreadPool T) → p.stopping ≡ false → pool_total (submit t p) ≡ pool_total p + w t
  unfolding pool_total submit
  pool_total-submit t p h = rw h (omega (arith, total-append p.tasks t))

  pub pool_total-wake :
      (p q : ThreadPool T) (i : ℕ) → step p (wakes i) ≡ some q → pool_total q ≡ pool_total p
  unfolding pool_total
  pool_total-wake p q i h = elim (wake_cases p q i h).1 [
    | inl (t, rest, k) ↦
        rw k.after
          (rw k.front (omega (arith, workers_total-running p.workers i t (wake_cases p q i h).0)))
    | inr k ↦ rw k.after (omega (arith, workers_total-exited p.workers i (wake_cases p q i h).0))
  ]

  pub pool_total-finish :
      (p : ThreadPool T) (i : ℕ) (t : T)
      → get_elem? p.workers i ≡ some (running t)
      → pool_total (finish p i) + w t ≡ pool_total p
  unfolding pool_total finish
  pool_total-finish p i t h = omega (arith, workers_total-waiting p.workers i t h)

  workers_total-make : (n : ℕ) → workers_total (replicate n waiting) ≡ 0
  unfolding workers_total
  workers_total-make zero = refl
  workers_total-make (suc n) = workers_total-make n

  pub pool_total-make : (n : ℕ) → pool_total (make n) ≡ 0
  unfolding pool_total make
  pool_total-make n = omega (arith, workers_total-make (if n =ℕ= 0 then 1 else n))

module _ {ℓ} {T : Type ℓ} where
  pub wake-stopping :
      (p q : ThreadPool T) (i : ℕ) → step p (wakes i) ≡ some q → q.stopping ≡ p.stopping
  wake-stopping p q i e = elim (wake_cases p q i e).1 [
    | inl (t, rest, k) ↦ ap (λ x. x.stopping) k.after
    | inr k ↦ ap (λ x. x.stopping) k.after
  ]

  -- A pool that neither runs a task nor has one waiting.
  abbrev pub Idle : ThreadPool T → Type 0
  Idle p = pool_total (λ t. 1) p ≡ 0

module _ {ℓ} {T : Type ℓ} (w : T → ℕ) where
  total-idle : (ts : List T) → total (λ t. 1) ts ≡ 0 → total w ts ≡ 0
  unfolding total
  total-idle [] h = refl
  total-idle (t ∷ ts) h = absurd (omega (arith, h))

  workers_total-idle :
      (ws : List (Worker T)) → workers_total (λ t. 1) ws ≡ 0 → workers_total w ws ≡ 0
  unfolding workers_total
  workers_total-idle [] h = refl
  workers_total-idle (running t ∷ ws) h = absurd (omega (arith, h))
  workers_total-idle (waiting ∷ ws) h = workers_total-idle ws h
  workers_total-idle (exited ∷ ws) h = workers_total-idle ws h

  pub pool_total-Idle : (p : ThreadPool T) → Idle p → pool_total w p ≡ 0
  unfolding pool_total
  pool_total-Idle p h =
      let e : total (λ t. 1) p.tasks ≡ 0 = omega (arith, h) in
      let f : workers_total (λ t. 1) p.workers ≡ 0 = omega (arith, h) in
      omega (arith, total-idle p.tasks e, workers_total-idle p.workers f)

module _ {ℓ κ} {T : Type ℓ} (P : T → Type κ) where
  abbrev pub OfWorker : Worker T → Type κ
  OfWorker (running t) = P t
  OfWorker waiting = Unit
  OfWorker exited = Unit

  -- `P` holds of every task that waits or is being run.
  pub record OfTasks (p : ThreadPool T) : Type (ℓ ⊔ κ) where
    pub waiting_tasks : All P p.tasks
    pub running_tasks : All OfWorker p.workers

  OfWorker-set :
      (ws : List (Worker T)) (i : ℕ) (v : Worker T)
      → All OfWorker ws
      → OfWorker v
      → All OfWorker (set ws i v)
  OfWorker-set [] i v h k = tt
  OfWorker-set (u ∷ ws) zero v (g, h) k = (k, h)
  OfWorker-set (u ∷ ws) (suc i) v (g, h) k = (g, OfWorker-set ws i v h k)

  OfWorker-get :
      (ws : List (Worker T)) (i : ℕ) (t : T)
      → All OfWorker ws
      → get_elem? ws i ≡ some (running t)
      → P t
  OfWorker-get [] i t h e = absurd (cc)
  OfWorker-get (u ∷ ws) zero t (g, h) e = let f : u ≡ running t = cc in subst OfWorker f g
  OfWorker-get (u ∷ ws) (suc i) t (g, h) e = OfWorker-get ws i t h e

  pub OfTasks-running :
      (p : ThreadPool T) (i : ℕ) (t : T)
      → OfTasks p
      → get_elem? p.workers i ≡ some (running t)
      → P t
  OfTasks-running p i t h e = OfWorker-get p.workers i t h.running_tasks e

  pub OfTasks-submit : (t : T) (p : ThreadPool T) → OfTasks p → P t → OfTasks (submit t p)
  unfolding submit
  OfTasks-submit t p h k = elim (Bool-cases p.stopping) [
    | inl e ↦ simp e h
    | inr e ↦ rw e (record {
      waiting_tasks = All-append P p.tasks (t ∷ []) h.waiting_tasks (k, tt);
      running_tasks = h.running_tasks;
    })
  ]

  pub OfTasks-finish : (p : ThreadPool T) (i : ℕ) → OfTasks p → OfTasks (finish p i)
  unfolding finish
  OfTasks-finish p i h = record {
    waiting_tasks = h.waiting_tasks;
    running_tasks = OfWorker-set p.workers i waiting h.running_tasks tt;
  }

  pub OfTasks-wake :
      (p q : ThreadPool T) (i : ℕ) → step p (wakes i) ≡ some q → OfTasks p → OfTasks q
  OfTasks-wake p q i e h = elim (wake_cases p q i e).1 [
    | inl (t, rest, k) ↦
        let (now, later) = subst (All P) k.front h.waiting_tasks in
        rw k.after (record {
          waiting_tasks = later;
          running_tasks = OfWorker-set p.workers i (running t) h.running_tasks now;
        })
    | inr k ↦ rw k.after (record {
      waiting_tasks = h.waiting_tasks;
      running_tasks = OfWorker-set p.workers i exited h.running_tasks tt;
    })
  ]

  OfWorker-replicate : (n : ℕ) → All OfWorker (replicate n waiting)
  OfWorker-replicate zero = tt
  OfWorker-replicate (suc n) = (tt, OfWorker-replicate n)

  pub OfTasks-make : (n : ℕ) → OfTasks (make n)
  unfolding make
  OfTasks-make n = record {
    waiting_tasks = tt;
    running_tasks = OfWorker-replicate (if n =ℕ= 0 then 1 else n);
  }
