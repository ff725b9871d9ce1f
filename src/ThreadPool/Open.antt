-- ===== src/ThreadPool/Open.antt =====
-- A pool that has not been shut down: its workers are there, and can finish what it holds.
use clsp.Base.{
  ℕ, zero, suc, ◌+◌, ◌≡◌, refl, ap, ◌∙◌, ◌⊎◌, inl, inr, Bool, true, false, some, List, [], ◌∷◌,
  arith, ◌=ℕ=◌, if◌then◌else◌, get_elem?, set, replicate, All, string_eq,
}
use clsp.ThreadPool.{
  ThreadPool, Worker, waiting, running, exited, submit, finish, make, wakes, step, wake, next_task,
}
use clsp.ThreadPool.Steps.{wake_cases}
use clsp.ThreadPool.Contents.{
  workers_total-running, total, workers_total, pool_total, pool_total-finish, workers_total-running,
  Idle,
}

module _ {ℓ} {T : Type ℓ} where
  abbrev is_here : Worker T → Bool
  is_here exited = false
  is_here _ = true

  abbrev IsHere : Worker T → Type 0
  IsHere w = is_here w ≡ true

  abbrev has_workers : List (Worker T) → Bool
  has_workers [] = false
  has_workers (w ∷ ws) = true

  pub record Open (p : ThreadPool T) : Type ℓ where
    pub takes_tasks : p.stopping ≡ false
    pub present : All IsHere p.workers
    pub manned : has_workers p.workers ≡ true

  has_workers-set :
      (ws : List (Worker T)) (i : ℕ) (w : Worker T) → has_workers (set ws i w) ≡ has_workers ws
  has_workers-set [] i w = refl
  has_workers-set (v ∷ ws) zero w = refl
  has_workers-set (v ∷ ws) (suc i) w = refl

  IsHere-set :
      (ws : List (Worker T)) (i : ℕ) (w : Worker T)
      → All IsHere ws
      → IsHere w
      → All IsHere (set ws i w)
  IsHere-set [] i w h k = tt
  IsHere-set (v ∷ ws) zero w (g, h) k = (k, h)
  IsHere-set (v ∷ ws) (suc i) w (g, h) k = (g, IsHere-set ws i w h k)

  pub Open-submit : (t : T) (p : ThreadPool T) → Open p → Open (submit t p)
  unfolding submit
  Open-submit t p o =
      rw o.takes_tasks (record { takes_tasks = refl; present = o.present; manned = o.manned })

  pub Open-finish : (p : ThreadPool T) (i : ℕ) → Open p → Open (finish p i)
  unfolding finish
  Open-finish p i o = record {
    takes_tasks = o.takes_tasks;
    present = IsHere-set p.workers i waiting o.present refl;
    manned = has_workers-set p.workers i waiting ∙ o.manned;
  }

  pub Open-wake : (p q : ThreadPool T) (i : ℕ) → step p (wakes i) ≡ some q → Open p → Open q
  Open-wake p q i e o = elim (wake_cases p q i e).1 [
    | inl (t, rest, k) ↦ rw k.after (record {
      takes_tasks = o.takes_tasks;
      present = IsHere-set p.workers i (running t) o.present refl;
      manned = has_workers-set p.workers i (running t) ∙ o.manned;
    })
    | inr k ↦ absurd (let f = o.takes_tasks in let g = k.stopped in cc)
  ]

module _ {ℓ} (T : Type ℓ) where
  IsHere-replicate : (n : ℕ) → All IsHere (replicate {A = Worker T} n waiting)
  IsHere-replicate zero = tt
  IsHere-replicate (suc n) = (refl, IsHere-replicate n)

  has_workers-replicate :
      (n : ℕ) → has_workers (replicate {A = Worker T} (if n =ℕ= 0 then 1 else n) waiting) ≡ true
  has_workers-replicate zero = refl
  has_workers-replicate (suc n) = let e : (suc n =ℕ= 0) ≡ false = ground arith in rw e refl

module _ {ℓ} {T : Type ℓ} where
  pub Open-make : (n : ℕ) → Open (make {T = T} n)
  unfolding make
  Open-make n = record {
    takes_tasks = refl;
    present = IsHere-replicate T (if n =ℕ= 0 then 1 else n);
    manned = has_workers-replicate T n;
  }

  -- How many steps of workers are left.
  unfoldable pub load : ThreadPool T → ℕ
  unfolding total pool_total
  load p = pool_total (λ t. 1) p + total (λ t. 1) p.tasks

  pub load-finish :
      (p : ThreadPool T) (i : ℕ) (t : T)
      → get_elem? p.workers i ≡ some (running t)
      → load (finish p i) + 1 ≡ load p
  unfolding load finish
  load-finish p i t e = omega (arith, pool_total-finish (λ t. 1) p i t e)

  -- What a worker can do.
  pub data CanGoOn (p : ThreadPool T) : Type ℓ where
    to_finish : (i : ℕ) (t : T) → get_elem? p.workers i ≡ some (running t) → CanGoOn p
    to_wake : (q : ThreadPool T) → step p (wakes 0) ≡ some q → load q + 1 ≡ load p → CanGoOn p
    is_done : Idle p → CanGoOn p

  find_running :
      (ws : List (Worker T))
      → ((i : ℕ) × (t : T) × (get_elem? ws i ≡ some (running t))) ⊎ (workers_total (λ t. 1) ws ≡ 0)
  unfolding workers_total
  find_running [] = inr refl
  find_running (running t ∷ ws) = inl (0, t, refl)
  find_running (waiting ∷ ws) = elim (find_running ws) [
    | inl (i, t, e) ↦ inl (suc i, t, e)
    | inr e ↦ inr e
  ]
  find_running (exited ∷ ws) = elim (find_running ws) [
    | inl (i, t, e) ↦ inl (suc i, t, e)
    | inr e ↦ inr e
  ]

  first-waiting :
      (ws : List (Worker T))
      → has_workers ws ≡ true
      → All IsHere ws
      → workers_total (λ t. 1) ws ≡ 0
      → get_elem? ws 0 ≡ some waiting
  unfolding workers_total
  first-waiting [] h a e = absurd (cc)
  first-waiting (waiting ∷ ws) h a e = refl
  first-waiting (running t ∷ ws) h a e = absurd (omega (arith, e))
  first-waiting (exited ∷ ws) h (a, b) e = absurd (cc)

  all_waiting :
      (p : ThreadPool T) (ts : List T)
      → p.tasks ≡ ts
      → Open p
      → workers_total (λ t. 1) p.workers ≡ 0
      → CanGoOn p
  unfolding load pool_total total step wake next_task
  all_waiting p [] f o e =
      let none_left : total (λ t. 1) p.tasks ≡ 0 = ap (total (λ t. 1)) f in
      is_done (omega (arith, e, none_left))
  all_waiting p (t ∷ rest) f o e =
      let w = first-waiting p.workers o.manned o.present e in
      let one_more : total (λ t. 1) p.tasks ≡ 1 + total (λ t. 1) rest = ap (total (λ t. 1)) f in
      to_wake (record p { workers = set p.workers 0 (running t); tasks = rest })
        (ap (wake p 0) w ∙ ap (next_task p 0) f)
        (omega (arith, one_more, workers_total-running (λ t. 1) p.workers 0 t w))

  pub Open-CanGoOn : (p : ThreadPool T) → Open p → CanGoOn p
  Open-CanGoOn p o = elim (find_running p.workers) [
    | inl (i, t, e) ↦ to_finish i t e
    | inr e ↦ all_waiting p p.tasks refl o e
  ]
