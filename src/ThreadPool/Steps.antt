-- ===== src/ThreadPool/Steps.antt =====
-- Each event, taken apart: when it can happen and what state it leads to.
use clsp.Base.{
  ℕ, ◌≡◌, refl, ◌⊎◌, inl, inr, true, false, Option, none, some, List, [], ◌∷◌, ◌++◌, get_elem?, set,
  arith,
}
use clsp.ThreadPool.{
  Worker, waiting, running, exited, ThreadPool, submits, stops, wakes, finishes, submit, stop,
  next_task, finish, wake, end_task, step,
}

module _ {ℓ} {T : Type ℓ} where
  -- A worker takes the front task.
  pub record Takes (p : ThreadPool T) (i : ℕ) (q : ThreadPool T) (t : T) (rest : List T)
      : Type ℓ where
    pub front : p.tasks ≡ t ∷ rest
    pub after : q ≡ record p { workers = set p.workers i (running t); tasks = rest }

  -- A worker leaves `workerLoop`.
  pub record Leaves (p : ThreadPool T) (i : ℕ) (q : ThreadPool T) : Type ℓ where
    pub stopped : p.stopping ≡ true
    pub empty : p.tasks ≡ []
    pub after : q ≡ record p { workers = set p.workers i exited }

  abbrev pub Wakes : ThreadPool T → ℕ → ThreadPool T → Type ℓ
  Wakes p i q = ((t : T) × (rest : List T) × Takes p i q t rest) ⊎ Leaves p i q

  next_task_cases :
      (p q : ThreadPool T) (i : ℕ) (ts : List T)
      → p.tasks ≡ ts
      → next_task p i ts ≡ some q
      → Wakes p i q
  unfolding next_task
  next_task_cases p q i [] e h =
      inr (record { stopped = ground arith; empty = e; after = ground arith })
  next_task_cases p q i (t ∷ rest) e h = inl (t, rest, record { front = e; after = ground arith })

  wake_cases_of :
      (p q : ThreadPool T) (i : ℕ) (w : Option (Worker T))
      → wake p i w ≡ some q
      → (w ≡ some waiting) × Wakes p i q
  unfolding wake
  wake_cases_of p q i (some waiting) h = (refl, next_task_cases p q i p.tasks refl h)
  wake_cases_of p q i none h = absurd (ground arith)
  wake_cases_of p q i (some (running t)) h = absurd (ground arith)
  wake_cases_of p q i (some exited) h = absurd (ground arith)

  pub wake_cases :
      (p q : ThreadPool T) (i : ℕ)
      → step p (wakes i) ≡ some q
      → (get_elem? p.workers i ≡ some waiting) × Wakes p i q
  unfolding step
  wake_cases p q i h = wake_cases_of p q i (get_elem? p.workers i) h

  end_task_cases :
      (p q : ThreadPool T) (i : ℕ) (w : Option (Worker T))
      → end_task p i w ≡ some q
      → (t : T) × (w ≡ some (running t)) × (q ≡ finish p i)
  unfolding end_task
  end_task_cases p q i (some (running t)) h = (t, refl, ground arith)
  end_task_cases p q i none h = absurd (ground arith)
  end_task_cases p q i (some waiting) h = absurd (ground arith)
  end_task_cases p q i (some exited) h = absurd (ground arith)

  pub finish_cases :
      (p q : ThreadPool T) (i : ℕ)
      → step p (finishes i) ≡ some q
      → (t : T) × (get_elem? p.workers i ≡ some (running t))
        × (q ≡ record p { workers = set p.workers i waiting })
  unfolding step finish
  finish_cases p q i h = end_task_cases p q i (get_elem? p.workers i) h

  pub submit_cases :
      (p q : ThreadPool T) (t : T)
      → step p (submits t) ≡ some q
      → ((p.stopping ≡ true) × (q ≡ p))
        ⊎ ((p.stopping ≡ false) × (q ≡ record p { tasks = p.tasks ++ t ∷ [] }))
  unfolding step submit
  submit_cases p q t h = ground arith

  pub stop_cases : (p q : ThreadPool T) → step p stops ≡ some q → q ≡ record p { stopping = true }
  unfolding step stop
  stop_cases p q h = ground arith
