-- ===== src/ThreadPool.antt =====
-- src/ThreadPool.hpp and src/ThreadPool.cpp: the pool as a state machine. The mutex makes each
-- critical section one step, so a run is a sequence of events, one for each section: the model
-- takes any such sequence. Waiting on the condition variable is not being able to step.
mod Steps
pub mod Fifo
pub mod Serial
pub mod Drain
pub mod Shutdown
pub mod Contents
pub mod Queued
pub mod Open
use clsp.Base.{
  ℕ, zero, suc, ◌≡◌, Bool, true, false, Option, none, some, List, [], ◌∷◌, ◌++◌, if◌then◌else◌,
  ◌=ℕ=◌, get_elem?, set, replicate,
}

-- Where the thread of a worker stands in `workerLoop`.
pub data Worker {ℓ} (T : Type ℓ) : Type ℓ where
  waiting : Worker T
  running : T → Worker T
  exited : Worker T

pub record ThreadPool {ℓ} (T : Type ℓ) : Type ℓ where
  pub workers : List (Worker T)
  pub tasks : List T
  pub stopping : Bool

module _ {ℓ} {T : Type ℓ} where
  -- The constructor.
  unfoldable pub make : ℕ → ThreadPool T
  make num_workers = record {
    workers = replicate (if num_workers =ℕ= 0 then 1 else num_workers) waiting;
    tasks = [];
    stopping = false;
  }

  unfoldable pub submit : T → ThreadPool T → ThreadPool T
  submit t p = if p.stopping then p else record p { tasks = p.tasks ++ t ∷ [] }

  -- The critical section of `shutdown`; the joins are `is_joined`.
  unfoldable pub stop : ThreadPool T → ThreadPool T
  stop p = record p { stopping = true }

  -- The critical section of `workerLoop`, in the worker `i`: `none` while the worker waits.
  unfoldable pub next_task : ThreadPool T → ℕ → List T → Option (ThreadPool T)
  next_task p i (t ∷ rest) = some (record p { workers = set p.workers i (running t); tasks = rest })
  next_task p i [] =
      if p.stopping then some (record p { workers = set p.workers i exited }) else none

  -- `task()` returns in the worker `i`.
  unfoldable pub finish : ThreadPool T → ℕ → ThreadPool T
  finish p i = record p { workers = set p.workers i waiting }

  -- Every `join` has returned.
  unfoldable pub is_joined : List (Worker T) → Bool
  is_joined [] = true
  is_joined (exited ∷ ws) = is_joined ws
  is_joined (_ ∷ ws) = false

-- One critical section, or the end of a task.
pub data Event {ℓ} (T : Type ℓ) : Type ℓ where
  submits : T → Event T
  stops : Event T
  wakes : ℕ → Event T
  finishes : ℕ → Event T

-- What happened: the tasks that were queued, those that a worker took, those that returned.
pub record History {ℓ} (T : Type ℓ) : Type ℓ where
  pub queued : List T
  pub started : List T
  pub finished : List T

module _ {ℓ} {T : Type ℓ} where
  -- `none` where the event cannot happen.
  unfoldable pub wake : ThreadPool T → ℕ → Option (Worker T) → Option (ThreadPool T)
  unfolding next_task
  wake p i (some waiting) = next_task p i p.tasks
  wake p i _ = none

  unfoldable pub end_task : ThreadPool T → ℕ → Option (Worker T) → Option (ThreadPool T)
  unfolding finish
  end_task p i (some (running t)) = some (finish p i)
  end_task p i _ = none

  unfoldable pub step : ThreadPool T → Event T → Option (ThreadPool T)
  unfolding submit stop wake end_task
  step p (submits t) = some (submit t p)
  step p stops = some (stop p)
  step p (wakes i) = wake p i (get_elem? p.workers i)
  step p (finishes i) = end_task p i (get_elem? p.workers i)

  abbrev task_of : Option (Worker T) → List T
  task_of (some (running t)) = t ∷ []
  task_of _ = []

  abbrev head_of : List T → List T
  head_of [] = []
  head_of (t ∷ rest) = t ∷ []

  unfoldable pub observe : ThreadPool T → Event T → History T → History T
  observe p (submits t) h = if p.stopping then h else record h { queued = h.queued ++ t ∷ [] }
  observe p stops h = h
  observe p (wakes i) h = record h { started = h.started ++ head_of p.tasks }
  observe p (finishes i) h = record h { finished = h.finished ++ task_of (get_elem? p.workers i) }

  -- A run of events from a state, with its history; `none` where an event cannot happen.
  unfoldable pub run : ThreadPool T → History T → List (Event T) → Option (ThreadPool T × History T)
  unfolding step observe
  run p h [] = some (p, h)
  run p h (e ∷ es) = elim (step p e) [ none ↦ none | some q ↦ run q (observe p e h) es ]

  abbrev pub no_history : History T
  no_history = record { queued = []; started = []; finished = [] }
