-- ===== src/Examples/Pools.antt =====
-- A pool of two workers, and one of a single worker.
use mathlib.Core.List.{Perm}
use clsp.Base.{ℕ, ◌+◌, ◌≤◌, ◌≡◌, refl, true, false, some, List, [], ◌∷◌, ◌++◌, string_eq}
use clsp.ThreadPool.{
  ThreadPool, Worker, Event, submits, stops, wakes, finishes, run, make, no_history, step,
  is_joined, exited, waiting, History,
}
use clsp.ThreadPool.Fifo.{run-make, active}
use clsp.ThreadPool.Serial.{run-make_one, current}
use clsp.ThreadPool.Drain.{run-is_joined}
use clsp.ThreadPool.Shutdown.{run-count_work, step-progress, count_work, measure, is_work}

-- Two tasks; the second returns first.
abbrev crossing : List (Event ℕ)
crossing = submits 5 ∷ submits 6 ∷ wakes 0 ∷ wakes 1 ∷ finishes 1 ∷ submits 7 ∷ []

-- Tasks are waiting when the pool is stopped.
abbrev shutdown : List (Event ℕ)
shutdown =
    submits 5
    ∷ submits 6
    ∷ wakes 0
    ∷ stops
    ∷ submits 7
    ∷ finishes 0
    ∷ wakes 0
    ∷ finishes 0
    ∷ wakes 0
    ∷ []

abbrev after_crossing : ThreadPool ℕ
after_crossing = record {
  workers = Worker.running 5 ∷ waiting ∷ [];
  tasks = 7 ∷ [];
  stopping = false;
}

abbrev crossing_history : History ℕ
crossing_history = record { queued = 5 ∷ 6 ∷ 7 ∷ []; started = 5 ∷ 6 ∷ []; finished = 6 ∷ [] }

abbrev after_shutdown : ThreadPool ℕ
after_shutdown = record { workers = exited ∷ []; tasks = []; stopping = true }

abbrev shutdown_history : History ℕ
shutdown_history = record { queued = 5 ∷ 6 ∷ []; started = 5 ∷ 6 ∷ []; finished = 5 ∷ 6 ∷ [] }

abbrev stopping_pool : ThreadPool ℕ
stopping_pool = record { workers = waiting ∷ []; tasks = 5 ∷ []; stopping = true }

abbrev ending : List (Event ℕ)
ending = wakes 0 ∷ finishes 0 ∷ wakes 0 ∷ []

run-crossing : run (make 2) no_history crossing ≡ some (after_crossing, crossing_history)
unfolding run make
run-crossing = refl

run-shutdown : run (make 1) no_history shutdown ≡ some (after_shutdown, shutdown_history)
unfolding run make
run-shutdown = refl

run-make_example :
    (crossing_history.queued ≡ crossing_history.started ++ after_crossing.tasks)
    × Perm crossing_history.started (crossing_history.finished ++ active after_crossing.workers)
run-make_example = run-make 2 crossing after_crossing crossing_history run-crossing

run-make_one_example :
    (w : Worker ℕ) × (after_shutdown.workers ≡ w ∷ [])
    × (shutdown_history.started ≡ shutdown_history.finished ++ current w)
run-make_one_example = run-make_one shutdown after_shutdown shutdown_history run-shutdown

run-is_joined_example :
    (after_shutdown.stopping ≡ true)
    × (shutdown_history.started ≡ shutdown_history.queued)
    × Perm shutdown_history.finished shutdown_history.queued
unfolding is_joined
run-is_joined_example = run-is_joined 1 shutdown after_shutdown shutdown_history run-shutdown refl

run-count_work_example : count_work ending + measure after_shutdown ≤ measure stopping_pool
unfolding run
run-count_work_example =
    run-count_work stopping_pool no_history ending after_shutdown
      (record { queued = []; started = 5 ∷ []; finished = 5 ∷ [] }) refl refl

step-progress_example :
    (e : Event ℕ) × (is_work e ≡ true) × ((q : ThreadPool ℕ) × (step stopping_pool e ≡ some q))
unfolding is_joined
step-progress_example = step-progress stopping_pool refl refl
