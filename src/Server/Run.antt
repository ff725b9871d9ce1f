-- ===== src/Server/Run.antt =====
-- The tasks of the two pools, and the steps of all threads: the read thread that receives, the
-- workers, and user code that sends. Locks make each of these one step; a task counts as run when
-- it ends. What an exception that no code catches does (the process ends) is the `err` of a step.
use clsp.Base.{
  ℕ, String, Bool, false, not, ◌||◌, none, some, List, [], ◌∷◌, ◌++◌, Bytes, get_elem?, string_eq,
  Option, if◌then◌else◌, ◌==◌,
}
use clsp.Base.Dict.{erase}
use clsp.Json.{JsonLib}
use clsp.Rpc.{id_eq}
use clsp.Server.Exec.{Exec, ◌>>=◌, ◌>>◌, modify, gets, lift}
use clsp.Server.State.{
  Server, state_eq, Task, request_task, notification_task, callback_task, CancellationToken,
  Callback, exited,
}
use clsp.Server.Dispatch.{run_request_handler, run_notification_handler, receive}
use clsp.Errors.{Result, ok, err}
use clsp.ThreadPool.{ThreadPool, Worker, wake, finish, exited}
use clsp.Server.Send.{send_request, send_notification}

-- One step of a thread. `at_start` is what a request's token showed when its task began.
pub data Event (Json : Type 0) : Type 0 where
  receives : Bytes → Event Json
  worker_wakes sync_wakes : ℕ → Event Json
  worker_finishes sync_finishes : ℕ → Bool → Event Json
  requests : String → Json → Callback Json → Event Json
  notifies : String → Json → Event Json

-- `token.isCancelled()`
unfoldable pub flag : CancellationToken → List Bool → Bool
flag t flags = elim (get_elem? flags t) [ none ↦ false | some b ↦ b ]

module _ {Json : Type 0} where
  unfoldable pub running_task : Option (Worker (Task Json)) → Option (Task Json)
  running_task (some (Worker.running t)) = some t
  running_task _ = none

  unfoldable pub set_worker_pool :
      Server Json → Option (ThreadPool (Task Json)) → Option (Server Json)
  set_worker_pool s none = none
  set_worker_pool s (some p) = some (record s { worker_pool = p })

  unfoldable pub set_sync_executor :
      Server Json → Option (ThreadPool (Task Json)) → Option (Server Json)
  set_sync_executor s none = none
  set_sync_executor s (some p) = some (record s { sync_executor = p })

  unfoldable pub returned : Option (Server Json) → Option (Result (Unit {0}) × Server Json)
  returned none = none
  returned (some s) = some (ok tt, s)

  -- The token of a task shows `true` at the start only if it does so at the end: no code clears it.
  unfoldable pub starts_well : Task Json → Bool → List Bool → Bool
  unfolding flag
  starts_well (request_task id params handler t) at_start flags = not at_start || flag t flags
  starts_well _ at_start flags = not at_start

module _ (J : JsonLib) where
  open J use {Json}

  -- The lambdas that `handleRequest`, `handleNotification` and `handleResponse` submit.
  unfoldable pub run_task : Task Json → Bool → Exec (Server Json) (Unit {0})
  unfolding run_request_handler run_notification_handler flag
  run_task (request_task id params handler t) at_start = do
    flags ← gets (λ s. s.flags)
    run_request_handler J id params handler at_start (flag t flags)
    modify (λ s. record s { cancellation_tokens = erase id s.cancellation_tokens })
  run_task (notification_task handler params) at_start = run_notification_handler J handler params
  run_task (callback_task callback payload is_error) at_start = do
    modify (λ s. record s { called = s.called ++ (callback, payload, is_error) ∷ [] })
    lift (callback payload is_error)

  -- A worker's task ends: what it did, and the worker waits again.
  unfoldable pub end_of_task :
      Option (Task Json)
      → Bool
      → (Server Json → Server Json)
      → Server Json
      → Option (Result (Unit {0}) × Server Json)
  unfolding run_task starts_well
  end_of_task none at_start free s = none
  end_of_task (some t) at_start free s =
      if starts_well t at_start s.flags
      then some ((do run_task t at_start; modify free) s)
      else none

  -- `none` where the event cannot happen.
  unfoldable pub step : Server Json → Event Json → Option (Result (Unit {0}) × Server Json)
  unfolding receive running_task set_worker_pool set_sync_executor returned end_of_task wake finish
      send_request send_notification
  step s (receives raw) = if s.state == exited then none else some (receive J raw s)
  step s (worker_wakes i) =
      returned (set_worker_pool s (wake s.worker_pool i (get_elem? s.worker_pool.workers i)))
  step s (sync_wakes i) =
      returned (set_sync_executor s (wake s.sync_executor i (get_elem? s.sync_executor.workers i)))
  step s (worker_finishes i at_start) =
      end_of_task (running_task (get_elem? s.worker_pool.workers i)) at_start
        (λ q. record q { worker_pool = finish q.worker_pool i }) s
  step s (sync_finishes i at_start) =
      end_of_task (running_task (get_elem? s.sync_executor.workers i)) at_start
        (λ q. record q { sync_executor = finish q.sync_executor i }) s
  step s (requests method params callback) = some (send_request J method params callback s)
  step s (notifies method params) = some (send_notification J method params s)

  -- The events in turn, as long as each can happen and no exception escapes.
  unfoldable pub run : Server Json → List (Event Json) → Option (Server Json)
  unfolding step
  run s [] = some s
  run s (e ∷ es) = elim (step s e) [
    | none ↦ none
    | some (r, q) ↦ elim r [ ok u ↦ run q es | err x ↦ none ]
  ]

module _ {Json : Type 0} where
  -- What `run` returns once its loop has ended and the pools are drained.
  unfoldable pub exit_code : Server Json → ℕ
  exit_code s = if s.shutdown_requested then 0 else 1
