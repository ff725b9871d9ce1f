-- ===== src/Server/Pools.antt =====
-- The pools while a task runs: a task sends, and never submits.
use clsp.Base.{refl, ap, Bool, Bytes, string_eq}
use clsp.Errors.{Result}
use clsp.Json.{JsonLib}
use clsp.Rpc.{RequestId}
use clsp.ThreadPool.{ThreadPool}
use clsp.Server.State.{Server, Task, request_task, notification_task, callback_task, RequestHandler}
use clsp.Server.Send.{send}
use clsp.Server.Dispatch.{run_request_handler}
use clsp.Server.Spares.{Spares, Spares-bind}
use clsp.Server.Sending.{send-Spares, run_request_handler-Spares}
use clsp.Server.Kept.{call_request-plumbing, run_notification_handler-plumbing}
use clsp.Server.Run.{run_task}

module _ {Json : Type 0} where
  abbrev pub pools : Server Json → ThreadPool (Task Json) × ThreadPool (Task Json)
  pools s = (s.worker_pool, s.sync_executor)

module _ (J : JsonLib) where
  open J use {Json}

  pub send-pools : (r : Result Bytes) → Spares pools (send J r)
  send-pools = send-Spares J pools (λ s frames. refl)

  pub run_request_handler-pools :
      (id : RequestId) (params : Json) (h : RequestHandler Json) (at_start polled : Bool)
      → Spares pools (run_request_handler J id params h at_start polled)
  run_request_handler-pools id params h at_start polled =
      run_request_handler-Spares J pools (λ s frames. refl) id params h at_start polled
        (λ s.
          ap (λ p. (p.worker_pool, p.sync_executor)) (call_request-plumbing J h params polled s))

  pub run_task-pools : (t : Task Json) (at_start : Bool) → Spares pools (run_task J t at_start)
  unfolding run_task
  run_task-pools (request_task id params h token) at_start s =
      Spares-bind pools (run_request_handler J id params h at_start _) _
        (run_request_handler-pools id params h at_start _) (λ u q. refl) s
  run_task-pools (notification_task h params) at_start s =
      ap (λ p. (p.worker_pool, p.sync_executor)) (run_notification_handler-plumbing J h params s)
  run_task-pools (callback_task c payload is_error) at_start s = refl
