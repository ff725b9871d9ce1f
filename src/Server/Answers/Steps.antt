-- ===== src/Server/Answers/Steps.antt =====
-- The counts of `Server.Answers` over a step of any thread.
use clsp.Base.{ℕ, ◌≡◌, sym, ap, ◌∙◌, subst, Bool, some, [], ◌∷◌, arith, get_elem?, string_eq}
use clsp.Errors.{ok}
use clsp.ThreadPool.Open.{Open-wake, Open-finish}
use clsp.Json.{JsonLib, JsonLaws}
use clsp.Rpc.{RequestId}
use clsp.ThreadPool.{ThreadPool, wakes, running, finish}
use clsp.ThreadPool
use clsp.ThreadPool.Contents.{
  pool_total-wake, pool_total-finish, OfTasks-wake, OfTasks-finish, OfTasks-running,
}
use clsp.Server.State.{Server, Task, request_task, notification_task, callback_task}
use clsp.Server.Kept.{plumbing, run_notification_handler-plumbing}
use clsp.Server.Answers.Ready.{Settles-plumbing, IsReady, Settles}
use clsp.Server.Pools.{run_task-pools}
use clsp.Server.Steps.{
  step_receives, step_worker_wakes, step_sync_wakes, step_worker_finishes, step_sync_finishes,
  step_requests, step_notifies,
}
use clsp.Server.Run.{
  Event, receives, worker_wakes, sync_wakes, worker_finishes, sync_finishes, requests, notifies,
  step, run_task,
}
use clsp.Server.Answers.{settled, asked, is_owed}
use clsp.Server.Answers.Requests.{IsSound, IsNotification}
use clsp.Server.Answers.Received.{receive-Settles}
use clsp.Server.Answers.Tasks.{
  IsWritten, run_task-Settles, send_request-Settles, send_notification-Settles,
}

module _ (J : JsonLib) (H : JsonLaws J) (i : RequestId) where
  open J use {Json}

  worker_wakes-Settles :
      (s : Server Json) (p : ThreadPool (Task Json)) (n : ℕ)
      → ThreadPool.step s.worker_pool (wakes n) ≡ some p
      → IsReady J H (plumbing s)
      → Settles J H i s 0 (record s { worker_pool = p })
  unfolding settled
  worker_wakes-Settles s p n e r = (
    record {
      open_pool = Open-wake s.worker_pool p n e r.open_pool;
      tasks = OfTasks-wake (IsSound J H) s.worker_pool p n e r.tasks;
      sync_tasks = r.sync_tasks;
      handlers = r.handlers;
      placed = r.placed;
      next_id = r.next_id;
    },
    omega (arith, pool_total-wake (is_owed i) s.worker_pool p n e),
  )

  sync_wakes-Settles :
      (s : Server Json) (p : ThreadPool (Task Json)) (n : ℕ)
      → ThreadPool.step s.sync_executor (wakes n) ≡ some p
      → IsReady J H (plumbing s)
      → Settles J H i s 0 (record s { sync_executor = p })
  unfolding settled
  sync_wakes-Settles s p n e r = (
    record {
      open_pool = r.open_pool;
      tasks = r.tasks;
      sync_tasks = OfTasks-wake IsNotification s.sync_executor p n e r.sync_tasks;
      handlers = r.handlers;
      placed = r.placed;
      next_id = r.next_id;
    },
    omega arith,
  )

  worker_finishes-Settles :
      (s : Server Json) (t : Task Json) (n : ℕ) (at_start : Bool)
      → get_elem? s.worker_pool.workers n ≡ some (running t)
      → IsReady J H (plumbing s)
      → (run_task J t at_start s).0 ≡ ok tt
      → Settles J H i s 0
          (let u = (run_task J t at_start s).1 in record u { worker_pool = finish u.worker_pool n })
  unfolding settled finish
  worker_finishes-Settles s t n at_start e r returned =
      let u = (run_task J t at_start s).1 in
      let sound = OfTasks-running (IsSound J H) s.worker_pool n t r.tasks e in
      let (ready, count) = run_task-Settles J H i t at_start s r sound returned in
      let same : u.worker_pool ≡ s.worker_pool = ap (λ x. x.0) (run_task-pools J t at_start s) in
      let runs = ap (λ x. get_elem? x.workers n) same ∙ e in
      (
        record {
          open_pool = Open-finish u.worker_pool n ready.open_pool;
          tasks = OfTasks-finish (IsSound J H) u.worker_pool n ready.tasks;
          sync_tasks = ready.sync_tasks;
          handlers = ready.handlers;
          placed = ready.placed;
          next_id = ready.next_id;
        },
        omega (arith, count, pool_total-finish (is_owed i) u.worker_pool n t runs),
      )

  notification-Settles :
      (t : Task Json) (at_start : Bool) (s : Server Json)
      → IsReady J H (plumbing s)
      → IsNotification t
      → Settles J H i s 0 (run_task J t at_start s).1
  unfolding run_task
  notification-Settles (notification_task h params) at_start s r k =
      Settles-plumbing J H i s _ r (run_notification_handler-plumbing J h params s)
  notification-Settles (request_task id params h token) at_start s r k = absurd (cc)
  notification-Settles (callback_task c payload is_error) at_start s r k = absurd (cc)

  sync_finishes-Settles :
      (s : Server Json) (t : Task Json) (n : ℕ) (at_start : Bool)
      → get_elem? s.sync_executor.workers n ≡ some (running t)
      → IsReady J H (plumbing s)
      → Settles J H i s 0 (
          let u = (run_task J t at_start s).1 in
          record u { sync_executor = finish u.sync_executor n })
  unfolding settled finish
  sync_finishes-Settles s t n at_start e r =
      let u = (run_task J t at_start s).1 in
      let (ready, count) =
        notification-Settles t at_start s r
          (OfTasks-running IsNotification s.sync_executor n t r.sync_tasks e) in
      (
        record {
          open_pool = ready.open_pool;
          tasks = ready.tasks;
          sync_tasks = OfTasks-finish IsNotification u.sync_executor n ready.sync_tasks;
          handlers = ready.handlers;
          placed = ready.placed;
          next_id = ready.next_id;
        },
        count,
      )

  -- What a step adds to the requests received, it adds to those settled.
  pub step-Settles :
      (s q : Server Json) (e : Event Json) (u : Unit {0})
      → step J s e ≡ some (ok u, q)
      → IsWritten J H e
      → IsReady J H (plumbing s)
      → Settles J H i s (asked J i (e ∷ [])) q
  unfolding asked
  step-Settles s q (receives raw) u e w r =
      let g = step_receives J s raw _ e in
      let f = ap (λ x. x.1) g in
      let (ready, count) = receive-Settles J H i raw s r (sym (ap (λ x. x.0) g)) in
      subst (λ x. Settles J H i s (asked J i (receives raw ∷ [])) x) (sym f)
        (ready, omega (arith, count))
  step-Settles s q (worker_wakes n) u e w r =
      let (p, f, g) = step_worker_wakes J s q n (ok u) e in
      subst (λ x. Settles J H i s 0 x) (sym g) (worker_wakes-Settles s p n f r)
  step-Settles s q (sync_wakes n) u e w r =
      let (p, f, g) = step_sync_wakes J s q n (ok u) e in
      subst (λ x. Settles J H i s 0 x) (sym g) (sync_wakes-Settles s p n f r)
  step-Settles s q (worker_finishes n a) u e w r =
      let (t, f, g, k) = step_worker_finishes J s q n a u e in
      subst (λ x. Settles J H i s 0 x) (sym g) (worker_finishes-Settles s t n a f r k)
  step-Settles s q (sync_finishes n a) u e w r =
      let (t, f, g, k) = step_sync_finishes J s q n a u e in
      subst (λ x. Settles J H i s 0 x) (sym g) (sync_finishes-Settles s t n a f r)
  step-Settles s q (requests method params callback) u e w r =
      let f = ap (λ x. x.1) (step_requests J s method params callback _ e) in
      subst (λ x. Settles J H i s 0 x) (sym f)
        (send_request-Settles J H i method params callback s w r)
  step-Settles s q (notifies method params) u e w r =
      let f = ap (λ x. x.1) (step_notifies J s method params _ e) in
      subst (λ x. Settles J H i s 0 x) (sym f) (send_notification-Settles J H i method params s w r)
