-- ===== src/Server/Steps.antt =====
-- What a step of `Server.Run` that goes on has done, event by event.
use clsp.Base.{
  ℕ, ◌≡◌, refl, sym, ap, Bool, true, false, Option, none, some, if◌then◌else◌, Bytes, get_elem?,
  ◌==◌, string_eq, String, List,
}
use clsp.Errors.{Result, ok, err}
use clsp.Json.{JsonLib}
use clsp.ThreadPool.{ThreadPool, Worker, running, waiting, exited, wake, wakes, finish}
use clsp.ThreadPool
use clsp.Server.Exec.{modify, ◌>>=◌}
use clsp.Server.State.{Callback, Server, Task, state_eq}
use clsp.Server.State as State
use clsp.Server.Dispatch.{receive}
use clsp.Server.Run.{
  run, receives, worker_wakes, sync_wakes, worker_finishes, sync_finishes, step, run_task,
  end_of_task, running_task, set_worker_pool, set_sync_executor, returned, starts_well, notifies,
  requests, Event,
}
use clsp.Server.Send.{send_notification, send_request}

module _ {Json : Type 0} where
  pub running_task_cases :
      (w : Option (Worker (Task Json))) (t : Task Json)
      → running_task w ≡ some t
      → w ≡ some (running t)
  unfolding running_task
  running_task_cases none t e = absurd (cc)
  running_task_cases (some waiting) t e = absurd (cc)
  running_task_cases (some exited) t e = absurd (cc)
  running_task_cases (some (running s)) t e = let f : s ≡ t = cc in ap (λ x. some (running x)) f

  returned_cases :
      (o : Option (Server Json)) (r : Result (Unit {0})) (q : Server Json)
      → returned o ≡ some (r, q)
      → o ≡ some q
  unfolding returned
  returned_cases none r q e = absurd (cc)
  returned_cases (some s) r q e = cc

  set_worker_pool_cases :
      (s q : Server Json) (o : Option (ThreadPool (Task Json)))
      → set_worker_pool s o ≡ some q
      → (p : ThreadPool (Task Json)) × (o ≡ some p) × (q ≡ record s { worker_pool = p })
  unfolding set_worker_pool
  set_worker_pool_cases s q none e = absurd (cc)
  set_worker_pool_cases s q (some p) e = (p, refl, sym (cc))

  set_sync_executor_cases :
      (s q : Server Json) (o : Option (ThreadPool (Task Json)))
      → set_sync_executor s o ≡ some q
      → (p : ThreadPool (Task Json)) × (o ≡ some p) × (q ≡ record s { sync_executor = p })
  unfolding set_sync_executor
  set_sync_executor_cases s q none e = absurd (cc)
  set_sync_executor_cases s q (some p) e = (p, refl, sym (cc))

module _ (J : JsonLib) where
  open J use {Json}

  freed :
      (m : Result (Unit {0}) × Server Json) (free : Server Json → Server Json) (u : Unit {0})
      (q : Server Json)
      → ((λ (x : Server Json). m) >>= (λ (v : Unit {0}). modify free)) m.1 ≡ (ok u, q)
      → (q ≡ free m.1) × (m.0 ≡ ok tt)
  freed (ok v, s) free u q e = (sym (ap (λ x. x.1) e), refl)
  freed (err x, s) free u q e = absurd (let f = ap (λ y. y.0) e in cc)

  pub allowed : {A : Type 0} → (b : Bool) (x y : A) → (if b then some x else none) ≡ some y → x ≡ y
  allowed true x y e = cc
  allowed false x y e = absurd (cc)

  end_of_task_cases :
      (o : Option (Task Json)) (a : Bool) (free : Server Json → Server Json) (s q : Server Json)
      (u : Unit {0})
      → end_of_task J o a free s ≡ some (ok u, q)
      → (t : Task Json) × (o ≡ some t)
        × (q ≡ free (run_task J t a s).1)
        × ((run_task J t a s).0 ≡ ok tt)
  unfolding end_of_task
  end_of_task_cases none a free s q u e = absurd (cc)
  end_of_task_cases (some t) a free s q u e =
      let (f, g) = freed (run_task J t a s) free u q (allowed (starts_well t a s.flags) _ _ e) in
      (t, refl, f, g)

  received : {A : Type 0} → (b : Bool) (x y : A) → (if b then none else some x) ≡ some y → y ≡ x
  received true x y e = absurd (cc)
  received false x y e = cc

  pub step_receives :
      (s : Server Json) (raw : Bytes) (x : Result (Unit {0}) × Server Json)
      → step J s (receives raw) ≡ some x
      → x ≡ receive J raw s
  unfolding step
  step_receives s raw x e = received (s.state == State.exited) (receive J raw s) x e

  pub step_worker_wakes :
      (s q : Server Json) (i : ℕ) (r : Result (Unit {0}))
      → step J s (worker_wakes i) ≡ some (r, q)
      → (p : ThreadPool (Task Json)) × (ThreadPool.step s.worker_pool (wakes i) ≡ some p)
        × (q ≡ record s { worker_pool = p })
  unfolding step ThreadPool.step
  step_worker_wakes s q i r e = set_worker_pool_cases s q _ (returned_cases _ r q e)

  pub step_sync_wakes :
      (s q : Server Json) (i : ℕ) (r : Result (Unit {0}))
      → step J s (sync_wakes i) ≡ some (r, q)
      → (p : ThreadPool (Task Json)) × (ThreadPool.step s.sync_executor (wakes i) ≡ some p)
        × (q ≡ record s { sync_executor = p })
  unfolding step ThreadPool.step
  step_sync_wakes s q i r e = set_sync_executor_cases s q _ (returned_cases _ r q e)

  pub step_worker_finishes :
      (s q : Server Json) (i : ℕ) (a : Bool) (u : Unit {0})
      → step J s (worker_finishes i a) ≡ some (ok u, q)
      → (t : Task Json) × (get_elem? s.worker_pool.workers i ≡ some (running t))
        × (q ≡ (let r = (run_task J t a s).1 in record r { worker_pool = finish r.worker_pool i }))
        × ((run_task J t a s).0 ≡ ok tt)
  unfolding step
  step_worker_finishes s q i a u e =
      let (t, f, g, k) =
        end_of_task_cases (running_task (get_elem? s.worker_pool.workers i)) a _ s q u e in
      (t, running_task_cases _ t f, g, k)

  pub step_sync_finishes :
      (s q : Server Json) (i : ℕ) (a : Bool) (u : Unit {0})
      → step J s (sync_finishes i a) ≡ some (ok u, q)
      → (t : Task Json) × (get_elem? s.sync_executor.workers i ≡ some (running t))
        × (q ≡ (
            let r = (run_task J t a s).1 in record r { sync_executor = finish r.sync_executor i }))
        × ((run_task J t a s).0 ≡ ok tt)
  unfolding step
  step_sync_finishes s q i a u e =
      let (t, f, g, k) =
        end_of_task_cases (running_task (get_elem? s.sync_executor.workers i)) a _ s q u e in
      (t, running_task_cases _ t f, g, k)

  pub step_requests :
      (s : Server Json) (method : String) (params : Json) (callback : Callback Json)
      (x : Result (Unit {0}) × Server Json)
      → step J s (requests method params callback) ≡ some x
      → x ≡ send_request J method params callback s
  unfolding step
  step_requests s method params callback x e = sym (cc)

  pub step_notifies :
      (s : Server Json) (method : String) (params : Json) (x : Result (Unit {0}) × Server Json)
      → step J s (notifies method params) ≡ some x
      → x ≡ send_notification J method params s
  unfolding step
  step_notifies s method params x e = sym (cc)

  -- A run that goes on.
  pub run_cases :
      (o : Option (Result (Unit {0}) × Server Json)) (es : List (Event Json)) (q : Server Json)
      → elim o [ none ↦ none | some (r, t) ↦ elim r [ ok u ↦ run J t es | err x ↦ none ] ] ≡ some q
      → (u : Unit {0}) × (t : Server Json) × (o ≡ some (ok u, t)) × (run J t es ≡ some q)
  run_cases none es q e = absurd (cc)
  run_cases (some (ok u, t)) es q e = (u, t, refl, e)
  run_cases (some (err x, t)) es q e = absurd (cc)
