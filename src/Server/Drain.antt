-- ===== src/Server/Drain.antt =====
-- The workers of the server can finish what the worker pool holds, where its tasks let nothing out.
use clsp.Base.{
  ℕ, zero, suc, ◌+◌, ◌≤◌, String, ◌≡◌, refl, sym, subst, ap, ◌∙◌, Bool, true, false, none, some,
  List, [], ◌∷◌, arith, if◌then◌else◌, get_elem?, All, string_eq, All-map,
}
use clsp.Errors.{Result, ok, err}
use clsp.Json.{JsonLib, JsonLaws}
use clsp.Rpc.{RequestId, str}
use clsp.ThreadPool.{ThreadPool, running, finish, wakes}
use clsp.ThreadPool
use clsp.ThreadPool.Contents.{
  Idle, pool_total-Idle, OfTasks, OfTasks-running, OfTasks-wake, OfTasks-finish,
}
use clsp.ThreadPool.Open.{CanGoOn, to_finish, to_wake, is_done, Open-CanGoOn, load, load-finish}
use clsp.Store.{DocumentStore}
use clsp.Server.State.{
  Server, Task, Hooks, RequestHandler, make, request_task, notification_task, callback_task,
}
use clsp.Server.Exec.{modify, ◌>>=◌}
use clsp.Server.Kept.{plumbing}
use clsp.Server.Pools.{run_task-pools}
use clsp.Server.Run.{
  Event, worker_wakes, worker_finishes, step, run, run_task, end_of_task, running_task, returned,
  set_worker_pool, starts_well, receives, sync_wakes, sync_finishes, requests, notifies,
}
use clsp.Server.Robust.{IsSafe, Returns, run_task-Returns}
use clsp.Server.Answers.{answers, asked, is_owed, settled}
use clsp.Server.Answers.Requests.{Writes, IsSound}
use clsp.Server.Answers.Ready.{IsReady}
use clsp.Server.Answers.Tasks.{IsWritten}
use clsp.Server.Answers.Steps.{step-Settles}
use clsp.Server.Answers.Start.{with_handlers}
use clsp.Server.Answers.Run.{run-Settles, run_of_make-Settles}

module _ {Json : Type 0} where
  abbrev is_work : Event Json → Bool
  is_work (worker_wakes i) = true
  is_work (worker_finishes i at_start) = true
  is_work _ = false

  -- A step of a worker.
  abbrev pub IsWork : Event Json → Type 0
  IsWork e = is_work e ≡ true

module _ (J : JsonLib) (H : JsonLaws J) where
  open J use {Json}

  IsWork-IsWritten : (e : Event Json) → IsWork e → IsWritten J H e
  IsWork-IsWritten (worker_wakes i) k = tt
  IsWork-IsWritten (worker_finishes i a) k = tt
  IsWork-IsWritten (receives raw) k = absurd (cc)
  IsWork-IsWritten (sync_wakes i) k = absurd (cc)
  IsWork-IsWritten (sync_finishes i a) k = absurd (cc)
  IsWork-IsWritten (requests method params callback) k = absurd (cc)
  IsWork-IsWritten (notifies method params) k = absurd (cc)

  asked-IsWork : (i : RequestId) (es : List (Event Json)) → All IsWork es → asked J i es ≡ 0
  unfolding asked
  asked-IsWork i [] h = refl
  asked-IsWork i (worker_wakes n ∷ es) (k, h) = asked-IsWork i es h
  asked-IsWork i (worker_finishes n a ∷ es) (k, h) = asked-IsWork i es h
  asked-IsWork i (receives raw ∷ es) (k, h) = absurd (cc)
  asked-IsWork i (sync_wakes n ∷ es) (k, h) = absurd (cc)
  asked-IsWork i (sync_finishes n a ∷ es) (k, h) = absurd (cc)
  asked-IsWork i (requests method params callback ∷ es) (k, h) = absurd (cc)
  asked-IsWork i (notifies method params ∷ es) (k, h) = absurd (cc)

  finished :
      (m : Result (Unit {0}) × Server Json) (free : Server Json → Server Json)
      → Returns m
      → ((λ (s : Server Json). m) >>= (λ (v : Unit {0}). modify free)) m.1 ≡ (ok tt, free m.1)
  finished (ok v, s) free e = refl
  finished (err x, s) free e = absurd (cc)

  starts_at_once : (t : Task Json) (flags : List Bool) → starts_well t false flags ≡ true
  unfolding starts_well
  starts_at_once (request_task id params h token) flags = refl
  starts_at_once (notification_task h params) flags = refl
  starts_at_once (callback_task c payload is_error) flags = refl

  ends :
      (t : Task Json) (free : Server Json → Server Json) (s : Server Json)
      → Returns (run_task J t false s)
      → end_of_task J (some t) false free s ≡ some (ok tt, free (run_task J t false s).1)
  unfolding end_of_task
  ends t free s e =
      ap
        (λ b.
          if b
          then some (
              ((λ (x : Server Json). run_task J t false s) >>= (λ (v : Unit {0}). modify free))
                (run_task J t false s).1)
          else none)
        (starts_at_once t s.flags)
      ∙ ap some (finished (run_task J t false s) free e)

  -- What the task calls is safe, whatever the state in which it runs.
  abbrev pub IsAlwaysSafe : Task Json → Type 0
  IsAlwaysSafe t = (s : Server Json) → IsSafe J H s t

  finish-step :
      (s : Server Json) (i : ℕ) (t : Task Json)
      → IsReady J H (plumbing s)
      → OfTasks IsAlwaysSafe s.worker_pool
      → get_elem? s.worker_pool.workers i ≡ some (running t)
      → step J s (worker_finishes i false)
        ≡ some (
          ok tt,
          (let u = (run_task J t false s).1 in record u { worker_pool = finish u.worker_pool i }),
        )
  unfolding step running_task
  finish-step s i t r c e =
      let sound = OfTasks-running (IsSound J H) s.worker_pool i t r.tasks e in
      let free : Server Json → Server Json =
        λ q. record q { worker_pool = finish q.worker_pool i } in
      ap (λ o. end_of_task J (running_task o) false free s) e
      ∙ ends t free s (
          run_task-Returns J H t false s sound
            (OfTasks-running IsAlwaysSafe s.worker_pool i t c e s))

  wake-step :
      (s : Server Json) (i : ℕ) (p : ThreadPool (Task Json))
      → ThreadPool.step s.worker_pool (wakes i) ≡ some p
      → step J s (worker_wakes i) ≡ some (ok tt, record s { worker_pool = p })
  unfolding step returned set_worker_pool ThreadPool.step
  wake-step s i p e = ap (λ o. returned (set_worker_pool s o)) e

  -- A run of workers alone that leaves nothing to do.
  pub record Drains (s : Server Json) : Type 0 where
    pub events : List (Event Json)
    pub last : Server Json
    pub work : All IsWork events
    pub ran : run J s events ≡ some last
    pub idle : Idle last.worker_pool

  then_Drains :
      (s t : Server Json) (e : Event Json)
      → IsWork e
      → step J s e ≡ some (ok tt, t)
      → Drains t
      → Drains s
  unfolding run
  then_Drains s t e k f d = record {
    events = e ∷ d.events;
    last = d.last;
    work = (k, d.work);
    ran = rw (f, run) d.ran;
    idle = d.idle;
  }

  Drains-CanGoOn :
      (n : ℕ) (s : Server Json)
      → ((t : Server Json)
          → IsReady J H (plumbing t)
          → OfTasks IsAlwaysSafe t.worker_pool
          → load t.worker_pool + 1 ≤ n
          → Drains t)
      → IsReady J H (plumbing s)
      → OfTasks IsAlwaysSafe s.worker_pool
      → load s.worker_pool ≤ n
      → CanGoOn s.worker_pool
      → Drains s
  unfolding run
  Drains-CanGoOn n s k r c h (is_done e) = record {
    events = [];
    last = s;
    work = tt;
    ran = refl;
    idle = e;
  }
  Drains-CanGoOn n s k r c h (to_wake p e lower) =
      let f = wake-step s 0 p e in
      let t : Server Json = record s { worker_pool = p } in
      let (ready, count) = step-Settles J H (str "") s t (worker_wakes 0) tt f tt r in
      then_Drains s t (worker_wakes 0) refl f
        (k t ready (OfTasks-wake IsAlwaysSafe s.worker_pool p 0 e c) (omega (arith, h, lower)))
  Drains-CanGoOn n s k r c h (to_finish i task e) =
      let f = finish-step s i task r c e in
      let u = (run_task J task false s).1 in
      let t : Server Json = record u { worker_pool = finish u.worker_pool i } in
      let (ready, count) = step-Settles J H (str "") s t (worker_finishes i false) tt f tt r in
      let same : load t.worker_pool ≡ load (finish s.worker_pool i) =
        ap (λ p. load (finish p.0 i)) (run_task-pools J task false s) in
      then_Drains s t (worker_finishes i false) refl f (
        k t ready
          (subst (λ p. OfTasks IsAlwaysSafe (finish p.0 i)) (sym (run_task-pools J task false s))
            (OfTasks-finish IsAlwaysSafe s.worker_pool i c))
          (omega (arith, h, same, load-finish s.worker_pool i task e)))

  drains :
      (n : ℕ) (s : Server Json)
      → IsReady J H (plumbing s)
      → OfTasks IsAlwaysSafe s.worker_pool
      → load s.worker_pool ≤ n
      → Drains s
  drains zero s r c h =
      Drains-CanGoOn zero s (λ t q c l. absurd (omega (arith, l))) r c h
        (Open-CanGoOn s.worker_pool r.open_pool)
  drains (suc n) s r c h =
      Drains-CanGoOn (suc n) s (λ t q c l. drains n t q c (omega (arith, l))) r c h
        (Open-CanGoOn s.worker_pool r.open_pool)

  -- Each request can be answered: from any state that a run of a server reaches, with the handlers
  -- that a subclass registered, where their results and what user code sends can be written, and
  -- where the tasks in the worker pool are safe (a request handler throws only what is a
  -- `std::exception` with a UTF-8 `what()`, a notification handler only what is a `std::exception`,
  -- a response callback nothing), there are steps of the workers alone after which the worker pool
  -- is idle and the responses to each id that were sent are as many as the requests with that id
  -- that were received.
  pub run-Drains :
      (hooks : Hooks Json) (documents : DocumentStore) (worker_threads default_count : ℕ)
      (hs : List (String × RequestHandler Json)) (ns : List (String × (Json → Result (Unit {0}))))
      (es : List (Event Json)) (q : Server Json)
      → All (λ h. Writes J H h.1) hs
      → All (IsWritten J H) es
      → run J (with_handlers hs ns (make hooks documents worker_threads default_count)) es ≡ some q
      → OfTasks IsAlwaysSafe q.worker_pool
      → (d : Drains q) × ((i : RequestId) → answers J i d.last.sent ≡ asked J i es)
  unfolding settled
  run-Drains hooks documents w c hs ns es q writes written e safe =
      let (ready, count) =
        run_of_make-Settles J H (str "") hooks documents w c hs ns es q writes written e in
      let d = drains (load q.worker_pool) q ready safe (omega arith) in
      (
        d,
        λ i.
            let (ready, before) =
              run_of_make-Settles J H i hooks documents w c hs ns es q writes written e in
            let (last, later) =
              run-Settles J H i d.events q d.last d.ran (All-map IsWork-IsWritten d.events d.work)
                ready in
            omega (
              arith,
              before,
              later,
              asked-IsWork i d.events d.work,
              pool_total-Idle (is_owed i) d.last.worker_pool d.idle,
            ),
      )
