-- ===== src/Server/Robust/Run.antt =====
-- When a step of a thread lets no exception out.
use clsp.Base.{
  ℕ, String, ◌≡◌, refl, sym, subst, Bool, Option, none, some, string_eq, List, get_elem?, All,
}
use clsp.Errors.{Result, ok, err}
use clsp.Json.{JsonLib, JsonLaws}
use clsp.Server.State.{Server, Task, state_eq, RequestHandler, Hooks, Callback, make}
use clsp.Server.Run.{
  run_task, end_of_task, running_task, returned, starts_well, Event, receives, worker_wakes,
  sync_wakes, worker_finishes, sync_finishes, requests, notifies, step, run,
}
use clsp.Server.Steps.{allowed, running_task_cases, step_receives, step_requests, step_notifies}
use clsp.Server.Exec.{modify, ◌>>=◌}
use clsp.Server.Send.{send, send_request, send_notification}
use clsp.Rpc.Roundtrip.{parse_message-serialize_request, parse_message-serialize_notification}
use clsp.ThreadPool.{running}
use clsp.ThreadPool.Contents.{OfTasks-running}
use clsp.Store.{DocumentStore}
use clsp.Server.Answers.Tasks.{IsWritten}
use clsp.Server.Answers.Start.{with_handlers}
use clsp.Server.Answers.Run.{run-IsReady}
use clsp.Server.Kept.{plumbing}
use clsp.Server.Answers.Requests.{Writes, IsSound, IsNotification}
use clsp.Server.Answers.Ready.{IsReady}
use clsp.Server.Robust.{
  IsSafe, IsSafeText, Returns, receive-Returns, run_task-Returns, notification-Returns,
}

module _ (J : JsonLib) (H : JsonLaws J) where
  open J use {Json}

  task-Returns :
      (m : Result (Unit {0}) × Server Json) (free : Server Json → Server Json)
      → Returns m
      → Returns (((λ (s : Server Json). m) >>= (λ (v : Unit {0}). modify free)) m.1)
  task-Returns (ok v, s) free e = refl
  task-Returns (err x, s) free e = absurd (cc)

  end_of_task-Returns :
      (o : Option (Task Json)) (a : Bool) (free : Server Json → Server Json) (s : Server Json)
      (x : Result (Unit {0}) × Server Json)
      → end_of_task J o a free s ≡ some x
      → ((t : Task Json) → o ≡ some t → Returns (run_task J t a s))
      → Returns x
  unfolding end_of_task
  end_of_task-Returns none a free s x e k = absurd (cc)
  end_of_task-Returns (some t) a free s x e k =
      subst Returns (allowed J (starts_well t a s.flags) _ x e)
        (task-Returns (run_task J t a s) free (k t refl))

  returned-Returns :
      (o : Option (Server Json)) (x : Result (Unit {0}) × Server Json)
      → returned o ≡ some x
      → Returns x
  unfolding returned
  returned-Returns none x e = absurd (cc)
  returned-Returns (some s) x e = let f : (ok tt, s) ≡ x = cc in subst Returns f refl

  send_request-Returns :
      (method : String) (params : Json) (callback : Callback Json) (s : Server Json)
      → H.IsText params
      → IsReady J H (plumbing s)
      → Returns (send_request J method params callback s)
  unfolding send_request
  send_request-Returns method params callback s w r =
      let (t, written, parsed) =
        parse_message-serialize_request J H s.next_outgoing_id method params r.next_id w in
      rw (written, send) refl

  send_notification-Returns :
      (method : String) (params : Json) (s : Server Json)
      → H.IsText params
      → Returns (send_notification J method params s)
  unfolding send_notification
  send_notification-Returns method params s w =
      let (t, written, parsed) = parse_message-serialize_notification J H method params w in
      rw (written, send_notification) refl

  -- What the user code and the JSON library do in the step `e` from the state `s`.
  abbrev pub IsSafeStep : Event Json → Server Json → Type 0
  IsSafeStep (receives raw) s = IsSafeText J H raw s
  IsSafeStep (worker_finishes n a) s =
      (t : Task Json) → get_elem? s.worker_pool.workers n ≡ some (running t) → IsSafe J H s t
  IsSafeStep (sync_finishes n a) s =
      (t : Task Json) → get_elem? s.sync_executor.workers n ≡ some (running t) → IsSafe J H s t
  IsSafeStep _ s = Unit

  -- A step of a ready server throws nothing.
  step-Returns :
      (s : Server Json) (e : Event Json) (x : Result (Unit {0}) × Server Json)
      → step J s e ≡ some x
      → IsWritten J H e
      → IsReady J H (plumbing s)
      → IsSafeStep e s
      → Returns x
  unfolding step
  step-Returns s (receives raw) x e w r k =
      subst Returns (sym (step_receives J s raw x e)) (receive-Returns J H raw s r k)
  step-Returns s (worker_wakes n) x e w r k = returned-Returns _ x e
  step-Returns s (sync_wakes n) x e w r k = returned-Returns _ x e
  step-Returns s (worker_finishes n a) x e w r k =
      end_of_task-Returns (running_task (get_elem? s.worker_pool.workers n)) a _ s x e (λ t f.
        run_task-Returns J H t a s
          (OfTasks-running (IsSound J H) s.worker_pool n t r.tasks (running_task_cases _ t f))
          (k t (running_task_cases _ t f)))
  step-Returns s (sync_finishes n a) x e w r k =
      end_of_task-Returns (running_task (get_elem? s.sync_executor.workers n)) a _ s x e (λ t f.
        notification-Returns J H t a s
          (OfTasks-running IsNotification s.sync_executor n t r.sync_tasks
            (running_task_cases _ t f))
          (k t (running_task_cases _ t f)))
  step-Returns s (requests method params callback) x e w r k =
      subst Returns (sym (step_requests J s method params callback x e))
        (send_request-Returns method params callback s w r)
  step-Returns s (notifies method params) x e w r k =
      subst Returns (sym (step_notifies J s method params x e))
        (send_notification-Returns method params s w)

  -- The server's own code throws nothing: in any run of a server with the handlers that a subclass
  -- registered, where their results and what user code sends can be written, a step of any thread
  -- that can happen next returns if what it calls is safe: `json::parse` throws nothing but a
  -- `parse_error`, `onExit` and a response callback throw nothing, a request handler throws only
  -- what is a `std::exception` with a UTF-8 `what()`, and a notification handler only what is a
  -- `std::exception`.
  pub run-Returns :
      (hooks : Hooks Json) (documents : DocumentStore) (worker_threads default_count : ℕ)
      (hs : List (String × RequestHandler Json)) (ns : List (String × (Json → Result (Unit {0}))))
      (es : List (Event Json)) (q : Server Json) (e : Event Json)
      (x : Result (Unit {0}) × Server Json)
      → All (λ h. Writes J H h.1) hs
      → All (IsWritten J H) es
      → IsWritten J H e
      → run J (with_handlers hs ns (make hooks documents worker_threads default_count)) es ≡ some q
      → IsSafeStep e q
      → step J q e ≡ some x
      → x.0 ≡ ok tt
  run-Returns hooks documents w d hs ns es q e x writes written now ran k stepped =
      step-Returns q e x stepped now
        (run-IsReady J H hooks documents w d hs ns es q writes written ran) k
