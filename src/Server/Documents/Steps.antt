-- ===== src/Server/Documents/Steps.antt =====
-- The document store over the steps of all threads.
use clsp.Base.{
  ℕ, String, ◌≡◌, refl, ap, ◌∙◌, inl, inr, Bool, true, false, Option, none, some, List, Bool-cases,
  Bytes, get_elem?, All, ◌==◌, string_eq,
}
use clsp.Errors.{Result, ok, ErrorCodes, Result-cases}
use clsp.Base.Dict.{lookup}
use clsp.Base.Int.{ℤ}
use clsp.Json.{JsonLib, JsonLaws}
use clsp.Rpc.{
  RequestId, num, str, ParsedMessage, ParsedRequest, ParsedNotification, ParsedResponse, request,
  notification, response, error, parse_message, serialize_error_null, serialize_request,
}
use clsp.Store.{DocumentStore}
use clsp.ThreadPool.{running}
use clsp.ThreadPool.Contents.{OfTasks-running}
use clsp.Server.State.{
  Server, Task, Hooks, make, request_task, notification_task, callback_task, RequestHandler,
  NotificationHandler, uninitialized, state_eq, Callback,
}
use clsp.Server.Send.{send_error, send_request, send_notification}
use clsp.Server.Dispatch.{
  run_notification_handler, handle_request, handle_notification, handle_message, receive,
  is_lifecycle_request, is_inline_notification, is_sync_notification, route_notification,
  answer_pending, handle_response, handle_response_id, submit_request, submit_work, submit_sync,
}
use clsp.Server.Gate.{Gated, handle_request_lem}
use clsp.Server.Kept.{plumbing}
use clsp.Server.Steps.{
  step_receives, step_worker_wakes, step_sync_wakes, step_worker_finishes, step_sync_finishes,
  step_requests, step_notifies,
}
use clsp.Server.Run.{
  Event, receives, worker_wakes, sync_wakes, worker_finishes, sync_finishes, requests, notifies,
  step, run, run_task,
}
use clsp.Server.Serial.{not_inline}
use clsp.Server.Answers.Requests.{changes_documents, IsSound, IsNotification, Writes}
use clsp.Server.Answers.Ready.{IsReady}
use clsp.Server.Answers.Tasks.{IsWritten}
use clsp.Server.Answers.Start.{with_handlers}
use clsp.Server.Answers.Run.{run-IsReady}
use clsp.Server.Documents.{
  open_documents, run_notification_handler-open, run_request_handler-open, send-open, run_task-open,
}

module _ (J : JsonLib) (H : JsonLaws J) where
  open J use {Json}

  Gated-open :
      (req : ParsedRequest Json) (s : Server Json) (o : Option ErrorCodes)
      → Gated J H req s o
      → open_documents (handle_request J req s).1 ≡ open_documents s
  unfolding send_error submit_request submit_work
  Gated-open req s (some c) (m, e) = ap (λ x. open_documents x.1) e ∙ send-open J _ s
  Gated-open req s none (h, l, e) =
      ap (λ x. open_documents x.1) e ∙ (elim (Bool-cases (is_lifecycle_request req.method)) [
        | inl b ↦ rw b (run_request_handler-open J req.id req.params h false false s)
        | inr b ↦ rw b refl
      ])

  inline-aside :
      (m : String) (h : NotificationHandler Json) (s : Server Json)
      → IsReady J H (plumbing s)
      → lookup m s.notification_handlers ≡ some h
      → is_inline_notification m ≡ true
      → changes_documents h ≡ false
  inline-aside m h s r l c = elim (Bool-cases (changes_documents h)) [
    | inl b ↦ absurd (let e = not_inline m (r.placed m h l b) in cc)
    | inr b ↦ b
  ]

  route_notification-open :
      (n : ParsedNotification Json) (h : Option (NotificationHandler Json)) (s : Server Json)
      → IsReady J H (plumbing s)
      → lookup n.method s.notification_handlers ≡ h
      → open_documents (route_notification J n h s).1 ≡ open_documents s
  unfolding route_notification submit_sync submit_work
  route_notification-open n none s r l = refl
  route_notification-open n (some h) s r l = elim (Bool-cases (is_inline_notification n.method)) [
    | inl b ↦ rw b (run_notification_handler-open J h n.params (inline-aside n.method h s r l b) s)
    | inr b ↦ elim (Bool-cases (is_sync_notification n.method)) [
      | inl c ↦ rw (b, c) refl
      | inr c ↦ rw (b, c) refl
    ]
  ]

  handle_notification-open :
      (n : ParsedNotification Json) (s : Server Json)
      → IsReady J H (plumbing s)
      → open_documents (handle_notification J n s).1 ≡ open_documents s
  unfolding handle_notification
  handle_notification-open n s r = elim (Bool-cases (n.method == "exit")) [
    | inl b ↦ rw (b, handle_notification) refl
    | inr b ↦ elim (Bool-cases (s.state == uninitialized)) [
      | inl c ↦ rw (b, c, handle_notification) refl
      | inr c ↦
          rw (b, c, handle_notification)
            (route_notification-open n (lookup n.method s.notification_handlers) s r refl)
    ]
  ]

  answer_pending-open :
      (a : ParsedResponse Json) (z : ℤ) (o : Option (Callback Json)) (s : Server Json)
      → open_documents (answer_pending J a z o s).1 ≡ open_documents s
  unfolding answer_pending submit_work
  answer_pending-open a z none s = refl
  answer_pending-open a z (some c) s = refl

  handle_response-open :
      (a : ParsedResponse Json) (id : RequestId) (s : Server Json)
      → open_documents (handle_response_id J a id s).1 ≡ open_documents s
  unfolding handle_response_id
  handle_response-open a (num z) s = answer_pending-open a z _ s
  handle_response-open a (str t) s = refl

  handle_message-open :
      (m : ParsedMessage Json) (s : Server Json)
      → IsReady J H (plumbing s)
      → open_documents (handle_message J m s).1 ≡ open_documents s
  unfolding handle_message handle_response
  handle_message-open (request req) s r = Gated-open req s _ (handle_request_lem J H req s)
  handle_message-open (notification n) s r = handle_notification-open n s r
  handle_message-open (response a) s r = handle_response-open a a.id s
  handle_message-open (error y) s r = send-open J (serialize_error_null J y.code y.message) s

  receive-open :
      (raw : Bytes) (s : Server Json)
      → IsReady J H (plumbing s)
      → open_documents (receive J raw s).1 ≡ open_documents s
  unfolding receive
  receive-open raw s r = elim (Result-cases (parse_message J raw)) [
    | inl (m, e) ↦ rw (e, receive) (handle_message-open m s r)
    | inr (x, e) ↦ rw (e, receive) refl
  ]

  -- What an event does to the documents: only the end of a task of the sync executor may change
  -- them, as the handler of the notification does that the task is for.
  abbrev pub Changes : Event Json → Server Json → Server Json → Type 0
  Changes (sync_finishes n at_start) s q =
      (h : NotificationHandler Json) × (params : Json) × (get_elem? s.sync_executor.workers n
        ≡ some (running (notification_task h params)))
      × (q.documents ≡ (run_notification_handler J h params s).1.documents)
  Changes _ s q = open_documents q ≡ open_documents s

  sync_task-Changes :
      (s q : Server Json) (t : Task Json) (n : ℕ) (a : Bool)
      → IsNotification t
      → get_elem? s.sync_executor.workers n ≡ some (running t)
      → q.documents ≡ (run_task J t a s).1.documents
      → Changes (sync_finishes n a) s q
  unfolding run_task
  sync_task-Changes s q (notification_task h params) n a k e f = (h, params, e, f)
  sync_task-Changes s q (request_task id params h token) n a k e f = absurd (cc)
  sync_task-Changes s q (callback_task c payload is_error) n a k e f = absurd (cc)

  step-Changes :
      (s q : Server Json) (e : Event Json) (u : Unit {0})
      → step J s e ≡ some (ok u, q)
      → IsReady J H (plumbing s)
      → Changes e s q
  unfolding send_request send_notification
  step-Changes s q (receives raw) u e r =
      ap (λ x. open_documents x.1) (step_receives J s raw _ e) ∙ receive-open raw s r
  step-Changes s q (worker_wakes n) u e r =
      let (p, f, g) = step_worker_wakes J s q n (ok u) e in ap open_documents g
  step-Changes s q (sync_wakes n) u e r =
      let (p, f, g) = step_sync_wakes J s q n (ok u) e in ap open_documents g
  step-Changes s q (worker_finishes n a) u e r =
      let (t, f, g, k) = step_worker_finishes J s q n a u e in
      ap open_documents g
      ∙ run_task-open J H t a (OfTasks-running (IsSound J H) s.worker_pool n t r.tasks f) s
  step-Changes s q (sync_finishes n a) u e r =
      let (t, f, g, k) = step_sync_finishes J s q n a u e in
      sync_task-Changes s q t n a
        (OfTasks-running IsNotification s.sync_executor n t r.sync_tasks f) f
        (ap (λ x. x.documents) g)
  step-Changes s q (requests method params callback) u e r =
      ap (λ x. open_documents x.1) (step_requests J s method params callback _ e)
      ∙ send-open J (serialize_request J s.next_outgoing_id method params) _
  step-Changes s q (notifies method params) u e r =
      ap (λ x. open_documents x.1) (step_notifies J s method params _ e) ∙ send-open J _ s

  -- Documents are changed by one thread alone: in any run of a server with the handlers that a
  -- subclass registered, where their results and what user code sends can be written, a next step
  -- that returns leaves the open documents as they are, unless it is the end of a task of the sync
  -- executor; such a task is for a notification, and leaves the store as the handler of that
  -- notification does.
  pub run-Changes :
      (hooks : Hooks Json) (documents : DocumentStore) (worker_threads default_count : ℕ)
      (hs : List (String × RequestHandler Json)) (ns : List (String × (Json → Result (Unit {0}))))
      (es : List (Event Json)) (q t : Server Json) (e : Event Json) (u : Unit {0})
      → All (λ h. Writes J H h.1) hs
      → All (IsWritten J H) es
      → run J (with_handlers hs ns (make hooks documents worker_threads default_count)) es ≡ some q
      → step J q e ≡ some (ok u, t)
      → Changes e q t
  run-Changes hooks documents w c hs ns es q t e u writes written ran stepped =
      step-Changes q t e u stepped
        (run-IsReady J H hooks documents w c hs ns es q writes written ran)
