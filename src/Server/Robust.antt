-- ===== src/Server/Robust.antt =====
-- The server's own code lets out no exception that user code and the JSON library did not throw
-- past its `catch` clauses.
pub mod Run
use clsp.Base.{
  ℕ, String, ◌≡◌, refl, ◌≢◌, sym, ap, subst, inl, inr, Bool, true, false, Option, none, some,
  Bool-cases, Bytes, ◌==◌, string_eq, List, get_elem?, All,
}
use clsp.Base.Int.{ℤ}
use clsp.Errors.{
  ErrorCodes, Result, ok, Result-cases, err, Exception, foreign, cancelled, json_rpc, other, plain,
}
use clsp.Json.{JsonLib, JsonLaws}
use clsp.Base.Dict.{lookup}
use clsp.Rpc.{
  RequestId, num, str, ParsedMessage, ParsedRequest, ParsedNotification, ParsedResponse, request,
  notification, response, error, parse_message,
}
use clsp.Rpc.Roundtrip.{
  IsId, plain-IsText, parse_message-serialize_error_null, parse_message-serialize_request,
  parse_message-serialize_notification,
}
use clsp.Rpc.Classify.{parse_message_total}
use clsp.Server.State.{
  Server, Task, request_task, notification_task, callback_task, NotificationHandler, uninitialized,
  state_eq, RequestHandler, Hooks, Callback, make,
}
use clsp.Server.Handlers.{call_request, call_notification}
use clsp.Server.Dispatch.{
  swallow, run_request_handler, run_notification_handler, handle_request, handle_notification,
  handle_message, receive, is_lifecycle_request, is_inline_notification, is_sync_notification,
  route_notification, answer_pending, handle_response, handle_response_id,
}
use clsp.Server.Run.{
  run_task, flag, end_of_task, running_task, returned, starts_well, Event, receives, worker_wakes,
  sync_wakes, worker_finishes, sync_finishes, requests, notifies, step, run,
}
use clsp.Server.Steps.{allowed, running_task_cases, step_receives, step_requests, step_notifies}
use clsp.Server.Exec.{modify, ◌>>=◌}
use clsp.Server.Send.{send, send_request, send_notification}
use clsp.ThreadPool.Contents.{OfTasks-running}
use clsp.Store.{DocumentStore}
use clsp.Server.Answers.Tasks.{IsWritten}
use clsp.Server.Answers.Start.{with_handlers}
use clsp.Server.Answers.Run.{run-IsReady}
use clsp.Server.Replies.{Replies, run_request_handler-Replies, send_error-Replies, IsReported}
use clsp.Server.Gate.{Gated, handle_request_lem}
use clsp.Server.Kept.{plumbing}
use clsp.Server.Answers.Requests.{call_request-IsText, Writes, IsSound, IsNotification}
use clsp.Server.Answers.Ready.{IsReady}
use clsp.Server.Answers.Received.{parsed-IsId}

-- The code returned: it threw nothing.
abbrev pub Returns : {S : Type 0} → Result (Unit {0}) × S → Type 0
Returns m = m.0 ≡ ok tt

module _ (J : JsonLib) (H : JsonLaws J) where
  open J use {Json}

  Replies-Returns :
      (m : Result (Unit {0}) × Server Json) (q : Server Json) (id : RequestId) (b : Bool)
      → Replies J H m q id b
      → Returns m
  Replies-Returns m q id b (frame, payload, e, p) = ap (λ x. x.0) e

  -- What the user code of a task does in the state `s`: it throws nothing that the code around it
  -- does not catch or cannot report.
  abbrev pub IsSafe : Server Json → Task Json → Type 0
  IsSafe s (request_task id params h token) =
      (polled : Bool) (x : Exception)
      → (call_request J h params polled s).0 ≡ err x
      → IsReported J H x
  IsSafe s (notification_task h params) =
      (x : Exception) → (call_notification J h params s).0 ≡ err x → x ≢ foreign
  IsSafe s (callback_task callback payload is_error) = callback payload is_error ≡ ok tt

  run_request_handler-Returns :
      (id : RequestId) (params : Json) (h : RequestHandler Json) (at_start polled : Bool)
      (s : Server Json)
      → IsId id
      → Writes J H h
      → ((x : Exception) → (call_request J h params polled s).0 ≡ err x → IsReported J H x)
      → Returns (run_request_handler J id params h at_start polled s)
  run_request_handler-Returns id params h at_start polled s k w c = Replies-Returns _ _ id _ (
      run_request_handler-Replies J H id params h at_start polled s k
        (λ v. call_request-IsText J H h params polled s v w) c)

  swallow-Returns : (x : Exception) (s : Server Json) → x ≢ foreign → Returns (swallow J x s)
  unfolding swallow
  swallow-Returns foreign s c = absurd (c refl)
  swallow-Returns cancelled s c = refl
  swallow-Returns (json_rpc e m) s c = refl
  swallow-Returns (other m) s c = refl

  run_notification_handler-Returns :
      (h : NotificationHandler Json) (params : Json) (s : Server Json)
      → ((x : Exception) → (call_notification J h params s).0 ≡ err x → x ≢ foreign)
      → Returns (run_notification_handler J h params s)
  unfolding run_notification_handler
  run_notification_handler-Returns h params s c =
      elim (Result-cases (call_notification J h params s).0) [
        | inl (u, e) ↦ rw (e, run_notification_handler) refl
        | inr (x, e) ↦ rw (e, run_notification_handler) (swallow-Returns x _ (c x e))
      ]

  -- A task of a pool returns.
  pub run_task-Returns :
      (t : Task Json) (at_start : Bool) (s : Server Json)
      → IsSound J H t
      → IsSafe s t
      → Returns (run_task J t at_start s)
  unfolding run_task
  run_task-Returns (request_task id params h token) at_start s (k, w) c =
      rw
        (
          run_request_handler-Returns id params h at_start (flag token s.flags) s k w (c _),
          run_task,
        )
        refl
  run_task-Returns (notification_task h params) at_start s k c =
      run_notification_handler-Returns h params s c
  run_task-Returns (callback_task f payload is_error) at_start s k c = c

  -- What the code that is called on the read thread does with the text `raw` in the state `s`:
  -- `json::parse` throws no other exception than a `parse_error`, a handler throws nothing that is
  -- not caught or cannot be reported, and `onExit`, which is called outside of any `catch`, throws
  -- nothing.
  pub record IsSafeText (raw : Bytes) (s : Server Json) : Type 0 where
    pub parses : (x : Exception) → J.parse raw ≢ err x
    pub exits : s.hooks.on_exit ≡ ok tt
    pub requests :
        (req : ParsedRequest Json) (h : RequestHandler Json)
        → parse_message J raw ≡ ok (request req)
        → lookup req.method s.request_handlers ≡ some h
        → (x : Exception) → (call_request J h req.params false s).0 ≡ err x
        → IsReported J H x
    pub notifications :
        (n : ParsedNotification Json) (h : NotificationHandler Json)
        → parse_message J raw ≡ ok (notification n)
        → lookup n.method s.notification_handlers ≡ some h
        → (x : Exception) → (call_notification J h n.params s).0 ≡ err x
        → x ≢ foreign

  Gated-Returns :
      (req : ParsedRequest Json) (s : Server Json) (o : Option ErrorCodes)
      → IsReady J H (plumbing s)
      → IsId req.id
      → Gated J H req s o
      → ((h : RequestHandler Json)
          → lookup req.method s.request_handlers ≡ some h
          → (x : Exception) → (call_request J h req.params false s).0 ≡ err x
          → IsReported J H x)
      → Returns (handle_request J req s)
  Gated-Returns req s (some c) r k (m, e) f = subst Returns (sym e) (
      Replies-Returns _ s req.id true
        (send_error-Replies J H req.id c (plain m) s k (plain-IsText J H m)))
  Gated-Returns req s none r k (h, l, e) f =
      subst Returns (sym e) (elim (Bool-cases (is_lifecycle_request req.method)) [
        | inl b ↦ rw b (
            run_request_handler-Returns req.id req.params h false false s k
              (r.handlers req.method h l) (f h l))
        | inr b ↦ rw b refl
      ])

  route_notification-Returns :
      (n : ParsedNotification Json) (o : Option (NotificationHandler Json)) (s : Server Json)
      → ((h : NotificationHandler Json)
          → o ≡ some h
          → (x : Exception) → (call_notification J h n.params s).0 ≡ err x
          → x ≢ foreign)
      → Returns (route_notification J n o s)
  unfolding route_notification
  route_notification-Returns n none s f = refl
  route_notification-Returns n (some h) s f = elim (Bool-cases (is_inline_notification n.method)) [
    | inl b ↦ rw b (run_notification_handler-Returns h n.params s (f h refl))
    | inr b ↦ elim (Bool-cases (is_sync_notification n.method)) [
      | inl c ↦ rw (b, c) refl
      | inr c ↦ rw (b, c) refl
    ]
  ]

  handle_notification-Returns :
      (n : ParsedNotification Json) (s : Server Json)
      → s.hooks.on_exit ≡ ok tt
      → ((h : NotificationHandler Json)
          → lookup n.method s.notification_handlers ≡ some h
          → (x : Exception) → (call_notification J h n.params s).0 ≡ err x
          → x ≢ foreign)
      → Returns (handle_notification J n s)
  unfolding handle_notification
  handle_notification-Returns n s x f = elim (Bool-cases (n.method == "exit")) [
    | inl b ↦ rw (b, handle_notification) x
    | inr b ↦ elim (Bool-cases (s.state == uninitialized)) [
      | inl c ↦ rw (b, c, handle_notification) refl
      | inr c ↦
          rw (b, c, handle_notification)
            (route_notification-Returns n (lookup n.method s.notification_handlers) s f)
    ]
  ]

  pub notification-Returns :
      (t : Task Json) (at_start : Bool) (s : Server Json)
      → IsNotification t
      → IsSafe s t
      → Returns (run_task J t at_start s)
  unfolding run_task
  notification-Returns (notification_task h params) at_start s k c =
      run_notification_handler-Returns h params s c
  notification-Returns (request_task id params h token) at_start s k c = absurd (cc)
  notification-Returns (callback_task f payload is_error) at_start s k c = absurd (cc)

  answer_pending-Returns :
      (a : ParsedResponse Json) (z : ℤ) (o : Option (Callback Json)) (s : Server Json)
      → Returns (answer_pending J a z o s)
  unfolding answer_pending
  answer_pending-Returns a z none s = refl
  answer_pending-Returns a z (some c) s = refl

  handle_response-Returns :
      (a : ParsedResponse Json) (id : RequestId) (s : Server Json)
      → Returns (handle_response_id J a id s)
  unfolding handle_response_id
  handle_response-Returns a (num z) s = answer_pending-Returns a z _ s
  handle_response-Returns a (str t) s = refl

  handle_error-Returns :
      (c : ErrorCodes) (m : String) (s : Server Json)
      → Returns (handle_message J (error (record { code = c; message = m })) s)
  unfolding handle_message
  handle_error-Returns c m s =
      let (t, written, parsed) = parse_message-serialize_error_null J H c m in
      rw (written, handle_message) refl

  handle_message-Returns :
      (raw : Bytes) (m : ParsedMessage Json) (s : Server Json)
      → parse_message J raw ≡ ok m
      → IsReady J H (plumbing s)
      → IsSafeText raw s
      → Returns (handle_message J m s)
  unfolding handle_message handle_response
  handle_message-Returns raw (request req) s e r x =
      Gated-Returns req s _ r (parsed-IsId J H req.id raw req e) (handle_request_lem J H req s)
        (λ h. x.requests req h e)
  handle_message-Returns raw (notification n) s e r x =
      handle_notification-Returns n s x.exits (λ h. x.notifications n h e)
  handle_message-Returns raw (response a) s e r x = handle_response-Returns a a.id s
  handle_message-Returns raw (error y) s e r x = handle_error-Returns y.code y.message s

  pub receive-Returns :
      (raw : Bytes) (s : Server Json)
      → IsReady J H (plumbing s)
      → IsSafeText raw s
      → Returns (receive J raw s)
  unfolding receive
  receive-Returns raw s r x = elim (Result-cases (J.parse raw)) [
    | inr (y, e) ↦ absurd (x.parses y e)
    | inl (o, f) ↦
        let (m, e) = (parse_message_total J H raw).1 o f in
        rw (e, receive) (handle_message-Returns raw m s e r x)
  ]
