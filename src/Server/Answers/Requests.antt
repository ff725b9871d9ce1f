-- ===== src/Server/Answers/Requests.antt =====
-- What runs a request sends one response to it.
use clsp.Base.{◌+◌, ◌≡◌, ap, ◌∙◌, Bool, true, [], ◌∷◌, ◌++◌, arith, Bytes, ◌==◌, string_eq, false}
use clsp.Errors.{Result, ok}
use clsp.Json.{JsonLib, JsonLaws}
use clsp.Rpc.{RequestId, id_eq, ParsedMessage, parse_message}
use clsp.Rpc.Roundtrip.{IsId}
use clsp.Protocol.Written.{initialize_result_to_json-IsText}
use clsp.ThreadPool.Contents.{pool_total}
use clsp.Server.State.{
  did_open, did_change, did_close, NotificationHandler, Server, Task, request_task,
  notification_task, callback_task, RequestHandler, initialize, shutdown, user_request,
  initializing, shutting_down,
}
use clsp.Server.Handlers.{call_request, on_initialize_request, on_shutdown_request}
use clsp.Server.Spares.{Yields-lift, Yields-pure}
use clsp.Protocol.Lifecycle.{initialize_params_from_json, initialize_result_to_json}
use clsp.Server.Kept.{plumbing}
use clsp.Server.Replies.{Replies}
use clsp.Server.Answers.{is_answer, answers, answers-append, settled, is_owed, one_if}

module _ {Json : Type 0} where
  -- The handlers that change the document store.
  abbrev pub changes_documents : NotificationHandler Json → Bool
  changes_documents did_open = true
  changes_documents did_change = true
  changes_documents did_close = true
  changes_documents _ = false

  abbrev is_notification : Task Json → Bool
  is_notification (notification_task handler params) = true
  is_notification (request_task id params handler t) = false
  is_notification (callback_task callback payload is_error) = false

  -- A task that owes nobody a response.
  abbrev pub IsNotification : Task Json → Type 0
  IsNotification t = is_notification t ≡ true

module _ (J : JsonLib) (H : JsonLaws J) where
  open J use {Json}

  -- What a subclass's handler returns can be written.
  abbrev pub Writes : RequestHandler Json → Type 0
  Writes initialize = Unit
  Writes shutdown = Unit
  Writes (user_request f) =
      (params : Json) (cancelled : Bool) (r : Json) → f params cancelled ≡ ok r → H.IsText r

  -- A task of the worker pool: for a request whose id fits `int`, with a handler that `Writes`, or
  -- for a notification that changes no documents.
  abbrev pub IsSound : Task Json → Type 0
  IsSound (request_task id params handler t) = IsId id × Writes handler
  IsSound (notification_task handler params) = changes_documents handler ≡ false
  IsSound (callback_task callback payload is_error) = Unit

  on_initialize_request-IsText :
      (params : Json) (s : Server Json) (r : Json)
      → (on_initialize_request J params s).0 ≡ ok r
      → H.IsText r
  unfolding on_initialize_request
  on_initialize_request-IsText params s r e =
      Yields-lift H.IsText (initialize_params_from_json J params) _
        (λ p t.
          Yields-lift H.IsText (t.hooks.on_initialize p) _
            (λ c.
              Yields-pure {S = Server Json} H.IsText (initialize_result_to_json J c)
                (initialize_result_to_json-IsText J H c))
            t)
        (record s { state = initializing }) r e

  pub call_request-IsText :
      (h : RequestHandler Json) (params : Json) (polled : Bool) (s : Server Json) (r : Json)
      → Writes h
      → (call_request J h params polled s).0 ≡ ok r
      → H.IsText r
  unfolding call_request on_shutdown_request
  call_request-IsText initialize params polled s r w e = on_initialize_request-IsText params s r e
  call_request-IsText shutdown params polled s r w e =
      Yields-lift H.IsText s.hooks.on_shutdown _
        (λ u. Yields-pure {S = Server Json} H.IsText J.null H.null-IsText)
        (record s { shutdown_requested = true; state = shutting_down }) r e
  call_request-IsText (user_request f) params polled s r w e = w params polled r e

  -- Actions that spare the plumbing settle nothing.
  pub settled-plumbing :
      (i : RequestId) (s t : Server Json) → plumbing s ≡ plumbing t → settled J i s ≡ settled J i t
  unfolding settled
  settled-plumbing i s t e = ap (λ p. answers J i p.sent + pool_total (is_owed i) p.worker_pool) e

  -- A frame that is sent counts for what it parses as.
  pub settled-frame :
      (i : RequestId) (q : Server Json) (frame : Bytes) (m : Result (ParsedMessage Json))
      → parse_message J frame ≡ m
      → settled J i (record q { sent = q.sent ++ frame ∷ [] }) ≡ settled J i q + is_answer i m
  unfolding settled
  settled-frame i q frame m e = omega (arith, answers-append J i q.sent frame, ap (is_answer i) e)

  -- A response that is sent settles one request with its id.
  pub settled-Replies :
      (i : RequestId) (m : Result (Unit {0}) × Server Json) (q : Server Json) (id : RequestId)
      (b : Bool)
      → Replies J H m q id b
      → settled J i m.1 ≡ settled J i q + one_if (id == i)
  unfolding is_answer
  settled-Replies i m q id b (frame, payload, e, p) =
      ap (λ x. settled J i x.1) e ∙ settled-frame i q frame _ p
