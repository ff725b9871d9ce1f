-- ===== src/Server/Kept.antt =====
-- What the handlers leave alone: the frames sent, the pools, the tables and the next id.
use clsp.Base.{
  string_eq, String, ◌≡◌, refl, ◌∙◌, inl, inr, Bool, Option, none, some, List, arith, Bool-cases,
  Option-cases, Bytes, string_eq,
}
use clsp.Server.State.{
  initialize, shutdown, user_request, initialized, exit, cancel_request, did_open, did_change,
  did_close, did_save, user_notification, initializing, Server, Task, RequestHandler,
  NotificationHandler, CancellationToken, user_notification, user_request, initializing,
}
use clsp.Server.Handlers.{
  call_request, call_notification, on_initialize_request, on_shutdown_request, on_cancel_request,
  on_did_open, on_did_change, on_did_close, on_did_save, adopt_encoding, adopt_sync_kind, cancel,
  use_documents, saved, cancel_id, encoding_named,
}
use clsp.Errors.{Exception, foreign, cancelled, json_rpc, other}
use clsp.Json.{JsonLib}
use clsp.Server.Spares.{Spares, Spares-lift, Spares-catch}
use clsp.Server.Dispatch.{run_notification_handler, swallow}
use clsp.ThreadPool.{ThreadPool}
use clsp.Base.Dict.{Dict, lookup}
use clsp.Base.Int.{ℤ}
use clsp.Protocol.Capabilities.{TextDocumentSyncKind}
use clsp.Text.{PositionEncoding}
use clsp.Protocol.Lifecycle.{initialize_params_from_json}
use clsp.Rpc.{id_eq, RequestId, read_id}

pub record Plumbing (Json : Type 0) : Type 0 where
  pub sent : List Bytes
  pub worker_pool : ThreadPool (Task Json)
  pub sync_executor : ThreadPool (Task Json)
  pub request_handlers : Dict String (RequestHandler Json)
  pub notification_handlers : Dict String (NotificationHandler Json)
  pub next_outgoing_id : ℤ

module _ {Json : Type 0} where
  abbrev pub plumbing : Server Json → Plumbing Json
  plumbing s = record {
    sent = s.sent;
    worker_pool = s.worker_pool;
    sync_executor = s.sync_executor;
    request_handlers = s.request_handlers;
    notification_handlers = s.notification_handlers;
    next_outgoing_id = s.next_outgoing_id;
  }

  adopt_sync_kind-plumbing :
      (k : Option TextDocumentSyncKind) (s : Server Json)
      → plumbing (adopt_sync_kind k s) ≡ plumbing s
  unfolding adopt_sync_kind
  adopt_sync_kind-plumbing none s = refl
  adopt_sync_kind-plumbing (some k) s = refl

  adopt_encoding-plumbing :
      (e : Option PositionEncoding) (s : Server Json) → plumbing (adopt_encoding e s) ≡ plumbing s
  unfolding adopt_encoding
  adopt_encoding-plumbing none s = refl
  adopt_encoding-plumbing (some k) s = refl

  cancel-plumbing :
      (t : Option CancellationToken) (s : Server Json) → plumbing (cancel t s) ≡ plumbing s
  unfolding cancel
  cancel-plumbing none s = refl
  cancel-plumbing (some k) s = refl

module _ (J : JsonLib) where
  open J use {Json}

  on_initialize_request-plumbing :
      (params : Json) → Spares plumbing (on_initialize_request J params)
  unfolding on_initialize_request
  on_initialize_request-plumbing params s =
      Spares-lift plumbing (initialize_params_from_json J params) _
        (λ p t.
          Spares-lift plumbing (t.hooks.on_initialize p) _
            (λ r u.
              adopt_encoding-plumbing (encoding_named r.capabilities.position_encoding) _
              ∙ adopt_sync_kind-plumbing r.capabilities.text_document_sync u)
            t)
        (record s { state = initializing })

  on_shutdown_request-plumbing : Spares plumbing (on_shutdown_request J)
  unfolding on_shutdown_request
  on_shutdown_request-plumbing s = ground arith

  pub call_request-plumbing :
      (h : RequestHandler Json) (params : Json) (polled : Bool)
      → Spares plumbing (call_request J h params polled)
  unfolding call_request
  call_request-plumbing initialize params polled s = on_initialize_request-plumbing params s
  call_request-plumbing shutdown params polled s = on_shutdown_request-plumbing s
  call_request-plumbing (user_request f) params polled s = refl

  cancel_id-plumbing : (o : Option RequestId) → Spares plumbing (cancel_id J o)
  unfolding cancel_id
  cancel_id-plumbing none s = refl
  cancel_id-plumbing (some id) s = cancel-plumbing (lookup id s.cancellation_tokens) s

  on_cancel_request-plumbing : (params : Json) → Spares plumbing (on_cancel_request J params)
  unfolding on_cancel_request
  on_cancel_request-plumbing params s = elim (Bool-cases (J.is_object params)) [
    | inr e ↦ rw e refl
    | inl e ↦ elim (Option-cases (J.find "id" params)) [
      | inl f ↦ rw (e, f) refl
      | inr (v, f) ↦ rw (e, f) (Spares-lift plumbing (read_id J v) _ cancel_id-plumbing s)
    ]
  ]

  on_did_open-plumbing : (params : Json) → Spares plumbing (on_did_open J params)
  unfolding on_did_open use_documents
  on_did_open-plumbing params s = ground arith

  on_did_change-plumbing : (params : Json) → Spares plumbing (on_did_change J params)
  unfolding on_did_change use_documents
  on_did_change-plumbing params s = ground arith

  on_did_close-plumbing : (params : Json) → Spares plumbing (on_did_close J params)
  unfolding on_did_close use_documents
  on_did_close-plumbing params s = ground arith

  on_did_save-plumbing : (params : Json) → Spares plumbing (on_did_save J params)
  unfolding on_did_save saved
  on_did_save-plumbing params s = ground arith

  pub call_notification-plumbing :
      (h : NotificationHandler Json) (params : Json)
      → Spares plumbing (call_notification J h params)
  unfolding call_notification
  call_notification-plumbing initialized params s = refl
  call_notification-plumbing exit params s = refl
  call_notification-plumbing cancel_request params s = on_cancel_request-plumbing params s
  call_notification-plumbing did_open params s = on_did_open-plumbing params s
  call_notification-plumbing did_change params s = on_did_change-plumbing params s
  call_notification-plumbing did_close params s = on_did_close-plumbing params s
  call_notification-plumbing did_save params s = on_did_save-plumbing params s
  call_notification-plumbing (user_notification f) params s = refl

  swallow-plumbing : (x : Exception) → Spares plumbing (swallow J x)
  unfolding swallow
  swallow-plumbing foreign s = refl
  swallow-plumbing cancelled s = refl
  swallow-plumbing (json_rpc c m) s = refl
  swallow-plumbing (other m) s = refl

  pub run_notification_handler-plumbing :
      (h : NotificationHandler Json) (params : Json)
      → Spares plumbing (run_notification_handler J h params)
  unfolding run_notification_handler
  run_notification_handler-plumbing h params =
      Spares-catch plumbing (call_notification J h params) _ (call_notification-plumbing h params)
        swallow-plumbing
