-- ===== src/Server/Documents.antt =====
-- What may change the document store: tasks of the sync executor alone.
pub mod Steps
use clsp.Base.{
  String, ◌≡◌, refl, ◌∙◌, inl, inr, Bool, false, Option, none, some, arith, Bool-cases,
  Option-cases, Bytes, string_eq,
}
use clsp.Errors.{Result, foreign, cancelled, json_rpc, other}
use clsp.Base.Dict.{Dict, lookup}
use clsp.Json.{JsonLib, JsonLaws}
use clsp.Rpc.{RequestId, read_id, id_eq}
use clsp.Protocol.Lifecycle.{initialize_params_from_json}
use clsp.Protocol.Capabilities.{TextDocumentSyncKind}
use clsp.Text.{PositionEncoding}
use clsp.Store.{TextDocumentItem, set_position_encoding}
use clsp.Server.State.{
  Server, Task, request_task, notification_task, callback_task, RequestHandler, NotificationHandler,
  CancellationToken, initialize, shutdown, user_request, initialized, exit, cancel_request,
  did_open, did_change, did_close, did_save, user_notification, initializing, state_eq,
}
use clsp.Server.Send.{send}
use clsp.Server.Handlers.{
  call_request, call_notification, on_initialize_request, on_shutdown_request, on_cancel_request,
  on_did_save, adopt_encoding, adopt_sync_kind, cancel, cancel_id, encoding_named, saved,
}
use clsp.Server.Dispatch.{run_request_handler, run_notification_handler, swallow}
use clsp.Server.Spares.{Spares, Spares-lift, Spares-bind, Spares-catch}
use clsp.Server.Sending.{send-Spares, run_request_handler-Spares}
use clsp.Server.Run.{run_task}
use clsp.Server.Answers.Requests.{changes_documents, IsSound}

module _ {Json : Type 0} where
  abbrev pub open_documents : Server Json → Dict String TextDocumentItem
  open_documents s = s.documents.documents

  adopt_sync_kind-open :
      (k : Option TextDocumentSyncKind) (s : Server Json)
      → open_documents (adopt_sync_kind k s) ≡ open_documents s
  unfolding adopt_sync_kind
  adopt_sync_kind-open none s = refl
  adopt_sync_kind-open (some k) s = refl

  adopt_encoding-open :
      (e : Option PositionEncoding) (s : Server Json)
      → open_documents (adopt_encoding e s) ≡ open_documents s
  unfolding adopt_encoding set_position_encoding
  adopt_encoding-open none s = refl
  adopt_encoding-open (some k) s = refl

  cancel-open :
      (t : Option CancellationToken) (s : Server Json)
      → open_documents (cancel t s) ≡ open_documents s
  unfolding cancel
  cancel-open none s = refl
  cancel-open (some k) s = refl

module _ (J : JsonLib) where
  open J use {Json}

  call_request-open :
      (h : RequestHandler Json) (params : Json) (polled : Bool)
      → Spares open_documents (call_request J h params polled)
  unfolding call_request on_initialize_request on_shutdown_request
  call_request-open initialize params polled s =
      Spares-lift open_documents (initialize_params_from_json J params) _
        (λ p t.
          Spares-lift open_documents (t.hooks.on_initialize p) _
            (λ r u.
              adopt_encoding-open (encoding_named r.capabilities.position_encoding) _
              ∙ adopt_sync_kind-open r.capabilities.text_document_sync u)
            t)
        (record s { state = initializing })
  call_request-open shutdown params polled s = ground arith
  call_request-open (user_request f) params polled s = refl

  cancel_id-open : (o : Option RequestId) → Spares open_documents (cancel_id J o)
  unfolding cancel_id
  cancel_id-open none s = refl
  cancel_id-open (some id) s = cancel-open (lookup id s.cancellation_tokens) s

  on_cancel_request-open : (params : Json) → Spares open_documents (on_cancel_request J params)
  unfolding on_cancel_request
  on_cancel_request-open params s = elim (Bool-cases (J.is_object params)) [
    | inr e ↦ rw e refl
    | inl e ↦ elim (Option-cases (J.find "id" params)) [
      | inl f ↦ rw (e, f) refl
      | inr (v, f) ↦ rw (e, f) (Spares-lift open_documents (read_id J v) _ cancel_id-open s)
    ]
  ]

  call_notification-open :
      (h : NotificationHandler Json) (params : Json)
      → changes_documents h ≡ false
      → Spares open_documents (call_notification J h params)
  unfolding call_notification on_did_save saved
  call_notification-open initialized params k s = refl
  call_notification-open exit params k s = refl
  call_notification-open cancel_request params k s = on_cancel_request-open params s
  call_notification-open did_open params k s = absurd (cc)
  call_notification-open did_change params k s = absurd (cc)
  call_notification-open did_close params k s = absurd (cc)
  call_notification-open did_save params k s = ground arith
  call_notification-open (user_notification f) params k s = refl

  pub run_notification_handler-open :
      (h : NotificationHandler Json) (params : Json)
      → changes_documents h ≡ false
      → Spares open_documents (run_notification_handler J h params)
  unfolding run_notification_handler swallow
  run_notification_handler-open h params k =
      Spares-catch open_documents (call_notification J h params) _
        (call_notification-open h params k)
        (elim [
          | foreign ↦ λ s. refl
          | cancelled ↦ λ s. refl
          | json_rpc c m ↦ λ s. refl
          | other m ↦ λ s. refl
        ])

  pub run_request_handler-open :
      (id : RequestId) (params : Json) (h : RequestHandler Json) (at_start polled : Bool)
      → Spares open_documents (run_request_handler J id params h at_start polled)
  run_request_handler-open id params h at_start polled =
      run_request_handler-Spares J open_documents (λ s frames. refl) id params h at_start polled
        (call_request-open h params polled)

  pub send-open : (r : Result Bytes) → Spares open_documents (send J r)
  send-open = send-Spares J open_documents (λ s frames. refl)

  module _ (H : JsonLaws J) where
    pub run_task-open :
        (t : Task Json) (at_start : Bool)
        → IsSound J H t
        → Spares open_documents (run_task J t at_start)
    unfolding run_task
    run_task-open (request_task id params h token) at_start k s =
        Spares-bind open_documents (run_request_handler J id params h at_start _) _
          (run_request_handler-open id params h at_start _) (λ u q. refl) s
    run_task-open (notification_task h params) at_start k s =
        run_notification_handler-open h params k s
    run_task-open (callback_task c payload is_error) at_start k s = refl
