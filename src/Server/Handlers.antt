-- ===== src/Server/Handlers.antt =====
-- The handlers that the constructor registers, and the default bodies of the document callbacks.
use clsp.Base.{
  String, Bool, true, Option, none, some, if◌then◌else◌, Bytes, set, string_eq, List, [],
}
use clsp.Base.Dict.{lookup}
use clsp.Errors.{Result, ok, err}
use clsp.Json.{JsonLib}
use clsp.Text.{PositionEncoding, encoding_of_name}
use clsp.Store
use clsp.Store.{
  DocumentStore, TextDocumentItem, set_position_encoding, open_document, apply_change,
  TextDocumentChangeEvent,
}
use clsp.Rpc.{RequestId, read_id, id_eq}
use clsp.Protocol.Documents.{
  did_open_from_json, did_change_from_json, did_close_from_json, did_save_from_json,
}
use clsp.Protocol.Capabilities.{TextDocumentSyncKind}
use clsp.Protocol.Lifecycle.{initialize_params_from_json, initialize_result_to_json}
use clsp.Server.Exec.{Exec, pure, ◌>>=◌, ◌>>◌, modify, gets, lift}
use clsp.Server.State.{
  Server, RequestHandler, initialize, shutdown, user_request, NotificationHandler, initialized,
  exit, cancel_request, did_open, did_change, did_close, did_save, user_notification, initializing,
  running, shutting_down, exited, CancellationToken, Hooks,
}

unfoldable pub encoding_named : Option String → Option PositionEncoding
unfolding encoding_of_name
encoding_named none = none
encoding_named (some n) = encoding_of_name n

-- The store after `applyChange`, with its exception if it threw.
unfoldable pub discard_document :
    (DocumentStore × Result (Option TextDocumentItem)) → Result (Unit {0}) × DocumentStore
discard_document (d, ok doc) = (ok tt, d)
discard_document (d, err e) = (err e, d)

-- The default bodies of the virtual methods for documents.
unfoldable pub default_on_document_opened : TextDocumentItem → Exec DocumentStore (Unit {0})
unfolding open_document
default_on_document_opened document = modify (open_document document)

unfoldable pub default_on_document_changed :
    TextDocumentItem → List TextDocumentChangeEvent → Exec DocumentStore (Unit {0})
unfolding discard_document apply_change
default_on_document_changed document changes d =
    discard_document
      (apply_change (record { uri = document.uri; version = document.version }) changes d)

unfoldable pub default_on_document_closed : String → Exec DocumentStore (Unit {0})
unfolding Store.close
default_on_document_closed uri = modify (λ d. (Store.close uri d).0)

unfoldable pub default_on_document_saved : TextDocumentItem → Option Bytes → Result (Unit {0})
default_on_document_saved document text = ok tt

module _ {Json : Type 0} where
  -- `if (capabilities.textDocumentSync) …`
  unfoldable pub adopt_sync_kind : Option TextDocumentSyncKind → Server Json → Server Json
  adopt_sync_kind none s = s
  adopt_sync_kind (some k) s = record s { sync_kind = k }

  -- `if (capabilities.positionEncoding) …`
  unfoldable pub adopt_encoding : Option PositionEncoding → Server Json → Server Json
  unfolding set_position_encoding
  adopt_encoding none s = s
  adopt_encoding (some e) s = record s { documents = set_position_encoding e s.documents }

  -- `it->second.cancel()`
  unfoldable pub cancel : Option CancellationToken → Server Json → Server Json
  cancel none s = s
  cancel (some t) s = record s { flags = set s.flags t true }

  -- A virtual method for documents, on the store of the server.
  unfoldable pub use_documents :
      (Hooks Json → Exec DocumentStore (Unit {0})) → Exec (Server Json) (Unit {0})
  use_documents hook s = let r = hook s.hooks s.documents in (r.0, record s { documents = r.1 })

module _ (J : JsonLib) where
  open J use {Json, is_object, find}

  unfoldable pub on_initialize_request : Json → Exec (Server Json) Json
  unfolding adopt_sync_kind adopt_encoding encoding_named initialize_params_from_json
      initialize_result_to_json
  on_initialize_request params = do
    modify (λ s. record s { state = initializing })
    p ← lift (initialize_params_from_json J params)
    hooks ← gets (λ s. s.hooks)
    result ← lift (hooks.on_initialize p)
    modify (adopt_sync_kind result.capabilities.text_document_sync)
    modify (adopt_encoding (encoding_named result.capabilities.position_encoding))
    pure (initialize_result_to_json J result)

  unfoldable pub on_shutdown_request : Exec (Server Json) Json
  on_shutdown_request = do
    modify (λ s. record s { shutdown_requested = true; state = shutting_down })
    hooks ← gets (λ s. s.hooks)
    lift hooks.on_shutdown
    pure J.null

  -- `handler(params, token)`; `cancelled` is what the polls of the token see.
  unfoldable pub call_request : RequestHandler Json → Json → Bool → Exec (Server Json) Json
  unfolding on_initialize_request on_shutdown_request
  call_request initialize params cancelled = on_initialize_request params
  call_request shutdown params cancelled = on_shutdown_request
  call_request (user_request f) params cancelled = lift (f params cancelled)

  -- `cancellationTokens_.find(id)` and the cancel, under the lock.
  unfoldable pub cancel_id : Option RequestId → Exec (Server Json) (Unit {0})
  unfolding cancel
  cancel_id none = pure tt
  cancel_id (some id) = modify (λ s. cancel (lookup id s.cancellation_tokens) s)

  unfoldable pub on_cancel_request : Json → Exec (Server Json) (Unit {0})
  unfolding cancel_id read_id
  on_cancel_request params =
      if is_object params
      then elim (find "id" params) [
        | none ↦ pure tt
        | some v ↦ (do id ← lift (read_id J v); cancel_id id)
      ]
      else pure tt

  unfoldable pub on_did_open : Json → Exec (Server Json) (Unit {0})
  unfolding did_open_from_json use_documents
  on_did_open params = do
    p ← lift (did_open_from_json J params)
    use_documents (λ hooks. hooks.on_document_opened p.text_document)

  unfoldable pub on_did_change : Json → Exec (Server Json) (Unit {0})
  unfolding did_change_from_json use_documents
  on_did_change params = do
    p ← lift (did_change_from_json J params)
    let document : TextDocumentItem = record {
      uri = p.text_document.uri;
      language_id = "";
      version = p.text_document.version;
      text = [];
    }
    use_documents (λ hooks. hooks.on_document_changed document p.content_changes)

  unfoldable pub on_did_close : Json → Exec (Server Json) (Unit {0})
  unfolding did_close_from_json use_documents
  on_did_close params = do
    p ← lift (did_close_from_json J params)
    use_documents (λ hooks. hooks.on_document_closed p.uri)

  unfoldable pub saved : Option TextDocumentItem → Option Bytes → Exec (Server Json) (Unit {0})
  saved none text = pure tt
  saved (some doc) text = do hooks ← gets (λ s. s.hooks); lift (hooks.on_document_saved doc text)

  unfoldable pub on_did_save : Json → Exec (Server Json) (Unit {0})
  unfolding did_save_from_json saved
  on_did_save params = do
    p ← lift (did_save_from_json J params)
    doc ← gets (λ s. Store.get p.uri s.documents)
    saved doc p.text

  unfoldable pub call_notification : NotificationHandler Json → Json → Exec (Server Json) (Unit {0})
  unfolding on_cancel_request on_did_open on_did_change on_did_close on_did_save
  call_notification initialized params = do
    modify (λ s. record s { state = running })
    hooks ← gets (λ s. s.hooks)
    lift hooks.on_initialized
  call_notification exit params = do
    modify (λ s. record s { state = exited })
    hooks ← gets (λ s. s.hooks)
    lift hooks.on_exit
  call_notification cancel_request params = on_cancel_request params
  call_notification did_open params = on_did_open params
  call_notification did_change params = on_did_change params
  call_notification did_close params = on_did_close params
  call_notification did_save params = on_did_save params
  call_notification (user_notification f) params = lift (f params)
