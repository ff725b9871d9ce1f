-- ===== src/Server/State.antt =====
-- The members of `ILanguageServer`. The lambdas that the constructor registers are constructors of
-- the handler types; what a subclass registers or overrides is a function of the model's user.
-- `std::unordered_map` and `std::map` are association lists.
use clsp.Base.{
  ℕ, String, ◌≡◌, ◌↔◌, Bool, true, false, Option, List, [], arith, ◌=ℕ=◌, if◌then◌else◌, Bytes, Eq,
  string_eq,
}
use clsp.Base.Dict.{Dict, insert}
use clsp.Base.Int.{ℤ, pos, int_eq}
use clsp.Errors.{Result}
use clsp.Rpc.{RequestId}
use clsp.Server.Exec.{Exec}
use clsp.Store.{DocumentStore, TextDocumentItem, TextDocumentChangeEvent}
use clsp.ThreadPool.{ThreadPool}
use clsp.ThreadPool
use clsp.Protocol.Capabilities.{TextDocumentSyncKind, none_sync}
use clsp.Protocol.Lifecycle.{InitializeParams, InitializeResult}

pub data ServerState : Type 0 where
  uninitialized initializing running shutting_down exited : ServerState

abbrev state_beq : ServerState → ServerState → Bool
state_beq uninitialized uninitialized = true
state_beq initializing initializing = true
state_beq running running = true
state_beq shutting_down shutting_down = true
state_beq exited exited = true
state_beq _ _ = false

pub state_beq_iff : (a b : ServerState) → (state_beq a b ≡ true) ↔ (a ≡ b)
state_beq_iff a b = ground arith

instance abbrev pub state_eq : Eq ServerState
state_eq = record { same = state_beq; same_iff = state_beq_iff }

-- The virtual methods of a subclass. Those for documents, whose default bodies are in
-- `Server.Handlers`, may change the store; what else they send is an event of its own in
-- `Server.Run`.
pub record Hooks (Json : Type 0) : Type 0 where
  pub on_initialize : InitializeParams Json → Result InitializeResult
  pub on_initialized : Result (Unit {0})
  pub on_shutdown : Result (Unit {0})
  pub on_exit : Result (Unit {0})
  pub on_document_opened : TextDocumentItem → Exec DocumentStore (Unit {0})
  pub on_document_changed :
      TextDocumentItem → List TextDocumentChangeEvent → Exec DocumentStore (Unit {0})
  pub on_document_closed : String → Exec DocumentStore (Unit {0})
  pub on_document_saved : TextDocumentItem → Option Bytes → Result (Unit {0})

-- A subclass's handler takes the params and what its polls of the token see.
pub data RequestHandler (Json : Type 0) : Type 0 where
  initialize shutdown : RequestHandler Json
  user_request : (Json → Bool → Result Json) → RequestHandler Json

pub data NotificationHandler (Json : Type 0) : Type 0 where
  initialized exit cancel_request : NotificationHandler Json
  did_open did_change did_close did_save : NotificationHandler Json
  user_notification : (Json → Result (Unit {0})) → NotificationHandler Json

-- A `ResponseCallback`: what its call with a payload and `isError` does, which may be to throw.
abbrev pub Callback : Type 0 → Type 0
Callback Json = Json → Bool → Result (Unit {0})

-- A `CancellationToken`: the index of the flag that its copies share.
abbrev pub CancellationToken : Type 0
CancellationToken = ℕ

-- What is submitted to the pools.
pub data Task (Json : Type 0) : Type 0 where
  request_task : RequestId → Json → RequestHandler Json → CancellationToken → Task Json
  notification_task : NotificationHandler Json → Json → Task Json
  callback_task : Callback Json → Json → Bool → Task Json

pub record Server (Json : Type 0) : Type 0 where
  pub hooks : Hooks Json
  pub state : ServerState
  pub shutdown_requested : Bool
  pub sync_kind : TextDocumentSyncKind
  pub documents : DocumentStore
  pub request_handlers : Dict String (RequestHandler Json)
  pub notification_handlers : Dict String (NotificationHandler Json)
  pub worker_pool : ThreadPool (Task Json)
  pub sync_executor : ThreadPool (Task Json)
  pub next_outgoing_id : ℤ
  pub pending_requests : Dict ℤ (Callback Json)
  pub cancellation_tokens : Dict RequestId CancellationToken
  -- The flags that tokens share, by index.
  pub flags : List Bool
  -- The frames that `transport_` was given, and the callbacks that were made.
  pub sent : List Bytes
  pub called : List (Callback Json × Json × Bool)

module _ {Json : Type 0} where
  unfoldable pub register_request : String → RequestHandler Json → Server Json → Server Json
  register_request method h s = record s { request_handlers = insert method h s.request_handlers }

  unfoldable pub register_notification :
      String → NotificationHandler Json → Server Json → Server Json
  register_notification method h s = record s {
    notification_handlers = insert method h s.notification_handlers;
  }

  unfoldable pub register_lifecycle_handlers : Server Json → Server Json
  unfolding register_request register_notification
  register_lifecycle_handlers s = register_notification "exit" exit (
      register_notification "initialized" initialized
        (register_request "shutdown" shutdown (register_request "initialize" initialize s)))

  unfoldable pub register_sync_handlers : Server Json → Server Json
  unfolding register_notification
  register_sync_handlers s = register_notification "textDocument/didSave" did_save (
      register_notification "textDocument/didClose" did_close (
        register_notification "textDocument/didChange" did_change
          (register_notification "textDocument/didOpen" did_open s)))

  unfoldable pub register_cancellation_handler : Server Json → Server Json
  unfolding register_notification
  register_cancellation_handler = register_notification "$/cancelRequest" cancel_request

  -- The constructor, with `options.workerThreads` and what `defaultWorkerCount()` returns.
  unfoldable pub make : Hooks Json → DocumentStore → ℕ → ℕ → Server Json
  unfolding ThreadPool.make register_lifecycle_handlers register_sync_handlers
      register_cancellation_handler
  make hooks documents worker_threads default_count = register_cancellation_handler (
      register_sync_handlers (
        register_lifecycle_handlers (record {
          hooks = hooks;
          state = uninitialized;
          shutdown_requested = false;
          sync_kind = none_sync;
          documents = documents;
          request_handlers = [];
          notification_handlers = [];
          worker_pool =
              ThreadPool.make (if worker_threads =ℕ= 0 then default_count else worker_threads);
          sync_executor = ThreadPool.make 1;
          next_outgoing_id = pos 1;
          pending_requests = [];
          cancellation_tokens = [];
          flags = [];
          sent = [];
          called = [];
        })))
