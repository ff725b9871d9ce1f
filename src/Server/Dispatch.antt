-- ===== src/Server/Dispatch.antt =====
-- What the read thread does with a message.
use clsp.Base.{
  String, ◌<>◌, Bool, false, not, ◌&&◌, ◌||◌, Option, none, some, [], ◌∷◌, ◌++◌, if◌then◌else◌,
  Bytes, length, ◌==◌, string_eq,
}
use clsp.Base.Dict.{lookup, insert, erase}
use clsp.Base.Int.{ℤ, int_eq}
use clsp.Errors.{
  ErrorCodes, Exception, cancelled, json_rpc, other, foreign, plain, Result, ok, err,
  server_not_initialized, invalid_request, method_not_found, internal_error,
}
use clsp.Errors
use clsp.Json.{JsonLib}
use clsp.Rpc.{
  RequestId, num, str, id_eq, ParsedRequest, ParsedNotification, ParsedResponse, ParsedMessage,
  request, notification, error, response, serialize_error_null, parse_message,
}
use clsp.ThreadPool.{submit}
use clsp.Server.Exec.{Exec, pure, ◌>>=◌, ◌>>◌, modify, gets, lift, catch}
use clsp.Server.State.{
  Callback, Server, state_eq, RequestHandler, NotificationHandler, Task, request_task,
  notification_task, callback_task, uninitialized, shutting_down, exited,
}
use clsp.Server.Send.{send, send_error, send_result}
use clsp.Server.Handlers.{call_request, call_notification}

unfoldable pub is_lifecycle_request : String → Bool
is_lifecycle_request m = m == "initialize" || m == "shutdown"

unfoldable pub is_inline_notification : String → Bool
is_inline_notification m = m == "initialized" || (m == "exit" || m == "$/cancelRequest")

unfoldable pub is_sync_notification : String → Bool
is_sync_notification m =
    m == "textDocument/didOpen"
    || (m == "textDocument/didChange"
        || (m == "textDocument/didClose" || m == "textDocument/didSave"))

module _ (J : JsonLib) where
  open J use {Json}

  -- The three `catch` clauses of `runRequestHandler`; none of them takes what is no
  -- `std::exception`.
  unfoldable pub reply_exception : RequestId → Exception → Exec (Server Json) (Unit {0})
  unfolding send_error
  reply_exception id cancelled =
      send_error J id Errors.request_cancelled (plain "Request cancelled")
  reply_exception id (json_rpc code message) = send_error J id code message
  reply_exception id (other message) = send_error J id internal_error message
  reply_exception id foreign = lift (err foreign)

  -- `at_start` is what `token.isCancelled()` returns first, `polled` what the handler's polls see.
  unfoldable pub run_request_handler :
      RequestId → Json → RequestHandler Json → Bool → Bool → Exec (Server Json) (Unit {0})
  unfolding reply_exception send_error send_result call_request
  run_request_handler id params handler at_start polled =
      catch
        (if at_start
          then send_error J id Errors.request_cancelled (plain "Request cancelled")
          else (do result ← call_request J handler params polled; send_result J id result))
        (reply_exception id)

  unfoldable pub submit_work : Task Json → Server Json → Server Json
  unfolding submit
  submit_work t s = record s { worker_pool = submit t s.worker_pool }

  unfoldable pub submit_sync : Task Json → Server Json → Server Json
  unfolding submit
  submit_sync t s = record s { sync_executor = submit t s.sync_executor }

  -- A fresh token under the id, and the task.
  unfoldable pub submit_request :
      ParsedRequest Json → RequestHandler Json → Server Json → Server Json
  unfolding submit_work
  submit_request req handler s =
      let token = length s.flags in
      submit_work (request_task req.id req.params handler token) (record s {
        flags = s.flags ++ false ∷ [];
        cancellation_tokens = insert req.id token s.cancellation_tokens;
      })

  -- The part of `handleRequest` behind the state checks.
  unfoldable pub route_request :
      ParsedRequest Json → Option (RequestHandler Json) → Exec (Server Json) (Unit {0})
  unfolding send_error is_lifecycle_request run_request_handler submit_request
  route_request req none =
      send_error J req.id method_not_found (plain ("Method not found: " <> req.method))
  route_request req (some handler) =
      if is_lifecycle_request req.method
      then run_request_handler req.id req.params handler false false
      else modify (submit_request req handler)

  unfoldable pub handle_request : ParsedRequest Json → Exec (Server Json) (Unit {0})
  unfolding send_error route_request
  handle_request req s =
      if s.state == uninitialized && not (req.method == "initialize")
      then send_error J req.id server_not_initialized (plain "Server not initialized") s
      else if s.state == shutting_down
      then send_error J req.id invalid_request (plain "Server is shutting down") s
      else if not (s.state == uninitialized) && req.method == "initialize"
      then send_error J req.id invalid_request (plain "Server already initialized") s
      else route_request req (lookup req.method s.request_handlers) s

  -- The `catch (const std::exception&)` of `runHandler`, which swallows the exception.
  unfoldable pub swallow : Exception → Exec (Server Json) (Unit {0})
  swallow foreign = lift (err foreign)
  swallow _ = pure tt

  -- `runHandler`.
  unfoldable pub run_notification_handler :
      NotificationHandler Json → Json → Exec (Server Json) (Unit {0})
  unfolding call_notification swallow
  run_notification_handler handler params = catch (call_notification J handler params) swallow

  unfoldable pub route_notification :
      ParsedNotification Json → Option (NotificationHandler Json) → Exec (Server Json) (Unit {0})
  unfolding is_inline_notification is_sync_notification run_notification_handler submit_sync
      submit_work
  route_notification n none = pure tt
  route_notification n (some handler) =
      if is_inline_notification n.method
      then run_notification_handler handler n.params
      else if is_sync_notification n.method
      then modify (submit_sync (notification_task handler n.params))
      else modify (submit_work (notification_task handler n.params))

  -- `exit` is taken first, in every state.
  unfoldable pub exit_now : Exec (Server Json) (Unit {0})
  exit_now = do
    modify (λ s. record s { state = exited })
    hooks ← gets (λ s. s.hooks)
    lift hooks.on_exit

  unfoldable pub handle_notification : ParsedNotification Json → Exec (Server Json) (Unit {0})
  unfolding exit_now route_notification
  handle_notification n s =
      if n.method == "exit"
      then exit_now s
      else if s.state == uninitialized
      then (ok tt, s)
      else route_notification n (lookup n.method s.notification_handlers) s

  unfoldable pub answer_pending :
      ParsedResponse Json → ℤ → Option (Callback Json) → Exec (Server Json) (Unit {0})
  unfolding submit_work
  answer_pending r id none = pure tt
  answer_pending r id (some callback) = modify (λ s.
      submit_work (callback_task callback r.payload r.is_error)
        (record s { pending_requests = erase id s.pending_requests }))

  unfoldable pub handle_response_id :
      ParsedResponse Json → RequestId → Exec (Server Json) (Unit {0})
  unfolding answer_pending
  handle_response_id r (num id) s = answer_pending r id (lookup id s.pending_requests) s
  handle_response_id r (str id) s = (ok tt, s)

  unfoldable pub handle_response : ParsedResponse Json → Exec (Server Json) (Unit {0})
  unfolding handle_response_id
  handle_response r = handle_response_id r r.id

  -- The `std::visit` of `run`.
  unfoldable pub handle_message : ParsedMessage Json → Exec (Server Json) (Unit {0})
  unfolding handle_request handle_notification handle_response send
  handle_message (request req) = handle_request req
  handle_message (notification n) = handle_notification n
  handle_message (response r) = handle_response r
  handle_message (error e) = send J (serialize_error_null J e.code e.message)

  -- One round of the loop of `run`.
  unfoldable pub receive : Bytes → Exec (Server Json) (Unit {0})
  unfolding handle_message parse_message
  receive raw = do m ← lift (parse_message J raw); handle_message m
