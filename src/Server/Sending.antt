-- ===== src/Server/Sending.antt =====
-- Code that replies, for a view of the server that frames sent leave as it is.
use clsp.Base.{◌≡◌, Bool, true, false, List, [], ◌∷◌, ◌++◌, Bytes, string_eq}
use clsp.Errors.{Result, Exception, cancelled, json_rpc, other, foreign}
use clsp.Json.{JsonLib}
use clsp.Rpc.{RequestId}
use clsp.Server.State.{Server, RequestHandler}
use clsp.Server.Send.{send, send_error, send_result}
use clsp.Server.Handlers.{call_request}
use clsp.Server.Dispatch.{run_request_handler, reply_exception}
use clsp.Server.Spares.{Spares, Spares-lift, Spares-bind, Spares-catch}

module _ {ℓ} (J : JsonLib) {V : Type ℓ} (view : Server J.Json → V)
    (sent : (s : Server J.Json) (frames : List Bytes)
      → view (record s { sent = frames }) ≡ view s) where
  open J use {Json}

  pub send-Spares : (r : Result Bytes) → Spares view (send J r)
  unfolding send
  send-Spares r s = Spares-lift view r _ (λ body t. sent t (t.sent ++ body ∷ [])) s

  reply_exception-Spares : (id : RequestId) (x : Exception) → Spares view (reply_exception J id x)
  unfolding reply_exception send_error
  reply_exception-Spares id cancelled s = send-Spares _ s
  reply_exception-Spares id (json_rpc c m) s = send-Spares _ s
  reply_exception-Spares id (other m) s = send-Spares _ s
  reply_exception-Spares id foreign s = λ i. view s

  pub run_request_handler-Spares :
      (id : RequestId) (params : Json) (h : RequestHandler Json) (at_start polled : Bool)
      → Spares view (call_request J h params polled)
      → Spares view (run_request_handler J id params h at_start polled)
  unfolding run_request_handler send_error send_result
  run_request_handler-Spares id params h true polled k =
      Spares-catch view _ (reply_exception J id) (λ s. send-Spares _ s) (reply_exception-Spares id)
  run_request_handler-Spares id params h false polled k =
      Spares-catch view _ (reply_exception J id)
        (Spares-bind view (call_request J h params polled) _ k (λ v s. send-Spares _ s))
        (reply_exception-Spares id)
