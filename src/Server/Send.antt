-- ===== src/Server/Send.antt =====
-- `sendFrame` and what calls it.
use clsp.Base.{
  zero, suc, ◌+◌, ◌-◌, ◌^◌, String, [], ◌∷◌, ◌++◌, ◌=ℕ=◌, if◌then◌else◌, Bytes, string_eq, List,
  Option,
}
use clsp.Base.Dict.{emplace}
use clsp.Base.Int.{ℤ, pos, negsuc, int_eq}
use clsp.Errors.{ErrorCodes, Message, Result}
use clsp.Json.{JsonLib}
use clsp.Rpc.{
  RequestId, serialize_result, serialize_error, serialize_request, serialize_notification,
}
use clsp.Server.Exec.{Exec, ◌>>=◌, ◌>>◌, modify, gets, lift}
use clsp.Server.State.{Server, Callback}
use clsp.Protocol.Diagnostics.{publish_diagnostics_to_json, Diagnostic}

-- `fetch_add(1)` on an `std::atomic<int>`, which wraps around.
unfoldable pub next_id : ℤ → ℤ
next_id (pos n) = if n =ℕ= 2 ^ 31 - 1 then negsuc (2 ^ 31 - 1) else pos (n + 1)
next_id (negsuc zero) = pos 0
next_id (negsuc (suc n)) = negsuc n

module _ (J : JsonLib) where
  open J use {Json}

  unfoldable pub send_frame : Bytes → Exec (Server Json) (Unit {0})
  send_frame body = modify (λ s. record s { sent = s.sent ++ body ∷ [] })

  unfoldable pub send : Result Bytes → Exec (Server Json) (Unit {0})
  unfolding send_frame
  send r = do body ← lift r; send_frame body

  unfoldable pub send_error : RequestId → ErrorCodes → Message → Exec (Server Json) (Unit {0})
  unfolding send
  send_error id code message = send (serialize_error J id code message)

  unfoldable pub send_result : RequestId → Json → Exec (Server Json) (Unit {0})
  unfolding send
  send_result id result = send (serialize_result J id result)

  unfoldable pub send_notification : String → Json → Exec (Server Json) (Unit {0})
  unfolding send
  send_notification method params = send (serialize_notification J method params)

  unfoldable pub send_request : String → Json → Callback Json → Exec (Server Json) (Unit {0})
  unfolding send next_id
  send_request method params callback = do
    id ← gets (λ s. s.next_outgoing_id)
    modify (λ s. record s {
      next_outgoing_id = next_id id;
      pending_requests = emplace id callback s.pending_requests;
    })
    send (serialize_request J id method params)

  unfoldable pub publish_diagnostics :
      String → List (Diagnostic Json) → Option ℤ → Exec (Server Json) (Unit {0})
  unfolding send_notification publish_diagnostics_to_json
  publish_diagnostics uri diagnostics version =
      send_notification "textDocument/publishDiagnostics" (
        publish_diagnostics_to_json J
          (record { uri = uri; version = version; diagnostics = diagnostics }))
