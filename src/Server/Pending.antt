-- ===== src/Server/Pending.antt =====
-- Requests that the server sends, and the responses to them.
use clsp.Base.{string_eq, String, ◌≡◌, refl, Bool, none, [], ◌∷◌, ◌++◌, Bytes, string_eq, ==_refl}
use clsp.Errors.{ok}
use clsp.Base.Dict.{lookup, emplace, lookup-emplace, erase-emplace}
use clsp.Base.Int.{int_eq, ℤ}
use clsp.Json.{JsonLib, JsonLaws, IsInt}
use clsp.Rpc.{num, ParsedResponse, request, parse_message}
use clsp.Rpc.Roundtrip.{parse_message-serialize_request}
use clsp.Server.Send.{send_request, send, next_id, send_frame}
use clsp.Server.State.{Callback, Server, callback_task}
use clsp.Server.Dispatch.{handle_response, handle_response_id, answer_pending, submit_work}

module _ (J : JsonLib) (H : JsonLaws J) where
  open J use {Json}

  -- The state after a request was sent as `frame`.
  abbrev pub after_request : Callback Json → Bytes → Server Json → Server Json
  after_request callback frame s = record s {
    next_outgoing_id = next_id s.next_outgoing_id;
    pending_requests = emplace s.next_outgoing_id callback s.pending_requests;
    sent = s.sent ++ frame ∷ [];
  }

  -- A response to the id `i`.
  abbrev pub answer : ℤ → Json → Bool → ParsedResponse Json
  answer i payload is_error = record { id = num i; payload = payload; is_error = is_error }

  -- `sendRequest` sends one frame, which parses as a request of that method and those params under
  -- the next outgoing id. The first response to this id, a result or an error, submits a call of the
  -- callback with the payload to the worker pool and leaves the pending requests as they were before
  -- the request; a second response to it does nothing. No request is pending under that id, which
  -- fits `int`, and the params can be written.
  pub handle_response-send_request :
      (method : String) (params : Json) (callback : Callback Json) (s : Server Json)
      → IsInt s.next_outgoing_id
      → H.IsText params
      → lookup s.next_outgoing_id s.pending_requests ≡ none
      → (frame : Bytes) × (send_request J method params callback s
          ≡ (ok tt, after_request callback frame s))
        × (parse_message J frame
            ≡ ok (
                request (record { id = num s.next_outgoing_id; method = method; params = params })))
        × ((payload again : Json) (is_error b : Bool)
            → (q : Server Json) × (q
                ≡ submit_work J
                    (callback_task callback payload is_error)
                    (record (after_request callback frame s) {
                      pending_requests = s.pending_requests;
                    }))
              × (handle_response J
                    (answer s.next_outgoing_id payload is_error)
                    (after_request callback frame s)
                  ≡ (ok tt, q))
              × (handle_response J (answer s.next_outgoing_id again b) q ≡ (ok tt, q)))
  unfolding send_request send send_frame handle_response handle_response_id answer_pending
      submit_work
  handle_response-send_request method params callback s h w fresh =
      let (t, written, parsed) =
        parse_message-serialize_request J H s.next_outgoing_id method params h w in
      (
        t,
        rw written refl,
        parsed,
        λ payload again is_error b. (
          _,
          refl,
          rw
              (
                lookup-emplace s.next_outgoing_id s.next_outgoing_id callback s.pending_requests
                    fresh,
                ==_refl s.next_outgoing_id,
                erase-emplace s.next_outgoing_id callback s.pending_requests fresh,
              )
              refl,
          rw fresh refl,
        ),
      )
