-- ===== src/Server/Replies.antt =====
-- The replies to requests.
use clsp.Base.{
  ◌≡◌, refl, ◌⊎◌, inl, inr, Bool, true, false, [], ◌∷◌, ◌++◌, if◌then◌else◌, Bytes, string_eq, sym,
  ◌∙◌, subst, ap,
}
use clsp.Errors
use clsp.Errors.{
  Result-cases, ErrorCodes, Exception, Result, ok, err, cancelled, json_rpc, other, foreign,
  Message, plain,
}
use clsp.Json.{JsonLib, JsonLaws, of_message}
use clsp.Rpc.{RequestId, response, parse_message, error_object}
use clsp.Rpc.Roundtrip.{
  IsId, parse_message-serialize_result, parse_message-serialize_error, of_message-cases,
  plain-IsText, serialize_error-Unwritable,
}
use clsp.Server.State.{Server, RequestHandler}
use clsp.Server.Send.{send_error, send_result}
use clsp.Server.Handlers.{call_request}
use clsp.Server.Dispatch.{reply_exception, run_request_handler}

module _ (J : JsonLib) (H : JsonLaws J) where
  open J use {Json}

  -- The code returned in the state `q`, but for one more frame, which parses as a response to `id`.
  abbrev pub Replies : Result (Unit {0}) × Server Json → Server Json → RequestId → Bool → Type 0
  Replies m q id is_error =
      (frame : Bytes) × (payload : Json) × (m ≡ (ok tt, record q { sent = q.sent ++ frame ∷ [] }))
      × (parse_message J frame
          ≡ ok (response (record { id = id; payload = payload; is_error = is_error })))

  pub send_error-Replies :
      (id : RequestId) (c : ErrorCodes) (m : Message) (s : Server Json)
      → IsId id
      → H.IsText (of_message J m)
      → Replies (send_error J id c m s) s id true
  unfolding send_error
  send_error-Replies id c m s h w =
      let (t, written, parsed) = parse_message-serialize_error J H id c m h w in
      (t, error_object J c m, rw (written, send_error) refl, parsed)

  send_result-Replies :
      (id : RequestId) (r : Json) (s : Server Json)
      → IsId id
      → H.IsText r
      → Replies (send_result J id r s) s id false
  unfolding send_result
  send_result-Replies id r s h w =
      let (t, written, parsed) = parse_message-serialize_result J H id r h w in
      (t, r, rw (written, send_result) refl, parsed)

  -- What `runRequestHandler` catches and can report: a `std::exception` whose `what()` is UTF-8.
  abbrev pub IsReported : Exception → Type 0
  IsReported cancelled = Unit
  IsReported (json_rpc c m) = H.IsText (of_message J m)
  IsReported (other m) = H.IsText (of_message J m)
  IsReported foreign = ⊥

  reply_exception-Replies :
      (id : RequestId) (e : Exception) (s : Server Json)
      → IsId id
      → IsReported e
      → Replies (reply_exception J id e s) s id true
  unfolding reply_exception
  reply_exception-Replies id cancelled s h w =
      send_error-Replies id _ _ s h (plain-IsText J H "Request cancelled")
  reply_exception-Replies id (json_rpc c m) s h w = send_error-Replies id c m s h w
  reply_exception-Replies id (other m) s h w = send_error-Replies id _ m s h w
  reply_exception-Replies id foreign s h w = absurd w

  -- The code threw, with no frame sent.
  abbrev pub Escapes : Result (Unit {0}) × Server Json → Server Json → Type 0
  Escapes m q = (x : Exception) × (m ≡ (err x, q))

  send_error-Escapes :
      (id : RequestId) (c : ErrorCodes) (m : Message) (s : Server Json)
      → H.Unwritable (of_message J m)
      → Escapes (send_error J id c m s) s
  unfolding send_error
  send_error-Escapes id c m s w =
      let (x, e) = serialize_error-Unwritable J H id c m w in (x, rw (e, send_error) refl)

  IsReported-cases :
      (id : RequestId) (e : Exception) (s : Server Json)
      → IsReported e ⊎ Escapes (reply_exception J id e s) s
  unfolding reply_exception
  IsReported-cases id cancelled s = inl tt
  IsReported-cases id (json_rpc c m) s = elim (of_message-cases J H m) [
    | inl w ↦ inl w
    | inr w ↦ inr (send_error-Escapes id c m s w)
  ]
  IsReported-cases id (other m) s = elim (of_message-cases J H m) [
    | inl w ↦ inl w
    | inr w ↦ inr (send_error-Escapes id _ m s w)
  ]
  IsReported-cases id foreign s = inr (foreign, refl)

  abbrev pub is_err {ℓ} : {A : Type ℓ} → Result A → Bool
  is_err (ok a) = false
  is_err (err e) = true

  -- `runRequestHandler` returns without an exception, and sends exactly one frame, a response to
  -- the id of the request: an error if the request was cancelled before it began or its handler
  -- threw, else a result. In the first case the server is otherwise as it was; else it is as the
  -- handler left it. The id fits `int`, a result that the handler returns can be written, and what
  -- it throws is a `std::exception` whose `what()` is UTF-8.
  pub run_request_handler-Replies :
      (id : RequestId) (params : Json) (handler : RequestHandler Json) (at_start polled : Bool)
      (s : Server Json)
      → IsId id
      → ((r : Json) → (call_request J handler params polled s).0 ≡ ok r → H.IsText r)
      → ((x : Exception) → (call_request J handler params polled s).0 ≡ err x → IsReported x)
      → Replies
          (run_request_handler J id params handler at_start polled s)
          (if at_start then s else (call_request J handler params polled s).1)
          id
          (if at_start then true else is_err (call_request J handler params polled s).0)
  unfolding run_request_handler
  run_request_handler-Replies id params handler true polled s h w c =
      let (t, p, sent, parsed) =
        send_error-Replies id Errors.request_cancelled (plain "Request cancelled") s h
          (plain-IsText J H "Request cancelled") in
      (t, p, rw (sent, run_request_handler) refl, parsed)
  run_request_handler-Replies id params handler false polled s h w c =
      elim (Result-cases (call_request J handler params polled s).0) [
        | inl (r, e) ↦
            let (t, p, sent, parsed) =
              send_result-Replies id r (call_request J handler params polled s).1 h (w r e) in
            rw e (t, p, rw sent refl, parsed)
        | inr (x, e) ↦
            let (t, p, sent, parsed) =
              reply_exception-Replies id x (call_request J handler params polled s).1 h (c x e) in
            rw e (t, p, rw sent refl, parsed)
      ]

  -- What a handler throws and `runRequestHandler` does not catch, or cannot report, leaves it: where
  -- a request that was not cancelled before it began makes its handler throw what is no
  -- `std::exception`, or one whose `what()` is not UTF-8, no frame is sent, an exception is thrown,
  -- and the server is as the handler left it.
  pub run_request_handler-Escapes :
      (id : RequestId) (params : Json) (handler : RequestHandler Json) (polled : Bool)
      (s : Server Json) (x : Exception)
      → (call_request J handler params polled s).0 ≡ err x
      → ¬ IsReported x
      → Escapes
          (run_request_handler J id params handler false polled s)
          (call_request J handler params polled s).1
  unfolding run_request_handler
  run_request_handler-Escapes id params handler polled s x e n =
      elim (IsReported-cases id x (call_request J handler params polled s).1) [
        | inl k ↦ absurd (n k)
        | inr (y, f) ↦ (y, rw e f)
      ]

  -- So `runRequestHandler` either replies or throws.
  pub run_request_handler-cases :
      (id : RequestId) (params : Json) (handler : RequestHandler Json) (at_start polled : Bool)
      (s : Server Json)
      → IsId id
      → ((r : Json) → (call_request J handler params polled s).0 ≡ ok r → H.IsText r)
      → Replies
          (run_request_handler J id params handler at_start polled s)
          (if at_start then s else (call_request J handler params polled s).1)
          id
          (if at_start then true else is_err (call_request J handler params polled s).0)
        ⊎ ((x : Exception) × ((run_request_handler J id params handler at_start polled s).0
              ≡ err x))
  unfolding run_request_handler
  run_request_handler-cases id params handler true polled s h w =
      let (t, p, sent, parsed) =
        send_error-Replies id Errors.request_cancelled (plain "Request cancelled") s h
          (plain-IsText J H "Request cancelled") in
      inl (t, p, rw (sent, run_request_handler) refl, parsed)
  run_request_handler-cases id params handler false polled s h w =
      elim (Result-cases (call_request J handler params polled s).0) [
        | inl (r, e) ↦ inl (
            run_request_handler-Replies id params handler false polled s h w
              (λ x f. absurd (let g = sym e ∙ f in cc)))
        | inr (x, e) ↦ elim (IsReported-cases id x (call_request J handler params polled s).1) [
          | inl k ↦ inl (
              run_request_handler-Replies id params handler false polled s h w
                (λ y f. subst IsReported (let g : err x ≡ err y = sym e ∙ f in cc) k))
          | inr (y, f) ↦ inr (y, rw e (ap (λ m. m.0) f))
        ]
      ]
