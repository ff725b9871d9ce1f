-- ===== src/Server/Answers/Received.antt =====
-- What the read thread does with a message, for the counts of `Server.Answers`.
use clsp.Base.{
  String, ◌≡◌, refl, sym, subst, inl, inr, true, false, Option, none, some, [], ◌∷◌, ◌++◌,
  Bool-cases, Bytes, length, ◌==◌, string_eq, ap, ◌∙◌,
}
use clsp.Errors.{ok, ErrorCodes, Result-cases, plain, err}
use clsp.Base.Dict.{lookup, insert, erase}
use clsp.Base.Int.{ℤ, int_eq}
use clsp.Json.{JsonLib, JsonLaws}
use clsp.Rpc.{
  RequestId, num, str, id_eq, ParsedMessage, ParsedRequest, ParsedNotification, ParsedResponse,
  request, notification, response, error, parse_message, invalid,
}
use clsp.Rpc.Roundtrip.{IsId, parse_message-serialize_error_null, plain-IsText}
use clsp.Rpc.Classify.{parse_message-request, IsIdOf}
use clsp.Server.State.{
  Server, request_task, notification_task, callback_task, RequestHandler, NotificationHandler,
  exited, uninitialized, state_eq, Callback,
}
use clsp.Server.Dispatch.{
  submit_request, handle_request, handle_notification, handle_response, handle_message, receive,
  is_lifecycle_request, is_inline_notification, is_sync_notification, route_notification,
  handle_response_id, answer_pending,
}
use clsp.Server.Kept.{plumbing, run_notification_handler-plumbing}
use clsp.Server.Replies.{send_error-Replies}
use clsp.Server.Gate.{Gated, handle_request_lem}
use clsp.Server.Answers.{is_answer, settled, is_owed, is_asked, one_if}
use clsp.Server.Answers.Requests.{Writes, changes_documents}
use clsp.Server.Answers.Ready.{
  IsReady, Settles, Settles-plumbing, Settles-frame, Settles-Replies, Settles-run_request_handler,
  Settles-work, Settles-sync,
}

module _ (J : JsonLib) (H : JsonLaws J) where
  open J use {Json}

  module _ (i : RequestId) where
    submit_request-Settles :
        (req : ParsedRequest Json) (h : RequestHandler Json) (s : Server Json)
        → IsReady J H (plumbing s)
        → IsId req.id
        → Writes J H h
        → Settles J H i s (one_if (req.id == i)) (submit_request J req h s)
    unfolding submit_request settled is_owed
    submit_request-Settles req h s r k w =
        let token = length s.flags in
        Settles-work J H i
          (record s {
            flags = s.flags ++ false ∷ [];
            cancellation_tokens = insert req.id token s.cancellation_tokens;
          })
          (request_task req.id req.params h token) r (k, w)

    handle_request-Gated :
        (req : ParsedRequest Json) (s : Server Json) (o : Option ErrorCodes)
        → IsReady J H (plumbing s)
        → IsId req.id
        → Gated J H req s o
        → (handle_request J req s).0 ≡ ok tt
        → Settles J H i s (one_if (req.id == i)) (handle_request J req s).1
    handle_request-Gated req s (some c) r k (m, e) returned =
        subst (λ x. Settles J H i s (one_if (req.id == i)) x.1) (sym e)
          (Settles-Replies J H i _ s req.id true r
            (send_error-Replies J H req.id c (plain m) s k (plain-IsText J H m)))
    handle_request-Gated req s none r k (h, l, e) returned =
        subst (λ x. Settles J H i s (one_if (req.id == i)) x.1) (sym e)
          (elim (Bool-cases (is_lifecycle_request req.method)) [
            | inl b ↦ rw b (
                Settles-run_request_handler J H i req.id req.params h false false s r k
                  (r.handlers req.method h l) (ap (λ x. x.0) (sym (rw b at e)) ∙ returned))
            | inr b ↦ rw b (submit_request-Settles req h s r k (r.handlers req.method h l))
          ])

    handle_request-Settles :
        (req : ParsedRequest Json) (s : Server Json)
        → IsReady J H (plumbing s)
        → IsId req.id
        → (handle_request J req s).0 ≡ ok tt
        → Settles J H i s (one_if (req.id == i)) (handle_request J req s).1
    handle_request-Settles req s r k =
        handle_request-Gated req s _ r k (handle_request_lem J H req s)

    aside :
        (m : String) (h : NotificationHandler Json) (s : Server Json)
        → IsReady J H (plumbing s)
        → lookup m s.notification_handlers ≡ some h
        → is_sync_notification m ≡ false
        → changes_documents h ≡ false
    aside m h s r l c = elim (Bool-cases (changes_documents h)) [
      | inl b ↦ absurd (let e = r.placed m h l b in cc)
      | inr b ↦ b
    ]

    route_notification-Settles :
        (n : ParsedNotification Json) (h : Option (NotificationHandler Json)) (s : Server Json)
        → IsReady J H (plumbing s)
        → lookup n.method s.notification_handlers ≡ h
        → Settles J H i s 0 (route_notification J n h s).1
    unfolding route_notification is_owed
    route_notification-Settles n none s r l = Settles-plumbing J H i s s r refl
    route_notification-Settles n (some h) s r l =
        elim (Bool-cases (is_inline_notification n.method)) [
          | inl b ↦
              rw b (Settles-plumbing J H i s _ r (run_notification_handler-plumbing J h n.params s))
          | inr b ↦ elim (Bool-cases (is_sync_notification n.method)) [
            | inl c ↦ rw (b, c) (Settles-sync J H i s (notification_task h n.params) r refl)
            | inr c ↦
                rw (b, c)
                  (Settles-work J H i s (notification_task h n.params) r (aside n.method h s r l c))
          ]
        ]

    handle_notification-Settles :
        (n : ParsedNotification Json) (s : Server Json)
        → IsReady J H (plumbing s)
        → Settles J H i s 0 (handle_notification J n s).1
    unfolding handle_notification
    handle_notification-Settles n s r = elim (Bool-cases (n.method == "exit")) [
      | inl b ↦
          rw (b, handle_notification)
            (Settles-plumbing J H i s (record s { state = exited }) r refl)
      | inr b ↦ elim (Bool-cases (s.state == uninitialized)) [
        | inl c ↦ rw (b, c, handle_notification) (Settles-plumbing J H i s s r refl)
        | inr c ↦
            rw (b, c, handle_notification)
              (route_notification-Settles n (lookup n.method s.notification_handlers) s r refl)
      ]
    ]

    answer_pending-Settles :
        (a : ParsedResponse Json) (z : ℤ) (o : Option (Callback Json)) (s : Server Json)
        → IsReady J H (plumbing s)
        → Settles J H i s 0 (answer_pending J a z o s).1
    unfolding answer_pending settled is_owed
    answer_pending-Settles a z none s r = Settles-plumbing J H i s s r refl
    answer_pending-Settles a z (some c) s r =
        Settles-work J H i (record s { pending_requests = erase z s.pending_requests })
          (callback_task c a.payload a.is_error) r tt

    handle_response-Settles :
        (a : ParsedResponse Json) (id : RequestId) (s : Server Json)
        → IsReady J H (plumbing s)
        → Settles J H i s 0 (handle_response_id J a id s).1
    unfolding handle_response_id
    handle_response-Settles a (num z) s r = answer_pending-Settles a z _ s r
    handle_response-Settles a (str t) s r = Settles-plumbing J H i s s r refl

    handle_error-Settles :
        (c : ErrorCodes) (m : String) (s : Server Json)
        → IsReady J H (plumbing s)
        → Settles J H i s 0 (handle_message J (error (record { code = c; message = m })) s).1
    unfolding handle_message is_answer invalid
    handle_error-Settles c m s r =
        let (t, written, parsed) = parse_message-serialize_error_null J H c m in
        rw (written, handle_message)
          (Settles-frame J H i s s t 0 _ (Settles-plumbing J H i s s r refl) parsed)

    IsIdOf-IsId : (v : Json) (id : RequestId) → IsIdOf J H v id → IsId id
    IsIdOf-IsId v (num z) (n, e) = H.get_int-IsInt v z e
    IsIdOf-IsId v (str t) e = tt

    pub parsed-IsId :
        (raw : Bytes) (req : ParsedRequest Json)
        → parse_message J raw ≡ ok (request req)
        → IsId req.id
    parsed-IsId raw req e =
        let (j, parsed, is) = (parse_message-request J H raw req).0 e in
        let (v, found, k) = is.id in IsIdOf-IsId v req.id k

    handle_message-Settles :
        (raw : Bytes) (m : ParsedMessage Json) (s : Server Json)
        → parse_message J raw ≡ ok m
        → IsReady J H (plumbing s)
        → (handle_message J m s).0 ≡ ok tt
        → Settles J H i s (is_asked i (ok m)) (handle_message J m s).1
    unfolding handle_message is_asked handle_response
    handle_message-Settles raw (request req) s e r returned =
        handle_request-Settles req s r (parsed-IsId raw req e) returned
    handle_message-Settles raw (notification n) s e r returned = handle_notification-Settles n s r
    handle_message-Settles raw (response a) s e r returned = handle_response-Settles a a.id s r
    handle_message-Settles raw (error x) s e r returned = handle_error-Settles x.code x.message s r

    -- A message that is received settles a request with the id exactly if it is one.
    pub receive-Settles :
        (raw : Bytes) (s : Server Json)
        → IsReady J H (plumbing s)
        → (receive J raw s).0 ≡ ok tt
        → Settles J H i s (is_asked i (parse_message J raw)) (receive J raw s).1
    unfolding receive
    receive-Settles raw s r returned = elim (Result-cases (parse_message J raw)) [
      | inl (m, e) ↦
          rw (e, receive) (handle_message-Settles raw m s e r (rw (e, receive) at returned))
      | inr (x, e) ↦ absurd (let f : err x ≡ ok tt = rw (e, receive) at returned in cc)
    ]
