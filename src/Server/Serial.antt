-- ===== src/Server/Serial.antt =====
-- The sync executor of the server as a pool of its own: what is submitted to it, and when.
pub mod Steps
pub mod Run
use clsp.Base.{
  ℕ, String, ◌≡◌, refl, ap, ◌∙◌, inl, inr, true, false, Option, none, some, arith, if◌then◌else◌,
  Bool-cases, Bytes, ◌==◌, string_eq,
}
use clsp.Errors.{Result, ok, ErrorCodes, Result-cases}
use clsp.Json.{JsonLib, JsonLaws}
use clsp.Base.Dict.{lookup}
use clsp.Base.Int.{ℤ}
use clsp.Rpc.{
  RequestId, num, str, ParsedMessage, ParsedRequest, ParsedNotification, ParsedResponse, request,
  notification, response, error, parse_message, serialize_error_null,
}
use clsp.ThreadPool.{ThreadPool, submit}
use clsp.Server.State.{
  Server, Task, notification_task, NotificationHandler, uninitialized, state_eq, Callback,
}
use clsp.Server.Send.{send_error}
use clsp.Server.Dispatch.{
  handle_request, handle_notification, handle_message, receive, is_lifecycle_request,
  is_inline_notification, is_sync_notification, route_notification, answer_pending, handle_response,
  handle_response_id, submit_request, submit_work, submit_sync,
}
use clsp.Server.Gate.{Gated, handle_request_lem}
use clsp.Server.Kept.{run_notification_handler-plumbing}
use clsp.Server.Pools.{send-pools, run_request_handler-pools}

module _ {Json : Type 0} where
  unfoldable pub sync_of :
      ParsedNotification Json → Option (NotificationHandler Json) → Option (Task Json)
  sync_of n none = none
  sync_of n (some h) = some (notification_task h n.params)

  -- The task that a message queues on the sync executor: that of a notification about a document
  -- which is registered, once the server has been initialized.
  unfoldable pub sync_task : Result (ParsedMessage Json) → Server Json → Option (Task Json)
  unfolding sync_of is_sync_notification
  sync_task (ok (notification n)) s =
      if s.state == uninitialized
      then none
      else if is_sync_notification n.method
      then sync_of n (lookup n.method s.notification_handlers)
      else none
  sync_task _ s = none

  abbrev pub queue : Option (Task Json) → ThreadPool (Task Json) → ThreadPool (Task Json)
  queue none p = p
  queue (some t) p = submit t p

ne_of_sync :
    (m k : String)
    → is_sync_notification m ≡ true
    → is_sync_notification k ≡ false
    → (m == k) ≡ false
ne_of_sync m k h n = elim (Bool-cases (m == k)) [
  | inl b ↦ let e : m ≡ k = (string_eq.same_iff m k).0 b in absurd (cc)
  | inr b ↦ b
]

pub not_inline : (m : String) → is_sync_notification m ≡ true → is_inline_notification m ≡ false
unfolding is_sync_notification is_inline_notification
not_inline m h =
    rw
      (
        ne_of_sync m "initialized" h refl,
        ne_of_sync m "exit" h refl,
        ne_of_sync m "$/cancelRequest" h refl,
      )
      refl

module _ (J : JsonLib) (H : JsonLaws J) where
  open J use {Json}

  Gated-sync :
      (req : ParsedRequest Json) (s : Server Json) (o : Option ErrorCodes)
      → Gated J H req s o
      → (handle_request J req s).1.sync_executor ≡ s.sync_executor
  unfolding send_error submit_request submit_work
  Gated-sync req s (some c) (m, e) =
      ap (λ x. x.1.sync_executor) e ∙ ap (λ p. p.1) (send-pools J _ s)
  Gated-sync req s none (h, l, e) =
      ap (λ x. x.1.sync_executor) e ∙ (elim (Bool-cases (is_lifecycle_request req.method)) [
        | inl b ↦
            rw b (ap (λ p. p.1) (run_request_handler-pools J req.id req.params h false false s))
        | inr b ↦ rw b refl
      ])

  route_notification-sync :
      (n : ParsedNotification Json) (h : Option (NotificationHandler Json)) (s : Server Json)
      → (route_notification J n h s).1.sync_executor
        ≡ queue (if is_sync_notification n.method then sync_of n h else none) s.sync_executor
  unfolding route_notification sync_of submit_sync submit_work
  route_notification-sync n none s = ground arith
  route_notification-sync n (some h) s = elim (Bool-cases (is_sync_notification n.method)) [
    | inl b ↦ rw (b, not_inline n.method b) refl
    | inr b ↦ elim (Bool-cases (is_inline_notification n.method)) [
      | inl c ↦
          rw (b, c) (ap (λ p. p.sync_executor) (run_notification_handler-plumbing J h n.params s))
      | inr c ↦ rw (b, c) refl
    ]
  ]

  exit-sync :
      (n : ParsedNotification Json) (s : Server Json)
      → (n.method == "exit") ≡ true
      → s.sync_executor ≡ queue (sync_task (ok (notification n)) s) s.sync_executor
  unfolding sync_task is_sync_notification
  exit-sync n s b =
      let e : n.method ≡ "exit" = (string_eq.same_iff n.method "exit").0 b in
      elim (Bool-cases (s.state == uninitialized)) [ inl c ↦ rw c refl | inr c ↦ rw (c, e) refl ]

  handle_notification-sync :
      (n : ParsedNotification Json) (s : Server Json)
      → (handle_notification J n s).1.sync_executor
        ≡ queue (sync_task (ok (notification n)) s) s.sync_executor
  unfolding handle_notification sync_task
  handle_notification-sync n s = elim (Bool-cases (n.method == "exit")) [
    | inl b ↦ rw (b, handle_notification) (exit-sync n s b)
    | inr b ↦ elim (Bool-cases (s.state == uninitialized)) [
      | inl c ↦ rw (b, c, handle_notification) refl
      | inr c ↦
          rw (b, c, handle_notification)
            (route_notification-sync n (lookup n.method s.notification_handlers) s)
    ]
  ]

  answer_pending-sync :
      (a : ParsedResponse Json) (z : ℤ) (o : Option (Callback Json)) (s : Server Json)
      → (answer_pending J a z o s).1.sync_executor ≡ s.sync_executor
  unfolding answer_pending submit_work
  answer_pending-sync a z none s = refl
  answer_pending-sync a z (some c) s = refl

  handle_response-sync :
      (a : ParsedResponse Json) (id : RequestId) (s : Server Json)
      → (handle_response_id J a id s).1.sync_executor ≡ s.sync_executor
  unfolding handle_response_id
  handle_response-sync a (num z) s = answer_pending-sync a z _ s
  handle_response-sync a (str t) s = refl

  handle_message-sync :
      (m : ParsedMessage Json) (s : Server Json)
      → (handle_message J m s).1.sync_executor ≡ queue (sync_task (ok m) s) s.sync_executor
  unfolding handle_message handle_response sync_task
  handle_message-sync (request req) s = Gated-sync req s _ (handle_request_lem J H req s)
  handle_message-sync (notification n) s = handle_notification-sync n s
  handle_message-sync (response a) s = handle_response-sync a a.id s
  handle_message-sync (error y) s =
      ap (λ p. p.1) (send-pools J (serialize_error_null J y.code y.message) s)

  pub receive-sync :
      (raw : Bytes) (s : Server Json)
      → (receive J raw s).1.sync_executor
        ≡ queue (sync_task (parse_message J raw) s) s.sync_executor
  unfolding receive sync_task
  receive-sync raw s = elim (Result-cases (parse_message J raw)) [
    | inl (m, e) ↦ rw (e, receive) (handle_message-sync m s)
    | inr (x, e) ↦ rw (e, receive, sync_task) refl
  ]
