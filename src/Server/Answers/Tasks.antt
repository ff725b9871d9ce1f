-- ===== src/Server/Answers/Tasks.antt =====
-- Tasks that end and messages that user code sends, for the counts of `Server.Answers`.
use clsp.Base.{
  zero, suc, ◌-◌, ◌^◌, String, refl, inl, inr, Bool, arith, ◌=ℕ=◌, Bool-cases, string_eq, ◌≡◌,
}
use clsp.Base.Int.{int_eq, ℤ, pos, negsuc}
use clsp.Json.{JsonLib, JsonLaws, IsInt}
use clsp.Rpc.{RequestId, id_eq}
use clsp.Rpc.Roundtrip.{parse_message-serialize_request, parse_message-serialize_notification}
use clsp.Server.State.{Server, Task, request_task, notification_task, callback_task, Callback}
use clsp.Server.Send.{send_request, send_notification, next_id, send}
use clsp.Server.Dispatch.{run_request_handler}
use clsp.Server.Kept.{plumbing, run_notification_handler-plumbing}
use clsp.Server.Run.{Event, requests, notifies, run_task, flag}
use clsp.Server.Answers.{is_answer, settled, is_owed, Result}
use clsp.Server.Answers.Requests.{IsSound}
use clsp.Server.Exec.{modify, Exec, ◌>>=◌}
use clsp.Server.Spares.{Spares-lift}
use clsp.Base.Dict.{erase, emplace}
use clsp.Server.Answers.Ready.{
  Settles-same, IsReady, Settles, Settles-plumbing, Settles-frame, Settles-run_request_handler,
}
use clsp.Errors.{Result, ok, err}

module _ (J : JsonLib) (H : JsonLaws J) where
  open J use {Json}

  -- What user code sends can be written.
  abbrev pub IsWritten : Event Json → Type 0
  IsWritten (requests method params callback) = H.IsText params
  IsWritten (notifies method params) = H.IsText params
  IsWritten _ = Unit

  next_id-IsInt : (z : ℤ) → IsInt z → IsInt (next_id z)
  unfolding next_id
  next_id-IsInt (pos n) h = elim (Bool-cases (n =ℕ= 2 ^ 31 - 1)) [
    | inl e ↦ rw e (omega arith)
    | inr e ↦ rw e (ground arith)
  ]
  next_id-IsInt (negsuc zero) h = omega arith
  next_id-IsInt (negsuc (suc n)) h = omega (arith, h)

  went_on :
      (m : Result (Unit {0}) × Server Json) (f : Unit {0} → Exec (Server Json) (Unit {0}))
      → (((λ (s : Server Json). m) >>= f) m.1).0 ≡ ok tt
      → m.0 ≡ ok tt
  went_on (ok v, s) f e = refl
  went_on (err x, s) f e = absurd (cc)

  module _ (i : RequestId) where
    pub send_request-Settles :
        (method : String) (params : Json) (callback : Callback Json) (s : Server Json)
        → H.IsText params
        → IsReady J H (plumbing s)
        → Settles J H i s 0 (send_request J method params callback s).1
    unfolding send_request is_answer settled
    send_request-Settles method params callback s w r =
        let (t, written, parsed) =
          parse_message-serialize_request J H s.next_outgoing_id method params r.next_id w in
        let q = record s {
          next_outgoing_id = next_id s.next_outgoing_id;
          pending_requests = emplace s.next_outgoing_id callback s.pending_requests;
        } in
        rw (written, send)
          (Settles-frame J H i s q t 0 _
            (
              record {
                open_pool = r.open_pool;
                tasks = r.tasks;
                sync_tasks = r.sync_tasks;
                handlers = r.handlers;
                placed = r.placed;
                next_id = next_id-IsInt s.next_outgoing_id r.next_id;
              },
              omega arith,
            )
            parsed)

    pub send_notification-Settles :
        (method : String) (params : Json) (s : Server Json)
        → H.IsText params
        → IsReady J H (plumbing s)
        → Settles J H i s 0 (send_notification J method params s).1
    unfolding send_notification is_answer
    send_notification-Settles method params s w r =
        let (t, written, parsed) = parse_message-serialize_notification J H method params w in
        rw (written, send_notification)
          (Settles-frame J H i s s t 0 _ (Settles-plumbing J H i s s r refl) parsed)

    -- A task that ends settles the request that it owes a response.
    pub run_task-Settles :
        (t : Task Json) (at_start : Bool) (s : Server Json)
        → IsReady J H (plumbing s)
        → IsSound J H t
        → (run_task J t at_start s).0 ≡ ok tt
        → Settles J H i s (is_owed i t) (run_task J t at_start s).1
    unfolding run_task is_owed
    run_task-Settles (request_task id params h token) at_start s r (k, w) returned =
        let seen = flag token s.flags in
        let m = run_request_handler J id params h at_start seen s in
        Settles-same J H i s m.1 _ _
          (Settles-run_request_handler J H i id params h at_start seen s r k w
            (went_on m _ returned))
          (Spares-lift plumbing m.0
            (λ (u : Unit {0}). modify (λ (q : Server Json). record q {
              cancellation_tokens = erase id q.cancellation_tokens;
            }))
            (λ u q. refl) m.1)
    run_task-Settles (notification_task h params) at_start s r k returned =
        Settles-plumbing J H i s _ r (run_notification_handler-plumbing J h params s)
    run_task-Settles (callback_task c payload is_error) at_start s r k returned =
        Settles-plumbing J H i s _ r refl
