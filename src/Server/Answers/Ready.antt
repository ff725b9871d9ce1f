-- ===== src/Server/Answers/Ready.antt =====
-- A server in good order, and what settles requests, for the counts of `Server.Answers`.
use clsp.Base.{
  ℕ, ◌+◌, String, ◌≡◌, sym, ◌∙◌, subst, Bool, true, false, some, List, [], ◌∷◌, ◌++◌, arith, Bytes,
  ◌==◌, string_eq, if◌then◌else◌, inl, inr,
}
use clsp.Errors.{Result, ok}
use clsp.Base.Dict.{lookup}
use clsp.Base.Int.{int_eq}
use clsp.ThreadPool.Open.{Open, Open-submit}
use clsp.Json.{JsonLib, JsonLaws, IsInt}
use clsp.Rpc.{RequestId, id_eq, ParsedMessage, parse_message}
use clsp.Rpc.Roundtrip.{IsId}
use clsp.ThreadPool.Contents.{pool_total-submit, OfTasks, OfTasks-submit}
use clsp.Server.State.{Server, Task, RequestHandler, NotificationHandler, state_eq}
use clsp.Server.Dispatch.{run_request_handler, submit_work, submit_sync, is_sync_notification}
use clsp.Server.Kept.{Plumbing, plumbing, call_request-plumbing}
use clsp.Server.Handlers.{call_request}
use clsp.Server.Replies.{Replies, is_err, run_request_handler-cases}
use clsp.Server.Answers.{is_answer, settled, is_owed, one_if}
use clsp.Server.Answers.Requests.{
  call_request-IsText, Writes, IsSound, IsNotification, changes_documents, settled-plumbing,
  settled-frame, settled-Replies,
}

module _ (J : JsonLib) (H : JsonLaws J) where
  open J use {Json}

  -- The worker pool has workers and takes tasks, all of them sound; those of the sync executor are
  -- notifications; what the registered handlers return can be written; a handler that changes
  -- documents stands under a method of the sync executor; and the next id fits `int`.
  pub record IsReady (p : Plumbing Json) : Type 0 where
    pub open_pool : Open p.worker_pool
    pub tasks : OfTasks (IsSound J H) p.worker_pool
    pub sync_tasks : OfTasks IsNotification p.sync_executor
    pub handlers :
        (m : String) (h : RequestHandler Json) → lookup m p.request_handlers ≡ some h → Writes J H h
    pub placed :
        (m : String) (h : NotificationHandler Json)
        → lookup m p.notification_handlers ≡ some h
        → changes_documents h ≡ true
        → is_sync_notification m ≡ true
    pub next_id : IsInt p.next_outgoing_id

  IsReady-sent :
      (q : Server Json) (frames : List Bytes)
      → IsReady (plumbing q)
      → IsReady (plumbing (record q { sent = frames }))
  IsReady-sent q frames r = record {
    open_pool = r.open_pool;
    tasks = r.tasks;
    sync_tasks = r.sync_tasks;
    handlers = r.handlers;
    placed = r.placed;
    next_id = r.next_id;
  }

  -- A request that was run without an exception got its reply.
  replied :
      (id : RequestId) (params : Json) (h : RequestHandler Json) (at_start polled : Bool)
      (s : Server Json)
      → IsId id
      → Writes J H h
      → (run_request_handler J id params h at_start polled s).0 ≡ ok tt
      → Replies J H
          (run_request_handler J id params h at_start polled s)
          (if at_start then s else (call_request J h params polled s).1)
          id
          (if at_start then true else is_err J H (call_request J h params polled s).0)
  replied id params h at_start polled s k w returned =
      elim (run_request_handler-cases J H id params h at_start polled s k
        (λ v. call_request-IsText J H h params polled s v w)) [
          | inl r ↦ r
          | inr (x, e) ↦ absurd (let f = sym returned ∙ e in cc)
        ]

  module _ (i : RequestId) where
    -- From `s` to `t`, `n` requests with the id were settled.
    abbrev pub Settles : Server Json → ℕ → Server Json → Type 0
    Settles s n t = IsReady (plumbing t) × (settled J i t ≡ settled J i s + n)

    pub Settles-plumbing :
        (s t : Server Json) → IsReady (plumbing s) → plumbing t ≡ plumbing s → Settles s 0 t
    Settles-plumbing s t r e =
        (subst IsReady (sym e) r, omega (arith, settled-plumbing J H i t s e))

    pub Settles-same :
        (s t u : Server Json) (n : ℕ) → Settles s n t → plumbing u ≡ plumbing t → Settles s n u
    Settles-same s t u n (r, c) e = (subst IsReady (sym e) r, settled-plumbing J H i u t e ∙ c)

    pub Settles-frame :
        (s q : Server Json) (frame : Bytes) (n : ℕ) (m : Result (ParsedMessage Json))
        → Settles s n q
        → parse_message J frame ≡ m
        → Settles s (n + is_answer i m) (record q { sent = q.sent ++ frame ∷ [] })
    Settles-frame s q frame n m (r, e) p =
        (IsReady-sent q _ r, omega (arith, e, settled-frame J H i q frame m p))

    pub Settles-Replies :
        (m : Result (Unit {0}) × Server Json) (q : Server Json) (id : RequestId) (b : Bool)
        → IsReady (plumbing q)
        → Replies J H m q id b
        → Settles q (one_if (id == i)) m.1
    Settles-Replies m q id b r (frame, payload, e, p) = (
      subst (λ x. IsReady (plumbing x.1)) (sym e) (IsReady-sent q _ r),
      settled-Replies J H i m q id b (frame, payload, e, p),
    )

    -- However a request is run, that settles one request with its id.
    pub Settles-run_request_handler :
        (id : RequestId) (params : Json) (h : RequestHandler Json) (at_start polled : Bool)
        (s : Server Json)
        → IsReady (plumbing s)
        → IsId id
        → Writes J H h
        → (run_request_handler J id params h at_start polled s).0 ≡ ok tt
        → Settles s (one_if (id == i)) (run_request_handler J id params h at_start polled s).1
    Settles-run_request_handler id params h true polled s r k w e =
        Settles-Replies _ s id true r (replied id params h true polled s k w e)
    Settles-run_request_handler id params h false polled s r k w returned =
        let q = (call_request J h params polled s).1 in
        let e = call_request-plumbing J h params polled s in
        let (ready, count) =
          Settles-Replies _ q id _ (subst IsReady (sym e) r)
            (replied id params h false polled s k w returned) in
        (ready, omega (arith, count, settled-plumbing J H i q s e))

    pub Settles-work :
        (s : Server Json) (t : Task Json)
        → IsReady (plumbing s)
        → IsSound J H t
        → Settles s (is_owed i t) (submit_work J t s)
    unfolding submit_work settled
    Settles-work s t r k = (
      record {
        open_pool = Open-submit t s.worker_pool r.open_pool;
        tasks = OfTasks-submit (IsSound J H) t s.worker_pool r.tasks k;
        sync_tasks = r.sync_tasks;
        handlers = r.handlers;
        placed = r.placed;
        next_id = r.next_id;
      },
      omega (arith, pool_total-submit (is_owed i) t s.worker_pool r.open_pool.takes_tasks),
    )

    pub Settles-sync :
        (s : Server Json) (t : Task Json)
        → IsReady (plumbing s)
        → IsNotification t
        → Settles s 0 (submit_sync J t s)
    unfolding submit_sync settled
    Settles-sync s t r k = (
      record {
        open_pool = r.open_pool;
        tasks = r.tasks;
        sync_tasks = OfTasks-submit IsNotification t s.sync_executor r.sync_tasks k;
        handlers = r.handlers;
        placed = r.placed;
        next_id = r.next_id;
      },
      omega arith,
    )
