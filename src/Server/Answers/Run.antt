-- ===== src/Server/Answers/Run.antt =====
-- The counts of `Server.Answers` over whole runs of the server.
use clsp.Base.{
  ℕ, ◌+◌, String, ◌≡◌, refl, subst, some, List, [], ◌∷◌, arith, ◌=ℕ=◌, if◌then◌else◌, All,
  string_eq,
}
use clsp.Json.{JsonLib, JsonLaws}
use clsp.Rpc.{RequestId, str, id_eq}
use clsp.ThreadPool.Contents.{pool_total, pool_total-make}
use clsp.Server.State.{
  Server, Task, Hooks, RequestHandler, register_request, register_notification, make,
  register_lifecycle_handlers, register_sync_handlers, register_cancellation_handler,
  user_notification,
}
use clsp.Store.{DocumentStore}
use clsp.Server.Kept.{plumbing}
use clsp.Server.Steps.{run_cases}
use clsp.Server.Run.{
  Event, receives, worker_wakes, sync_wakes, worker_finishes, sync_finishes, requests, notifies,
  step, run,
}
use clsp.Server.Answers.{answers, settled, asked, is_owed, Result}
use clsp.Server.Answers.Requests.{Writes}
use clsp.Server.Answers.Ready.{IsReady, Settles}
use clsp.Server.Answers.Tasks.{IsWritten}
use clsp.Server.Answers.Steps.{step-Settles}
use clsp.Server.Answers.Start.{with_handlers, with_handlers-IsReady, make-IsReady}
use clsp.Errors.{Result}

module _ (J : JsonLib) (H : JsonLaws J) where
  open J use {Json}

  module _ (i : RequestId) where
    with_handlers-settled :
        (hs : List (String × RequestHandler Json)) (ns : List (String × (Json → Result (Unit {0}))))
        (s : Server Json)
        → settled J i (with_handlers hs ns s) ≡ settled J i s
    unfolding with_handlers settled register_request register_notification
    with_handlers-settled [] [] s = refl
    with_handlers-settled [] ((m, h) ∷ ns) s =
        with_handlers-settled [] ns (register_notification m (user_notification h) s)
    with_handlers-settled ((m, h) ∷ hs) ns s = with_handlers-settled hs ns (register_request m h s)

    make-settled :
        (hooks : Hooks Json) (documents : DocumentStore) (w d : ℕ)
        → settled J i (make hooks documents w d) ≡ 0
    unfolding settled make register_lifecycle_handlers register_sync_handlers
        register_cancellation_handler register_request register_notification answers
    make-settled hooks documents w d =
        omega (arith, pool_total-make {T = Task Json} (is_owed i) (if w =ℕ= 0 then d else w))

    asked_cons :
        (e : Event Json) (es : List (Event Json))
        → asked J i (e ∷ es) ≡ asked J i (e ∷ []) + asked J i es
    unfolding asked
    asked_cons (receives raw) es = omega arith
    asked_cons (worker_wakes n) es = omega arith
    asked_cons (sync_wakes n) es = omega arith
    asked_cons (worker_finishes n a) es = omega arith
    asked_cons (sync_finishes n a) es = omega arith
    asked_cons (requests method params callback) es = omega arith
    asked_cons (notifies method params) es = omega arith

    pub run-Settles :
        (es : List (Event Json)) (s q : Server Json)
        → run J s es ≡ some q
        → All (IsWritten J H) es
        → IsReady J H (plumbing s)
        → Settles J H i s (asked J i es) q
    unfolding run asked
    run-Settles [] s q e w r = let f : s ≡ q = cc in subst (Settles J H i s 0) f (r, omega arith)
    run-Settles (e ∷ es) s q f (v, w) r =
        let (u, t, h, k) = run_cases J (step J s e) es q f in
        let (ready, count) = step-Settles J H i s t e u h v r in
        let (last, rest) = run-Settles es t q k w ready in
        (last, omega (arith, count, rest, asked_cons e es))

    pub run_of_make-Settles :
        (hooks : Hooks Json) (documents : DocumentStore) (w d : ℕ)
        (hs : List (String × RequestHandler Json)) (ns : List (String × (Json → Result (Unit {0}))))
        (es : List (Event Json)) (q : Server Json)
        → All (λ h. Writes J H h.1) hs
        → All (IsWritten J H) es
        → run J (with_handlers hs ns (make hooks documents w d)) es ≡ some q
        → IsReady J H (plumbing q) × (settled J i q ≡ asked J i es)
    run_of_make-Settles hooks documents w d hs ns es q writes written e =
        let s = make hooks documents w d in
        let ready =
          with_handlers-IsReady J H hs ns s writes (make-IsReady J H hooks documents w d) in
        let (last, count) = run-Settles es (with_handlers hs ns s) q e written ready in
        (
          last,
          omega (arith, count, with_handlers-settled hs ns s, make-settled hooks documents w d),
        )

    -- Each request is answered once: in any run of a server with the handlers that a subclass
    -- registered, where their results and what user code sends can be written, the responses to an
    -- id that were sent and those that tasks of the worker pool still have to send are as many as
    -- the requests with that id that were received.
    pub run-answers :
        (hooks : Hooks Json) (documents : DocumentStore) (worker_threads default_count : ℕ)
        (hs : List (String × RequestHandler Json)) (ns : List (String × (Json → Result (Unit {0}))))
        (es : List (Event Json)) (q : Server Json)
        → All (λ h. Writes J H h.1) hs
        → All (IsWritten J H) es
        → run J (with_handlers hs ns (make hooks documents worker_threads default_count)) es
          ≡ some q
        → answers J i q.sent + pool_total (is_owed i) q.worker_pool ≡ asked J i es
    unfolding settled
    run-answers hooks documents w d hs ns es q writes written e =
        (run_of_make-Settles hooks documents w d hs ns es q writes written e).1

  pub run-IsReady :
      (hooks : Hooks Json) (documents : DocumentStore) (w d : ℕ)
      (hs : List (String × RequestHandler Json)) (ns : List (String × (Json → Result (Unit {0}))))
      (es : List (Event Json)) (q : Server Json)
      → All (λ h. Writes J H h.1) hs
      → All (IsWritten J H) es
      → run J (with_handlers hs ns (make hooks documents w d)) es ≡ some q
      → IsReady J H (plumbing q)
  run-IsReady hooks documents w d hs ns es q writes written e =
      (run_of_make-Settles (str "") hooks documents w d hs ns es q writes written e).0
