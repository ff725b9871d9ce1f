-- ===== src/Server/Serial/Run.antt =====
-- The sync executor over whole runs of the server.
use clsp.Base.{
  AllOption, Option-cases, inl, inr, ◌≡◌, refl, sym, ◌∙◌, subst, Option, none, some, List, [], ◌∷◌,
  string_eq, All, ◌++◌, ℕ, String,
}
use clsp.Errors.{Result}
use clsp.Json.{JsonLib, JsonLaws}
use clsp.Rpc.{parse_message}
use clsp.ThreadPool.{
  ThreadPool, History, Worker, running, submits, wakes, finishes, no_history, submit, end_task,
  finish,
}
use clsp.ThreadPool
use clsp.ThreadPool.Serial.{run-make_one, current}
use clsp.ThreadPool.Fifo.{run-make}
use clsp.ThreadPool.Queued.{submitted, GoesOn, run-queued}
use clsp.Server.Answers.Start.{with_handlers}
use clsp.Server.State.{
  Hooks, RequestHandler, make, register_request, register_notification, register_lifecycle_handlers,
  register_sync_handlers, register_cancellation_handler, user_notification, Server, Task,
}
use clsp.Store.{DocumentStore}
use clsp.Server.Serial.{sync_task}
use clsp.Server.Run.{
  Event, receives, worker_wakes, sync_wakes, worker_finishes, sync_finishes, requests, notifies,
  step, run,
}
use clsp.Server.Serial.Steps.{also, submits_of, sync_event, sync_events, run-Follows}

module _ (J : JsonLib) (H : JsonLaws J) where
  open J use {Json}

  -- From an empty pool of one worker, the events lead to `p`. The pool's history of them has the
  -- tasks that a worker took and those that returned: of the tasks submitted, those that were taken
  -- come first, in order, and the rest waits in `p`; of those that were taken, all but the one that
  -- is running have returned, in order.
  pub record IsInOrder (events : List (ThreadPool.Event (Task Json))) (p : ThreadPool (Task Json))
      : Type 0 where
    pub history : History (Task Json)
    pub worker : Worker (Task Json)
    pub ran : ThreadPool.run (ThreadPool.make 1) no_history events ≡ some (p, history)
    pub only : p.workers ≡ worker ∷ []
    pub in_turn : submitted events ≡ history.started ++ p.tasks
    pub one_by_one : history.started ≡ history.finished ++ current worker

  submits_of-GoesOn : (o : Option (Task Json)) → AllOption GoesOn (submits_of o)
  submits_of-GoesOn none = tt
  submits_of-GoesOn (some t) = refl

  sync_event-GoesOn : (e : Event Json) (s : Server Json) → AllOption GoesOn (sync_event J e s)
  unfolding sync_event
  sync_event-GoesOn (receives raw) s = submits_of-GoesOn (sync_task (parse_message J raw) s)
  sync_event-GoesOn (worker_wakes n) s = tt
  sync_event-GoesOn (sync_wakes n) s = refl
  sync_event-GoesOn (worker_finishes n a) s = tt
  sync_event-GoesOn (sync_finishes n a) s = refl
  sync_event-GoesOn (requests method params callback) s = tt
  sync_event-GoesOn (notifies method params) s = tt

  also-GoesOn :
      (o : Option (ThreadPool.Event (Task Json))) (es : List (ThreadPool.Event (Task Json)))
      → AllOption GoesOn o
      → All GoesOn es
      → All GoesOn (also o es)
  also-GoesOn none es h k = k
  also-GoesOn (some e) es h k = (h, k)

  sync_events-GoesOn : (es : List (Event Json)) (s : Server Json) → All GoesOn (sync_events J s es)
  unfolding sync_events
  sync_events-GoesOn [] s = tt
  sync_events-GoesOn (e ∷ es) s = elim (Option-cases (step J s e)) [
    | inl n ↦ rw (n, sync_events) tt
    | inr ((r, t), n) ↦
        rw (n, sync_events)
          (also-GoesOn (sync_event J e s) (sync_events J t es) (sync_event-GoesOn e s)
            (sync_events-GoesOn es t))
  ]

  with_handlers-sync_executor :
      (hs : List (String × RequestHandler Json)) (ns : List (String × (Json → Result (Unit {0}))))
      (s : Server Json)
      → (with_handlers hs ns s).sync_executor ≡ s.sync_executor
  unfolding with_handlers register_request register_notification
  with_handlers-sync_executor [] [] s = refl
  with_handlers-sync_executor [] ((m, h) ∷ ns) s =
      with_handlers-sync_executor [] ns (register_notification m (user_notification h) s)
  with_handlers-sync_executor ((m, h) ∷ hs) ns s =
      with_handlers-sync_executor hs ns (register_request m h s)

  make-sync_executor :
      (hooks : Hooks Json) (documents : DocumentStore) (w d : ℕ)
      → (make hooks documents w d).sync_executor ≡ ThreadPool.make 1
  unfolding make register_lifecycle_handlers register_sync_handlers register_cancellation_handler
      register_request register_notification
  make-sync_executor hooks documents w d = refl

  -- Document notifications are handled one at a time and in the order received: in any run of a
  -- server with the handlers that a subclass registered, the sync executor is where its own events
  -- (`sync_events`: the submission of each registered document notification received since the
  -- server left its first state, and the steps of its worker) lead a pool of one worker; in the
  -- history of these events the tasks taken are the first of those submitted, in order, with the
  -- rest waiting, and all of them but the one that is running have returned, in order.
  pub run-IsInOrder :
      (hooks : Hooks Json) (documents : DocumentStore) (worker_threads default_count : ℕ)
      (hs : List (String × RequestHandler Json)) (ns : List (String × (Json → Result (Unit {0}))))
      (es : List (Event Json)) (q : Server Json)
      → run J (with_handlers hs ns (make hooks documents worker_threads default_count)) es ≡ some q
      → IsInOrder
          (sync_events J
            (with_handlers hs ns (make hooks documents worker_threads default_count))
            es)
          q.sync_executor
  unfolding ThreadPool.make
  run-IsInOrder hooks documents w d hs ns es q e =
      let s = with_handlers hs ns (make hooks documents w d) in
      let fresh =
        with_handlers-sync_executor hs ns (make hooks documents w d)
        ∙ make-sync_executor hooks documents w d in
      let (g, f) = run-Follows J H es s q no_history e in
      let f =
        subst (λ p. ThreadPool.run p no_history (sync_events J s es) ≡ some (q.sync_executor, g))
          fresh f in
      let (worker, only, order) = run-make_one (sync_events J s es) q.sync_executor g f in
      let (received, places) = run-make 1 (sync_events J s es) q.sync_executor g f in
      let queued =
        run-queued (sync_events J s es) (ThreadPool.make 1) q.sync_executor no_history g f
          (sync_events-GoesOn es s) refl in
      record {
        history = g;
        worker = worker;
        ran = f;
        only = only;
        in_turn = sym queued ∙ received;
        one_by_one = order;
      }
