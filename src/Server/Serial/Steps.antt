-- ===== src/Server/Serial/Steps.antt =====
-- The sync executor at each step of the server.
use clsp.Base.{◌≡◌, refl, sym, ap, ◌∙◌, subst, Option, none, some, List, [], ◌∷◌, string_eq}
use clsp.Errors.{ok}
use clsp.Json.{JsonLib, JsonLaws}
use clsp.Rpc.{parse_message, serialize_request}
use clsp.ThreadPool.{
  ThreadPool, History, Worker, running, submits, wakes, finishes, no_history, submit, end_task,
  finish,
}
use clsp.ThreadPool
use clsp.Server.State.{Server, Task}
use clsp.Server.Send.{send_request, send_notification}
use clsp.Server.Pools.{send-pools, run_task-pools}
use clsp.Server.Serial.{sync_task, queue, receive-sync}
use clsp.Server.Steps.{
  run_cases, step_receives, step_worker_wakes, step_sync_wakes, step_worker_finishes,
  step_sync_finishes, step_requests, step_notifies,
}
use clsp.Server.Run.{
  Event, receives, worker_wakes, sync_wakes, worker_finishes, sync_finishes, requests, notifies,
  step, run,
}

abbrev pub also : {A : Type 0} → Option A → List A → List A
also none as' = as'
also (some a) as' = a ∷ as'

module _ {Json : Type 0} where
  abbrev pub submits_of : Option (Task Json) → Option (ThreadPool.Event (Task Json))
  submits_of none = none
  submits_of (some t) = some (submits t)

  -- What an event of the pool, if any, does.
  abbrev Follows :
      Option (ThreadPool.Event (Task Json))
      → ThreadPool (Task Json)
      → ThreadPool (Task Json)
      → Type 0
  Follows none p q = q ≡ p
  Follows (some e) p q = ThreadPool.step p e ≡ some q

module _ (J : JsonLib) where
  open J use {Json}

  -- What a step does to the sync executor.
  unfoldable pub sync_event : Event Json → Server Json → Option (ThreadPool.Event (Task Json))
  unfolding sync_task
  sync_event (receives raw) s = submits_of (sync_task (parse_message J raw) s)
  sync_event (sync_wakes i) s = some (wakes i)
  sync_event (sync_finishes i at_start) s = some (finishes i)
  sync_event _ s = none

  unfoldable pub sync_events : Server Json → List (Event Json) → List (ThreadPool.Event (Task Json))
  unfolding sync_event step
  sync_events s [] = []
  sync_events s (e ∷ es) = elim (step J s e) [
    | none ↦ []
    | some (r, q) ↦ also (sync_event e s) (sync_events q es)
  ]

  module _ (H : JsonLaws J) where
    queue-Follows :
        (o : Option (Task Json)) (p : ThreadPool (Task Json)) → Follows (submits_of o) p (queue o p)
    unfolding ThreadPool.step
    queue-Follows none p = refl
    queue-Follows (some t) p = refl

    step-Follows :
        (s q : Server Json) (e : Event Json) (u : Unit {0})
        → step J s e ≡ some (ok u, q)
        → Follows (sync_event e s) s.sync_executor q.sync_executor
    unfolding sync_event ThreadPool.step finish end_task send_request send_notification
    step-Follows s q (receives raw) u e =
        let f = ap (λ x. x.1.sync_executor) (step_receives J s raw _ e) ∙ receive-sync J H raw s in
        subst (Follows (submits_of (sync_task (parse_message J raw) s)) s.sync_executor) (sym f)
          (queue-Follows (sync_task (parse_message J raw) s) s.sync_executor)
    step-Follows s q (worker_wakes n) u e =
        let (p, f, g) = step_worker_wakes J s q n (ok u) e in ap (λ x. x.sync_executor) g
    step-Follows s q (sync_wakes n) u e =
        let (p, f, g) = step_sync_wakes J s q n (ok u) e in
        f ∙ ap (λ x. some x.sync_executor) (sym g)
    step-Follows s q (worker_finishes n a) u e =
        let (t, f, g, k) = step_worker_finishes J s q n a u e in
        ap (λ x. x.sync_executor) g ∙ ap (λ p. p.1) (run_task-pools J t a s)
    step-Follows s q (sync_finishes n a) u e =
        let (t, f, g, k) = step_sync_finishes J s q n a u e in
        let same = ap (λ x. x.sync_executor) g ∙ ap (λ p. finish p.1 n) (run_task-pools J t a s) in
        ap (end_task s.sync_executor n) f ∙ ap some (sym same)
    step-Follows s q (requests method params callback) u e =
        ap (λ x. x.1.sync_executor) (step_requests J s method params callback _ e)
        ∙ ap (λ p. p.1) (send-pools J (serialize_request J s.next_outgoing_id method params) _)
    step-Follows s q (notifies method params) u e =
        ap (λ x. x.1.sync_executor) (step_notifies J s method params _ e)
        ∙ ap (λ p. p.1) (send-pools J _ s)

    follow :
        (o : Option (ThreadPool.Event (Task Json))) (p r q : ThreadPool (Task Json))
        (h : History (Task Json)) (es : List (ThreadPool.Event (Task Json)))
        → Follows o p r
        → ((k : History (Task Json))
            → (g : History (Task Json)) × (ThreadPool.run r k es ≡ some (q, g)))
        → (g : History (Task Json)) × (ThreadPool.run p h (also o es) ≡ some (q, g))
    unfolding ThreadPool.run
    follow none p r q h es e k =
        let (g, f) = k h in (g, subst (λ x. ThreadPool.run x h es ≡ some (q, g)) e f)
    follow (some x) p r q h es e k =
        let (g, f) = k (ThreadPool.observe p x h) in (g, rw (e, ThreadPool.run) f)

    sync_events-step :
        (s t : Server Json) (e : Event Json) (es : List (Event Json)) (u : Unit {0})
        → step J s e ≡ some (ok u, t)
        → sync_events s (e ∷ es) ≡ also (sync_event e s) (sync_events t es)
    unfolding sync_events
    sync_events-step s t e es u f = rw (f, sync_events) refl

    pub run-Follows :
        (es : List (Event Json)) (s q : Server Json) (h : History (Task Json))
        → run J s es ≡ some q
        → (g : History (Task Json)) × (ThreadPool.run s.sync_executor h (sync_events s es)
            ≡ some (q.sync_executor, g))
    unfolding run sync_events ThreadPool.run
    run-Follows [] s q h e = let f : s ≡ q = cc in (h, ap (λ x. some (x.sync_executor, h)) f)
    run-Follows (e ∷ es) s q h f =
        let (u, t, now, later) = run_cases J (step J s e) es q f in
        rw (sync_events-step s t e es u now) (
          follow (sync_event e s) s.sync_executor t.sync_executor q.sync_executor h
            (sync_events t es) (step-Follows s t e u now) (λ k. run-Follows es t q k later))
