-- ===== src/Server/Answers/Start.antt =====
-- The server that `Server.Answers` starts from: made, with the handlers of a subclass.
use clsp.Base.{
  ℕ, String, ◌≡◌, refl, subst, inl, inr, some, List, [], ◌∷◌, arith, ◌=ℕ=◌, if◌then◌else◌,
  Bool-cases, All, ◌==◌, string_eq, true,
}
use clsp.Base.Dict.{Dict, lookup, insert, lookup-insert}
use clsp.ThreadPool.Open.{Open-make}
use clsp.Json.{JsonLib, JsonLaws}
use clsp.Rpc.{id_eq}
use clsp.ThreadPool
use clsp.ThreadPool.Contents.{OfTasks-make}
use clsp.Server.State.{
  Server, Hooks, RequestHandler, NotificationHandler, register_request, register_notification, make,
  register_lifecycle_handlers, register_sync_handlers, register_cancellation_handler, initialize,
  shutdown, user_notification, cancel_request, did_save, did_close, did_change, did_open, exit,
  initialized,
}
use clsp.Store.{DocumentStore}
use clsp.Server.Kept.{plumbing}
use clsp.Server.Answers.{Result}
use clsp.Server.Answers.Requests.{IsSound, IsNotification, Writes, changes_documents}
use clsp.Server.Answers.Ready.{IsReady}
use clsp.Server.Dispatch.{is_sync_notification}
use clsp.Errors.{Result}

-- What holds of each entry of a table of handlers.
module _ {V : Type 0} (P : String → V → Type 0) where
  abbrev Entries : Dict String V → Type 0
  Entries d = (m : String) (h : V) → lookup m d ≡ some h → P m h

  no-Entries : Entries []
  unfolding lookup
  no-Entries m h e = absurd (cc)

  Entries-insert :
      (k : String) (g : V) (d : Dict String V) → Entries d → P k g → Entries (insert k g d)
  Entries-insert k g d w v m h e = elim (Bool-cases (k == m)) [
    | inl b ↦
        let f : g ≡ h = ground (arith, e, b, lookup-insert k m g d) in
        subst (P m) f (subst (λ n. P n g) ((string_eq.same_iff k m).0 b) v)
    | inr b ↦ w m h (ground (arith, e, b, lookup-insert k m g d))
  ]

module _ {Json : Type 0} where
  -- What a subclass registers before it calls `run`.
  unfoldable pub with_handlers :
      List (String × RequestHandler Json)
      → List (String × (Json → Result (Unit {0})))
      → Server Json
      → Server Json
  with_handlers [] [] s = s
  with_handlers [] ((m, h) ∷ ns) s =
      with_handlers [] ns (register_notification m (user_notification h) s)
  with_handlers ((m, h) ∷ hs) ns s = with_handlers hs ns (register_request m h s)

module _ (J : JsonLib) (H : JsonLaws J) where
  open J use {Json}

  abbrev IsPlaced : String → NotificationHandler Json → Type 0
  IsPlaced m h = changes_documents h ≡ true → is_sync_notification m ≡ true

  register_request-IsReady :
      (k : String) (g : RequestHandler Json) (s : Server Json)
      → IsReady J H (plumbing s)
      → Writes J H g
      → IsReady J H (plumbing (register_request k g s))
  unfolding register_request
  register_request-IsReady k g s r w = record {
    open_pool = r.open_pool;
    tasks = r.tasks;
    sync_tasks = r.sync_tasks;
    handlers = Entries-insert (λ m h. Writes J H h) k g s.request_handlers r.handlers w;
    placed = r.placed;
    next_id = r.next_id;
  }

  register_notification-IsReady :
      (k : String) (g : NotificationHandler Json) (s : Server Json)
      → IsReady J H (plumbing s)
      → IsPlaced k g
      → IsReady J H (plumbing (register_notification k g s))
  unfolding register_notification
  register_notification-IsReady k g s r p = record {
    open_pool = r.open_pool;
    tasks = r.tasks;
    sync_tasks = r.sync_tasks;
    handlers = r.handlers;
    placed = Entries-insert IsPlaced k g s.notification_handlers r.placed p;
    next_id = r.next_id;
  }

  pub with_handlers-IsReady :
      (hs : List (String × RequestHandler Json)) (ns : List (String × (Json → Result (Unit {0}))))
      (s : Server Json)
      → All (λ h. Writes J H h.1) hs
      → IsReady J H (plumbing s)
      → IsReady J H (plumbing (with_handlers hs ns s))
  unfolding with_handlers
  with_handlers-IsReady [] [] s w r = r
  with_handlers-IsReady [] ((m, h) ∷ ns) s w r =
      with_handlers-IsReady [] ns (register_notification m (user_notification h) s) tt
        (register_notification-IsReady m (user_notification h) s r (λ e. absurd (cc)))
  with_handlers-IsReady ((m, h) ∷ hs) ns s (v, w) r =
      with_handlers-IsReady hs ns (register_request m h s) w (register_request-IsReady m h s r v)

  -- The server that the constructor makes is ready.
  pub make-IsReady :
      (hooks : Hooks Json) (documents : DocumentStore) (worker_threads default_count : ℕ)
      → IsReady J H (plumbing (make hooks documents worker_threads default_count))
  unfolding make register_lifecycle_handlers register_sync_handlers register_cancellation_handler
      register_request register_notification ThreadPool.make is_sync_notification
  make-IsReady hooks documents w d = record {
    open_pool = Open-make (if w =ℕ= 0 then d else w);
    tasks = OfTasks-make (IsSound J H) (if w =ℕ= 0 then d else w);
    sync_tasks = OfTasks-make IsNotification 1;
    handlers =
        Entries-insert (λ m h. Writes J H h) "shutdown" shutdown _
          (Entries-insert (λ m h. Writes J H h) "initialize" initialize [] (no-Entries _) tt) tt;
    placed =
        Entries-insert IsPlaced "$/cancelRequest" cancel_request _
          (Entries-insert IsPlaced "textDocument/didSave" did_save _
            (Entries-insert IsPlaced "textDocument/didClose" did_close _
              (Entries-insert IsPlaced "textDocument/didChange" did_change _
                (Entries-insert IsPlaced "textDocument/didOpen" did_open _
                  (Entries-insert IsPlaced "exit" exit _
                    (Entries-insert IsPlaced "initialized" initialized [] (no-Entries _)
                      (λ e. absurd (cc)))
                    (λ e. absurd (cc)))
                  (λ e. refl))
                (λ e. refl))
              (λ e. refl))
            (λ e. absurd (cc)))
          (λ e. absurd (cc));
    next_id = omega arith;
  }
