-- ===== src/Server/Answers.antt =====
-- Requests and their responses, counted over everything that the threads do.
pub mod Requests
pub mod Ready
pub mod Received
pub mod Tasks
pub mod Steps
pub mod Start
pub mod Run
use clsp.Base.{
  ℕ, zero, suc, ◌+◌, ◌-◌, ◌*◌, ◌/◌, ◌%◌, ◌^◌, ◌≤◌, ◌<◌, String, ◌<>◌, ◌≡◌, refl, sym, ap, ◌∙◌,
  subst, ◌≢◌, ◌↔◌, ◌⊎◌, inl, inr, Bool, true, false, not, ◌&&◌, ◌||◌, Option, none, some, List, [],
  ◌∷◌, ◌++◌, map, append_assoc, append-nil, arith, ltb, leb, ◌=ℕ=◌, if◌then◌else◌, ltb→lt, lt→ltb,
  Bool-cases, Option-cases, is_some, Bytes, codes, length, get_elem?, set, take, drop, replicate,
  length-append, take-append-drop, length-take, length-drop, take_all, drop_all, take-append,
  drop-append, All, All-append, Eq, ◌==◌, string_eq, ==_refl, ==_ne,
}
use clsp.Errors.{Result, ok, err}
use clsp.Json.{JsonLib, JsonLaws}
use clsp.Rpc.{
  RequestId, id_eq, ParsedMessage, request, notification, response, error, parse_message,
}
use clsp.ThreadPool.{ThreadPool}
use clsp.ThreadPool.Contents.{pool_total}
use clsp.Server.State.{Server, Task, request_task, notification_task, callback_task}
use clsp.Server.Run.{Event, receives}

abbrev pub one_if : Bool → ℕ
one_if b = if b then 1 else 0

module _ {Json : Type 0} (i : RequestId) where
  unfoldable pub is_answer : Result (ParsedMessage Json) → ℕ
  is_answer (ok (response r)) = one_if (r.id == i)
  is_answer _ = 0

  unfoldable pub is_asked : Result (ParsedMessage Json) → ℕ
  is_asked (ok (request r)) = one_if (r.id == i)
  is_asked _ = 0

  -- The request that a task will answer.
  unfoldable pub is_owed : Task Json → ℕ
  is_owed (request_task id params handler t) = one_if (id == i)
  is_owed (notification_task handler params) = 0
  is_owed (callback_task callback payload is_error) = 0

module _ (J : JsonLib) (i : RequestId) where
  open J use {Json}

  -- The frames that are responses to the id.
  unfoldable pub answers : List Bytes → ℕ
  unfolding is_answer
  answers [] = 0
  answers (frame ∷ frames) = is_answer i (parse_message J frame) + answers frames

  pub answers-append :
      (frames : List Bytes) (frame : Bytes)
      → answers (frames ++ frame ∷ []) ≡ answers frames + is_answer i (parse_message J frame)
  unfolding answers
  answers-append [] frame = omega arith
  answers-append (f ∷ frames) frame = omega (arith, answers-append frames frame)

  -- The responses to the id that were sent, and those that tasks of the worker pool will send.
  unfoldable pub settled : Server Json → ℕ
  unfolding answers is_owed
  settled s = answers s.sent + pool_total (is_owed i) s.worker_pool

  -- The requests with the id that were received.
  unfoldable pub asked : List (Event Json) → ℕ
  unfolding is_asked
  asked [] = 0
  asked (receives raw ∷ es) = is_asked i (parse_message J raw) + asked es
  asked (_ ∷ es) = asked es
