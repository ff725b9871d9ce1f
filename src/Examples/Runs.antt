-- ===== src/Examples/Runs.antt =====
-- Runs of the whole server at concrete messages.
use clsp.Base.{
  true, false, ℕ, String, ◌≡◌, refl, false, Option, none, some, List, [], ◌∷◌, if◌then◌else◌, Bytes,
  string_eq, All, ◌+◌, Bool, get_elem?, sym, subst, ◌∙◌,
}
use clsp.Base.Int.{pos}
use clsp.Errors.{ok, err, other, Exception, Result, plain}
use clsp.Json.Tree.Chars.{decode_string, encode_string}
use clsp.Rpc.{
  parse_message, serialize_error, serialize_notification, serialize_result, RequestId, num,
}
use clsp.Base.Dict.{lookup, insert}
use clsp.Json.Tree.{
  parse, is_object, find, is_string, is_number_integer, Tree, tree_lib, encode, get_string, get_int,
  tree_laws, IsText_tree,
}
use clsp.Server.State.{
  Server, Hooks, RequestHandler, user_request, make, register_request, Task, request_task,
}
use clsp.Server.Run.{
  Event, receives, worker_wakes, sync_wakes, worker_finishes, sync_finishes, notifies, run, step,
}
use clsp.Server.Answers.Start.{with_handlers}
use clsp.Store
use clsp.Server.Documents.Steps.{Changes, run-Changes}
use clsp.Server.Drain.{Drains, run-Drains, IsAlwaysSafe}
use clsp.Server.Answers.{answers, asked, is_owed}
use clsp.Server.Answers.Run.{run-answers}
use clsp.Server.Answers.Tasks.{IsWritten}
use clsp.Server.Answers.Requests.{Writes}
use clsp.Server.Robust.Run.{run-Returns, IsSafeStep}
use clsp.Server.Robust.{IsSafe}
use clsp.Server.Replies.{IsReported}
use clsp.Server.Handlers.{
  call_request, default_on_document_opened, default_on_document_changed, default_on_document_closed,
}
use clsp.ThreadPool.{running}
use clsp.Server.Serial.Steps.{sync_events}
use clsp.Server.Serial.Run.{IsInOrder, run-IsInOrder}
use clsp.ThreadPool.Contents.{pool_total, OfTasks}

abbrev hooks : Hooks Tree
hooks = record {
  on_initialize = λ p. err (other (plain "no capabilities"));
  on_initialized = ok tt;
  on_shutdown = ok tt;
  on_exit = ok tt;
  on_document_opened = default_on_document_opened;
  on_document_changed = default_on_document_changed;
  on_document_closed = default_on_document_closed;
  on_document_saved = λ doc text. ok tt;
}

abbrev echo : RequestHandler Tree
echo = user_request (λ params cancelled. if cancelled then err Exception.cancelled else ok params)

abbrev fresh : Server Tree
fresh = with_handlers (("echo", echo) ∷ []) [] (make hooks Store.make 1 4)

abbrev object_of : List (String × Tree) → Tree
object_of [] = Tree.empty_object
object_of ((k, v) ∷ fields) = Tree.field k v (object_of fields)

abbrev message : List (String × Tree) → Bytes
message fields = encode (object_of (("jsonrpc", Tree.string "2.0") ∷ fields))

abbrev ask : ℕ → String → Event Tree
ask n method = receives (
    message (
      ("id", Tree.int (pos n)) ∷ ("method", Tree.string method) ∷ ("params", Tree.string "x") ∷ []))

abbrev close : Event Tree
close =
    receives
      (message (("method", Tree.string "textDocument/didClose") ∷ ("params", Tree.null) ∷ []))

-- Two requests, of which a worker runs the second, and a document notification, which the sync
-- executor runs.
abbrev events : List (Event Tree)
events =
    ask 1 "initialize"
    ∷ ask 7 "echo"
    ∷ close
    ∷ worker_wakes 0
    ∷ sync_wakes 0
    ∷ notifies "telemetry/event" Tree.null
    ∷ worker_finishes 0 false
    ∷ sync_finishes 0 false
    ∷ []

abbrev last_of : Option (Server Tree) → Server Tree
last_of none = fresh
last_of (some q) = q

abbrev after : Server Tree
after = last_of (run tree_lib fresh events)

ran : run tree_lib fresh events ≡ some after
unfolding run with_handlers register_request make encode parse_message parse decode_string
    encode_string is_object find is_string get_string is_number_integer get_int lookup insert
    serialize_error serialize_notification serialize_result
ran = refl

abbrev written_events : All (IsWritten tree_lib tree_laws) events
written_events = (tt, (tt, (tt, (tt, (tt, (IsText_tree Tree.null, (tt, (tt, tt))))))))

abbrev handlers : List (String × RequestHandler Tree)
handlers = ("echo", echo) ∷ []

echo-Writes : All (λ h. Writes tree_lib tree_laws h.1) handlers
echo-Writes = (λ params cancelled r e. IsText_tree r, tt)

run-answers_example :
    answers tree_lib (num (pos 7)) after.sent + pool_total (is_owed (num (pos 7))) after.worker_pool
    ≡ asked tree_lib (num (pos 7)) events
run-answers_example =
    run-answers tree_lib tree_laws (num (pos 7)) hooks Store.make 1 4 handlers [] events after
      echo-Writes written_events ran

abbrev result_of : Option (Result (Unit {0}) × Server Tree) → Result (Unit {0}) × Server Tree
result_of none = (ok tt, fresh)
result_of (some x) = x

-- A worker runs the second request.
abbrev working_events : List (Event Tree)
working_events = ask 1 "initialize" ∷ ask 7 "echo" ∷ worker_wakes 0 ∷ []

abbrev working : Server Tree
working = last_of (run tree_lib fresh working_events)

ran_working : run tree_lib fresh working_events ≡ some working
unfolding run with_handlers register_request make encode parse_message parse decode_string
    encode_string is_object find is_string get_string is_number_integer get_int lookup insert
    serialize_error serialize_notification serialize_result
ran_working = refl

abbrev next : Result (Unit {0}) × Server Tree
next = result_of (step tree_lib working (worker_finishes 0 false))

stepped : step tree_lib working (worker_finishes 0 false) ≡ some next
unfolding run with_handlers register_request make encode parse_message parse decode_string
    encode_string is_object find is_string get_string is_number_integer get_int lookup insert
    serialize_error serialize_notification serialize_result step
stepped = refl

echo-IsReported :
    (params : Tree) (polled : Bool) (s : Server Tree) (x : Exception)
    → (call_request tree_lib echo params polled s).0 ≡ err x
    → IsReported tree_lib tree_laws x
unfolding call_request
echo-IsReported params true s x e =
    let f : Exception.cancelled ≡ x = cc in subst (IsReported tree_lib tree_laws) f tt
echo-IsReported params false s x e = absurd (cc)

abbrev echo_task : Task Tree
echo_task = request_task (num (pos 7)) (Tree.string "x") echo 0

working-echo : get_elem? working.worker_pool.workers 0 ≡ some (running echo_task)
unfolding run with_handlers register_request make encode parse_message parse decode_string
    encode_string is_object find is_string get_string is_number_integer get_int lookup insert
    serialize_error serialize_notification serialize_result step
working-echo = refl

working-IsSafe : IsSafeStep tree_lib tree_laws (worker_finishes 0 false) working
working-IsSafe t e =
    let f : running echo_task ≡ running t = let g = sym working-echo ∙ e in cc in
    let h : echo_task ≡ t = cc in
    subst (IsSafe tree_lib tree_laws working) h
      (λ polled x. echo-IsReported (Tree.string "x") polled working x)

run-Returns_example : next.0 ≡ ok tt
run-Returns_example =
    run-Returns tree_lib tree_laws hooks Store.make 1 4 handlers [] working_events working
      (worker_finishes 0 false) next echo-Writes (tt, (tt, (tt, tt))) tt ran_working working-IsSafe
      stepped

run-IsInOrder_example :
    IsInOrder tree_lib tree_laws (sync_events tree_lib fresh events) after.sync_executor
run-IsInOrder_example =
    run-IsInOrder tree_lib tree_laws hooks Store.make 1 4 handlers [] events after ran

-- The second request waits for a worker.
abbrev waiting_events : List (Event Tree)
waiting_events = ask 1 "initialize" ∷ ask 7 "echo" ∷ []

abbrev waiting_server : Server Tree
waiting_server = last_of (run tree_lib fresh waiting_events)

ran_waiting : run tree_lib fresh waiting_events ≡ some waiting_server
unfolding run with_handlers register_request make encode parse_message parse decode_string
    encode_string is_object find is_string get_string is_number_integer get_int lookup insert
    serialize_error serialize_notification serialize_result
ran_waiting = refl

waiting-IsAlwaysSafe : OfTasks (IsAlwaysSafe tree_lib tree_laws) waiting_server.worker_pool
unfolding run with_handlers register_request make encode parse_message parse decode_string
    encode_string is_object find is_string get_string is_number_integer get_int lookup insert
    serialize_error serialize_notification serialize_result step
waiting-IsAlwaysSafe = record {
  waiting_tasks = ((λ s polled x. echo-IsReported (Tree.string "x") polled s x), tt);
  running_tasks = (tt, tt);
}

run-Drains_example :
    (d : Drains tree_lib tree_laws waiting_server) × ((i : RequestId)
      → answers tree_lib i d.last.sent ≡ asked tree_lib i waiting_events)
run-Drains_example =
    run-Drains tree_lib tree_laws hooks Store.make 1 4 handlers [] waiting_events waiting_server
      echo-Writes (tt, (tt, tt)) ran_waiting waiting-IsAlwaysSafe

-- The sync executor runs the notification.
abbrev closing_events : List (Event Tree)
closing_events = ask 1 "initialize" ∷ close ∷ sync_wakes 0 ∷ []

abbrev closing : Server Tree
closing = last_of (run tree_lib fresh closing_events)

ran_closing : run tree_lib fresh closing_events ≡ some closing
unfolding run with_handlers register_request make encode parse_message parse decode_string
    encode_string is_object find is_string get_string is_number_integer get_int lookup insert
    serialize_error serialize_notification serialize_result
ran_closing = refl

abbrev closed : Server Tree
closed = (result_of (step tree_lib closing (sync_finishes 0 false))).1

closed-step : step tree_lib closing (sync_finishes 0 false) ≡ some (ok tt, closed)
unfolding run with_handlers register_request make encode parse_message parse decode_string
    encode_string is_object find is_string get_string is_number_integer get_int lookup insert
    serialize_error serialize_notification serialize_result step
closed-step = refl

run-Changes_example : Changes tree_lib tree_laws (sync_finishes 0 false) closing closed
run-Changes_example =
    run-Changes tree_lib tree_laws hooks Store.make 1 4 handlers [] closing_events closing closed
      (sync_finishes 0 false) tt echo-Writes (tt, (tt, (tt, tt))) ran_closing closed-step
