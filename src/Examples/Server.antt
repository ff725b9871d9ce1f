-- ===== src/Examples/Server.antt =====
-- A server with one registered request, `demo`.
use clsp.Base.{◌≡◌, refl, Bool, true, false, none, [], ◌∷◌, arith, if◌then◌else◌, Bytes, string_eq}
use clsp.Base.Dict.{lookup, insert}
use clsp.Base.Int.{pos, int_eq}
use clsp.Errors.{foreign, ok, other, err, Exception, plain}
use clsp.Json.Tree.{get_string, IsText_tree, is_object, find, tree_lib, tree_laws, Tree}
use clsp.Rpc.{id_to_json, num, id_eq, ParsedRequest, parse_message, request}
use clsp.Server.State.{
  Hooks, Server, RequestHandler, user_request, register_request, running, make, callback_task,
  Callback,
}
use clsp.Server.Typed.{typed_callback}
use clsp.Server.Replies.{Replies, run_request_handler-Replies, run_request_handler-Escapes, Escapes}
use clsp.Server.Gate.{Gated, refusal, handle_request_lem}
use clsp.Server.Pending.{handle_response-send_request, after_request, answer}
use clsp.Server.Cancel.{on_cancel_request-submit_request, submit_all}
use clsp.Server.Dispatch.{run_request_handler, submit_request, handle_response, submit_work}
use clsp.Server.Send.{send_request}
use clsp.Server.Handlers.{
  on_cancel_request, call_request, default_on_document_opened, default_on_document_changed,
  default_on_document_closed,
}
use clsp.Store

abbrev hooks : Hooks Tree
hooks = record {
  on_initialize = λ p. err (other (plain "no capabilities"));
  on_initialized = ok tt;
  on_shutdown = ok tt;
  on_exit = ok tt;
  on_document_opened = default_on_document_opened;
  on_document_changed = default_on_document_changed;
  on_document_closed = default_on_document_closed;
  on_document_saved = λ doc text. ok tt;
}

-- Polls its token, as a handler should.
abbrev demo : RequestHandler Tree
demo = user_request (λ params cancelled. if cancelled then err Exception.cancelled else ok params)

abbrev server : Server Tree
server = record (register_request "demo" demo (make hooks Store.make 2 4)) { state = running }

abbrev call : ParsedRequest Tree
call = record { id = num (pos 7); method = "demo"; params = Tree.string "x" }

run_request_handler-Replies_example :
    Replies tree_lib tree_laws
      (run_request_handler tree_lib (num (pos 7)) (Tree.string "x") demo false false server)
      server
      (num (pos 7))
      false
unfolding call_request
run_request_handler-Replies_example =
    run_request_handler-Replies tree_lib tree_laws (num (pos 7)) (Tree.string "x") demo false false
      server (omega arith) (λ r e. IsText_tree r) (λ x e. absurd (cc))

-- Throws what is no `std::exception`.
abbrev rude : RequestHandler Tree
rude = user_request (λ params cancelled. err foreign)

run_request_handler-Escapes_example :
    Escapes tree_lib tree_laws
      (run_request_handler tree_lib (num (pos 7)) (Tree.string "x") rude false false server)
      server
unfolding call_request
run_request_handler-Escapes_example =
    run_request_handler-Escapes tree_lib tree_laws (num (pos 7)) (Tree.string "x") rude false server
      foreign refl (λ e. e)

handle_request_lem_example : Gated tree_lib tree_laws call server none
unfolding refusal register_request make lookup insert
handle_request_lem_example = handle_request_lem tree_lib tree_laws call server

abbrev answered : Callback Tree
answered = typed_callback tree_lib get_string (λ name. ok tt)

handle_response-send_request_example :
    (frame : Bytes) × (send_request tree_lib "workspace/configuration" Tree.null answered server
      ≡ (ok tt, after_request tree_lib tree_laws answered frame server))
    × (parse_message tree_lib frame
        ≡ ok (
            request (record {
              id = num (pos 1);
              method = "workspace/configuration";
              params = Tree.null;
            })))
    × ((payload again : Tree) (is_error b : Bool)
        → (q : Server Tree) × (q
            ≡ submit_work tree_lib
                (callback_task answered payload is_error)
                (record (after_request tree_lib tree_laws answered frame server) {
                  pending_requests = [];
                }))
          × (handle_response tree_lib
                (answer tree_lib tree_laws (pos 1) payload is_error)
                (after_request tree_lib tree_laws answered frame server)
              ≡ (ok tt, q))
          × (handle_response tree_lib (answer tree_lib tree_laws (pos 1) again b) q ≡ (ok tt, q)))
unfolding make register_request lookup
handle_response-send_request_example =
    handle_response-send_request tree_lib tree_laws "workspace/configuration" Tree.null answered
      server (omega arith) (IsText_tree Tree.null) refl

abbrev later_call : ParsedRequest Tree
later_call = record { id = num (pos 8); method = "demo"; params = Tree.string "y" }

-- A later request keeps its flag.
on_cancel_request-submit_request_example :
    on_cancel_request tree_lib (Tree.field "id" (Tree.int (pos 7)) Tree.empty_object) (
      submit_all tree_lib tree_laws
        ((later_call, demo) ∷ [])
        (submit_request tree_lib call demo server))
    ≡ (
      ok tt,
      record (submit_all tree_lib tree_laws
          ((later_call, demo) ∷ [])
          (submit_request tree_lib call demo server)) { flags = true ∷ false ∷ [] },
    )
unfolding make register_request is_object find id_to_json
on_cancel_request-submit_request_example =
    on_cancel_request-submit_request tree_lib tree_laws call demo ((later_call, demo) ∷ []) server
      (Tree.field "id" (Tree.int (pos 7)) Tree.empty_object) (omega arith) ((λ e. cc), tt) refl refl
