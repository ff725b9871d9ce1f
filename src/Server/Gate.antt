-- ===== src/Server/Gate.antt =====
-- Which messages the read thread lets through, state by state.
use clsp.Base.{
  String, ◌<>◌, ◌≡◌, refl, Bool, true, false, Option, none, some, arith, if◌then◌else◌, is_some,
  ◌==◌, string_eq,
}
use clsp.Base.Dict.{lookup}
use clsp.Errors.{ErrorCodes, ok, server_not_initialized, invalid_request, method_not_found, plain}
use clsp.Json.{JsonLib, JsonLaws}
use clsp.Rpc.{ParsedRequest}
use clsp.Server.State.{
  Server, ServerState, state_eq, RequestHandler, uninitialized, initializing, running,
  shutting_down, exited,
}
use clsp.Server.Send.{send_error}
use clsp.Server.Dispatch.{is_lifecycle_request, handle_request, run_request_handler, submit_request}

-- The error code that the protocol asks for, if a request is refused: before `initialize` all
-- others, during a shutdown all, after `initialize` a second one, and unknown methods.
unfoldable pub refusal : ServerState → Bool → Bool → Option ErrorCodes
refusal uninitialized is_initialize known =
    if is_initialize
    then (if known then none else some method_not_found)
    else some server_not_initialized
refusal shutting_down is_initialize known = some invalid_request
refusal _ is_initialize known =
    if is_initialize then some invalid_request else if known then none else some method_not_found

module _ (J : JsonLib) (H : JsonLaws J) where
  open J use {Json}

  -- What is refused is answered with exactly one error of that code, and changes nothing else.
  abbrev pub Refuses : ParsedRequest Json → Server Json → ErrorCodes → Type 0
  Refuses req s c = (m : String) × (handle_request J req s ≡ send_error J req.id c (plain m) s)

  abbrev pub Gated : ParsedRequest Json → Server Json → Option ErrorCodes → Type 0
  Gated req s (some c) = Refuses req s c
  Gated req s none =
      (handler : RequestHandler Json) × (lookup req.method s.request_handlers ≡ some handler)
      × (handle_request J req s ≡ (
          if is_lifecycle_request req.method
          then run_request_handler J req.id req.params handler false false s
          else (ok tt, submit_request J req handler s)))

  abbrev unknown : ParsedRequest Json → String
  unknown req = "Method not found: " <> req.method

  gate :
      (req : ParsedRequest Json) (s : Server Json) (st : ServerState) (k : Bool)
      (o : Option (RequestHandler Json))
      → s.state ≡ st
      → (req.method == "initialize") ≡ k
      → lookup req.method s.request_handlers ≡ o
      → Gated req s (refusal st k (is_some o))
  unfolding handle_request refusal
  gate req s uninitialized false o e f g = ("Server not initialized", ground arith)
  gate req s uninitialized true none e f g = (unknown req, ground arith)
  gate req s uninitialized true (some h) e f g = (h, g, ground arith)
  gate req s shutting_down k o e f g = ("Server is shutting down", ground arith)
  gate req s initializing true o e f g = ("Server already initialized", ground arith)
  gate req s initializing false none e f g = (unknown req, ground arith)
  gate req s initializing false (some h) e f g = (h, g, ground arith)
  gate req s running true o e f g = ("Server already initialized", ground arith)
  gate req s running false none e f g = (unknown req, ground arith)
  gate req s running false (some h) e f g = (h, g, ground arith)
  gate req s exited true o e f g = ("Server already initialized", ground arith)
  gate req s exited false none e f g = (unknown req, ground arith)
  gate req s exited false (some h) e f g = (h, g, ground arith)

  -- `handleRequest` refuses a request exactly where `refusal` has a code for the state of the
  -- server, whether the method is `initialize`, and whether it has a handler; then it does no more
  -- than to send one error of that code. Otherwise a lifecycle request is run at once, with a token
  -- that is not cancelled, and any other is submitted to the worker pool under a new token.
  pub handle_request_lem :
      (req : ParsedRequest Json) (s : Server Json)
      → Gated req s (
          refusal s.state
            (req.method == "initialize")
            (is_some (lookup req.method s.request_handlers)))
  handle_request_lem req s =
      gate req s s.state (req.method == "initialize") (lookup req.method s.request_handlers) refl
        refl refl
