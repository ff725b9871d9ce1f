-- ===== src/Server/Typed.antt =====
-- The templates of include/clsp/ILanguageServer.hpp that convert params and results: `from` is the
-- `from_json` of the params' type, `to` a `to_json`.
use clsp.Base.{String, Bool, not, if◌then◌else◌, string_eq}
use clsp.Errors.{Result, ok, ◌>>=◌}
use clsp.Json.{JsonLib}
use clsp.Server.Exec.{Exec}
use clsp.Server.State.{
  Server, RequestHandler, NotificationHandler, user_request, user_notification, register_request,
  register_notification,
}
use clsp.Server.Send.{send_request, send_notification}

module _ (J : JsonLib) where
  open J use {Json, null}

  unfoldable pub typed_notification :
      {P : Type 0} → (Json → Result P) → (P → Result (Unit {0})) → NotificationHandler Json
  typed_notification from h = user_notification (λ params. do p ← from params; h p)

  unfoldable pub typed_request :
      {P R : Type 0} → (Json → Result P) → (R → Json) → (P → Bool → Result R) → RequestHandler Json
  typed_request from to h =
      user_request (λ params cancelled. do p ← from params; r ← h p cancelled; ok (to r))

  -- `Result` is `void`.
  unfoldable pub typed_command :
      {P : Type 0} → (Json → Result P) → (P → Bool → Result (Unit {0})) → RequestHandler Json
  typed_command from h =
      user_request (λ params cancelled. do p ← from params; u ← h p cancelled; ok null)

  unfoldable pub register_typed_notification :
      {P : Type 0}
      → String
      → (Json → Result P)
      → (P → Result (Unit {0}))
      → Server Json
      → Server Json
  unfolding typed_notification register_notification
  register_typed_notification method from h =
      register_notification method (typed_notification from h)

  unfoldable pub register_typed_request :
      {P R : Type 0}
      → String
      → (Json → Result P)
      → (R → Json)
      → (P → Bool → Result R)
      → Server Json
      → Server Json
  unfolding typed_request register_request
  register_typed_request method from to h = register_request method (typed_request from to h)

  unfoldable pub register_typed_command :
      {P : Type 0}
      → String
      → (Json → Result P)
      → (P → Bool → Result (Unit {0}))
      → Server Json
      → Server Json
  unfolding typed_command register_request
  register_typed_command method from h = register_request method (typed_command from h)

  unfoldable pub send_typed_notification :
      {P : Type 0} → (P → Json) → String → P → Exec (Server Json) (Unit {0})
  unfolding send_notification
  send_typed_notification to method params = send_notification J method (to params)

  -- The lambda that the typed `sendRequest` passes on: `cb` gets the converted result, and an error
  -- calls nothing.
  unfoldable pub typed_callback :
      {R : Type 0} → (Json → Result R) → (R → Result (Unit {0})) → Json → Bool → Result (Unit {0})
  typed_callback from cb payload is_error =
      if not is_error then (do r ← from payload; cb r) else ok tt

  unfoldable pub send_typed_request :
      {P R : Type 0}
      → (P → Json)
      → (Json → Result R)
      → String
      → P
      → (R → Result (Unit {0}))
      → Exec (Server Json) (Unit {0})
  unfolding send_request typed_callback
  send_typed_request to from method params cb =
      send_request J method (to params) (typed_callback from cb)
