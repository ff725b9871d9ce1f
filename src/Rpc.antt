-- ===== src/Rpc.antt =====
-- src/JsonRpc.hpp and src/JsonRpc.cpp: the message types, `parseMessage` and the `serialize…`
-- functions. What they promise is in the child modules.
pub mod Roundtrip
pub mod Classify
use clsp.Base.{
  ℕ, String, Bytes, ◌≡◌, Bool, true, false, not, ◌||◌, Option, none, some, [], ◌∷◌, if◌then◌else◌,
  ◌==◌, string_eq, refl, ◌↔◌, arith, Eq,
}
use clsp.Base.Int.{ℤ, int_eq}
use clsp.Errors.{
  ErrorCodes, parse_error, invalid_request, code_value, Message, plain, Result, ok, err, ◌>>=◌,
}
use clsp.Json.{JsonLib, contains, assign_all, of_message}

abbrev pub jsonrpc_version : String
jsonrpc_version = "2.0"

-- `std::variant<int, std::string>`
pub data RequestId : Type 0 where
  num : ℤ → RequestId
  str : String → RequestId

abbrev id_beq : RequestId → RequestId → Bool
id_beq (num a) (num b) = a == b
id_beq (str a) (str b) = a == b
id_beq _ _ = false

pub id_beq_iff : (a b : RequestId) → (id_beq a b ≡ true) ↔ (a ≡ b)
id_beq_iff (num a) (num b) = ground (arith, int_eq.same_iff a b)
id_beq_iff (num a) (str b) = ground arith
id_beq_iff (str a) (num b) = ground arith
id_beq_iff (str a) (str b) = ground (arith, string_eq.same_iff a b)

instance abbrev pub id_eq : Eq RequestId
id_eq = record { same = id_beq; same_iff = id_beq_iff }

pub record ParsedRequest (Json : Type 0) : Type 0 where
  pub id : RequestId
  pub method : String
  pub params : Json

pub record ParsedNotification (Json : Type 0) : Type 0 where
  pub method : String
  pub params : Json

pub record ParsedError : Type 0 where
  pub code : ErrorCodes
  pub message : String

pub record ParsedResponse (Json : Type 0) : Type 0 where
  pub id : RequestId
  pub payload : Json
  pub is_error : Bool

pub data ParsedMessage (Json : Type 0) : Type 0 where
  request : ParsedRequest Json → ParsedMessage Json
  notification : ParsedNotification Json → ParsedMessage Json
  error : ParsedError → ParsedMessage Json
  response : ParsedResponse Json → ParsedMessage Json

module _ (J : JsonLib) where
  open J use {
    Json, parse, dump, is_object, is_string, is_number_integer, find, get_int, get_string, null,
    of_int, of_string, assign,
  }

  unfoldable pub id_to_json : RequestId → Json
  id_to_json (num z) = of_int z
  id_to_json (str s) = of_string s

  unfoldable pub invalid : ErrorCodes → String → ParsedMessage Json
  invalid c m = error (record { code = c; message = m })

  -- The `id` of a message: `none` where it is neither an integer nor a string.
  unfoldable pub read_id : Json → Result (Option RequestId)
  read_id j =
      if is_number_integer j
      then (do z ← get_int j; ok (some (num z)))
      else if is_string j
      then (do s ← get_string j; ok (some (str s)))
      else ok none

  -- j["jsonrpc"] is there, is a string, and is "2.0".
  unfoldable pub version_ok : Json → Result Bool
  version_ok j = elim (find "jsonrpc" j) [
    | none ↦ ok false
    | some v ↦ if is_string v then (do s ← get_string v; ok (s == jsonrpc_version)) else ok false
  ]

  -- The payload of a response under its id.
  unfoldable pub parse_payload : Json → RequestId → ParsedMessage Json
  unfolding invalid
  parse_payload j i = elim (find "error" j) [
    | some e ↦ response (record { id = i; payload = e; is_error = true })
    | none ↦ elim (find "result" j) [
      | some r ↦ response (record { id = i; payload = r; is_error = false })
      | none ↦ invalid invalid_request "Response missing both result and error"
    ]
  ]

  -- No method: a response to a request of the server.
  unfoldable pub parse_response : Json → Result (ParsedMessage Json)
  unfolding invalid read_id parse_payload
  parse_response j = elim (find "id" j) [
    | none ↦ ok (invalid invalid_request "Missing method and id")
    | some v ↦ do
      i ← read_id v
      elim i [
        | none ↦ ok (invalid invalid_request "Invalid id type")
        | some r ↦ ok (parse_payload j r)
      ]
  ]

  -- j["params"], or null.
  unfoldable pub params_of : Json → Json
  params_of j = elim (find "params" j) [ none ↦ null | some p ↦ p ]

  -- With a method: a request if there is an id, else a notification.
  unfoldable pub parse_call : Json → Json → Result (ParsedMessage Json)
  unfolding invalid read_id params_of
  parse_call j m = do
    method ← get_string m
    elim (find "id" j) [
      | none ↦ ok (notification (record { method = method; params = params_of j }))
      | some v ↦ do
        i ← read_id v
        elim i [
          | none ↦ ok (invalid invalid_request "Invalid id type")
          | some r ↦ ok (request (record { id = r; method = method; params = params_of j }))
        ]
    ]

  -- The tests of `parseMessage` behind the version check.
  unfoldable pub parse_body : Json → Result (ParsedMessage Json)
  unfolding parse_response parse_call
  parse_body j = elim (find "method" j) [
    | none ↦ parse_response j
    | some m ↦ if is_string m then parse_call j m else parse_response j
  ]

  unfoldable pub parse_object : Json → Result (ParsedMessage Json)
  unfolding invalid version_ok parse_body
  parse_object j = do
    v ← version_ok j
    if v then parse_body j else ok (invalid invalid_request "Missing or invalid jsonrpc version")

  unfoldable pub parse_message : Bytes → Result (ParsedMessage Json)
  unfolding invalid parse_object
  parse_message raw = do
    parsed ← parse raw
    elim parsed [
      | none ↦ ok (invalid parse_error "Invalid JSON")
      | some j ↦
          if is_object j
          then parse_object j
          else ok (invalid invalid_request "Message must be an object")
    ]

  unfoldable pub error_object : ErrorCodes → Message → Json
  unfolding of_message
  error_object c m =
      assign_all J null (("code", of_int (code_value c)) ∷ ("message", of_message J m) ∷ [])

  unfoldable pub result_json : RequestId → Json → Json
  unfolding id_to_json
  result_json i r =
      assign (assign (assign null "jsonrpc" (of_string jsonrpc_version)) "id" (id_to_json i))
        "result" r

  unfoldable pub error_json : Json → ErrorCodes → Message → Json
  unfolding error_object
  error_json i c m =
      assign (assign (assign null "jsonrpc" (of_string jsonrpc_version)) "id" i) "error"
        (error_object c m)

  unfoldable pub request_json : ℤ → String → Json → Json
  request_json i m p =
      assign
        (assign (assign (assign null "jsonrpc" (of_string jsonrpc_version)) "id" (of_int i))
          "method" (of_string m))
        "params" p

  unfoldable pub notification_json : String → Json → Json
  notification_json m p =
      assign (assign (assign null "jsonrpc" (of_string jsonrpc_version)) "method" (of_string m))
        "params" p

  unfoldable pub serialize_result : RequestId → Json → Result Bytes
  unfolding result_json
  serialize_result i r = dump (result_json i r)

  unfoldable pub serialize_error : RequestId → ErrorCodes → Message → Result Bytes
  unfolding error_json id_to_json
  serialize_error i c m = dump (error_json (id_to_json i) c m)

  -- The overload for `nullptr`, which the program calls with the texts of its own parser.
  unfoldable pub serialize_error_null : ErrorCodes → String → Result Bytes
  unfolding error_json
  serialize_error_null c m = dump (error_json null c (plain m))

  unfoldable pub serialize_request : ℤ → String → Json → Result Bytes
  unfolding request_json
  serialize_request i m p = dump (request_json i m p)

  unfoldable pub serialize_notification : String → Json → Result Bytes
  unfolding notification_json
  serialize_notification m p = dump (notification_json m p)
