-- ===== src/Rpc/Roundtrip.antt =====
-- A serialized message is parsed back.
use clsp.Base.{◌⊎◌, inl, String, Bytes, ◌≡◌, refl, true, some, List, [], ◌∷◌, ◌∙◌, arith, false}
use clsp.Base.Int.{ℤ}
use clsp.Errors.{
  ok, ErrorCodes, code_value, invalid_request, Message, plain, octets, Exception, err,
}
use clsp.Json.{JsonLib, JsonLaws, IsInt, assign_all, of_message}
use clsp.Json.Decode.{read, find-fields, is_object-fields, AllText, fields-IsText}
use clsp.Rpc.{
  jsonrpc_version, RequestId, num, str, ParsedMessage, request, id_to_json, read_id, parse_body,
  parse_call, parse_message, params_of, request_json, serialize_request, serialize_error,
  parse_response, error_object, serialize_result, serialize_notification, serialize_error_null,
  notification_json, notification, invalid, parse_payload, response, result_json, error_json,
}

-- An id whose number fits `int`.
abbrev pub IsId : RequestId → Type 0
IsId (num z) = IsInt z
IsId (str s) = Unit

module _ (J : JsonLib) (H : JsonLaws J) where
  open J use {Json, dump, of_string, of_int, null}

  pub read_id-id_to_json : (i : RequestId) → IsId i → read_id J (id_to_json J i) ≡ ok (some i)
  unfolding read_id id_to_json
  read_id-id_to_json (num z) h = ground (arith, H.is_number_integer-of_int z, H.get_int-of_int z h)
  read_id-id_to_json (str s) h =
      ground
        (arith, H.is_number_integer-of_string s, H.is_string-of_string s, H.get_string-of_string s)

  id_to_json-IsText : (i : RequestId) → H.IsText (id_to_json J i)
  unfolding id_to_json
  id_to_json-IsText (num z) = H.of_int-IsText z
  id_to_json-IsText (str s) = H.of_string-IsText s

  abbrev version : String × Json
  version = ("jsonrpc", of_string jsonrpc_version)

  -- What it takes for a text to be parsed as the message `m`.
  parse_message-parsed :
      (t : Bytes) (j : Json) (m : ParsedMessage Json)
      → J.parse t ≡ ok (some j)
      → J.is_object j ≡ true
      → J.find "jsonrpc" j ≡ some (of_string jsonrpc_version)
      → parse_body J j ≡ ok m
      → parse_message J t ≡ ok m
  unfolding parse_message
  parse_message-parsed t j m p o v b =
      ground (arith, H.is_string-of_string jsonrpc_version, H.get_string-of_string jsonrpc_version)

  -- A built message is written, and read back as what `parse_body` makes of it.
  parse_message-dump :
      (d : List (String × Json)) (m : ParsedMessage Json)
      → AllText J H d
      → read "jsonrpc" d (some (of_string jsonrpc_version)) ≡ some (of_string jsonrpc_version)
      → parse_body J (assign_all J null (version ∷ d)) ≡ ok m
      → (t : Bytes) × (dump (assign_all J null (version ∷ d)) ≡ ok t) × (parse_message J t ≡ ok m)
  parse_message-dump d m a v b =
      let (t, dumped, parsed) =
        H.dump_text _ (fields-IsText J H (version ∷ d) (H.of_string-IsText _, a)) in
      (
        t,
        dumped,
        parse_message-parsed t (assign_all J null (version ∷ d)) m parsed
            (is_object-fields J H "jsonrpc" (of_string jsonrpc_version) d)
            (find-fields J H "jsonrpc" (version ∷ d) ∙ v) b,
      )

  abbrev request_fields : ℤ → String → Json → List (String × Json)
  request_fields i m p = ("id", of_int i) ∷ ("method", of_string m) ∷ ("params", p) ∷ []

  parse_body-request :
      (i : ℤ) (m : String) (p : Json)
      → IsInt i
      → parse_body J (request_json J i m p)
        ≡ ok (request (record { id = num i; method = m; params = p }))
  unfolding parse_body parse_call read_id params_of request_json
  parse_body-request i m p h = ground (
    arith,
    find-fields J H "method" (version ∷ request_fields i m p),
    find-fields J H "id" (version ∷ request_fields i m p),
    find-fields J H "params" (version ∷ request_fields i m p),
    H.is_number_integer-of_int i,
    H.get_int-of_int i h,
    H.is_string-of_string m,
    H.get_string-of_string m,
  )

  -- A serialized request is written, and parsed back as the request with its id, method and params,
  -- for an id that fits `int` and params that can be written.
  pub parse_message-serialize_request :
      (i : ℤ) (m : String) (p : Json)
      → IsInt i
      → H.IsText p
      → (t : Bytes) × (serialize_request J i m p ≡ ok t)
        × (parse_message J t ≡ ok (request (record { id = num i; method = m; params = p })))
  unfolding serialize_request
  parse_message-serialize_request i m p h w =
      parse_message-dump (request_fields i m p) _
        (H.of_int-IsText i, (H.of_string-IsText m, (w, tt))) refl (parse_body-request i m p h)

  abbrev notification_fields : String → Json → List (String × Json)
  notification_fields m p = ("method", of_string m) ∷ ("params", p) ∷ []

  parse_body-notification :
      (m : String) (p : Json)
      → parse_body J (notification_json J m p)
        ≡ ok (notification (record { method = m; params = p }))
  unfolding parse_body parse_call params_of notification_json
  parse_body-notification m p = ground (
    arith,
    find-fields J H "method" (version ∷ notification_fields m p),
    find-fields J H "id" (version ∷ notification_fields m p),
    find-fields J H "params" (version ∷ notification_fields m p),
    H.is_string-of_string m,
    H.get_string-of_string m,
  )

  -- A serialized notification is written, and parsed back as the notification with its method and
  -- params, for params that can be written.
  pub parse_message-serialize_notification :
      (m : String) (p : Json)
      → H.IsText p
      → (t : Bytes) × (serialize_notification J m p ≡ ok t)
        × (parse_message J t ≡ ok (notification (record { method = m; params = p })))
  unfolding serialize_notification
  parse_message-serialize_notification m p w =
      parse_message-dump (notification_fields m p) _ (H.of_string-IsText m, (w, tt)) refl
        (parse_body-notification m p)

  -- The fields of a reply: its id, and the payload under "result" or "error".
  abbrev reply_fields : RequestId → String → Json → List (String × Json)
  reply_fields i k v = ("id", id_to_json J i) ∷ (k, v) ∷ []

  parse_body-result :
      (i : RequestId) (r : Json)
      → IsId i
      → parse_body J (result_json J i r)
        ≡ ok (response (record { id = i; payload = r; is_error = false }))
  unfolding parse_body parse_response parse_payload result_json
  parse_body-result i r h = ground (
    arith,
    find-fields J H "method" (version ∷ reply_fields i "result" r),
    find-fields J H "id" (version ∷ reply_fields i "result" r),
    find-fields J H "error" (version ∷ reply_fields i "result" r),
    find-fields J H "result" (version ∷ reply_fields i "result" r),
    read_id-id_to_json i h,
  )

  parse_body-error :
      (i : RequestId) (e : Json)
      → IsId i
      → parse_body J (assign_all J null (version ∷ reply_fields i "error" e))
        ≡ ok (response (record { id = i; payload = e; is_error = true }))
  unfolding parse_body parse_response parse_payload
  parse_body-error i e h = ground (
    arith,
    find-fields J H "method" (version ∷ reply_fields i "error" e),
    find-fields J H "id" (version ∷ reply_fields i "error" e),
    find-fields J H "error" (version ∷ reply_fields i "error" e),
    read_id-id_to_json i h,
  )

  -- A serialized result is written, and parsed back as a response that is no error, with the same
  -- id and payload, for an id that fits `int` and a payload that can be written.
  pub parse_message-serialize_result :
      (i : RequestId) (r : Json)
      → IsId i
      → H.IsText r
      → (t : Bytes) × (serialize_result J i r ≡ ok t)
        × (parse_message J t ≡ ok (response (record { id = i; payload = r; is_error = false })))
  unfolding serialize_result
  parse_message-serialize_result i r h w =
      parse_message-dump (reply_fields i "result" r) _ (id_to_json-IsText i, (w, tt)) refl
        (parse_body-result i r h)

  error_object-IsText :
      (c : ErrorCodes) (m : Message) → H.IsText (of_message J m) → H.IsText (error_object J c m)
  unfolding error_object
  error_object-IsText c m w =
      fields-IsText J H (("code", of_int (code_value c)) ∷ ("message", of_message J m) ∷ [])
        (H.of_int-IsText _, (w, tt))

  pub plain-IsText : (s : String) → H.IsText (of_message J (plain s))
  unfolding of_message
  plain-IsText s = H.of_string-IsText s

  -- A serialized error is written, and parsed back as an error response with the same id and the
  -- error object as its payload, for an id that fits `int` and a message that is UTF-8.
  pub parse_message-serialize_error :
      (i : RequestId) (c : ErrorCodes) (m : Message)
      → IsId i
      → H.IsText (of_message J m)
      → (t : Bytes) × (serialize_error J i c m ≡ ok t)
        × (parse_message J t
            ≡ ok (response (record { id = i; payload = error_object J c m; is_error = true })))
  unfolding serialize_error
  parse_message-serialize_error i c m h w =
      parse_message-dump (reply_fields i "error" (error_object J c m)) _
        (id_to_json-IsText i, (error_object-IsText c m w, tt)) refl
        (parse_body-error i (error_object J c m) h)

  -- A message that is not UTF-8 makes the writing of the error throw.
  pub serialize_error-Unwritable :
      (i : RequestId) (c : ErrorCodes) (m : Message)
      → H.Unwritable (of_message J m)
      → (x : Exception) × (serialize_error J i c m ≡ err x)
  unfolding serialize_error error_json error_object
  serialize_error-Unwritable i c m w =
      let inner =
        H.find-Unwritable "message" (error_object J c m) (of_message J m)
          (find-fields J H "message"
            (("code", of_int (code_value c)) ∷ ("message", of_message J m) ∷ []))
          w in
      H.dump_unwritable _ (
        H.find-Unwritable "error"
          (assign_all J null (version ∷ reply_fields i "error" (error_object J c m)))
          (error_object J c m)
          (find-fields J H "error" (version ∷ reply_fields i "error" (error_object J c m))) inner)

  pub of_message-cases : (m : Message) → H.IsText (of_message J m) ⊎ H.Unwritable (of_message J m)
  unfolding of_message
  of_message-cases (plain s) = inl (H.of_string-IsText s)
  of_message-cases (octets b) = H.of_text-cases b

  abbrev null_fields : ErrorCodes → String → List (String × Json)
  null_fields c m = ("id", null) ∷ ("error", error_object J c (plain m)) ∷ []

  parse_body-null_id :
      (c : ErrorCodes) (m : String)
      → parse_body J (assign_all J null (version ∷ null_fields c m))
        ≡ ok (invalid J invalid_request "Invalid id type")
  unfolding parse_body parse_response read_id
  parse_body-null_id c m = ground (
    arith,
    find-fields J H "method" (version ∷ null_fields c m),
    find-fields J H "id" (version ∷ null_fields c m),
    H.is_number_integer-null,
    H.is_string-null,
  )

  -- The reply to a message that could not be parsed is always written, and CLSP's own parser does
  -- not take it for a response: it answers "Invalid id type".
  pub parse_message-serialize_error_null :
      (c : ErrorCodes) (m : String)
      → (t : Bytes) × (serialize_error_null J c m ≡ ok t)
        × (parse_message J t ≡ ok (invalid J invalid_request "Invalid id type"))
  unfolding serialize_error_null
  parse_message-serialize_error_null c m =
      parse_message-dump (null_fields c m) _
        (H.null-IsText, (error_object-IsText c (plain m) (plain-IsText m), tt)) refl
        (parse_body-null_id c m)
