-- ===== src/Rpc/Classify.antt =====
-- What `parseMessage` makes of a text.
use clsp.Base.{
  ◌↔◌, ◌==◌, string_eq, Bytes, ◌≡◌, refl, true, false, inl, inr, Option, none, some, arith,
  Option-cases, Bool-cases, String, ◌≢◌, ◌∙◌, ap,
}
use clsp.Errors.{ok, Returns, >>=-Returns, Result-cases, Exception, err}
use clsp.Json.{JsonLib, JsonLaws}
use clsp.Rpc.{
  jsonrpc_version, RequestId, num, str, read_id, version_ok, parse_body, parse_call, parse_response,
  parse_object, parse_message, parse_payload, ParsedRequest, invalid, request, params_of,
}

module _ (J : JsonLib) (H : JsonLaws J) where
  open J use {Json, find, is_string, is_number_integer, get_int, get_string}

  -- Reading an id does not throw, and finds one exactly in an integer or a string.
  read_id_total : (j : Json) → (o : Option RequestId) × (read_id J j ≡ ok o)
  unfolding read_id
  read_id_total j = elim (Bool-cases (is_number_integer j)) [
    | inl n ↦ let (z, e) = H.get_int_total j n in (some (num z), ground arith)
    | inr n ↦ elim (Bool-cases (is_string j)) [
      | inl s ↦ let (x, e) = H.get_string_total j s in (some (str x), ground arith)
      | inr s ↦ (none, ground arith)
    ]
  ]

  version_ok_total : (j : Json) → Returns (version_ok J j)
  unfolding version_ok
  version_ok_total j = elim (Option-cases (find "jsonrpc" j)) [
    | inl e ↦ (false, ground arith)
    | inr (v, e) ↦ elim (Bool-cases (is_string v)) [
      | inl s ↦ let (x, g) = H.get_string_total v s in (x == jsonrpc_version, ground arith)
      | inr s ↦ (false, ground arith)
    ]
  ]

  parse_response_total : (j : Json) → Returns (parse_response J j)
  unfolding parse_response
  parse_response_total j = elim (Option-cases (find "id" j)) [
    | inl e ↦ rw (e, parse_response) (_, refl)
    | inr (v, e) ↦
        rw (e, parse_response)
          (>>=-Returns _ _ (read_id_total v)
            (elim [ none ↦ λ g. (_, refl) | some i ↦ λ g. (_, refl) ]))
  ]

  parse_call_total : (j m : Json) → is_string m ≡ true → Returns (parse_call J j m)
  unfolding parse_call
  parse_call_total j m h = >>=-Returns _ _ (H.get_string_total m h) λ method _.
      elim (Option-cases (find "id" j)) [
        | inl e ↦ rw e (_, refl)
        | inr (v, e) ↦ rw e (
            >>=-Returns _ _ (read_id_total v)
              (elim [ none ↦ λ g. (_, refl) | some i ↦ λ g. (_, refl) ]))
      ]

  parse_body_total : (j : Json) → Returns (parse_body J j)
  unfolding parse_body
  parse_body_total j = elim (Option-cases (find "method" j)) [
    | inl e ↦ rw (e, parse_body) (parse_response_total j)
    | inr (m, e) ↦ elim (Bool-cases (is_string m)) [
      | inl s ↦ rw (e, parse_body) (rw s (parse_call_total j m s))
      | inr s ↦ rw (e, parse_body) (rw s (parse_response_total j))
    ]
  ]

  read_text : (raw : Bytes) (o : Option Json) → J.parse raw ≡ ok o → Returns (parse_message J raw)
  unfolding parse_message parse_object
  read_text raw none e = rw (e, parse_message) (_, refl)
  read_text raw (some j) e = elim (Bool-cases (J.is_object j)) [
    | inl o ↦
        rw (e, parse_message)
          (rw o (
            >>=-Returns _ _ (version_ok_total j)
              (elim [ true ↦ λ g. parse_body_total j | false ↦ λ g. (_, refl) ])))
    | inr o ↦ rw (e, parse_message) (rw o (_, refl))
  ]

  -- `parseMessage` returns a message for every text that `json::parse` takes or refuses with a
  -- `parse_error`, whatever value it holds; another exception of `json::parse`, and no other,
  -- leaves it.
  pub parse_message_total :
      (raw : Bytes)
      → ((x : Exception) → J.parse raw ≡ err x → parse_message J raw ≡ err x)
        × ((o : Option Json) → J.parse raw ≡ ok o → Returns (parse_message J raw))
  unfolding parse_message
  parse_message_total raw = (λ x e. rw (e, parse_message) refl, read_text raw)

  -- What an object must hold to be the request `r`, in the words of the JSON-RPC format.
  abbrev pub HasString : Json → String → String → Type 0
  HasString j k s = (v : Json) × (find k j ≡ some v) × (is_string v ≡ true) × (get_string v ≡ ok s)

  abbrev pub IsIdOf : Json → RequestId → Type 0
  IsIdOf v (num z) = (is_number_integer v ≡ true) × (get_int v ≡ ok z)
  IsIdOf v (str s) = (is_number_integer v ≡ false) × (is_string v ≡ true) × (get_string v ≡ ok s)

  pub record IsRequest (j : Json) (r : ParsedRequest Json) : Type 0 where
    pub object : J.is_object j ≡ true
    pub version : HasString j "jsonrpc" jsonrpc_version
    pub method : HasString j "method" r.method
    pub id : (v : Json) × (find "id" j ≡ some v) × IsIdOf v r.id
    pub params : r.params ≡ params_of J j

  read_id-IsIdOf : (v : Json) (i : RequestId) → read_id J v ≡ ok (some i) → IsIdOf v i
  unfolding read_id
  read_id-IsIdOf v (num z) h = ground arith
  read_id-IsIdOf v (str s) h = ground arith

  IsIdOf-read_id : (v : Json) (i : RequestId) → IsIdOf v i → read_id J v ≡ ok (some i)
  unfolding read_id
  IsIdOf-read_id v (num z) h = ground arith
  IsIdOf-read_id v (str s) h = ground arith

  parse_response-not_request :
      (j : Json) (r : ParsedRequest Json) → parse_response J j ≢ ok (request r)
  unfolding parse_response parse_payload invalid
  parse_response-not_request j r = ground arith

  version_ok-HasString :
      (j : Json) → version_ok J j ≡ ok true → HasString j "jsonrpc" jsonrpc_version
  unfolding version_ok
  version_ok-HasString j h = elim (Option-cases (find "jsonrpc" j)) [
    | inl e ↦ absurd (ground arith)
    | inr (v, e) ↦ elim (Result-cases (get_string v)) [
      | inl (x, g) ↦ (v, e, ground arith, ground (arith, string_eq.same_iff x jsonrpc_version))
      | inr (x, g) ↦ absurd (ground arith)
    ]
  ]

  parse_call-request :
      (j m : Json) (r : ParsedRequest Json)
      → parse_call J j m ≡ ok (request r)
      → (get_string m ≡ ok r.method)
        × ((v : Json) × (find "id" j ≡ some v) × IsIdOf v r.id)
        × (r.params ≡ params_of J j)
  unfolding parse_call
  parse_call-request j m r h = elim (Option-cases (find "id" j)) [
    | inl e ↦ absurd (ground arith)
    | inr (v, e) ↦
        let read : read_id J v ≡ ok (some r.id) = ground arith in
        (ground arith, (v, e, read_id-IsIdOf v r.id read), ground arith)
  ]

  parse_body-request :
      (j : Json) (r : ParsedRequest Json)
      → parse_body J j ≡ ok (request r)
      → (m : Json) × (find "method" j ≡ some m)
        × (is_string m ≡ true)
        × (parse_call J j m ≡ ok (request r))
  unfolding parse_body
  parse_body-request j r h = elim (Option-cases (find "method" j)) [
    | inl e ↦ absurd (ground (arith, parse_response-not_request j r))
    | inr (m, e) ↦ (
      m,
      e,
      ground (arith, parse_response-not_request j r),
      ground (arith, parse_response-not_request j r),
    )
  ]

  -- An object of that form is parsed as the request.
  IsRequest-parse_message :
      (raw : Bytes) (j : Json) (r : ParsedRequest Json)
      → J.parse raw ≡ ok (some j)
      → IsRequest j r
      → parse_message J raw ≡ ok (request r)
  unfolding parse_message parse_object version_ok parse_body parse_call
  IsRequest-parse_message raw j r p h =
      ground (
        arith,
        IsIdOf-read_id h.id.0 r.id h.id.2,
        string_eq.same_iff jsonrpc_version jsonrpc_version,
      )

  parse_object-request :
      (j : Json) (r : ParsedRequest Json)
      → J.is_object j ≡ true
      → parse_object J j ≡ ok (request r)
      → IsRequest j r
  unfolding parse_object
  parse_object-request j r o h =
      let v : version_ok J j ≡ ok true = ground arith in
      let (m, found, s, call) = parse_body-request j r (ground arith) in
      let (method, id, params) = parse_call-request j m r call in
      record {
        object = o;
        version = version_ok-HasString j v;
        method = (m, found, s, method);
        id = id;
        params = params;
      }

  -- `parseMessage` returns a request exactly for the texts of objects that have the version, a
  -- string method and an id that is an integer or a string; method, id and params are theirs.
  pub parse_message-request :
      (raw : Bytes) (r : ParsedRequest Json)
      → (parse_message J raw ≡ ok (request r))
        ↔ ((j : Json) × (J.parse raw ≡ ok (some j)) × IsRequest j r)
  unfolding parse_message
  parse_message-request raw r = (
    λ h. elim (Result-cases (J.parse raw)) [
      | inr (x, f) ↦ absurd (ground (arith, f))
      | inl (o, f) ↦ elim (Option-cases o) [
        | inl e ↦ absurd (ground (arith, f, e))
        | inr (j, e) ↦
            (j, f ∙ ap ok e, parse_object-request j r (ground (arith, f, e)) (ground (arith, f, e)))
      ]
    ],
    λ (j, e, h). IsRequest-parse_message raw j r e h,
  )
