-- ===== src/Server/Cancel.antt =====
-- `$/cancelRequest`.
use clsp.Base.{
  string_eq, ◌≡◌, refl, Bool, true, false, none, some, List, [], ◌∷◌, ◌++◌, length, set, string_eq,
  ==_refl, All, replicate, sym, ◌≢◌, append-nil, ◌∙◌, ==_ne, append_assoc,
}
use clsp.Errors.{ok}
use clsp.Base.Dict.{lookup, lookup-insert}
use clsp.Json.{JsonLib, JsonLaws}
use clsp.Rpc.{id_eq, RequestId, id_to_json, ParsedRequest}
use clsp.Rpc.Roundtrip.{IsId, read_id-id_to_json}
use clsp.Server.Handlers.{on_cancel_request, cancel_id, cancel}
use clsp.Server.Dispatch.{submit_request, submit_work}
use clsp.Server.State.{Server, RequestHandler}

set-append : (xs ys : List Bool) (a b : Bool) → set (xs ++ a ∷ ys) (length xs) b ≡ xs ++ b ∷ ys
set-append [] ys a b = refl
set-append (x ∷ xs) ys a b = rw (set-append xs ys a b) refl

module _ (J : JsonLib) (H : JsonLaws J) where
  open J use {Json, is_object, find}

  -- Requests that are submitted one after the other.
  unfoldable pub submit_all :
      List (ParsedRequest Json × RequestHandler Json) → Server Json → Server Json
  unfolding submit_request
  submit_all [] s = s
  submit_all ((req, h) ∷ rest) s = submit_all rest (submit_request J req h s)

  -- Each has a token of its own, which is not set.
  submit_all-flags :
      (reqs : List (ParsedRequest Json × RequestHandler Json)) (s : Server Json)
      → (submit_all reqs s).flags ≡ s.flags ++ replicate (length reqs) false
  unfolding submit_all submit_request submit_work
  submit_all-flags [] s = sym (append-nil s.flags)
  submit_all-flags ((req, h) ∷ rest) s =
      submit_all-flags rest (submit_request J req h s) ∙ append_assoc s.flags _ _

  -- The token of an id stays as it is while others are submitted.
  lookup-submit_all :
      (id : RequestId) (reqs : List (ParsedRequest Json × RequestHandler Json)) (s : Server Json)
      → All (λ r. r.0.id ≢ id) reqs
      → lookup id (submit_all reqs s).cancellation_tokens ≡ lookup id s.cancellation_tokens
  unfolding submit_all submit_request submit_work
  lookup-submit_all id [] s h = refl
  lookup-submit_all id ((req, k) ∷ rest) s (n, h) =
      lookup-submit_all id rest (submit_request J req k s) h
      ∙ (lookup-insert req.id id (length s.flags) s.cancellation_tokens
          ∙ rw (==_ne req.id id n) refl)

  -- A `$/cancelRequest` that names a submitted request, after any number of later requests with
  -- other ids, sets the flag of that request's token, and changes nothing else: the flags of the
  -- requests before and after it stay as they are. The id fits `int`.
  pub on_cancel_request-submit_request :
      (req : ParsedRequest Json) (handler : RequestHandler Json)
      (later : List (ParsedRequest Json × RequestHandler Json)) (s : Server Json) (params : Json)
      → IsId req.id
      → All (λ r. r.0.id ≢ req.id) later
      → is_object params ≡ true
      → find "id" params ≡ some (id_to_json J req.id)
      → on_cancel_request J params (submit_all later (submit_request J req handler s)) ≡ (
        ok tt,
        record (submit_all later (submit_request J req handler s)) {
          flags = s.flags ++ true ∷ replicate (length later) false;
        },
      )
  unfolding on_cancel_request cancel_id cancel submit_request submit_work
  on_cancel_request-submit_request req handler later s params h others o f =
      let q = submit_request J req handler s in
      let token : lookup req.id (submit_all later q).cancellation_tokens ≡ some (length s.flags) =
        lookup-submit_all req.id later q others
        ∙ (lookup-insert req.id req.id (length s.flags) s.cancellation_tokens
            ∙ rw (==_refl req.id) refl) in
      let flags : (submit_all later q).flags ≡ s.flags ++ false ∷ replicate (length later) false =
        submit_all-flags later q ∙ append_assoc s.flags _ _ in
      rw
        (
          o,
          f,
          read_id-id_to_json J H req.id h,
          token,
          flags,
          set-append s.flags (replicate (length later) false) false true,
        )
        refl

  -- A cancel for an id that no running or waiting request has does nothing.
  pub on_cancel_request_unknown :
      (id : RequestId) (s : Server Json) (params : Json)
      → IsId id
      → is_object params ≡ true
      → find "id" params ≡ some (id_to_json J id)
      → lookup id s.cancellation_tokens ≡ none
      → on_cancel_request J params s ≡ (ok tt, s)
  unfolding on_cancel_request cancel_id cancel
  on_cancel_request_unknown id s params h o f n = rw (o, f, read_id-id_to_json J H id h, n) refl
