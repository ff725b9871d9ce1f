-- ===== src/Protocol/Roundtrip.antt =====
-- What is written is read back.
use clsp.Base.{◌≡◌, refl, some, arith, string_eq}
use clsp.Errors.{ok}
use clsp.Json.Decode.{object-IsRecord, assign-IsRecord}
use clsp.Json.{JsonLib, JsonLaws}
use clsp.Protocol.Hover.{
  MarkupKind, plain_text, markdown, MarkupContent, markup_name, markup_of_name, markup_to_json,
  markup_from_json, read_kind, kind_or,
}

markup_of_name-markup_name : (k : MarkupKind) → markup_of_name (markup_name k) ≡ some k
unfolding markup_of_name markup_name
markup_of_name-markup_name plain_text = refl
markup_of_name-markup_name markdown = refl

module _ (J : JsonLib) (H : JsonLaws J) where
  open J use {Json, object, of_string, assign, is_null, is_object}

  -- A `MarkupContent` is read back from the JSON that is made of it, its kind by its name.
  pub markup_from_json-markup_to_json :
      (m : MarkupContent) → markup_from_json J (markup_to_json J m) ≡ ok m
  unfolding markup_from_json markup_to_json read_kind kind_or
  markup_from_json-markup_to_json m =
      let a = assign object "kind" (of_string (markup_name m.kind)) in
      let r =
        assign-IsRecord J H object "kind" (of_string (markup_name m.kind)) (object-IsRecord J H) in
      ground (
        arith,
        H.find-assign a "value" "kind" (of_string m.value) r,
        H.find-assign a "value" "value" (of_string m.value) r,
        H.find-assign object "kind" "kind" (of_string (markup_name m.kind)) (object-IsRecord J H),
        H.is_string-of_string (markup_name m.kind),
        H.get_string-of_string (markup_name m.kind),
        H.get_string-of_string m.value,
        markup_of_name-markup_name m.kind,
      )
