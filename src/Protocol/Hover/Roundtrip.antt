-- ===== src/Protocol/Hover/Roundtrip.antt =====
-- What is written of a hover, of its params and of markup is read back.
use clsp.Base.{
  String, ◌≡◌, refl, true, Option, some, List, [], ◌∷◌, string_eq, AllOption, AllOption-map,
}
use clsp.Errors.{ok}
use clsp.Json.{JsonLib, JsonLaws}
use clsp.Json.Fields.{find-puts_object, at-puts_object, is_null-puts_object, is_object-puts_object}
use clsp.Protocol.{range_from_json}
use clsp.Protocol.Places.{Fits, FitsRange, Reads-position, Reads-range}
use clsp.Protocol.Reading.{written, put_optional_lem, Reads, read_optional-written}
use clsp.Protocol.Diagnostics.{position_to_json, range_to_json}
use clsp.Protocol.Roundtrip.{markup_from_json-markup_to_json}
use clsp.Protocol.Hover.{
  TextDocumentIdentifier, identifier_to_json, identifier_from_json, markup_name, MarkupContent,
  markup_to_json, HoverParams, Hover, hover_params_from_json, hover_params_to_json, hover_to_json,
  hover_from_json,
}

module _ (J : JsonLib) (H : JsonLaws J) where
  open J use {Json, find}

  pub is_object-markup_to_json : (m : MarkupContent) → J.is_object (markup_to_json J m) ≡ true
  unfolding markup_to_json
  is_object-markup_to_json m = is_object-puts_object J H (
      ("kind", some (J.of_string (markup_name m.kind)))
      ∷ ("value", some (J.of_string m.value))
      ∷ [])

  pub Reads-identifier :
      (i : TextDocumentIdentifier) → Reads J (identifier_from_json J) (identifier_to_json J) i
  unfolding identifier_from_json identifier_to_json
  Reads-identifier i =
      let d : List (String × Option Json) = ("uri", some (J.of_string i.uri)) ∷ [] in
      (
        rw (at-puts_object J H d "uri" _ refl, H.get_string-of_string i.uri) refl,
        is_null-puts_object J H d,
      )

  -- Hover params are read back from the JSON that is made of them, provided that the numbers of the
  -- position fit `uint32_t`.
  pub hover_params_from_json-hover_params_to_json :
      (p : HoverParams)
      → Fits p.position
      → hover_params_from_json J (hover_params_to_json J p) ≡ ok p
  unfolding hover_params_from_json hover_params_to_json
  hover_params_from_json-hover_params_to_json p h =
      let d : List (String × Option Json) =
        ("textDocument", some (identifier_to_json J p.text_document))
        ∷ ("position", some (position_to_json J p.position))
        ∷ [] in
      rw
        (
          at-puts_object J H d "textDocument" _ refl,
          (Reads-identifier p.text_document).0,
          at-puts_object J H d "position" _ refl,
          (Reads-position J H p.position h).0,
        )
        refl

  -- A hover is read back from the JSON that is made of it, with or without a range, provided that
  -- the numbers of the range fit `uint32_t`.
  pub hover_from_json-hover_to_json :
      (v : Hover) → AllOption FitsRange v.range → hover_from_json J (hover_to_json J v) ≡ ok v
  unfolding hover_from_json hover_to_json
  hover_from_json-hover_to_json v h =
      let d : List (String × Option Json) =
        ("contents", some (markup_to_json J v.contents))
        ∷ ("range", written J (range_to_json J) v.range)
        ∷ [] in
      rw
        (
          put_optional_lem J (range_to_json J) "range" v.range,
          at-puts_object J H d "contents" _ refl,
          markup_from_json-markup_to_json J H v.contents,
          read_optional-written J (range_from_json J) (range_to_json J) "range" _ v.range
              (find-puts_object J H "range" d) (AllOption-map (Reads-range J H) v.range h),
        )
        refl
