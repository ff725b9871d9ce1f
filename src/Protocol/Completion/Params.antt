-- ===== src/Protocol/Completion/Params.antt =====
-- What is written of the params of a completion request is read back.
use clsp.Base.{String, ◌≡◌, refl, Option, some, List, [], ◌∷◌, string_eq, AllOption, AllOption-map}
use clsp.Errors.{ok}
use clsp.Json.{JsonLib, JsonLaws, IsInt}
use clsp.Json.Fields.{find-puts_object, at-puts_object, is_null-puts_object}
use clsp.Protocol.Places.{Fits, Reads-position}
use clsp.Protocol.Reading.{written, put_optional_lem, Reads, read_optional-written, read_string}
use clsp.Protocol.Diagnostics.{position_to_json}
use clsp.Protocol.Hover.{identifier_to_json}
use clsp.Protocol.Hover.Roundtrip.{Reads-identifier}
use clsp.Protocol.Completion.{
  CompletionContext, CompletionParams, context_to_json, context_from_json,
  completion_params_to_json, completion_params_from_json,
}

module _ (J : JsonLib) (H : JsonLaws J) where
  open J use {Json, find}

  Reads-context :
      (c : CompletionContext)
      → IsInt c.trigger_kind
      → Reads J (context_from_json J) (context_to_json J) c
  unfolding context_from_json context_to_json
  Reads-context c h =
      let d : List (String × Option Json) =
        ("triggerKind", some (J.of_int c.trigger_kind))
        ∷ ("triggerCharacter", written J J.of_string c.trigger_character)
        ∷ [] in
      rw (put_optional_lem J J.of_string "triggerCharacter" c.trigger_character) (
        rw
            (
              at-puts_object J H d "triggerKind" _ refl,
              H.get_int-of_int c.trigger_kind h,
              read_string J H d "triggerCharacter" c.trigger_character refl,
            )
            refl,
        is_null-puts_object J H d,
      )

  -- The params of a completion request are read back from the JSON that is made of them, with or
  -- without a context, provided that their numbers fit their types.
  pub completion_params_from_json-completion_params_to_json :
      (p : CompletionParams)
      → Fits p.position
      → AllOption (λ c. IsInt c.trigger_kind) p.context
      → completion_params_from_json J (completion_params_to_json J p) ≡ ok p
  unfolding completion_params_from_json completion_params_to_json
  completion_params_from_json-completion_params_to_json p h k =
      let d : List (String × Option Json) =
        ("textDocument", some (identifier_to_json J p.text_document))
        ∷ ("position", some (position_to_json J p.position))
        ∷ ("context", written J (context_to_json J) p.context)
        ∷ [] in
      rw
        (
          put_optional_lem J (context_to_json J) "context" p.context,
          at-puts_object J H d "textDocument" _ refl,
          (Reads-identifier J H p.text_document).0,
          at-puts_object J H d "position" _ refl,
          (Reads-position J H p.position h).0,
          read_optional-written J (context_from_json J) (context_to_json J) "context" _ p.context
              (find-puts_object J H "context" d) (AllOption-map Reads-context p.context k),
        )
        refl
