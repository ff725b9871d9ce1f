-- ===== src/Protocol/SemanticTokens.antt =====
-- The parameters and the result of requests for semantic tokens, of
-- include/clsp/protocol/SemanticTokens.hpp.
use clsp.Base.{ℕ, String, Option, none, some, List, [], ◌∷◌, map, if◌then◌else◌, string_eq}
use clsp.Errors.{Result, ok, ◌>>=◌}
use clsp.Json.{JsonLib, at, assign_all}
use clsp.Text.{Range}
use clsp.Protocol.{get_list, put_optional, range_from_json}
use clsp.Protocol.Diagnostics.{range_to_json}
use clsp.Protocol.Capabilities.{SemanticTokensLegend}
use clsp.Protocol.Hover.{TextDocumentIdentifier, identifier_to_json, identifier_from_json}

pub record SemanticTokensParams : Type 0 where
  pub text_document : TextDocumentIdentifier

pub record SemanticTokensRangeParams : Type 0 where
  pub text_document : TextDocumentIdentifier
  pub range : Range

pub record SemanticTokens : Type 0 where
  pub result_id : Option String
  pub numbers : List ℕ

module _ (J : JsonLib) where
  open J use {
    Json, find, is_string, get_string, get_uint, object, of_string, of_uint, of_list, assign,
  }

  unfoldable pub tokens_params_from_json : Json → Result SemanticTokensParams
  unfolding identifier_from_json
  tokens_params_from_json j = do
    d ← at J j "textDocument"
    document ← identifier_from_json J d
    ok (record { text_document = document })

  unfoldable pub tokens_params_to_json : SemanticTokensParams → Json
  unfolding identifier_to_json
  tokens_params_to_json p =
      assign_all J object (("textDocument", identifier_to_json J p.text_document) ∷ [])

  unfoldable pub range_params_from_json : Json → Result SemanticTokensRangeParams
  unfolding identifier_from_json range_from_json
  range_params_from_json j = do
    d ← at J j "textDocument"
    document ← identifier_from_json J d
    r ← at J j "range"
    range ← range_from_json J r
    ok (record { text_document = document; range = range })

  unfoldable pub range_params_to_json : SemanticTokensRangeParams → Json
  unfolding identifier_to_json range_to_json
  range_params_to_json p = assign_all J object (
      ("textDocument", identifier_to_json J p.text_document)
      ∷ ("range", range_to_json J p.range)
      ∷ [])

  unfoldable pub semantic_tokens_to_json : SemanticTokens → Json
  unfolding put_optional
  semantic_tokens_to_json t =
      assign (put_optional J of_string "resultId" t.result_id object) "data"
        (of_list (map of_uint t.numbers))

  -- A `resultId` that is no string is left out.
  unfoldable pub read_result_id : Json → Result (Option String)
  read_result_id j = elim (find "resultId" j) [
    | none ↦ ok none
    | some v ↦ if is_string v then (do s ← get_string v; ok (some s)) else ok none
  ]

  unfoldable pub semantic_tokens_from_json : Json → Result SemanticTokens
  unfolding read_result_id get_list
  semantic_tokens_from_json j = do
    id ← read_result_id j
    d ← at J j "data"
    numbers ← get_list J get_uint d
    ok (record { result_id = id; numbers = numbers })

  unfoldable pub legend_from_json : Json → Result SemanticTokensLegend
  unfolding get_list
  legend_from_json j = do
    t ← at J j "tokenTypes"
    types ← get_list J get_string t
    m ← at J j "tokenModifiers"
    modifiers ← get_list J get_string m
    ok (record { token_types = types; token_modifiers = modifiers })
