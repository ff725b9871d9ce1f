-- ===== src/Protocol/Hover.antt =====
-- include/clsp/protocol/Hover.hpp, and the `TextDocumentIdentifier` of Documents.hpp.
pub mod Roundtrip
use clsp.Base.{String, Option, none, some, [], ◌∷◌, if◌then◌else◌, ◌==◌, string_eq}
use clsp.Errors.{Result, ok, ◌>>=◌}
use clsp.Json.{JsonLib, at, assign_all}
use clsp.Text.{Position, Range}
use clsp.Protocol.{read_optional, put_optional, position_from_json, range_from_json}
use clsp.Protocol.Diagnostics.{position_to_json, range_to_json}

pub record TextDocumentIdentifier : Type 0 where
  pub uri : String

pub data MarkupKind : Type 0 where
  plain_text markdown : MarkupKind

unfoldable pub markup_name : MarkupKind → String
markup_name plain_text = "plaintext"
markup_name markdown = "markdown"

unfoldable pub markup_of_name : String → Option MarkupKind
markup_of_name s =
    if s == "plaintext" then some plain_text else if s == "markdown" then some markdown else none

pub record MarkupContent : Type 0 where
  pub kind : MarkupKind
  pub value : String

pub record HoverParams : Type 0 where
  pub text_document : TextDocumentIdentifier
  pub position : Position

pub record Hover : Type 0 where
  pub contents : MarkupContent
  pub range : Option Range

-- The kind that a name sets, from one that was set before.
unfoldable pub kind_or : MarkupKind → Option MarkupKind → MarkupKind
kind_or old none = old
kind_or old (some k) = k

module _ (J : JsonLib) where
  open J use {Json, find, is_string, get_string, object, of_string}

  unfoldable pub identifier_to_json : TextDocumentIdentifier → Json
  identifier_to_json i = assign_all J object (("uri", of_string i.uri) ∷ [])

  unfoldable pub identifier_from_json : Json → Result TextDocumentIdentifier
  identifier_from_json j = do u ← at J j "uri"; uri ← get_string u; ok (record { uri = uri })

  unfoldable pub markup_to_json : MarkupContent → Json
  unfolding markup_name
  markup_to_json m =
      assign_all J object
        (("kind", of_string (markup_name m.kind)) ∷ ("value", of_string m.value) ∷ [])

  -- A kind that is missing, no string or unknown leaves the default.
  unfoldable pub read_kind : Json → Result MarkupKind
  unfolding markup_of_name kind_or
  read_kind j = elim (find "kind" j) [
    | none ↦ ok plain_text
    | some v ↦
        if is_string v
        then (do s ← get_string v; ok (kind_or plain_text (markup_of_name s)))
        else ok plain_text
  ]

  unfoldable pub markup_from_json : Json → Result MarkupContent
  unfolding read_kind
  markup_from_json j = do
    kind ← read_kind j
    v ← at J j "value"
    value ← get_string v
    ok (record { kind = kind; value = value })

  unfoldable pub hover_params_from_json : Json → Result HoverParams
  unfolding identifier_from_json position_from_json
  hover_params_from_json j = do
    d ← at J j "textDocument"
    document ← identifier_from_json d
    p ← at J j "position"
    position ← position_from_json J p
    ok (record { text_document = document; position = position })

  unfoldable pub hover_params_to_json : HoverParams → Json
  unfolding identifier_to_json position_to_json
  hover_params_to_json p = assign_all J object (
      ("textDocument", identifier_to_json p.text_document)
      ∷ ("position", position_to_json J p.position)
      ∷ [])

  unfoldable pub hover_to_json : Hover → Json
  unfolding markup_to_json put_optional range_to_json
  hover_to_json h =
      put_optional J (range_to_json J) "range" h.range
        (assign_all J object (("contents", markup_to_json h.contents) ∷ []))

  unfoldable pub hover_from_json : Json → Result Hover
  unfolding markup_from_json read_optional range_from_json
  hover_from_json j = do
    c ← at J j "contents"
    contents ← markup_from_json c
    range ← read_optional J (range_from_json J) "range" j
    ok (record { contents = contents; range = range })
