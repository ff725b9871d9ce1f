-- ===== src/Protocol/Completion.antt =====
-- include/clsp/protocol/Completion.hpp. The enumerations have the underlying type `int`, and
-- `static_cast` makes a value of them from any `int`, so they are integers here.
pub mod Roundtrip
pub mod Params
use clsp.Base.{String, Bool, Option, none, some, List, [], ◌∷◌, map, if◌then◌else◌, string_eq}
use clsp.Base.Int.{ℤ}
use clsp.Errors.{Result, ok, ◌>>=◌}
use clsp.Json.{JsonLib, at, assign_all}
use clsp.Text.{Position, Range}
use clsp.Protocol.{
  get_list, read_optional, read_present, put_optional, position_from_json, range_from_json,
}
use clsp.Protocol.Diagnostics.{position_to_json, range_to_json}
use clsp.Protocol.Hover.{
  TextDocumentIdentifier, identifier_to_json, identifier_from_json, MarkupContent, markup_to_json,
  markup_from_json,
}

abbrev pub CompletionTriggerKind : Type 0
CompletionTriggerKind = ℤ

abbrev pub CompletionItemKind : Type 0
CompletionItemKind = ℤ

abbrev pub InsertTextFormat : Type 0
InsertTextFormat = ℤ

abbrev pub CompletionItemTag : Type 0
CompletionItemTag = ℤ

pub record CompletionContext : Type 0 where
  pub trigger_kind : CompletionTriggerKind
  pub trigger_character : Option String

pub record CompletionParams : Type 0 where
  pub text_document : TextDocumentIdentifier
  pub position : Position
  pub context : Option CompletionContext

pub record TextEdit : Type 0 where
  pub range : Range
  pub new_text : String

-- `std::variant<std::string, MarkupContent>`
pub data CompletionDocumentation : Type 0 where
  plain : String → CompletionDocumentation
  markup : MarkupContent → CompletionDocumentation

pub record CompletionItem (Json : Type 0) : Type 0 where
  pub label : String
  pub kind : Option CompletionItemKind
  pub tags : Option (List CompletionItemTag)
  pub detail : Option String
  pub documentation : Option CompletionDocumentation
  pub preselect : Option Bool
  pub sort_text : Option String
  pub filter_text : Option String
  pub insert_text : Option String
  pub insert_text_format : Option InsertTextFormat
  pub text_edit : Option TextEdit
  pub additional_text_edits : Option (List TextEdit)
  pub commit_characters : Option (List String)
  pub data_value : Option Json

pub record CompletionList (Json : Type 0) : Type 0 where
  pub is_incomplete : Bool
  pub items : List (CompletionItem Json)

module _ (J : JsonLib) where
  open J use {
    Json, find, is_string, is_array, get_int, get_bool, get_string, object, of_int, of_bool,
    of_string, of_list,
  }

  unfoldable pub context_to_json : CompletionContext → Json
  unfolding put_optional
  context_to_json c =
      put_optional J of_string "triggerCharacter" c.trigger_character
        (assign_all J object (("triggerKind", of_int c.trigger_kind) ∷ []))

  unfoldable pub context_from_json : Json → Result CompletionContext
  unfolding read_optional
  context_from_json j = do
    k ← at J j "triggerKind"
    kind ← get_int k
    character ← read_optional J get_string "triggerCharacter" j
    ok (record { trigger_kind = kind; trigger_character = character })

  unfoldable pub completion_params_to_json : CompletionParams → Json
  unfolding put_optional identifier_to_json position_to_json context_to_json
  completion_params_to_json p = put_optional J context_to_json "context" p.context (
      assign_all J object (
        ("textDocument", identifier_to_json J p.text_document)
        ∷ ("position", position_to_json J p.position)
        ∷ []))

  unfoldable pub completion_params_from_json : Json → Result CompletionParams
  unfolding identifier_from_json position_from_json read_optional context_from_json
  completion_params_from_json j = do
    d ← at J j "textDocument"
    document ← identifier_from_json J d
    p ← at J j "position"
    position ← position_from_json J p
    context ← read_optional J context_from_json "context" j
    ok (record { text_document = document; position = position; context = context })

  unfoldable pub text_edit_to_json : TextEdit → Json
  unfolding range_to_json
  text_edit_to_json e =
      assign_all J object
        (("range", range_to_json J e.range) ∷ ("newText", of_string e.new_text) ∷ [])

  unfoldable pub text_edit_from_json : Json → Result TextEdit
  unfolding range_from_json
  text_edit_from_json j = do
    r ← at J j "range"
    range ← range_from_json J r
    t ← at J j "newText"
    text ← get_string t
    ok (record { range = range; new_text = text })

  unfoldable pub documentation_to_json : CompletionDocumentation → Json
  unfolding markup_to_json
  documentation_to_json (plain s) = of_string s
  documentation_to_json (markup m) = markup_to_json J m

  unfoldable pub documentation_from_json : Json → Result CompletionDocumentation
  unfolding markup_from_json
  documentation_from_json j =
      if is_string j
      then (do s ← get_string j; ok (plain s))
      else (do m ← markup_from_json J j; ok (markup m))

  -- `if (j.contains(k) && j[k].is_array()) x = j[k].get<std::vector<T>>();`
  unfoldable pub read_array :
      {A : Type 0} → (Json → Result A) → String → Json → Result (Option (List A))
  unfolding get_list
  read_array f k j = elim (find k j) [
    | none ↦ ok none
    | some v ↦ if is_array v then (do as' ← get_list J f v; ok (some as')) else ok none
  ]

  unfoldable pub item_to_json : CompletionItem Json → Json
  unfolding put_optional documentation_to_json text_edit_to_json
  item_to_json i =
      let label = assign_all J object (("label", of_string i.label) ∷ []) in
      let kind = put_optional J of_int "kind" i.kind label in
      let tags = put_optional J (λ ts. of_list (map of_int ts)) "tags" i.tags kind in
      let detail = put_optional J of_string "detail" i.detail tags in
      let documentation =
        put_optional J documentation_to_json "documentation" i.documentation detail in
      let preselect = put_optional J of_bool "preselect" i.preselect documentation in
      let sort_text = put_optional J of_string "sortText" i.sort_text preselect in
      let filter_text = put_optional J of_string "filterText" i.filter_text sort_text in
      let insert_text = put_optional J of_string "insertText" i.insert_text filter_text in
      let format = put_optional J of_int "insertTextFormat" i.insert_text_format insert_text in
      let text_edit = put_optional J text_edit_to_json "textEdit" i.text_edit format in
      let edits =
        put_optional J (λ es. of_list (map text_edit_to_json es)) "additionalTextEdits"
          i.additional_text_edits text_edit in
      let characters =
        put_optional J (λ cs. of_list (map of_string cs)) "commitCharacters" i.commit_characters
          edits in
      put_optional J (λ v. v) "data" i.data_value characters

  unfoldable pub item_from_json : Json → Result (CompletionItem Json)
  unfolding read_optional read_present read_array documentation_from_json text_edit_from_json
  item_from_json j = do
    l ← at J j "label"
    label ← get_string l
    kind ← read_optional J get_int "kind" j
    tags ← read_array get_int "tags" j
    detail ← read_optional J get_string "detail" j
    documentation ← read_optional J documentation_from_json "documentation" j
    preselect ← read_optional J get_bool "preselect" j
    sort_text ← read_optional J get_string "sortText" j
    filter_text ← read_optional J get_string "filterText" j
    insert_text ← read_optional J get_string "insertText" j
    format ← read_optional J get_int "insertTextFormat" j
    text_edit ← read_optional J text_edit_from_json "textEdit" j
    edits ← read_array text_edit_from_json "additionalTextEdits" j
    characters ← read_array get_string "commitCharacters" j
    value ← read_present J (λ v. ok v) "data" j
    ok (record {
      label = label;
      kind = kind;
      tags = tags;
      detail = detail;
      documentation = documentation;
      preselect = preselect;
      sort_text = sort_text;
      filter_text = filter_text;
      insert_text = insert_text;
      insert_text_format = format;
      text_edit = text_edit;
      additional_text_edits = edits;
      commit_characters = characters;
      data_value = value;
    })

  unfoldable pub completion_list_to_json : CompletionList Json → Json
  unfolding item_to_json
  completion_list_to_json l = assign_all J object (
      ("isIncomplete", of_bool l.is_incomplete)
      ∷ ("items", of_list (map item_to_json l.items))
      ∷ [])

  unfoldable pub completion_list_from_json : Json → Result (CompletionList Json)
  unfolding get_list item_from_json
  completion_list_from_json j = do
    b ← at J j "isIncomplete"
    incomplete ← get_bool b
    v ← at J j "items"
    items ← get_list J item_from_json v
    ok (record { is_incomplete = incomplete; items = items })
