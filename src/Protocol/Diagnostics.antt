-- ===== src/Protocol/Diagnostics.antt =====
-- include/clsp/protocol/Diagnostics.hpp. The two enumerations have the underlying type `int`, and
-- `static_cast` makes a value of them from any `int`, so they are integers here.
pub mod Roundtrip
use clsp.Base.{String, Option, none, some, List, [], ◌∷◌, map, if◌then◌else◌, string_eq}
use clsp.Base.Int.{ℤ}
use clsp.Errors.{Result, ok, ◌>>=◌}
use clsp.Json.{JsonLib, at, assign_all}
use clsp.Text.{Position, Range}
use clsp.Protocol.{traverse, get_list, read_optional, put_optional, range_from_json}

abbrev pub DiagnosticSeverity : Type 0
DiagnosticSeverity = ℤ

abbrev pub DiagnosticTag : Type 0
DiagnosticTag = ℤ

pub record Location : Type 0 where
  pub uri : String
  pub range : Range

pub record DiagnosticRelatedInformation : Type 0 where
  pub location : Location
  pub message : String

pub record CodeDescription : Type 0 where
  pub href : String

-- `std::variant<int32_t, std::string>`
pub data Code : Type 0 where
  number : ℤ → Code
  name : String → Code

pub record Diagnostic (Json : Type 0) : Type 0 where
  pub range : Range
  pub severity : Option DiagnosticSeverity
  pub code : Option Code
  pub code_description : Option CodeDescription
  pub source : Option String
  pub message : String
  pub tags : Option (List DiagnosticTag)
  pub related_information : Option (List DiagnosticRelatedInformation)
  pub data_value : Option Json

pub record PublishDiagnosticsParams (Json : Type 0) : Type 0 where
  pub uri : String
  pub version : Option ℤ
  pub diagnostics : List (Diagnostic Json)

module _ (J : JsonLib) where
  open J use {
    Json, find, is_null, is_string, is_number_integer, items, get_int, get_string, null, object,
    of_int, of_uint, of_string, of_list,
  }

  unfoldable pub position_to_json : Position → Json
  position_to_json p =
      assign_all J null (("line", of_uint p.line) ∷ ("character", of_uint p.character) ∷ [])

  unfoldable pub range_to_json : Range → Json
  unfolding position_to_json
  range_to_json r =
      assign_all J null (("start", position_to_json r.start) ∷ ("end", position_to_json r.end) ∷ [])

  unfoldable pub location_to_json : Location → Json
  unfolding range_to_json
  location_to_json l =
      assign_all J object (("uri", of_string l.uri) ∷ ("range", range_to_json l.range) ∷ [])

  unfoldable pub location_from_json : Json → Result Location
  unfolding range_from_json
  location_from_json j = do
    u ← at J j "uri"
    uri ← get_string u
    r ← at J j "range"
    range ← range_from_json J r
    ok (record { uri = uri; range = range })

  unfoldable pub related_information_to_json : DiagnosticRelatedInformation → Json
  unfolding location_to_json
  related_information_to_json r =
      assign_all J object
        (("location", location_to_json r.location) ∷ ("message", of_string r.message) ∷ [])

  unfoldable pub related_information_from_json : Json → Result DiagnosticRelatedInformation
  unfolding location_from_json
  related_information_from_json j = do
    l ← at J j "location"
    location ← location_from_json l
    m ← at J j "message"
    message ← get_string m
    ok (record { location = location; message = message })

  unfoldable pub code_description_to_json : CodeDescription → Json
  code_description_to_json c = assign_all J object (("href", of_string c.href) ∷ [])

  unfoldable pub code_description_from_json : Json → Result CodeDescription
  code_description_from_json j = do
    h ← at J j "href"
    href ← get_string h
    ok (record { href = href })

  unfoldable pub code_to_json : Code → Json
  code_to_json (number z) = of_int z
  code_to_json (name s) = of_string s

  -- A code of another kind is left out.
  unfoldable pub code_of : Json → Result (Option Code)
  code_of v =
      if is_number_integer v
      then (do z ← get_int v; ok (some (number z)))
      else if is_string v
      then (do s ← get_string v; ok (some (name s)))
      else ok none

  unfoldable pub code_from_json : Json → Result (Option Code)
  unfolding code_of
  code_from_json j = elim (find "code" j) [
    | none ↦ ok none
    | some v ↦ if is_null v then ok none else code_of v
  ]

  unfoldable pub diagnostic_to_json : Diagnostic Json → Json
  unfolding put_optional range_to_json code_to_json code_description_to_json
      related_information_to_json
  diagnostic_to_json d =
      let required =
        assign_all J object
          (("range", range_to_json d.range) ∷ ("message", of_string d.message) ∷ []) in
      let severity = put_optional J of_int "severity" d.severity required in
      let code = put_optional J code_to_json "code" d.code severity in
      let description =
        put_optional J code_description_to_json "codeDescription" d.code_description code in
      let source = put_optional J of_string "source" d.source description in
      let tags = put_optional J (λ ts. of_list (map of_int ts)) "tags" d.tags source in
      let related =
        put_optional J (λ rs. of_list (map related_information_to_json rs)) "relatedInformation"
          d.related_information tags in
      put_optional J (λ v. v) "data" d.data_value related

  unfoldable pub diagnostic_from_json : Json → Result (Diagnostic Json)
  unfolding range_from_json read_optional code_from_json code_description_from_json traverse
      get_list related_information_from_json
  diagnostic_from_json j = do
    r ← at J j "range"
    range ← range_from_json J r
    m ← at J j "message"
    message ← get_string m
    severity ← read_optional J get_int "severity" j
    code ← code_from_json j
    description ← read_optional J code_description_from_json "codeDescription" j
    source ← read_optional J get_string "source" j
    tags ← read_optional J (λ v. traverse J get_int (items v)) "tags" j
    related ← read_optional J (get_list J related_information_from_json) "relatedInformation" j
    value ← read_optional J (λ v. ok v) "data" j
    ok (record {
      range = range;
      severity = severity;
      code = code;
      code_description = description;
      source = source;
      message = message;
      tags = tags;
      related_information = related;
      data_value = value;
    })

  unfoldable pub publish_diagnostics_to_json : PublishDiagnosticsParams Json → Json
  unfolding put_optional diagnostic_to_json
  publish_diagnostics_to_json p = put_optional J of_int "version" p.version (
      assign_all J object (
        ("uri", of_string p.uri)
        ∷ ("diagnostics", of_list (map diagnostic_to_json p.diagnostics))
        ∷ []))

  unfoldable pub publish_diagnostics_from_json : Json → Result (PublishDiagnosticsParams Json)
  unfolding get_list read_optional diagnostic_from_json
  publish_diagnostics_from_json j = do
    u ← at J j "uri"
    uri ← get_string u
    d ← at J j "diagnostics"
    diagnostics ← get_list J diagnostic_from_json d
    version ← read_optional J get_int "version" j
    ok (record { uri = uri; version = version; diagnostics = diagnostics })
