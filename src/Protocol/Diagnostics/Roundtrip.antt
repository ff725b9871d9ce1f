-- ===== src/Protocol/Diagnostics/Roundtrip.antt =====
-- What is written of diagnostics is read back.
use clsp.Base.{
  String, ◌≡◌, refl, sym, ap, ◌∙◌, subst, false, Option, none, some, List, [], ◌∷◌, map, arith, All,
  string_eq, AllOption, AllOption-map, AllOption-all, All-map,
}
use clsp.Base.Int.{ℤ}
use clsp.Errors.{Result, ok}
use clsp.Json.{JsonLib, JsonLaws, IsInt}
use clsp.Json.Fields.{puts, holds, or_else, find-puts_object, at-puts_object, is_null-puts_object}
use clsp.Protocol.{read_optional, traverse, get_list}
use clsp.Protocol.Places.{FitsRange, Reads-range}
use clsp.Protocol.Reading.{
  written, put_optional_lem, Reads, read_optional-written, traverse-map, get_list-map, Reads-int,
  read_string, read_int,
}
use clsp.Protocol.Diagnostics.{
  Code, number, name, CodeDescription, Location, DiagnosticRelatedInformation, Diagnostic,
  PublishDiagnosticsParams, range_to_json, location_to_json, location_from_json,
  related_information_to_json, related_information_from_json, code_description_to_json,
  code_description_from_json, code_to_json, code_of, code_from_json, diagnostic_to_json,
  diagnostic_from_json, publish_diagnostics_to_json, publish_diagnostics_from_json,
}

abbrev FitsCode : Code → Type 0
FitsCode (number z) = IsInt z
FitsCode (name s) = Unit

module _ (J : JsonLib) (H : JsonLaws J) where
  open J use {Json, find}

  Reads-location :
      (l : Location) → FitsRange l.range → Reads J (location_from_json J) (location_to_json J) l
  unfolding location_from_json location_to_json
  Reads-location l h =
      let d : List (String × Option Json) =
        ("uri", some (J.of_string l.uri)) ∷ ("range", some (range_to_json J l.range)) ∷ [] in
      (
        rw
            (
              at-puts_object J H d "uri" _ refl,
              H.get_string-of_string l.uri,
              at-puts_object J H d "range" _ refl,
              (Reads-range J H l.range h).0,
            )
            refl,
        is_null-puts_object J H d,
      )

  Reads-related_information :
      (r : DiagnosticRelatedInformation)
      → FitsRange r.location.range
      → Reads J (related_information_from_json J) (related_information_to_json J) r
  unfolding related_information_from_json related_information_to_json
  Reads-related_information r h =
      let d : List (String × Option Json) =
        ("location", some (location_to_json J r.location))
        ∷ ("message", some (J.of_string r.message))
        ∷ [] in
      (
        rw
            (
              at-puts_object J H d "location" _ refl,
              (Reads-location r.location h).0,
              at-puts_object J H d "message" _ refl,
              H.get_string-of_string r.message,
            )
            refl,
        is_null-puts_object J H d,
      )

  Reads-code_description :
      (c : CodeDescription) → Reads J (code_description_from_json J) (code_description_to_json J) c
  unfolding code_description_from_json code_description_to_json
  Reads-code_description c =
      let d : List (String × Option Json) = ("href", some (J.of_string c.href)) ∷ [] in
      (
        rw (at-puts_object J H d "href" _ refl, H.get_string-of_string c.href) refl,
        is_null-puts_object J H d,
      )

  read_code :
      (o : Option Code) (j : Json)
      → find "code" j ≡ or_else (written J (code_to_json J) o) none
      → AllOption FitsCode o
      → code_from_json J j ≡ ok o
  unfolding code_from_json code_to_json code_of
  read_code none j e h = rw (e, code_from_json) refl
  read_code (some (number z)) j e h =
      ground (arith, e, H.is_null-of_int z, H.is_number_integer-of_int z, H.get_int-of_int z h)
  read_code (some (name s)) j e h = ground (
    arith,
    e,
    H.is_null-of_string s,
    H.is_number_integer-of_string s,
    H.is_string-of_string s,
    H.get_string-of_string s,
  )

  read_items :
      (d : List (String × Option Json)) (o : Option (List ℤ))
      → holds "tags" d none ≡ or_else (written J (λ ts. J.of_list (map J.of_int ts)) o) none
      → AllOption (All IsInt) o
      → read_optional J (λ v. traverse J J.get_int (J.items v)) "tags" (puts J d J.object) ≡ ok o
  read_items d o e h =
      read_optional-written J (λ v. traverse J J.get_int (J.items v))
        (λ ts. J.of_list (map J.of_int ts)) "tags" _ o (find-puts_object J H "tags" d ∙ e)
        (AllOption-map
          (λ ts k. (
            ap (traverse J J.get_int) (H.items-of_list (map J.of_int ts))
                ∙ traverse-map J J.get_int J.of_int ts (All-map (Reads-int J H) ts k),
            H.is_null-of_list (map J.of_int ts),
          ))
          o h)

  -- The integers of a diagnostic fit their types, and its data is not null.
  pub record FitsDiagnostic (d : Diagnostic Json) : Type 0 where
    pub range : FitsRange d.range
    pub severity : AllOption IsInt d.severity
    pub code : AllOption FitsCode d.code
    pub tags : AllOption (All IsInt) d.tags
    pub related : AllOption (All (λ r. FitsRange r.location.range)) d.related_information
    pub data_value : AllOption (λ v. J.is_null v ≡ false) d.data_value

  diagnostic_fields : Diagnostic Json → List (String × Option Json)
  diagnostic_fields d =
      ("range", some (range_to_json J d.range))
      ∷ ("message", some (J.of_string d.message))
      ∷ ("severity", written J J.of_int d.severity)
      ∷ ("code", written J (code_to_json J) d.code)
      ∷ ("codeDescription", written J (code_description_to_json J) d.code_description)
      ∷ ("source", written J J.of_string d.source)
      ∷ ("tags", written J (λ ts. J.of_list (map J.of_int ts)) d.tags)
      ∷ (
        "relatedInformation",
        written J (λ rs. J.of_list (map (related_information_to_json J) rs)) d.related_information,
      )
      ∷ ("data", written J (λ v. v) d.data_value)
      ∷ []

  diagnostic_to_json-fields :
      (d : Diagnostic Json) → diagnostic_to_json J d ≡ puts J (diagnostic_fields d) J.object
  unfolding diagnostic_to_json diagnostic_fields
  diagnostic_to_json-fields d = simp (put_optional_lem, diagnostic_to_json, diagnostic_fields) refl

  read_field :
      {A : Type 0}
      → (d : Diagnostic Json) (f : Json → Result A) (g : A → Json) (k : String) (o : Option A)
      → holds k (diagnostic_fields d) none ≡ or_else (written J g o) none
      → AllOption (Reads J f g) o
      → read_optional J f k (puts J (diagnostic_fields d) J.object) ≡ ok o
  read_field d f g k o e h =
      read_optional-written J f g k _ o (find-puts_object J H k (diagnostic_fields d) ∙ e) h

  diagnostic_from_json-diagnostic_to_json :
      (d : Diagnostic Json)
      → FitsDiagnostic d
      → diagnostic_from_json J (diagnostic_to_json J d) ≡ ok d
  unfolding diagnostic_from_json diagnostic_fields
  diagnostic_from_json-diagnostic_to_json d h =
      let fields = diagnostic_fields d in
      rw
        (
          diagnostic_to_json-fields,
          at-puts_object J H fields "range" (range_to_json J d.range) refl,
          (Reads-range J H d.range h.range).0,
          at-puts_object J H fields "message" (J.of_string d.message) refl,
          H.get_string-of_string d.message,
          read_int J H fields "severity" d.severity refl h.severity,
          read_code d.code _ (find-puts_object J H "code" fields) h.code,
          read_field d (code_description_from_json J) (code_description_to_json J) "codeDescription"
              d.code_description refl (AllOption-all Reads-code_description d.code_description),
          read_string J H fields "source" d.source refl,
          read_items fields d.tags refl h.tags,
          read_field d (get_list J (related_information_from_json J))
              (λ rs. J.of_list (map (related_information_to_json J) rs)) "relatedInformation"
              d.related_information refl
              (AllOption-map
                (λ rs k. get_list-map J H _ _ rs (All-map Reads-related_information rs k))
                d.related_information h.related),
          read_field d (λ v. ok v) (λ v. v) "data" d.data_value refl
              (AllOption-map (λ v k. (refl, k)) d.data_value h.data_value),
        )
        refl

  Reads-diagnostic :
      (d : Diagnostic Json)
      → FitsDiagnostic d
      → Reads J (diagnostic_from_json J) (diagnostic_to_json J) d
  Reads-diagnostic d h = (
    diagnostic_from_json-diagnostic_to_json d h,
    subst (λ j. J.is_null j ≡ false) (sym (diagnostic_to_json-fields d))
        (is_null-puts_object J H (diagnostic_fields d)),
  )

  -- The params of `textDocument/publishDiagnostics` are read back from the JSON that is made of
  -- them, with all fields of each diagnostic, provided that their integers fit their types and no
  -- diagnostic has null as its data.
  pub publish_diagnostics_from_json-publish_diagnostics_to_json :
      (p : PublishDiagnosticsParams Json)
      → AllOption IsInt p.version
      → All FitsDiagnostic p.diagnostics
      → publish_diagnostics_from_json J (publish_diagnostics_to_json J p) ≡ ok p
  unfolding publish_diagnostics_from_json publish_diagnostics_to_json
  publish_diagnostics_from_json-publish_diagnostics_to_json p v h =
      let d : List (String × Option Json) =
        ("uri", some (J.of_string p.uri))
        ∷ ("diagnostics", some (J.of_list (map (diagnostic_to_json J) p.diagnostics)))
        ∷ ("version", written J J.of_int p.version)
        ∷ [] in
      rw
        (
          put_optional_lem J J.of_int "version" p.version,
          at-puts_object J H d "uri" _ refl,
          H.get_string-of_string p.uri,
          at-puts_object J H d "diagnostics" _ refl,
          (get_list-map J H (diagnostic_from_json J) (diagnostic_to_json J) p.diagnostics
              (All-map Reads-diagnostic p.diagnostics h)).0,
          read_int J H d "version" p.version refl v,
        )
        refl
