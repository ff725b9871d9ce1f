-- ===== src/Protocol/Completion/Roundtrip.antt =====
-- What is written of a completion is read back.
use clsp.Base.{
  String, ◌≡◌, refl, Option, none, some, List, [], ◌∷◌, map, string_eq, All, false, arith, ◌∙◌, sym,
  subst, All-all, AllOption, AllOption-map, AllOption-all, All-map,
}
use clsp.Json.{JsonLib, JsonLaws, IsInt}
use clsp.Errors.{Result, ok}
use clsp.Protocol.Places.{FitsRange, Reads-range}
use clsp.Protocol.Roundtrip.{markup_from_json-markup_to_json}
use clsp.Protocol.Diagnostics.{range_to_json}
use clsp.Json.Fields.{holds, at-puts_object, is_null-puts_object, puts, or_else, find-puts_object}
use clsp.Protocol.{read_optional, read_present}
use clsp.Protocol.Completion.{
  item_from_json, CompletionList, completion_list_from_json, completion_list_to_json, TextEdit,
  CompletionDocumentation, plain, markup, text_edit_from_json, documentation_from_json, read_array,
  CompletionItem, text_edit_to_json, documentation_to_json, item_to_json, Result,
}
use clsp.Protocol.Hover.Roundtrip.{is_object-markup_to_json}
use clsp.Protocol.Reading.{
  read_string, read_int, Reads-bool, Reads-string, Reads-int, read_optional-written, traverse-map,
  get_list-map, Reads, written, put_optional_lem,
}

module _ (J : JsonLib) (H : JsonLaws J) where
  open J use {Json, find}

  item_fields : CompletionItem Json → List (String × Option Json)
  item_fields i =
      ("label", some (J.of_string i.label))
      ∷ ("kind", written J J.of_int i.kind)
      ∷ ("tags", written J (λ ts. J.of_list (map J.of_int ts)) i.tags)
      ∷ ("detail", written J J.of_string i.detail)
      ∷ ("documentation", written J (documentation_to_json J) i.documentation)
      ∷ ("preselect", written J J.of_bool i.preselect)
      ∷ ("sortText", written J J.of_string i.sort_text)
      ∷ ("filterText", written J J.of_string i.filter_text)
      ∷ ("insertText", written J J.of_string i.insert_text)
      ∷ ("insertTextFormat", written J J.of_int i.insert_text_format)
      ∷ ("textEdit", written J (text_edit_to_json J) i.text_edit)
      ∷ (
        "additionalTextEdits",
        written J (λ es. J.of_list (map (text_edit_to_json J) es)) i.additional_text_edits,
      )
      ∷ ("commitCharacters", written J (λ cs. J.of_list (map J.of_string cs)) i.commit_characters)
      ∷ ("data", written J (λ v. v) i.data_value)
      ∷ []

  item_to_json-fields :
      (i : CompletionItem Json) → item_to_json J i ≡ puts J (item_fields i) J.object
  unfolding item_to_json item_fields
  item_to_json-fields i = simp (put_optional_lem, item_to_json, item_fields) refl

  Reads-text_edit :
      (e : TextEdit) → FitsRange e.range → Reads J (text_edit_from_json J) (text_edit_to_json J) e
  unfolding text_edit_from_json text_edit_to_json
  Reads-text_edit e h =
      let d : List (String × Option Json) =
        ("range", some (range_to_json J e.range))
        ∷ ("newText", some (J.of_string e.new_text))
        ∷ [] in
      (
        ground (
          arith,
          find-puts_object J H "range" d,
          find-puts_object J H "newText" d,
          (Reads-range J H e.range h).0,
          H.get_string-of_string e.new_text,
        ),
        is_null-puts_object J H d,
      )

  Reads-documentation :
      (d : CompletionDocumentation)
      → Reads J (documentation_from_json J) (documentation_to_json J) d
  unfolding documentation_from_json documentation_to_json
  Reads-documentation (plain s) =
      (rw (H.is_string-of_string s, H.get_string-of_string s) refl, H.is_null-of_string s)
  Reads-documentation (markup m) =
      let object_of = is_object-markup_to_json J H m in
      (
        rw (H.is_string-object_of _ object_of, markup_from_json-markup_to_json J H m) refl,
        H.is_null-object_of _ object_of,
      )

  read_array-written :
      {A : Type 0}
      → (f : Json → Result A) (g : A → Json) (k : String) (j : Json) (o : Option (List A))
      → find k j ≡ or_else (written J (λ xs. J.of_list (map g xs)) o) none
      → AllOption (All (Reads J f g)) o
      → read_array J f k j ≡ ok o
  unfolding read_array
  read_array-written f g k j none e h = rw (e, read_array) refl
  read_array-written f g k j (some xs) e h =
      ground (
        arith,
        e,
        H.is_array-of_list (map g xs),
        H.items-of_list (map g xs),
        traverse-map J f g xs h,
      )

  -- The integers of an item fit `int`, and those of its ranges `uint32_t`.
  pub record FitsItem (i : CompletionItem Json) : Type 0 where
    pub kind : AllOption IsInt i.kind
    pub tags : AllOption (All IsInt) i.tags
    pub insert_text_format : AllOption IsInt i.insert_text_format
    pub text_edit : AllOption (λ e. FitsRange e.range) i.text_edit
    pub additional_text_edits : AllOption (All (λ e. FitsRange e.range)) i.additional_text_edits

  read_list :
      {A : Type 0}
      → (i : CompletionItem Json) (f : Json → Result A) (g : A → Json) (k : String)
        (a : Option (List A))
      → holds k (item_fields i) none ≡ or_else (written J (λ xs. J.of_list (map g xs)) a) none
      → AllOption (All (Reads J f g)) a
      → read_array J f k (puts J (item_fields i) J.object) ≡ ok a
  read_list i f g k a e h =
      read_array-written f g k (puts J (item_fields i) J.object) a
        (find-puts_object J H k (item_fields i) ∙ e) h

  read_documentation :
      (i : CompletionItem Json)
      → read_optional J
          (documentation_from_json J)
          "documentation"
          (puts J (item_fields i) J.object)
        ≡ ok i.documentation
  unfolding item_fields
  read_documentation i =
      read_optional-written J (documentation_from_json J) (documentation_to_json J) "documentation"
        _ i.documentation (find-puts_object J H "documentation" (item_fields i))
        (AllOption-all Reads-documentation i.documentation)

  read_text_edit :
      (i : CompletionItem Json)
      → AllOption (λ e. FitsRange e.range) i.text_edit
      → read_optional J (text_edit_from_json J) "textEdit" (puts J (item_fields i) J.object)
        ≡ ok i.text_edit
  unfolding item_fields
  read_text_edit i h =
      read_optional-written J (text_edit_from_json J) (text_edit_to_json J) "textEdit" _ i.text_edit
        (find-puts_object J H "textEdit" (item_fields i))
        (AllOption-map Reads-text_edit i.text_edit h)

  read_preselect :
      (i : CompletionItem Json)
      → read_optional J J.get_bool "preselect" (puts J (item_fields i) J.object) ≡ ok i.preselect
  unfolding item_fields
  read_preselect i =
      read_optional-written J J.get_bool J.of_bool "preselect" _ i.preselect
        (find-puts_object J H "preselect" (item_fields i))
        (AllOption-all (Reads-bool J H) i.preselect)

  -- Any value, null too, is kept.
  read_data :
      (o : Option Json) (j : Json)
      → find "data" j ≡ or_else (written J (λ v. v) o) none
      → read_present J (λ v. ok v) "data" j ≡ ok o
  unfolding read_present
  read_data none j e = rw (e, read_present) refl
  read_data (some v) j e = rw (e, read_present) refl

  -- A completion item is read back from the JSON that is made of it, whichever of its fields are
  -- there, provided that its integers fit their types.
  pub item_from_json-item_to_json :
      (i : CompletionItem Json) → FitsItem i → item_from_json J (item_to_json J i) ≡ ok i
  unfolding item_from_json item_fields
  item_from_json-item_to_json i h =
      let strings = AllOption-all (All-all (Reads-string J H)) i.commit_characters in
      rw
        (
          item_to_json-fields,
          at-puts_object J H (item_fields i) "label" (J.of_string i.label) refl,
          H.get_string-of_string i.label,
          read_int J H (item_fields i) "kind" i.kind refl h.kind,
          read_list i J.get_int J.of_int "tags" i.tags refl
              (AllOption-map (All-map (Reads-int J H)) i.tags h.tags),
          read_string J H (item_fields i) "detail" i.detail refl,
          read_documentation i,
          read_preselect i,
          read_string J H (item_fields i) "sortText" i.sort_text refl,
          read_string J H (item_fields i) "filterText" i.filter_text refl,
          read_string J H (item_fields i) "insertText" i.insert_text refl,
          read_int J H (item_fields i) "insertTextFormat" i.insert_text_format refl
              h.insert_text_format,
          read_text_edit i h.text_edit,
          read_list i (text_edit_from_json J) (text_edit_to_json J) "additionalTextEdits"
              i.additional_text_edits refl
              (AllOption-map (All-map Reads-text_edit) i.additional_text_edits
                h.additional_text_edits),
          read_list i J.get_string J.of_string "commitCharacters" i.commit_characters refl strings,
          read_data i.data_value _ (find-puts_object J H "data" (item_fields i)),
        )
        refl

  Reads-item :
      (i : CompletionItem Json) → FitsItem i → Reads J (item_from_json J) (item_to_json J) i
  Reads-item i h = (
    item_from_json-item_to_json i h,
    subst (λ j. J.is_null j ≡ false) (sym (item_to_json-fields i))
        (is_null-puts_object J H (item_fields i)),
  )

  -- A completion list is read back from the JSON that is made of it, provided that the integers of
  -- its items fit their types.
  pub completion_list_from_json-completion_list_to_json :
      (l : CompletionList Json)
      → All FitsItem l.items
      → completion_list_from_json J (completion_list_to_json J l) ≡ ok l
  unfolding completion_list_from_json completion_list_to_json
  completion_list_from_json-completion_list_to_json l h =
      let d : List (String × Option Json) =
        ("isIncomplete", some (J.of_bool l.is_incomplete))
        ∷ ("items", some (J.of_list (map (item_to_json J) l.items)))
        ∷ [] in
      rw
        (
          at-puts_object J H d "isIncomplete" _ refl,
          H.get_bool-of_bool l.is_incomplete,
          at-puts_object J H d "items" _ refl,
          (get_list-map J H (item_from_json J) (item_to_json J) l.items
              (All-map Reads-item l.items h)).0,
        )
        refl
