-- ===== src/Examples/Protocol.antt =====
-- What is written of the protocol's types is read back, at concrete values.
use clsp.Base.{◌≡◌, refl, true, none, some, [], ◌∷◌, arith, string_eq}
use clsp.Base.Int.{pos}
use clsp.Errors.{ok}
use clsp.Json.Tree.{is_null, Tree, tree_lib, tree_laws}
use clsp.Text.{Range}
use clsp.Protocol.Hover.{TextDocumentIdentifier, markdown, Hover, hover_to_json, hover_from_json}
use clsp.Protocol.Hover.Roundtrip.{hover_from_json-hover_to_json}
use clsp.Protocol.Diagnostics.{
  Diagnostic, PublishDiagnosticsParams, number, publish_diagnostics_to_json,
  publish_diagnostics_from_json,
}
use clsp.Protocol.Diagnostics.Roundtrip.{
  FitsDiagnostic, publish_diagnostics_from_json-publish_diagnostics_to_json,
}
use clsp.Protocol.Completion.{
  CompletionItem, CompletionList, CompletionParams, markup, completion_list_to_json,
  completion_list_from_json, completion_params_to_json, completion_params_from_json,
}
use clsp.Protocol.Completion.Roundtrip.{FitsItem, completion_list_from_json-completion_list_to_json}
use clsp.Protocol.Completion.Params.{completion_params_from_json-completion_params_to_json}

abbrev word : Range
word = record {
  start = record { line = 3; character = 0 };
  end = record { line = 3; character = 4 };
}

abbrev document : TextDocumentIdentifier
document = record { uri = "file:///a" }

abbrev hover : Hover
hover = record { contents = record { kind = markdown; value = "*x*" }; range = some word }

hover_from_json-hover_to_json_example :
    hover_from_json tree_lib (hover_to_json tree_lib hover) ≡ ok hover
hover_from_json-hover_to_json_example =
    hover_from_json-hover_to_json tree_lib tree_laws hover
      ((omega arith, omega arith), (omega arith, omega arith))

abbrev unused : Diagnostic Tree
unused = record {
  range = word;
  severity = some (pos 2);
  code = some (number (pos 7));
  code_description = none;
  source = some "cc";
  message = "unused";
  tags = some (pos 1 ∷ []);
  related_information = none;
  data_value = some (Tree.string "fix");
}

unused-Fits : FitsDiagnostic tree_lib tree_laws unused
unfolding is_null
unused-Fits = record {
  range = ((omega arith, omega arith), (omega arith, omega arith));
  severity = omega arith;
  code = omega arith;
  tags = (omega arith, tt);
  related = tt;
  data_value = refl;
}

abbrev published : PublishDiagnosticsParams Tree
published = record { uri = "file:///a"; version = some (pos 4); diagnostics = unused ∷ [] }

publish_diagnostics_from_json-publish_diagnostics_to_json_example :
    publish_diagnostics_from_json tree_lib (publish_diagnostics_to_json tree_lib published)
    ≡ ok published
publish_diagnostics_from_json-publish_diagnostics_to_json_example =
    publish_diagnostics_from_json-publish_diagnostics_to_json tree_lib tree_laws published
      (omega arith) (unused-Fits, tt)

abbrev keyword : CompletionItem Tree
keyword = record {
  label = "while";
  kind = some (pos 14);
  tags = some (pos 1 ∷ []);
  detail = none;
  documentation = some (markup (record { kind = markdown; value = "*loop*" }));
  preselect = some true;
  sort_text = some "a";
  filter_text = none;
  insert_text = some "while";
  insert_text_format = some (pos 1);
  text_edit = some (record { range = word; new_text = "while" });
  additional_text_edits = some [];
  commit_characters = some ("(" ∷ []);
  data_value = some Tree.null;
}

keyword-Fits : FitsItem tree_lib tree_laws keyword
keyword-Fits = record {
  kind = omega arith;
  tags = (omega arith, tt);
  insert_text_format = omega arith;
  text_edit = ((omega arith, omega arith), (omega arith, omega arith));
  additional_text_edits = tt;
}

abbrev proposals : CompletionList Tree
proposals = record { is_incomplete = true; items = keyword ∷ [] }

completion_list_from_json-completion_list_to_json_example :
    completion_list_from_json tree_lib (completion_list_to_json tree_lib proposals) ≡ ok proposals
completion_list_from_json-completion_list_to_json_example =
    completion_list_from_json-completion_list_to_json tree_lib tree_laws proposals
      (keyword-Fits, tt)

abbrev typed : CompletionParams
typed = record {
  text_document = document;
  position = word.end;
  context = some (record { trigger_kind = pos 2; trigger_character = some "." });
}

completion_params_from_json-completion_params_to_json_example :
    completion_params_from_json tree_lib (completion_params_to_json tree_lib typed) ≡ ok typed
completion_params_from_json-completion_params_to_json_example =
    completion_params_from_json-completion_params_to_json tree_lib tree_laws typed
      (omega arith, omega arith) (omega arith)
