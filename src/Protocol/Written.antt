-- ===== src/Protocol/Written.antt =====
-- What the server answers to `initialize` can be written, whatever the hook returned.
use clsp.Base.{String, Option, none, some, List, [], ◌∷◌, map, All, string_eq}
use clsp.Json.{JsonLib, JsonLaws, IsRecord}
use clsp.Json.Decode.{object-IsRecord, null-IsRecord, assign-IsRecord}
use clsp.Protocol.{put_optional}
use clsp.Protocol.Capabilities.{
  of_strings, completion_options_to_json, signature_help_options_to_json,
  code_action_options_to_json, rename_options_to_json, diagnostic_options_to_json, legend_to_json,
  semantic_tokens_options_to_json, simple_capabilities_to_json, server_capabilities_to_json,
  sync_kind_value, CompletionOptions, SignatureHelpOptions, CodeActionOptions, RenameOptions,
  DiagnosticOptions, SemanticTokensOptions, SemanticTokensLegend, ServerCapabilities,
}
use clsp.Protocol.Lifecycle.{Info, InitializeResult, server_info_to_json, initialize_result_to_json}

module _ (J : JsonLib) (H : JsonLaws J) where
  open J use {Json, assign, object, null, of_string, of_bool, of_int}

  -- An object under construction that can be written.
  record IsOpen (j : Json) : Type 0 where
    fields : IsRecord J j
    text : H.IsText j

  object-IsOpen : IsOpen object
  object-IsOpen = record { fields = object-IsRecord J H; text = H.object-IsText }

  null-IsOpen : IsOpen null
  null-IsOpen = record { fields = null-IsRecord J H; text = H.null-IsText }

  assign-IsOpen : {j v : Json} (k : String) → H.IsText v → IsOpen j → IsOpen (assign j k v)
  assign-IsOpen {j} {v} k t o = record {
    fields = assign-IsRecord J H j k v o.fields;
    text = H.assign-IsText j k v o.fields o.text t;
  }

  put-IsOpen :
      {A : Type 0} {j : Json} (f : A → Json) (k : String) (a : Option A)
      → ((x : A) → H.IsText (f x))
      → IsOpen j
      → IsOpen (put_optional J f k a j)
  unfolding put_optional
  put-IsOpen f k none t o = o
  put-IsOpen f k (some a) t o = assign-IsOpen k (t a) o

  map-IsText : (ss : List String) → All H.IsText (map of_string ss)
  map-IsText [] = tt
  map-IsText (s ∷ ss) = (H.of_string-IsText s, map-IsText ss)

  strings-IsText : (ss : List String) → H.IsText (of_strings J ss)
  unfolding of_strings
  strings-IsText ss = H.of_list-IsText (map of_string ss) (map-IsText ss)

  completion-IsText : (o : CompletionOptions) → H.IsText (completion_options_to_json J o)
  unfolding completion_options_to_json
  completion-IsText o =
      (put-IsOpen of_bool "resolveProvider" o.resolve_provider H.of_bool-IsText (
        put-IsOpen (of_strings J) "allCommitCharacters" o.all_commit_characters strings-IsText (
          put-IsOpen (of_strings J) "triggerCharacters" o.trigger_characters strings-IsText
            object-IsOpen))).text

  signature_help-IsText : (o : SignatureHelpOptions) → H.IsText (signature_help_options_to_json J o)
  unfolding signature_help_options_to_json
  signature_help-IsText o =
      (put-IsOpen (of_strings J) "retriggerCharacters" o.retrigger_characters strings-IsText (
        put-IsOpen (of_strings J) "triggerCharacters" o.trigger_characters strings-IsText
          object-IsOpen)).text

  code_action-IsText : (o : CodeActionOptions) → H.IsText (code_action_options_to_json J o)
  unfolding code_action_options_to_json
  code_action-IsText o =
      (put-IsOpen of_bool "resolveProvider" o.resolve_provider H.of_bool-IsText (
        put-IsOpen (of_strings J) "codeActionKinds" o.code_action_kinds strings-IsText
          object-IsOpen)).text

  rename-IsText : (o : RenameOptions) → H.IsText (rename_options_to_json J o)
  unfolding rename_options_to_json
  rename-IsText o =
      (put-IsOpen of_bool "prepareProvider" o.prepare_provider H.of_bool-IsText object-IsOpen).text

  diagnostic-IsText : (o : DiagnosticOptions) → H.IsText (diagnostic_options_to_json J o)
  unfolding diagnostic_options_to_json
  diagnostic-IsText o =
      (assign-IsOpen "workspaceDiagnostics" (H.of_bool-IsText o.workspace_diagnostics) (
        assign-IsOpen "interFileDependencies" (H.of_bool-IsText o.inter_file_dependencies)
          (put-IsOpen of_string "identifier" o.identifier H.of_string-IsText object-IsOpen))).text

  legend-IsText : (l : SemanticTokensLegend) → H.IsText (legend_to_json J l)
  unfolding legend_to_json
  legend-IsText l =
      (assign-IsOpen "tokenModifiers" (strings-IsText l.token_modifiers)
        (assign-IsOpen "tokenTypes" (strings-IsText l.token_types) null-IsOpen)).text

  tokens-IsText : (o : SemanticTokensOptions) → H.IsText (semantic_tokens_options_to_json J o)
  unfolding semantic_tokens_options_to_json
  tokens-IsText o =
      (put-IsOpen of_bool "full" o.full H.of_bool-IsText (
        put-IsOpen of_bool "range" o.range H.of_bool-IsText
          (assign-IsOpen "legend" (legend-IsText o.legend) object-IsOpen))).text

  simple-IsOpen : (c : ServerCapabilities) → IsOpen (simple_capabilities_to_json J c)
  unfolding simple_capabilities_to_json
  simple-IsOpen c =
      put-IsOpen of_bool "documentFormattingProvider" c.document_formatting_provider
        H.of_bool-IsText
        (put-IsOpen of_bool "documentSymbolProvider" c.document_symbol_provider H.of_bool-IsText (
          put-IsOpen of_bool "referencesProvider" c.references_provider H.of_bool-IsText (
            put-IsOpen of_bool "definitionProvider" c.definition_provider H.of_bool-IsText (
              put-IsOpen (completion_options_to_json J) "completionProvider" c.completion_provider
                completion-IsText
                (put-IsOpen of_bool "hoverProvider" c.hover_provider H.of_bool-IsText (
                  put-IsOpen of_string "positionEncoding" c.position_encoding H.of_string-IsText (
                    put-IsOpen (λ k. of_int (sync_kind_value k)) "textDocumentSync"
                      c.text_document_sync (λ k. H.of_int-IsText (sync_kind_value k))
                      object-IsOpen)))))))

  capabilities-IsText : (c : ServerCapabilities) → H.IsText (server_capabilities_to_json J c)
  unfolding server_capabilities_to_json
  capabilities-IsText c =
      (put-IsOpen (semantic_tokens_options_to_json J) "semanticTokensProvider"
        c.semantic_tokens_provider tokens-IsText
        (put-IsOpen (diagnostic_options_to_json J) "diagnosticProvider" c.diagnostic_provider
          diagnostic-IsText
          (put-IsOpen (rename_options_to_json J) "renameProvider" c.rename_provider rename-IsText (
            put-IsOpen (code_action_options_to_json J) "codeActionProvider" c.code_action_provider
              code_action-IsText
              (put-IsOpen (signature_help_options_to_json J) "signatureHelpProvider"
                c.signature_help_provider signature_help-IsText (simple-IsOpen c)))))).text

  info-IsText : (i : Info) → H.IsText (server_info_to_json J i)
  unfolding server_info_to_json
  info-IsText i =
      (put-IsOpen of_string "version" i.version H.of_string-IsText
        (assign-IsOpen "name" (H.of_string-IsText i.name) null-IsOpen)).text

  -- The result of `initialize` can be written as JSON, whatever capabilities the server has.
  pub initialize_result_to_json-IsText :
      (r : InitializeResult) → H.IsText (initialize_result_to_json J r)
  unfolding initialize_result_to_json
  initialize_result_to_json-IsText r =
      (put-IsOpen (server_info_to_json J) "serverInfo" r.server_info info-IsText
        (assign-IsOpen "capabilities" (capabilities-IsText r.capabilities) null-IsOpen)).text
