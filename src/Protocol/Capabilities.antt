-- ===== src/Protocol/Capabilities.antt =====
-- include/clsp/protocol/Capabilities.hpp, with `SemanticTokensLegend` and `SemanticTokensOptions` of
-- include/clsp/protocol/SemanticTokens.hpp.
use clsp.Base.{String, Bool, Option, none, some, List, [], ◌∷◌, map, if◌then◌else◌, string_eq}
use clsp.Base.Int.{ℤ, pos}
use clsp.Errors.{Result, ok, ◌>>=◌}
use clsp.Json.{JsonLib, assign_all}
use clsp.Protocol.{get_list, read_present, put_optional}

pub data TextDocumentSyncKind : Type 0 where
  none_sync full incremental : TextDocumentSyncKind

unfoldable pub sync_kind_value : TextDocumentSyncKind → ℤ
sync_kind_value none_sync = pos 0
sync_kind_value full = pos 1
sync_kind_value incremental = pos 2

pub record SemanticTokensLegend : Type 0 where
  pub token_types : List String
  pub token_modifiers : List String

pub record SemanticTokensOptions : Type 0 where
  pub legend : SemanticTokensLegend
  pub range : Option Bool
  pub full : Option Bool

pub record CompletionOptions : Type 0 where
  pub trigger_characters : Option (List String)
  pub all_commit_characters : Option (List String)
  pub resolve_provider : Option Bool

pub record SignatureHelpOptions : Type 0 where
  pub trigger_characters : Option (List String)
  pub retrigger_characters : Option (List String)

pub record CodeActionOptions : Type 0 where
  pub code_action_kinds : Option (List String)
  pub resolve_provider : Option Bool

pub record RenameOptions : Type 0 where
  pub prepare_provider : Option Bool

pub record DiagnosticOptions : Type 0 where
  pub identifier : Option String
  pub inter_file_dependencies : Bool
  pub workspace_diagnostics : Bool

pub record ServerCapabilities : Type 0 where
  pub text_document_sync : Option TextDocumentSyncKind
  pub position_encoding : Option String
  pub hover_provider : Option Bool
  pub completion_provider : Option CompletionOptions
  pub definition_provider : Option Bool
  pub references_provider : Option Bool
  pub document_symbol_provider : Option Bool
  pub document_formatting_provider : Option Bool
  pub signature_help_provider : Option SignatureHelpOptions
  pub code_action_provider : Option CodeActionOptions
  pub rename_provider : Option RenameOptions
  pub diagnostic_provider : Option DiagnosticOptions
  pub semantic_tokens_provider : Option SemanticTokensOptions

-- `ClientCapabilities::General`
pub record General : Type 0 where
  pub position_encodings : Option (List String)

pub record ClientCapabilities : Type 0 where
  pub general : Option General

module _ (J : JsonLib) where
  open J use {
    Json, find, is_object, get_string, object, null, of_bool, of_int, of_string, of_list, assign,
  }

  unfoldable pub of_strings : List String → Json
  of_strings ss = of_list (map of_string ss)

  unfoldable pub completion_options_to_json : CompletionOptions → Json
  unfolding put_optional of_strings
  completion_options_to_json o = put_optional J of_bool "resolveProvider" o.resolve_provider (
      put_optional J of_strings "allCommitCharacters" o.all_commit_characters
        (put_optional J of_strings "triggerCharacters" o.trigger_characters object))

  unfoldable pub signature_help_options_to_json : SignatureHelpOptions → Json
  unfolding put_optional of_strings
  signature_help_options_to_json o =
      put_optional J of_strings "retriggerCharacters" o.retrigger_characters
        (put_optional J of_strings "triggerCharacters" o.trigger_characters object)

  unfoldable pub code_action_options_to_json : CodeActionOptions → Json
  unfolding put_optional of_strings
  code_action_options_to_json o =
      put_optional J of_bool "resolveProvider" o.resolve_provider
        (put_optional J of_strings "codeActionKinds" o.code_action_kinds object)

  unfoldable pub rename_options_to_json : RenameOptions → Json
  unfolding put_optional
  rename_options_to_json o = put_optional J of_bool "prepareProvider" o.prepare_provider object

  unfoldable pub diagnostic_options_to_json : DiagnosticOptions → Json
  unfolding put_optional
  diagnostic_options_to_json o =
      assign
        (assign (put_optional J of_string "identifier" o.identifier object) "interFileDependencies"
          (of_bool o.inter_file_dependencies))
        "workspaceDiagnostics" (of_bool o.workspace_diagnostics)

  unfoldable pub legend_to_json : SemanticTokensLegend → Json
  unfolding of_strings
  legend_to_json l = assign_all J null (
      ("tokenTypes", of_strings l.token_types)
      ∷ ("tokenModifiers", of_strings l.token_modifiers)
      ∷ [])

  unfoldable pub semantic_tokens_options_to_json : SemanticTokensOptions → Json
  unfolding put_optional legend_to_json
  semantic_tokens_options_to_json o =
      put_optional J of_bool "full" o.full
        (put_optional J of_bool "range" o.range (assign object "legend" (legend_to_json o.legend)))

  -- The fields up to the formatting provider, and those behind it.
  unfoldable pub simple_capabilities_to_json : ServerCapabilities → Json
  unfolding put_optional sync_kind_value completion_options_to_json
  simple_capabilities_to_json c =
      put_optional J of_bool "documentFormattingProvider" c.document_formatting_provider (
        put_optional J of_bool "documentSymbolProvider" c.document_symbol_provider (
          put_optional J of_bool "referencesProvider" c.references_provider (
            put_optional J of_bool "definitionProvider" c.definition_provider (
              put_optional J completion_options_to_json "completionProvider" c.completion_provider (
                put_optional J of_bool "hoverProvider" c.hover_provider (
                  put_optional J of_string "positionEncoding" c.position_encoding (
                    put_optional J (λ k. of_int (sync_kind_value k)) "textDocumentSync"
                      c.text_document_sync object)))))))

  unfoldable pub server_capabilities_to_json : ServerCapabilities → Json
  unfolding put_optional simple_capabilities_to_json signature_help_options_to_json
      code_action_options_to_json rename_options_to_json diagnostic_options_to_json
      semantic_tokens_options_to_json
  server_capabilities_to_json c =
      put_optional J semantic_tokens_options_to_json "semanticTokensProvider"
        c.semantic_tokens_provider
        (put_optional J diagnostic_options_to_json "diagnosticProvider" c.diagnostic_provider (
          put_optional J rename_options_to_json "renameProvider" c.rename_provider (
            put_optional J code_action_options_to_json "codeActionProvider" c.code_action_provider (
              put_optional J signature_help_options_to_json "signatureHelpProvider"
                c.signature_help_provider (simple_capabilities_to_json c)))))

  -- `general`, where it is an object.
  unfoldable pub client_capabilities_from_json : Json → Result ClientCapabilities
  unfolding get_list read_present
  client_capabilities_from_json j = elim (find "general" j) [
    | none ↦ ok (record { general = none })
    | some g ↦
        if is_object g
        then (do
          encodings ← read_present J (get_list J get_string) "positionEncodings" g
          ok (record { general = some (record { position_encodings = encodings }) }))
        else ok (record { general = none })
  ]
