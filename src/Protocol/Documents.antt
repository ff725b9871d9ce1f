-- ===== src/Protocol/Documents.antt =====
-- include/clsp/protocol/Documents.hpp and Sync.hpp.
use clsp.Base.{String, Option, List, Bytes, string_eq}
use clsp.Errors.{Result, ok, ◌>>=◌}
use clsp.Json.{JsonLib, at}
use clsp.Store.{TextDocumentItem, VersionedTextDocumentIdentifier, TextDocumentChangeEvent}
use clsp.Protocol.{get_list, read_optional, range_from_json}

pub record DidOpenParams : Type 0 where
  pub text_document : TextDocumentItem

pub record DidChangeParams : Type 0 where
  pub text_document : VersionedTextDocumentIdentifier
  pub content_changes : List TextDocumentChangeEvent

pub record DidCloseParams : Type 0 where
  pub uri : String

pub record DidSaveParams : Type 0 where
  pub uri : String
  pub text : Option Bytes

module _ (J : JsonLib) where
  open J use {Json, get_string, get_text, get_int}

  unfoldable pub item_from_json : Json → Result TextDocumentItem
  item_from_json j = do
    u ← at J j "uri"
    uri ← get_string u
    l ← at J j "languageId"
    language_id ← get_string l
    v ← at J j "version"
    version ← get_int v
    t ← at J j "text"
    text ← get_text t
    ok (record { uri = uri; language_id = language_id; version = version; text = text })

  unfoldable pub versioned_from_json : Json → Result VersionedTextDocumentIdentifier
  versioned_from_json j = do
    u ← at J j "uri"
    uri ← get_string u
    v ← at J j "version"
    version ← get_int v
    ok (record { uri = uri; version = version })

  unfoldable pub change_from_json : Json → Result TextDocumentChangeEvent
  unfolding read_optional range_from_json
  change_from_json j = do
    range ← read_optional J (range_from_json J) "range" j
    t ← at J j "text"
    text ← get_text t
    ok (record { range = range; text = text })

  unfoldable pub did_open_from_json : Json → Result DidOpenParams
  unfolding item_from_json
  did_open_from_json j = do
    d ← at J j "textDocument"
    item ← item_from_json d
    ok (record { text_document = item })

  unfoldable pub did_change_from_json : Json → Result DidChangeParams
  unfolding versioned_from_json change_from_json get_list
  did_change_from_json j = do
    d ← at J j "textDocument"
    id ← versioned_from_json d
    c ← at J j "contentChanges"
    changes ← get_list J change_from_json c
    ok (record { text_document = id; content_changes = changes })

  unfoldable pub did_close_from_json : Json → Result DidCloseParams
  did_close_from_json j = do
    d ← at J j "textDocument"
    u ← at J d "uri"
    uri ← get_string u
    ok (record { uri = uri })

  unfoldable pub did_save_from_json : Json → Result DidSaveParams
  unfolding read_optional
  did_save_from_json j = do
    d ← at J j "textDocument"
    u ← at J d "uri"
    uri ← get_string u
    text ← read_optional J get_text "text" j
    ok (record { uri = uri; text = text })
