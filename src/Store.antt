-- ===== src/Store.antt =====
-- include/clsp/IDocumentStore.hpp, src/DocumentStore.hpp and src/DocumentStore.cpp, with the
-- document types of include/clsp/protocol/Documents.hpp. `documents_` is an association list; the
-- order of its entries stands for the unspecified order of the hash map. The pointers that the
-- methods return are the values that they point to. The lock makes each method one step.
pub mod Map
pub mod Edit
pub mod Refine
use clsp.Base.{
  ℕ, ◌+◌, ◌-◌, ◌%◌, ◌^◌, String, Bool, Option, none, some, List, [], ◌∷◌, ◌++◌, map, ltb,
  if◌then◌else◌, is_some, Bytes, length, take, drop, string_eq,
}
use clsp.Base.Dict.{Dict, lookup, insert, erase}
use clsp.Base.Int.{ℤ}
use clsp.Errors.{Exception, other, Result, ok, err, plain}
use clsp.Text.{PositionEncoding, utf16, Range, position_to_offset}

pub record TextDocumentItem : Type 0 where
  pub uri : String
  pub language_id : String
  pub version : ℤ
  pub text : Bytes

pub record VersionedTextDocumentIdentifier : Type 0 where
  pub uri : String
  pub version : ℤ

pub record TextDocumentChangeEvent : Type 0 where
  pub range : Option Range
  pub text : Bytes

pub record DocumentStore : Type 0 where
  pub documents : Dict String TextDocumentItem
  pub encoding : PositionEncoding

unfoldable pub make : DocumentStore
make = record { documents = []; encoding = utf16 }

unfoldable pub set_position_encoding : PositionEncoding → DocumentStore → DocumentStore
set_position_encoding e s = record s { encoding = e }

unfoldable pub open_document : TextDocumentItem → DocumentStore → DocumentStore
open_document item s = record s { documents = insert item.uri item s.documents }

-- `std::string::replace(pos, count, str)` throws `std::out_of_range` where `pos` lies behind the
-- end, and cuts `count` at the end.
unfoldable pub replace : Bytes → ℕ → ℕ → Bytes → Result Bytes
replace text pos count str =
    if ltb (length text) pos
    then err (other (plain "basic_string::replace"))
    else ok (take pos text ++ (str ++ drop (pos + count) text))

-- One round of the loop over the changes. `end - start` is a `size_t`.
unfoldable pub apply_one : PositionEncoding → Bytes → TextDocumentChangeEvent → Result Bytes
unfolding replace
apply_one e text change = elim change.range [
  | none ↦ ok change.text
  | some r ↦
      let start = position_to_offset e text r.start in
      let end = position_to_offset e text r.end in
      replace text start ((end + 2 ^ 64 - start) % 2 ^ 64) change.text
]

-- The loop: the text that is left, and whether a round threw.
unfoldable pub apply_all :
    PositionEncoding → Bytes → List TextDocumentChangeEvent → Bytes × Option Exception
unfolding apply_one
apply_all e text [] = (text, none)
apply_all e text (c ∷ cs) = elim (apply_one e text c) [
  | ok t ↦ apply_all e t cs
  | err x ↦ (text, some x)
]

-- What was changed before an exception stays changed.
unfoldable pub store_changes :
    DocumentStore
    → VersionedTextDocumentIdentifier
    → TextDocumentItem
    → Bytes × Option Exception
    → DocumentStore × Result (Option TextDocumentItem)
store_changes s id doc (text, none) =
    let doc' = record doc { text = text; version = id.version } in
    (record s { documents = insert id.uri doc' s.documents }, ok (some doc'))
store_changes s id doc (text, some x) =
    (record s { documents = insert id.uri (record doc { text = text }) s.documents }, err x)

unfoldable pub apply_change :
    VersionedTextDocumentIdentifier
    → List TextDocumentChangeEvent
    → DocumentStore
    → DocumentStore × Result (Option TextDocumentItem)
unfolding apply_all store_changes
apply_change id changes s = elim (lookup id.uri s.documents) [
  | none ↦ (s, ok none)
  | some doc ↦ store_changes s id doc (apply_all s.encoding doc.text changes)
]

-- `documents_.erase(uri) > 0`
unfoldable pub close : String → DocumentStore → DocumentStore × Bool
close uri s = (record s { documents = erase uri s.documents }, is_some (lookup uri s.documents))

unfoldable pub get : String → DocumentStore → Option TextDocumentItem
get uri s = lookup uri s.documents

unfoldable pub size : DocumentStore → ℕ
size s = length s.documents

unfoldable pub contains : String → DocumentStore → Bool
contains uri s = is_some (lookup uri s.documents)

unfoldable pub uris : DocumentStore → List String
uris s = map (λ (uri, _). uri) s.documents
