-- ===== src/Store/Refine.antt =====
-- The store as its clients see it: a function from URIs to documents.
use clsp.Base.{
  String, ◌≡◌, refl, ap, ◌∙◌, inl, inr, Option, none, some, List, [], ◌∷◌, if◌then◌else◌,
  Option-cases, Bytes, ◌==◌, string_eq,
}
use clsp.Store.Map.{Changed, get-open_document, get-close, get-apply_change}
use clsp.Errors.{Exception}
use clsp.Store.{
  DocumentStore, TextDocumentItem, apply_all, open_document, store_changes,
  VersionedTextDocumentIdentifier, apply_change, close, get, TextDocumentChangeEvent, lookup,
}
use clsp.Text.{PositionEncoding}
use clsp.Base.Dict.{lookup}

-- The calls that change documents.
pub data Operation : Type 0 where
  opens : TextDocumentItem → Operation
  changes : VersionedTextDocumentIdentifier → List TextDocumentChangeEvent → Operation
  closes : String → Operation

unfoldable pub perform : Operation → DocumentStore → DocumentStore
unfolding open_document apply_change close
perform (opens item) s = open_document item s
perform (changes id cs) s = (apply_change id cs s).0
perform (closes uri) s = (close uri s).0

unfoldable pub perform_all : List Operation → DocumentStore → DocumentStore
unfolding perform
perform_all [] s = s
perform_all (o ∷ os) s = perform_all os (perform o s)

-- A call on the function: `opens` puts a document under its URI, `changes` edits the document that
-- is there, if any, and `closes` takes it away.
unfoldable pub specify :
    PositionEncoding
    → Operation
    → (String → Option TextDocumentItem)
    → String
    → Option TextDocumentItem
unfolding apply_all
specify e (opens item) f uri = if item.uri == uri then some item else f uri
specify e (changes id cs) f uri = elim (f id.uri) [
  | none ↦ f uri
  | some doc ↦ if id.uri == uri then some (Changed id doc (apply_all e doc.text cs)) else f uri
]
specify e (closes other) f uri = if other == uri then none else f uri

unfoldable pub specify_all :
    PositionEncoding
    → List Operation
    → (String → Option TextDocumentItem)
    → String
    → Option TextDocumentItem
unfolding specify
specify_all e [] f = f
specify_all e (o ∷ os) f = specify_all e os (specify e o f)

store_changes-encoding :
    (s : DocumentStore) (id : VersionedTextDocumentIdentifier) (doc : TextDocumentItem)
    (r : Bytes × Option Exception)
    → (store_changes s id doc r).0.encoding ≡ s.encoding
unfolding store_changes
store_changes-encoding s id doc (text, none) = refl
store_changes-encoding s id doc (text, some x) = refl

apply_change-encoding :
    (id : VersionedTextDocumentIdentifier) (cs : List TextDocumentChangeEvent) (s : DocumentStore)
    → (apply_change id cs s).0.encoding ≡ s.encoding
unfolding apply_change
apply_change-encoding id cs s = elim (Option-cases (lookup id.uri s.documents)) [
  | inl e ↦ rw (e, apply_change) refl
  | inr (doc, e) ↦ rw (e, apply_change) (store_changes-encoding s id doc _)
]

perform-encoding : (o : Operation) (s : DocumentStore) → (perform o s).encoding ≡ s.encoding
unfolding perform open_document close
perform-encoding (opens item) s = refl
perform-encoding (changes id cs) s = apply_change-encoding id cs s
perform-encoding (closes uri) s = refl

get-perform :
    (o : Operation) (s : DocumentStore) (uri : String)
    → get uri (perform o s) ≡ specify s.encoding o (λ u. get u s) uri
unfolding perform specify
get-perform (opens item) s uri = get-open_document item uri s
get-perform (changes id cs) s uri = get-apply_change id cs uri s
get-perform (closes other) s uri = get-close other uri s

-- After any sequence of opened, changed and closed documents, the store has under every URI the
-- document that the same calls make of a function from URIs to documents: the order of the entries
-- is never seen, and no call touches another URI.
pub get-perform_all :
    (os : List Operation) (s : DocumentStore) (uri : String)
    → get uri (perform_all os s) ≡ specify_all s.encoding os (λ u. get u s) uri
unfolding perform_all specify_all
get-perform_all [] s uri = refl
get-perform_all (o ∷ os) s uri =
    get-perform_all os (perform o s) uri
    ∙ rw (perform-encoding o s)
        (ap (λ f. specify_all s.encoding os f uri) (λ i u. get-perform o s u i))
