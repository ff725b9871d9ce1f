-- ===== src/Store/Map.antt =====
-- The store as a map from URIs to documents.
use clsp.Base.{
  String, ◌≡◌, refl, inl, inr, Option, none, some, List, [], ◌∷◌, ◌∙◌, sym, ap, ==_refl,
  if◌then◌else◌, Option-cases, Bytes, ◌==◌, string_eq,
}
use clsp.Base.Dict.{insert, insert-insert, lookup, lookup-insert, lookup-erase}
use clsp.Errors.{Exception, ok}
use clsp.Store.{
  TextDocumentItem, VersionedTextDocumentIdentifier, TextDocumentChangeEvent, DocumentStore,
  open_document, apply_one, apply_all, store_changes, apply_change, close, get,
}

pub get-open_document :
    (item : TextDocumentItem) (uri : String) (s : DocumentStore)
    → get uri (open_document item s) ≡ (if item.uri == uri then some item else get uri s)
unfolding get open_document
get-open_document item uri s = lookup-insert item.uri uri item s.documents

pub get-close :
    (uri other : String) (s : DocumentStore)
    → get other (close uri s).0 ≡ (if uri == other then none else get other s)
unfolding get close
get-close uri other s = lookup-erase uri other s.documents

-- What `get` finds after `applyChange`: the document of the URI with the text that the changes
-- make, and with the new version if none of them threw; every other document as it was.
abbrev pub Changed :
    VersionedTextDocumentIdentifier → TextDocumentItem → Bytes × Option Exception → TextDocumentItem
Changed id doc (text, none) = record doc { text = text; version = id.version }
Changed id doc (text, some x) = record doc { text = text }

get-store_changes :
    (id : VersionedTextDocumentIdentifier) (doc : TextDocumentItem) (r : Bytes × Option Exception)
    (uri : String) (s : DocumentStore)
    → get uri (store_changes s id doc r).0
      ≡ (if id.uri == uri then some (Changed id doc r) else get uri s)
unfolding get store_changes
get-store_changes id doc (text, none) uri s = lookup-insert id.uri uri _ s.documents
get-store_changes id doc (text, some x) uri s = lookup-insert id.uri uri _ s.documents

pub get-apply_change :
    (id : VersionedTextDocumentIdentifier) (changes : List TextDocumentChangeEvent) (uri : String)
    (s : DocumentStore)
    → get uri (apply_change id changes s).0 ≡ elim (get id.uri s) [
      | none ↦ get uri s
      | some doc ↦
          if id.uri == uri
          then some (Changed id doc (apply_all s.encoding doc.text changes))
          else get uri s
    ]
unfolding apply_change get
get-apply_change id changes uri s = elim (Option-cases (lookup id.uri s.documents)) [
  | inl n ↦ rw (n, apply_change) refl
  | inr (doc, n) ↦
      rw (n, apply_change) (get-store_changes id doc (apply_all s.encoding doc.text changes) uri s)
]

store_changes-again :
    (id : VersionedTextDocumentIdentifier) (s : DocumentStore) (doc : TextDocumentItem) (t : Bytes)
    (r : Bytes × Option Exception) (o : Option TextDocumentItem)
    → (let doc' = record doc { text = t; version = id.version } in
        (store_changes (record s { documents = insert id.uri doc' s.documents }) id doc' r).1
        ≡ ok o)
    → store_changes s id doc r ≡ (
        let doc' = record doc { text = t; version = id.version } in
        store_changes (record s { documents = insert id.uri doc' s.documents }) id doc' r)
unfolding store_changes
store_changes-again id s doc t (u, none) o e =
    rw
      (insert-insert id.uri (record doc { text = t; version = id.version })
        (record doc { text = u; version = id.version }) s.documents)
      refl
store_changes-again id s doc t (u, some x) o e = absurd (cc)

-- `applyChange` makes its changes in turn, each on the text that the one before left: for an open
-- document and a first change that does not throw, making this change alone leaves the document
-- with the text of `apply_one` and the new version, and if the others do not throw after that,
-- making all at once is the same as making the others then.
pub apply_change-apply_change :
    (id : VersionedTextDocumentIdentifier) (c : TextDocumentChangeEvent)
    (cs : List TextDocumentChangeEvent) (s : DocumentStore) (doc : TextDocumentItem) (t : Bytes)
    → get id.uri s ≡ some doc
    → apply_one s.encoding doc.text c ≡ ok t
    → (get id.uri (apply_change id (c ∷ []) s).0
        ≡ some (record doc { text = t; version = id.version }))
      × ((o : Option TextDocumentItem)
          → (apply_change id cs (apply_change id (c ∷ []) s).0).1 ≡ ok o
          → apply_change id (c ∷ cs) s ≡ apply_change id cs (apply_change id (c ∷ []) s).0)
unfolding apply_change get apply_all store_changes
apply_change-apply_change id c cs s doc t h r =
    let doc' : TextDocumentItem = record doc { text = t; version = id.version } in
    let s' : DocumentStore = record s { documents = insert id.uri doc' s.documents } in
    let first : apply_change id (c ∷ []) s ≡ (s', ok (some doc')) =
      rw (h, apply_change) (rw (r, apply_all) refl) in
    let found : lookup id.uri s'.documents ≡ some doc' =
      lookup-insert id.uri id.uri doc' s.documents ∙ rw (==_refl id.uri) refl in
    let next : apply_change id cs s' ≡ store_changes s' id doc' (apply_all s.encoding t cs) =
      rw (found, apply_change) refl in
    let all : apply_change id (c ∷ cs) s ≡ store_changes s id doc (apply_all s.encoding t cs) =
      rw (h, apply_change) (rw (r, apply_all) refl) in
    (
      ap (λ x. lookup id.uri x.0.documents) first ∙ found,
      λ o e.
          let e' : (store_changes s' id doc' (apply_all s.encoding t cs)).1 ≡ ok o =
            ap (λ x. x.1) (sym next) ∙ ap (λ x. (apply_change id cs x.0).1) (sym first) ∙ e in
          all
          ∙ store_changes-again id s doc t (apply_all s.encoding t cs) o e'
          ∙ sym next
          ∙ ap (λ x. apply_change id cs x.0) (sym first),
    )
