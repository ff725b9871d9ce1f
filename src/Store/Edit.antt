-- ===== src/Store/Edit.antt =====
-- Edits of well-formed text.
use clsp.Base.{
  ℕ, ◌+◌, ◌-◌, ◌%◌, ◌^◌, ◌≤◌, ◌≡◌, refl, ap, ◌≢◌, inl, inr, none, some, List, [], ◌∷◌, ◌++◌,
  append_assoc, arith, Option-cases, Bytes, length, take, drop, length-append, take-append,
  drop-append, string_eq,
}
use clsp.Errors.{ok, Returns}
use clsp.Text.{PositionEncoding, utf8, position_to_offset}
use clsp.Text.Bounds.{position_to_offset-le}
use clsp.Text.Place.{Place, IsPlace, render, position, position_to_offset-position}
use clsp.Store.{TextDocumentChangeEvent, replace, apply_one, apply_all}

replace_total :
    (text : Bytes) (pos count : ℕ) (str : Bytes)
    → pos ≤ length text
    → Returns (replace text pos count str)
unfolding replace
replace_total text pos count str h =
    (take pos text ++ (str ++ drop (pos + count) text), ground arith)

-- In UTF-16 and UTF-32 no change throws, whatever its positions: each is applied.
pub apply_one_total :
    (e : PositionEncoding) (text : Bytes) (c : TextDocumentChangeEvent)
    → e ≢ utf8
    → Returns (apply_one e text c)
unfolding apply_one
apply_one_total e text c h = elim (Option-cases c.range) [
  | inl n ↦ (c.text, rw (n, apply_one) refl)
  | inr (r, n) ↦
      rw (n, apply_one)
        (replace_total text (position_to_offset e text r.start) _ c.text
          (position_to_offset-le e text r.start h))
]

-- In UTF-16 and UTF-32 the loop over any changes runs to its end without an exception.
pub apply_all_total :
    (e : PositionEncoding) (text : Bytes) (cs : List TextDocumentChangeEvent)
    → e ≢ utf8
    → (apply_all e text cs).1 ≡ none
unfolding apply_all
apply_all_total e text [] h = refl
apply_all_total e text (c ∷ cs) h =
    let (t, n) = apply_one_total e text c h in rw (n, apply_all) (apply_all_total e t cs h)

replace_lem :
    (a b c new : Bytes) → replace (a ++ (b ++ c)) (length a) (length b) new ≡ ok (a ++ (new ++ c))
unfolding replace
replace_lem a b c new =
    let tail : drop (length a + length b) (a ++ (b ++ c)) ≡ c =
      rw (append_assoc, length-append) at (drop-append (a ++ b) c) in
    ground (arith, take-append a (b ++ c), length-append a (b ++ c))

-- A change whose range runs from one place of the document to a later one replaces exactly the
-- bytes between them by the new text, in each of the three encodings. The text before the places is
-- made of lines of code points, and their numbers fit `uint32_t` and `size_t`.
pub apply_one-edit :
    (e : PositionEncoding) (p q : Place) (between rest new : Bytes)
    → IsPlace e p
    → IsPlace e q
    → render q ≡ render p ++ between
    → apply_one e
        (render q ++ rest)
        (record { range = some (record { start = position e p; end = position e q }); text = new })
      ≡ ok (render p ++ (new ++ rest))
unfolding apply_one
apply_one-edit e p q between rest new wp wq split =
    let at_p = position_to_offset-position e p (between ++ rest) wp in
    let at_q = rw (split, append_assoc) at (position_to_offset-position e q rest wq) in
    let count : (length (render p ++ between) + 2 ^ 64 - length (render p)) % 2 ^ 64
        ≡ length between =
      omega (arith, length-append (render p) between, ap length split, wq.size) in
    rw (split, append_assoc, at_p, at_q, count) (replace_lem (render p) between rest new)
