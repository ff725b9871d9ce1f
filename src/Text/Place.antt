-- ===== src/Text/Place.antt =====
-- Positions in well-formed text: lines of characters, each line but the last ended by a newline.
use clsp.Base.{
  ℕ, zero, suc, ◌+◌, ◌%◌, ◌^◌, ◌≤◌, ◌<◌, ◌≡◌, refl, ap, ◌∙◌, ◌≢◌, inl, inr, none, some, List, [],
  ◌∷◌, ◌++◌, append_assoc, arith, ltb, Bool-cases, Bytes, length, get_elem?, length-append, All,
  All-append, string_eq,
}
use clsp.Text.{
  PositionEncoding, utf8, utf16, utf32, Position, newline, lead_length, lead_units, clamp_length,
  decode_utf8, counted, continues, seek_line, seek_character, position_to_offset,
}
use clsp.Text.Unicode.{encode, encode_all, width, width_all, IsChar, encode-Encoded}

abbrev LacksNewline : Bytes → Type 0
LacksNewline = All (λ b. b ≢ newline)

pub render_lines : List (List ℕ) → Bytes
render_lines [] = []
render_lines (l ∷ ls) = encode_all l ++ newline ∷ render_lines ls

-- A place in a text: the full lines before it, and the characters before it on its line.
pub record Place : Type 0 where
  pub lines : List (List ℕ)
  pub chars : List ℕ

-- The text before a place.
unfoldable pub render : Place → Bytes
unfolding render_lines
render p = render_lines p.lines ++ encode_all p.chars

-- The position of a place, as a client counts it.
unfoldable pub position : PositionEncoding → Place → Position
position e p = record { line = length p.lines; character = width_all e p.chars }

-- Its lines hold characters, and its numbers fit `uint32_t` and `size_t`.
pub record IsPlace (e : PositionEncoding) (p : Place) : Type 0 where
  pub lines : All (All IsChar) p.lines
  pub chars : All IsChar p.chars
  pub character : width_all e p.chars < 2 ^ 32
  pub size : length (render p) < 2 ^ 64

get_elem?-append {ℓ} :
    {A : Type ℓ} (xs ys : List A) (a : A) → get_elem? (xs ++ a ∷ ys) (length xs) ≡ some a
get_elem?-append [] ys a = refl
get_elem?-append (x ∷ xs) ys a = get_elem?-append xs ys a

continues_stop :
    (text : Bytes) (character consumed offset : ℕ)
    → character ≤ consumed
    → continues text character consumed offset ≡ none
unfolding continues
continues_stop text character consumed offset h = ground arith

continues_go :
    (before tail : Bytes) (b0 character consumed : ℕ)
    → consumed < character
    → b0 ≢ newline
    → continues (before ++ b0 ∷ tail) character consumed (length before) ≡ some b0
unfolding continues
continues_go before tail b0 character consumed h n = ground (arith, get_elem?-append before tail b0)

counted-width : (e : PositionEncoding) (c : ℕ) → e ≢ utf8 → counted e (width utf16 c) ≡ width e c
unfolding counted width
counted-width utf8 c h = absurd (h refl)
counted-width utf16 c h = refl
counted-width utf32 c h = refl

-- A character of `len` bytes at the end of `before`, `units` wide, is decoded as such.
decode_utf8-lead :
    (before tail rest : Bytes) (b0 : ℕ)
    → lead_length b0 ≡ suc (length tail)
    → decode_utf8 (before ++ b0 ∷ (tail ++ rest)) (length before) b0
      ≡ (suc (length tail), lead_units b0)
unfolding decode_utf8 clamp_length
decode_utf8-lead before tail rest b0 h =
    ground (arith, length-append before (b0 ∷ (tail ++ rest)), length-append tail rest)

width_pos : (e : PositionEncoding) (c : ℕ) → e ≢ utf8 → 1 ≤ width e c
unfolding width
width_pos utf8 c h = absurd (h refl)
width_pos utf16 c h = ground arith
width_pos utf32 c h = omega arith

-- One round over a character.
seek_character-char :
    (fuel : ℕ) (e : PositionEncoding) (before rest : Bytes) (c character consumed : ℕ)
    → e ≢ utf8
    → IsChar c
    → consumed < character
    → consumed + width e c < 2 ^ 32
    → seek_character (suc fuel) (before ++ (encode c ++ rest)) e character consumed (length before)
      ≡ seek_character fuel
          ((before ++ encode c) ++ rest)
          e
          character
          (consumed + width e c)
          (length (before ++ encode c))
unfolding seek_character
seek_character-char fuel e before rest c character consumed h (k, n) lt fits =
    let x = encode-Encoded c k in
    let go : continues (before ++ x.lead ∷ (x.tail ++ rest)) character consumed (length before)
        ≡ some x.lead =
      continues_go before (x.tail ++ rest) x.lead character consumed lt (x.not_newline n) in
    let len : lead_length x.lead ≡ suc (length x.tail) = x.len ∙ ap length x.form in
    let decoded = decode_utf8-lead before x.tail rest x.lead len in
    let m : (consumed + width e c) % 2 ^ 32 ≡ consumed + width e c = omega arith in
    rw (x.form, append_assoc)
      (rw (go, seek_character)
        (rw (decoded, x.units, counted-width e c h, length-append) (rw m refl)))

-- The character loop over a run of characters.
seek_character-encode_all :
    (fuel : ℕ) (e : PositionEncoding) (before rest : Bytes) (cs : List ℕ) (consumed : ℕ)
    → e ≢ utf8
    → All IsChar cs
    → consumed + width_all e cs < 2 ^ 32
    → length (encode_all cs) ≤ fuel
    → seek_character fuel
        (before ++ (encode_all cs ++ rest))
        e
        (consumed + width_all e cs)
        consumed
        (length before)
      ≡ length before + length (encode_all cs)
unfolding encode_all width_all
seek_character-encode_all zero e before rest [] consumed h a fits enough =
    unfold seek_character in omega arith
seek_character-encode_all (suc fuel) e before rest [] consumed h a fits enough =
    unfold seek_character in
    rw
      (
        continues_stop (before ++ rest) (consumed + 0) consumed (length before) (omega arith),
        seek_character,
      )
      (omega arith)
seek_character-encode_all zero e before rest (c ∷ cs) consumed h (k, a) fits enough =
    let x = encode-Encoded c k.0 in
    absurd (omega (arith, ap length x.form, length-append (encode c) (encode_all cs)))
seek_character-encode_all (suc fuel) e before rest (c ∷ cs) consumed h (k, a) fits enough =
    let x = encode-Encoded c k.0 in
    let pos = width_pos e c h in
    let regroup : consumed + (width e c + width_all e cs) ≡ consumed + width e c + width_all e cs =
      omega arith in
    let size = length-append (encode c) (encode_all cs) in
    rw (append_assoc (encode c), regroup)
      (seek_character-char fuel e before (encode_all cs ++ rest) c _ consumed h k (omega arith)
          (omega arith)
        ∙ seek_character-encode_all fuel e (before ++ encode c) rest cs (consumed + width e c) h a
            (omega arith) (omega (arith, ap length x.form))
        ∙ omega (arith, length-append before (encode c)))

encode-Lacks : (c : ℕ) → IsChar c → LacksNewline (encode c)
unfolding encode
encode-Lacks c h = elim (Bool-cases (ltb c 0x80)) [
  | inl a ↦ rw (a, encode) (h.1, tt)
  | inr a ↦ elim (Bool-cases (ltb c 0x800)) [
    | inl b ↦ rw (a, encode) (rw b (omega arith))
    | inr b ↦ elim (Bool-cases (ltb c 0x10000)) [
      | inl d ↦ rw (a, encode) (rw (b, d) (omega arith))
      | inr d ↦ rw (a, encode) (rw (b, d) (omega arith))
    ]
  ]
]

encode_all-Lacks : (cs : List ℕ) → All IsChar cs → LacksNewline (encode_all cs)
unfolding encode_all
encode_all-Lacks [] a = tt
encode_all-Lacks (c ∷ cs) (h, a) =
    All-append _ (encode c) (encode_all cs) (encode-Lacks c h) (encode_all-Lacks cs a)

seek_line-stop : (rest : Bytes) (offset line : ℕ) → seek_line rest offset line line ≡ offset
unfolding seek_line
seek_line-stop [] offset line = refl
seek_line-stop (c ∷ rest) offset line = ground arith

seek_line-line :
    (bytes rest : Bytes) (offset line target : ℕ)
    → LacksNewline bytes
    → line < target
    → seek_line (bytes ++ newline ∷ rest) offset line target
      ≡ seek_line rest (offset + length bytes + 1) (line + 1) target
unfolding seek_line
seek_line-line [] rest offset line target a h = ground arith
seek_line-line (b ∷ bytes) rest offset line target (n, a) h =
    ground (arith, seek_line-line bytes rest (offset + 1) line target a h)

seek_line-render_lines :
    (ls : List (List ℕ)) (rest : Bytes) (offset line : ℕ)
    → All (All IsChar) ls
    → seek_line (render_lines ls ++ rest) offset line (line + length ls)
      ≡ offset + length (render_lines ls)
unfolding render_lines
seek_line-render_lines [] rest offset line a =
    let e : line + 0 ≡ line = omega arith in rw e (seek_line-stop rest offset line ∙ omega arith)
seek_line-render_lines (l ∷ ls) rest offset line (h, a) =
    let e : line + suc (length ls) ≡ line + 1 + length ls = omega arith in
    rw (append_assoc (encode_all l), e)
      (seek_line-line (encode_all l) (render_lines ls ++ rest) offset line (line + 1 + length ls)
          (encode_all-Lacks l h) (omega arith)
        ∙ seek_line-render_lines ls rest _ (line + 1) a
        ∙ omega (arith, length-append (encode_all l) (newline ∷ render_lines ls)))

seek_line-render :
    (e : PositionEncoding) (p : Place) (rest : Bytes)
    → IsPlace e p
    → seek_line (render p ++ rest) 0 0 (length p.lines) ≡ length (render_lines p.lines)
unfolding render
seek_line-render e p rest w =
    let z : 0 + length p.lines ≡ length p.lines = omega arith in
    rw append_assoc (
      rw z at (seek_line-render_lines p.lines (encode_all p.chars ++ rest) 0 0 w.lines)
      ∙ omega arith)

seek_character-render :
    (e : PositionEncoding) (p : Place) (rest : Bytes)
    → e ≢ utf8
    → IsPlace e p
    → seek_character
        (length (render p ++ rest))
        (render p ++ rest)
        e
        (width_all e p.chars)
        0
        (length (render_lines p.lines))
      ≡ length (render p)
unfolding render
seek_character-render e p rest h w =
    let z : 0 + width_all e p.chars ≡ width_all e p.chars = omega arith in
    let n = length-append (encode_all p.chars) rest in
    let m = length-append (render_lines p.lines) (encode_all p.chars ++ rest) in
    let k = length-append (render_lines p.lines) (encode_all p.chars) in
    rw append_assoc (
      rw z at (
        seek_character-encode_all (length (render_lines p.lines ++ (encode_all p.chars ++ rest))) e
          (render_lines p.lines) rest p.chars 0 h w.chars (omega (arith, w.character))
          (omega (arith, m, n)))
      ∙ omega (arith, k))

width_all-utf8 : (cs : List ℕ) → width_all utf8 cs ≡ length (encode_all cs)
unfolding width_all encode_all width
width_all-utf8 [] = refl
width_all-utf8 (c ∷ cs) = omega (arith, width_all-utf8 cs, length-append (encode c) (encode_all cs))

length-render :
    (p : Place) → length (render p) ≡ length (render_lines p.lines) + length (encode_all p.chars)
unfolding render
length-render p = length-append (render_lines p.lines) (encode_all p.chars)

-- In each of the three encodings the position of a place leads to the offset where the place is,
-- whatever text stands behind it. The text before the place is made of lines of code points, its
-- length fits `size_t`, and the character of the position fits `uint32_t`.
pub position_to_offset-position :
    (e : PositionEncoding) (p : Place) (rest : Bytes)
    → IsPlace e p
    → position_to_offset e (render p ++ rest) (position e p) ≡ length (render p)
unfolding position_to_offset position
position_to_offset-position utf8 p rest w =
    rw (seek_line-render utf8 p rest w, width_all-utf8) (omega (arith, length-render p, w.size))
position_to_offset-position utf16 p rest w =
    rw (seek_line-render utf16 p rest w) (seek_character-render utf16 p rest (λ x. cc) w)
position_to_offset-position utf32 p rest w =
    rw (seek_line-render utf32 p rest w) (seek_character-render utf32 p rest (λ x. cc) w)
