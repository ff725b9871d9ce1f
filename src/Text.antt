-- ===== src/Text.antt =====
-- Positions in text: include/clsp/PositionEncoding.hpp, `Position` and `Range` of
-- include/clsp/protocol/Basic.hpp, and `decodeUtf8` and `positionToOffset` of
-- src/DocumentStore.cpp. A text is its bytes.
pub mod Bounds
pub mod Unicode
pub mod Place
use Prim.Native.Nat.{bit_and}
use clsp.Base.{
  ℕ, zero, suc, ◌+◌, ◌-◌, ◌%◌, ◌^◌, String, true, false, Option, none, some, [], ◌∷◌, ltb, ◌=ℕ=◌,
  if◌then◌else◌, Bytes, length, get_elem?, ◌==◌, string_eq,
}

pub data PositionEncoding : Type 0 where
  utf8 utf16 utf32 : PositionEncoding

-- `to_string`
unfoldable pub encoding_name : PositionEncoding → String
encoding_name utf8 = "utf-8"
encoding_name utf16 = "utf-16"
encoding_name utf32 = "utf-32"

-- `positionEncodingFromString`
unfoldable pub encoding_of_name : String → Option PositionEncoding
encoding_of_name s =
    if s == "utf-8"
    then some utf8
    else if s == "utf-16"
    then some utf16
    else if s == "utf-32"
    then some utf32
    else none

pub record Position : Type 0 where
  pub line : ℕ
  pub character : ℕ

pub record Range : Type 0 where
  pub start : Position
  pub end : Position

abbrev pub newline : ℕ
newline = 0x0A

-- The byte length and the UTF-16 units that the lead byte announces.
unfoldable pub lead_length : ℕ → ℕ
lead_length b0 =
    if ltb b0 0x80
    then 1
    else if bit_and b0 0xE0 =ℕ= 0xC0
    then 2
    else if bit_and b0 0xF0 =ℕ= 0xE0
    then 3
    else if bit_and b0 0xF8 =ℕ= 0xF0
    then 4
    else 1

unfoldable pub lead_units : ℕ → ℕ
lead_units b0 =
    if ltb b0 0x80
    then 1
    else if bit_and b0 0xE0 =ℕ= 0xC0
    then 1
    else if bit_and b0 0xF0 =ℕ= 0xE0
    then 1
    else if bit_and b0 0xF8 =ℕ= 0xF0
    then 2
    else 1

-- `if (offset + byteLen > text.size()) …`
unfoldable pub clamp_length : ℕ → ℕ → ℕ → ℕ
clamp_length size offset len =
    if ltb size (offset + len) then (if size - offset =ℕ= 0 then 1 else size - offset) else len

-- `byteLen` and `utf16Units`.
unfoldable pub decode_utf8 : Bytes → ℕ → ℕ → ℕ × ℕ
unfolding lead_length lead_units clamp_length
decode_utf8 text offset b0 = (clamp_length (length text) offset (lead_length b0), lead_units b0)

-- The first loop: to the start of the line. `rest` is the text from `offset` on; the result is the
-- offset where the loop ends.
unfoldable pub seek_line : Bytes → ℕ → ℕ → ℕ → ℕ
seek_line [] offset line target = offset
seek_line (c ∷ rest) offset line target = elim (ltb line target) [
  | true ↦ seek_line rest (offset + 1) (if c =ℕ= newline then line + 1 else line) target
  | false ↦ offset
]

-- What a character of `units` UTF-16 units adds to `consumed`: UTF-32 counts code points.
unfoldable pub counted : PositionEncoding → ℕ → ℕ
counted utf16 units = units
counted _ units = 1

-- The condition of the second loop: the byte at `offset` if the loop goes on.
unfoldable pub continues : Bytes → ℕ → ℕ → ℕ → Option ℕ
continues text character consumed offset =
    if ltb consumed character
    then elim (get_elem? text offset) [
      | none ↦ none
      | some b0 ↦ if b0 =ℕ= newline then none else some b0
    ]
    else none

-- The second loop, over UTF-16 units or code points. Each round advances by a byte at least, so
-- the loop has ended by its own condition after as many rounds as bytes are left (`Text.Bounds`).
unfoldable pub seek_character : ℕ → Bytes → PositionEncoding → ℕ → ℕ → ℕ → ℕ
seek_character zero text e character consumed offset = offset
seek_character (suc fuel) text e character consumed offset =
    elim (continues text character consumed offset) [
      | none ↦ offset
      | some b0 ↦
          seek_character fuel text e character
            ((consumed + counted e (decode_utf8 text offset b0).1) % 2 ^ 32)
            (offset + (decode_utf8 text offset b0).0)
    ]

unfoldable pub position_to_offset : PositionEncoding → Bytes → Position → ℕ
unfolding seek_line seek_character continues decode_utf8 counted
position_to_offset e text pos =
    let offset = seek_line text 0 0 pos.line in
    elim e [
      | utf8 ↦ (offset + pos.character) % 2 ^ 64
      | units ↦ seek_character (length text) text units pos.character 0 offset
    ]
