-- ===== src/Protocol/Places.antt =====
-- Positions and ranges are read back from their JSON.
use clsp.Base.{[], ◌∷◌, string_eq, List, String, arith}
use clsp.Json.{JsonLib, JsonLaws, IsUint32}
use clsp.Json.Decode.{find-fields, is_object-fields}
use clsp.Text.{Position, Range}
use clsp.Protocol.{position_from_json, range_from_json}
use clsp.Protocol.Reading.{Reads}
use clsp.Protocol.Diagnostics.{position_to_json, range_to_json}

-- A position whose numbers fit `uint32_t`.
abbrev pub Fits : Position → Type 0
Fits p = IsUint32 p.line × IsUint32 p.character

abbrev pub FitsRange : Range → Type 0
FitsRange r = Fits r.start × Fits r.end

module _ (J : JsonLib) (H : JsonLaws J) where
  open J use {Json, find}

  pub Reads-position :
      (p : Position) → Fits p → Reads J (position_from_json J) (position_to_json J) p
  unfolding position_from_json position_to_json
  Reads-position p (hl, hc) =
      let d : List (String × Json) =
        ("line", J.of_uint p.line) ∷ ("character", J.of_uint p.character) ∷ [] in
      (
        ground (
          arith,
          find-fields J H "line" d,
          find-fields J H "character" d,
          H.get_uint-of_uint p.line hl,
          H.get_uint-of_uint p.character hc,
        ),
        H.is_null-object_of _
            (is_object-fields J H "line" _ (("character", J.of_uint p.character) ∷ [])),
      )

  pub Reads-range : (r : Range) → FitsRange r → Reads J (range_from_json J) (range_to_json J) r
  unfolding range_from_json range_to_json
  Reads-range r (hs, he) =
      let d : List (String × Json) =
        ("start", position_to_json J r.start) ∷ ("end", position_to_json J r.end) ∷ [] in
      (
        ground (
          arith,
          find-fields J H "start" d,
          find-fields J H "end" d,
          (Reads-position r.start hs).0,
          (Reads-position r.end he).0,
        ),
        H.is_null-object_of _
            (is_object-fields J H "start" _ (("end", position_to_json J r.end) ∷ [])),
      )
