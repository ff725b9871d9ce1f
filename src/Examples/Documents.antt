-- ===== src/Examples/Documents.antt =====
-- Documents, URIs, tokens and frames.
use mathlib.Core.List.{Perm}
use clsp.Base.{
  ◌≤◌, ◌≡◌, refl, ◌≢◌, false, none, some, [], ◌∷◌, ◌++◌, arith, if◌then◌else◌, codes, string_eq,
  Bytes, Option, ℕ, map, ◌=ℕ=◌,
}
use clsp.Base.Dict.{lookup}
use clsp.Base.Int.{pos}
use clsp.Errors.{ok}
use clsp.Text.{utf8, utf16, position_to_offset, seek_character}
use clsp.Text.Place.{Place, IsPlace, position, render, position_to_offset-position}
use clsp.Text.Bounds.{position_to_offset-le, seek_character-Seeks, Seeks}
use clsp.Text.Unicode.{width_all, encode_all, encode}
use clsp.Store.{
  TextDocumentItem, TextDocumentChangeEvent, DocumentStore, apply_one, apply_all, get, apply_change,
  VersionedTextDocumentIdentifier,
}
use clsp.Store
use clsp.Store.Edit.{apply_one-edit, apply_all_total}
use clsp.Store.Map.{apply_change-apply_change}
use clsp.Store.Refine.{opens, changes, perform_all, specify_all, get-perform_all}
use clsp.Uri.{PathLib, percent_encode, percent_decode, to_path, from_path, is_alpha}
use clsp.Uri.Codec.{percent_decode-percent_encode}
use clsp.Uri.Paths.{to_path-from_path, to_path-from_path_drive, is_slash_drive}
use clsp.Tokens.{Token, build, clear}
use clsp.Tokens.Relative.{absolute, Ordered}
use clsp.Tokens.Sorted.{absolute-build, push_all, non_empty}
use clsp.Transport.{read_message, send_message, message}
use clsp.Transport.Framing.{read_message-send_message}
use clsp.Transport.Eof.{read_message_eof}

-- A line `a`, and on the next line U+1F600, which takes two units of UTF-16, and `b`.
abbrev before_smile : Place
before_smile = record { lines = (97 ∷ []) ∷ []; chars = [] }

abbrev behind_smile : Place
behind_smile = record { lines = (97 ∷ []) ∷ []; chars = 0x1F600 ∷ [] }

before_smile-IsPlace : IsPlace utf16 before_smile
unfolding render width_all encode_all
before_smile-IsPlace = record {
  lines = (((omega arith, λ e. absurd (omega (arith, e))), tt), tt);
  chars = tt;
  character = omega arith;
  size = omega arith;
}

behind_smile-IsPlace : IsPlace utf16 behind_smile
unfolding render width_all encode_all
behind_smile-IsPlace = record {
  lines = (((omega arith, λ e. absurd (omega (arith, e))), tt), tt);
  chars = ((omega arith, λ e. absurd (omega (arith, e))), tt);
  character = omega arith;
  size = omega arith;
}

position_to_offset-position_example :
    position_to_offset utf16 (render behind_smile ++ codes "b") (record { line = 1; character = 2 })
    ≡ 6
unfolding position render width_all encode_all
position_to_offset-position_example =
    position_to_offset-position utf16 behind_smile (codes "b") behind_smile-IsPlace

abbrev replace_smile : TextDocumentChangeEvent
replace_smile = record {
  range = some (record {
    start = record { line = 1; character = 0 };
    end = record { line = 1; character = 2 };
  });
  text = codes "xy";
}

apply_one-edit_example :
    apply_one utf16 (render behind_smile ++ codes "b") replace_smile
    ≡ ok (codes "a" ++ 10 ∷ codes "xyb")
unfolding position render width_all encode_all encode
apply_one-edit_example =
    apply_one-edit utf16 before_smile behind_smile (encode 0x1F600) (codes "b") (codes "xy")
      before_smile-IsPlace behind_smile-IsPlace refl

utf16_not_utf8 : utf16 ≢ utf8
utf16_not_utf8 e = cc

apply_all_total_example :
    (apply_all utf16 (codes "ab") (replace_smile ∷ replace_smile ∷ [])).1 ≡ none
apply_all_total_example =
    apply_all_total utf16 (codes "ab") (replace_smile ∷ replace_smile ∷ []) utf16_not_utf8

position_to_offset-le_example :
    position_to_offset utf16 (codes "ab") (record { line = 9; character = 9 }) ≤ 2
position_to_offset-le_example =
    position_to_offset-le utf16 (codes "ab") (record { line = 9; character = 9 }) utf16_not_utf8

seek_character-Seeks_example :
    Seeks (codes "abc") utf16 2 0 0 (seek_character 3 (codes "abc") utf16 2 0 0)
seek_character-Seeks_example = seek_character-Seeks 3 (codes "abc") utf16 2 0 0 (omega arith)

abbrev doc : TextDocumentItem
doc = record { uri = "file:///a"; language_id = "c"; version = pos 1; text = codes "old" }

abbrev whole : TextDocumentChangeEvent
whole = record { range = none; text = codes "new" }

abbrev new_version : VersionedTextDocumentIdentifier
new_version = record { uri = "file:///a"; version = pos 2 }

abbrev store : DocumentStore
store = record { documents = ("file:///a", doc) ∷ []; encoding = utf16 }

abbrev appended : TextDocumentChangeEvent
appended = record {
  range = some (record {
    start = record { line = 0; character = 3 };
    end = record { line = 0; character = 3 };
  });
  text = codes "er";
}

apply_change-apply_change_example :
    (get "file:///a" (apply_change new_version (whole ∷ []) store).0
      ≡ some (record doc { text = codes "new"; version = pos 2 }))
    × ((o : Option TextDocumentItem)
        → (apply_change new_version
            (appended ∷ [])
            (apply_change new_version (whole ∷ []) store).0).1
          ≡ ok o
        → apply_change new_version (whole ∷ appended ∷ []) store
          ≡ apply_change new_version
              (appended ∷ [])
              (apply_change new_version (whole ∷ []) store).0)
unfolding get apply_one lookup
apply_change-apply_change_example =
    apply_change-apply_change new_version whole (appended ∷ []) store doc (codes "new") refl refl

get-perform_all_example :
    get "file:///a" (perform_all (opens doc ∷ changes new_version (whole ∷ []) ∷ []) Store.make)
    ≡ some (record doc { text = codes "new"; version = pos 2 })
unfolding specify_all get
get-perform_all_example =
    get-perform_all (opens doc ∷ changes new_version (whole ∷ []) ∷ []) Store.make "file:///a"

percent_decode-percent_encode_example :
    percent_decode (percent_encode (32 ∷ 233 ∷ [])) ≡ 32 ∷ 233 ∷ []
percent_decode-percent_encode_example =
    percent_decode-percent_encode (32 ∷ 233 ∷ []) (omega arith, (omega arith, tt))

-- Paths of a platform whose preferred separator is the backslash.
abbrev forward : ℕ → ℕ
forward c = if c =ℕ= 92 then 47 else c

abbrev windows : PathLib
windows = record {
  FilePath = Bytes;
  empty = [];
  of_string = λ s. s;
  generic_string = λ s. map forward s;
}

to_path-from_path_example :
    to_path windows (from_path windows (codes "/a " ++ 92 ∷ codes "b")) ≡ codes "/a /b"
unfolding is_slash_drive is_alpha
to_path-from_path_example =
    to_path-from_path windows (codes "/a " ++ 92 ∷ codes "b") (codes "a /b") refl
      (omega arith, (omega arith, (omega arith, (omega arith, tt)))) refl

to_path-from_path_drive_example :
    to_path windows (from_path windows (codes "C:" ++ 92 ∷ codes "x")) ≡ codes "C:/x"
unfolding is_alpha
to_path-from_path_drive_example =
    to_path-from_path_drive windows (codes "C:" ++ 92 ∷ codes "x") b'C' (codes "/x") refl
      (omega arith, (omega arith, tt)) refl (omega arith)

abbrev first_token : Token
first_token = record { line = 0; start_char = 4; length = 2; token_type = 1; token_modifiers = 0 }

abbrev second_token : Token
second_token = record { line = 2; start_char = 1; length = 3; token_type = 0; token_modifiers = 1 }

abbrev empty_token : Token
empty_token = record { line = 1; start_char = 0; length = 0; token_type = 0; token_modifiers = 0 }

absolute-build_example :
    Perm
      (absolute 0 0 (build (push_all (second_token ∷ empty_token ∷ first_token ∷ []) (clear []))))
      (second_token ∷ first_token ∷ [])
    × Ordered 0 0
        (absolute 0 0 (build (push_all (second_token ∷ empty_token ∷ first_token ∷ []) (clear []))))
unfolding non_empty
absolute-build_example =
    absolute-build (second_token ∷ empty_token ∷ first_token ∷ []) []
      ((omega arith, omega arith), ((omega arith, omega arith), tt))

read_message-send_message_example :
    read_message 40 0 (record { rest = send_message (codes "{}") [] ++ codes "C"; failed = false })
    ≡ some (message (codes "{}"), record { rest = codes "C"; failed = false })
unfolding send_message
read_message-send_message_example =
    read_message-send_message (codes "{}") (codes "C") 40 0 (omega arith) (omega arith)

read_message_eof_example : read_message 100 7 (record { rest = []; failed = false }) ≡ none
read_message_eof_example = read_message_eof 100 7
