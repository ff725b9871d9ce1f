-- ===== src/Json.antt =====
-- nlohmann::json, which the code calls and does not define: its operations as a record, and what
-- its documentation promises of them as the record of laws `JsonLaws`. `Json/Tree.antt` shows
-- that the laws can be met.
pub mod Decode
pub mod Fields
pub mod Tree
use clsp.Base.{
  All, ℕ, ◌≤◌, ◌<◌, ◌^◌, String, Bytes, ◌≡◌, ◌⊎◌, Bool, true, false, ◌||◌, Option, none, some, List,
  [], ◌∷◌, if◌then◌else◌, ◌==◌, string_eq,
}
use clsp.Base.Int.{ℤ, pos, negsuc}
use clsp.Errors.{Exception, Result, ok, err, Message, plain, octets}

pub record JsonLib : Type 1 where
  pub Json : Type 0
  -- `json::parse`: `ok none` for a `parse_error`, `err` for another exception, which it throws
  -- where a number is out of range (`out_of_range.406`)
  pub parse : Bytes → Result (Option Json)
  -- `dump()` throws where a string inside is not UTF-8.
  pub dump : Json → Result Bytes
  pub is_object : Json → Bool
  pub is_array : Json → Bool
  pub is_string : Json → Bool
  pub is_null : Json → Bool
  pub is_number_integer : Json → Bool
  -- `j.find(k)`, `none` for `end()`, also where `j` is no object
  pub find : String → Json → Option Json
  -- what `j.at(k)` throws
  pub at_error : String → Json → Exception
  -- what `j.get<std::vector<T>>()` throws where `j` is no array
  pub array_error : Json → Exception
  -- what `for (const auto& x : j)` walks
  pub items : Json → List Json
  pub get_int : Json → Result ℤ
  pub get_uint : Json → Result ℕ
  pub get_bool : Json → Result Bool
  pub get_string : Json → Result String
  -- `get<std::string>()` of document text
  pub get_text : Json → Result Bytes
  pub null : Json
  pub object : Json
  pub of_int : ℤ → Json
  pub of_uint : ℕ → Json
  pub of_bool : Bool → Json
  pub of_string : String → Json
  pub of_text : Bytes → Json
  pub of_list : List Json → Json
  -- `j[k] = v` on a null value or an object
  pub assign : Json → String → Json → Json

-- The values of `int` and of `uint32_t`.
abbrev pub IsInt : ℤ → Type 0
IsInt (pos n) = n < 2 ^ 31
IsInt (negsuc n) = n < 2 ^ 31

abbrev pub IsUint32 : ℕ → Type 0
IsUint32 n = n < 2 ^ 32

module _ (J : JsonLib) where
  open J use {Json, find, at_error, assign}

  -- `j.contains(k)`
  abbrev pub contains : Json → String → Bool
  contains j k = elim (find k j) [ none ↦ false | some v ↦ true ]

  -- `j.at(k)`
  abbrev pub at : Json → String → Result Json
  at j k = elim (find k j) [ none ↦ err (at_error k j) | some v ↦ ok v ]

  -- `json{{k, v}, …}`
  abbrev pub assign_all : Json → List (String × Json) → Json
  assign_all j [] = j
  assign_all j ((k, v) ∷ rest) = assign_all (assign j k v) rest

  -- `json(std::string)`
  unfoldable pub of_message : Message → Json
  of_message (plain s) = J.of_string s
  of_message (octets b) = J.of_text b

  -- A value that takes `j[k] = v`: null, or an object.
  abbrev pub IsRecord : Json → Type 0
  IsRecord j = (J.is_null j || J.is_object j) ≡ true

-- The documented behaviour that the proofs rely on. `IsText j` says that `j` holds no string that
-- is not UTF-8 and no number that JSON cannot write.
pub record JsonLaws (J : JsonLib) : Type 1 where
  pub IsText : J.Json → Type 0
  pub dump_text :
      (j : J.Json) → IsText j → (t : Bytes) × (J.dump j ≡ ok t) × (J.parse t ≡ ok (some j))
  pub null-IsText : IsText J.null
  pub of_int-IsText : (z : ℤ) → IsText (J.of_int z)
  pub of_string-IsText : (s : String) → IsText (J.of_string s)
  pub of_bool-IsText : (b : Bool) → IsText (J.of_bool b)
  pub of_uint-IsText : (n : ℕ) → IsText (J.of_uint n)
  pub object-IsText : IsText J.object
  pub of_list-IsText : (js : List J.Json) → All IsText js → IsText (J.of_list js)
  pub assign-IsText :
      (j : J.Json) (k : String) (v : J.Json)
      → IsRecord J j
      → IsText j
      → IsText v
      → IsText (J.assign j k v)
  pub parse-IsText : (t : Bytes) (j : J.Json) → J.parse t ≡ ok (some j) → IsText j
  -- `Unwritable j` says that `j` holds a string that is not UTF-8: `dump()` throws on it.
  pub Unwritable : J.Json → Type 0
  pub dump_unwritable : (j : J.Json) → Unwritable j → (x : Exception) × (J.dump j ≡ err x)
  pub of_text-cases : (b : Bytes) → IsText (J.of_text b) ⊎ Unwritable (J.of_text b)
  pub find-Unwritable :
      (k : String) (j v : J.Json) → J.find k j ≡ some v → Unwritable v → Unwritable j
  pub find-IsText : (k : String) (j v : J.Json) → IsText j → J.find k j ≡ some v → IsText v
  pub is_null-null : J.is_null J.null ≡ true
  pub is_object-object : J.is_object J.object ≡ true
  pub find-null : (k : String) → J.find k J.null ≡ none
  pub find-object : (k : String) → J.find k J.object ≡ none
  pub is_object-assign :
      (j : J.Json) (k : String) (v : J.Json) → IsRecord J j → J.is_object (J.assign j k v) ≡ true
  pub find-assign :
      (j : J.Json) (k i : String) (v : J.Json)
      → IsRecord J j
      → J.find i (J.assign j k v) ≡ (if k == i then some v else J.find i j)
  pub is_string-of_string : (s : String) → J.is_string (J.of_string s) ≡ true
  pub get_string-of_string : (s : String) → J.get_string (J.of_string s) ≡ ok s
  pub is_number_integer-of_string : (s : String) → J.is_number_integer (J.of_string s) ≡ false
  pub is_number_integer-of_int : (z : ℤ) → J.is_number_integer (J.of_int z) ≡ true
  pub get_int-of_int : (z : ℤ) → IsInt z → J.get_int (J.of_int z) ≡ ok z
  pub is_string-null : J.is_string J.null ≡ false
  pub is_number_integer-null : J.is_number_integer J.null ≡ false
  -- Conversions that a test of the kind has secured do not throw.
  pub get_string_total :
      (j : J.Json) → J.is_string j ≡ true → (s : String) × (J.get_string j ≡ ok s)
  pub get_int_total : (j : J.Json) → J.is_number_integer j ≡ true → (z : ℤ) × (J.get_int j ≡ ok z)
  -- `get<int>()` returns an `int`, also where the number is out of range.
  pub get_int-IsInt : (j : J.Json) (z : ℤ) → J.get_int j ≡ ok z → IsInt z
  pub get_uint-of_uint : (n : ℕ) → IsUint32 n → J.get_uint (J.of_uint n) ≡ ok n
  pub get_bool-of_bool : (b : Bool) → J.get_bool (J.of_bool b) ≡ ok b
  pub is_array-of_list : (js : List J.Json) → J.is_array (J.of_list js) ≡ true
  pub items-of_list : (js : List J.Json) → J.items (J.of_list js) ≡ js
  -- A value is of one kind only.
  pub is_null-of_string : (s : String) → J.is_null (J.of_string s) ≡ false
  pub is_null-of_int : (z : ℤ) → J.is_null (J.of_int z) ≡ false
  pub is_null-of_bool : (b : Bool) → J.is_null (J.of_bool b) ≡ false
  pub is_null-of_list : (js : List J.Json) → J.is_null (J.of_list js) ≡ false
  pub is_null-object_of : (j : J.Json) → J.is_object j ≡ true → J.is_null j ≡ false
  pub is_string-object_of : (j : J.Json) → J.is_object j ≡ true → J.is_string j ≡ false
