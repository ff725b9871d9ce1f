-- ===== src/Json/Tree.antt =====
-- A concrete JSON library that meets the laws: values are trees, and a tree is written as numbers
-- from which it can be read back.
pub mod Chars
use clsp.Base.{
  ℕ, zero, suc, ◌+◌, ◌-◌, ◌*◌, ◌/◌, ◌%◌, ◌^◌, ◌≤◌, ◌<◌, String, ◌<>◌, ◌≡◌, refl, sym, ap, ◌∙◌,
  subst, ◌≢◌, ◌↔◌, ◌⊎◌, inl, inr, Bool, true, false, not, ◌&&◌, ◌||◌, Option, none, some, List, [],
  ◌∷◌, ◌++◌, map, append_assoc, append-nil, arith, ltb, leb, ◌=ℕ=◌, if◌then◌else◌, ltb→lt, lt→ltb,
  Bool-cases, Option-cases, is_some, Bytes, codes, length, get_elem?, set, take, drop, replicate,
  length-append, take-append-drop, length-take, length-drop, take_all, drop_all, take-append,
  drop-append, All, All-append, Eq, ◌==◌, string_eq, ==_refl, ==_ne,
}
use clsp.Base.Int.{ℤ, pos, negsuc}
use clsp.Errors.{other, Result, ok, err, Exception, plain}
use clsp.Json.{JsonLib, JsonLaws, IsInt}
use clsp.Json.Tree.Chars.{
  encode_string, decode_string, decode_string-encode_string, encode_bytes, decode_bytes,
  decode_bytes-encode_bytes,
}

pub data Tree : Type 0 where
  null nil_array empty_object : Tree
  bool : Bool → Tree
  int : ℤ → Tree
  string : String → Tree
  bytes : Bytes → Tree
  cons_array : Tree → Tree → Tree
  field : String → Tree → Tree → Tree

unfoldable pub find : String → Tree → Option Tree
find k (field i v r) = if i == k then some v else find k r
find k _ = none

unfoldable pub assign : Tree → String → Tree → Tree
assign (field i w r) k v = if i == k then field i v r else field i w (assign r k v)
assign _ k v = field k v empty_object

unfoldable pub is_object : Tree → Bool
is_object empty_object = true
is_object (field i v r) = true
is_object _ = false

unfoldable pub is_array : Tree → Bool
is_array nil_array = true
is_array (cons_array h t) = true
is_array _ = false

unfoldable pub items : Tree → List Tree
items (cons_array h t) = h ∷ items t
items _ = []

unfoldable pub of_list : List Tree → Tree
of_list [] = nil_array
of_list (x ∷ xs) = cons_array x (of_list xs)

unfoldable pub encode : Tree → Bytes
encode null = 0 ∷ []
encode nil_array = 1 ∷ []
encode empty_object = 2 ∷ []
encode (bool true) = 3 ∷ []
encode (bool false) = 4 ∷ []
encode (int (pos n)) = 5 ∷ n ∷ []
encode (int (negsuc n)) = 6 ∷ n ∷ []
encode (string s) = 7 ∷ encode_string s
encode (bytes b) = 8 ∷ encode_bytes b
encode (cons_array h t) = 9 ∷ (encode h ++ encode t)
encode (field k v r) = 10 ∷ (encode_string k ++ (encode v ++ encode r))

infixl 5 ◌>>=◌
abbrev ◌>>=◌ : {A B : Type 0} → Option A → (A → Option B) → Option B
none >>= f = none
some a >>= f = f a

-- The tree behind the tag `n`.
read_tagged : (Bytes → Option (Tree × Bytes)) → ℕ → Bytes → Option (Tree × Bytes)
read_tagged read n b =
    if n =ℕ= 0
    then some (null, b)
    else if n =ℕ= 1
    then some (nil_array, b)
    else if n =ℕ= 2
    then some (empty_object, b)
    else if n =ℕ= 3
    then some (bool true, b)
    else if n =ℕ= 4
    then some (bool false, b)
    else if n =ℕ= 5
    then elim b [ [] ↦ none | m ∷ rest ↦ some (int (pos m), rest) ]
    else if n =ℕ= 6
    then elim b [ [] ↦ none | m ∷ rest ↦ some (int (negsuc m), rest) ]
    else if n =ℕ= 7
    then (decode_string b >>= λ (s, rest). some (string s, rest))
    else if n =ℕ= 8
    then (decode_bytes b >>= λ (s, rest). some (bytes s, rest))
    else if n =ℕ= 9
    then (read b >>= λ (h, b'). read b' >>= λ (t, rest). some (cons_array h t, rest))
    else (decode_string b >>= λ (k, b').
        read b' >>= λ (v, b''). read b'' >>= λ (r, rest). some (field k v r, rest))

unfoldable pub decode : ℕ → Bytes → Option (Tree × Bytes)
unfolding read_tagged
decode zero b = none
decode (suc fuel) [] = none
decode (suc fuel) (n ∷ b) = read_tagged (decode fuel) n b

decode-encode :
    (t : Tree) (fuel : ℕ) (rest : Bytes)
    → length (encode t) ≤ fuel
    → decode fuel (encode t ++ rest) ≡ some (t, rest)
unfolding decode encode
decode-encode null zero rest h = absurd (omega arith)
decode-encode null (suc fuel) rest h = refl
decode-encode nil_array zero rest h = absurd (omega arith)
decode-encode nil_array (suc fuel) rest h = refl
decode-encode empty_object zero rest h = absurd (omega arith)
decode-encode empty_object (suc fuel) rest h = refl
decode-encode (bool true) zero rest h = absurd (omega arith)
decode-encode (bool true) (suc fuel) rest h = refl
decode-encode (bool false) zero rest h = absurd (omega arith)
decode-encode (bool false) (suc fuel) rest h = refl
decode-encode (int (pos n)) zero rest h = absurd (omega arith)
decode-encode (int (pos n)) (suc fuel) rest h = refl
decode-encode (int (negsuc n)) zero rest h = absurd (omega arith)
decode-encode (int (negsuc n)) (suc fuel) rest h = refl
decode-encode (string s) zero rest h = absurd (omega arith)
decode-encode (string s) (suc fuel) rest h = rw (decode_string-encode_string s rest) refl
decode-encode (bytes s) zero rest h = absurd (omega arith)
decode-encode (bytes s) (suc fuel) rest h = rw (decode_bytes-encode_bytes s rest) refl
decode-encode (cons_array x y) zero rest h = absurd (omega arith)
decode-encode (cons_array x y) (suc fuel) rest h =
    let n = length-append (encode x) (encode y) in
    rw append_assoc (
      rw (decode-encode x fuel (encode y ++ rest) (omega (arith, h)))
        (rw (decode-encode y fuel rest (omega (arith, h))) refl))
decode-encode (field k v r) zero rest h = absurd (omega arith)
decode-encode (field k v r) (suc fuel) rest h =
    let n = length-append (encode_string k) (encode v ++ encode r) in
    let m = length-append (encode v) (encode r) in
    rw (append_assoc (encode_string k), append_assoc (encode v))
      (rw (decode_string-encode_string k (encode v ++ (encode r ++ rest))) (
        rw (decode-encode v fuel (encode r ++ rest) (omega (arith, h)))
          (rw (decode-encode r fuel rest (omega (arith, h))) refl)))

-- The whole text is one tree.
whole : Option (Tree × Bytes) → Option Tree
whole (some (t, [])) = some t
whole _ = none

unfoldable pub parse : Bytes → Option Tree
unfolding decode whole
parse b = whole (decode (length b) b)

parse-encode : (t : Tree) → parse (encode t) ≡ some t
unfolding parse whole
parse-encode t =
    let e : decode (length (encode t)) (encode t) ≡ some (t, []) =
      rw append-nil at (decode-encode t (length (encode t)) [] (omega arith)) in
    rw (e, whole) refl

abbrev type_error : Exception
type_error = other (plain "type_error")

-- A number out of the range of `int` is cut.
abbrev narrow : ℤ → ℤ
narrow (pos n) = pos (n % 2 ^ 31)
narrow (negsuc n) = negsuc (n % 2 ^ 31)

unfoldable pub get_int : Tree → Result ℤ
get_int (int z) = ok (narrow z)
get_int _ = err type_error

unfoldable pub get_uint : Tree → Result ℕ
get_uint (int (pos n)) = ok n
get_uint _ = err type_error

unfoldable pub get_bool : Tree → Result Bool
get_bool (bool b) = ok b
get_bool _ = err type_error

unfoldable pub get_string : Tree → Result String
get_string (string s) = ok s
get_string _ = err type_error

-- A text may stand as bytes, or as an ASCII string.
unfoldable pub get_text : Tree → Result Bytes
get_text (bytes b) = ok b
get_text (string s) = ok (codes s)
get_text _ = err type_error

unfoldable pub is_string : Tree → Bool
is_string (string s) = true
is_string _ = false

unfoldable pub is_null : Tree → Bool
is_null null = true
is_null _ = false

unfoldable pub is_number_integer : Tree → Bool
is_number_integer (int z) = true
is_number_integer _ = false

abbrev pub tree_lib : JsonLib
tree_lib = record {
  Json = Tree;
  parse = λ b. ok (parse b);
  dump = λ t. ok (encode t);
  is_object = is_object;
  is_array = is_array;
  is_string = is_string;
  is_null = is_null;
  is_number_integer = is_number_integer;
  find = find;
  at_error = λ k t. other (plain k);
  array_error = λ t. type_error;
  items = items;
  get_int = get_int;
  get_uint = get_uint;
  get_bool = get_bool;
  get_string = get_string;
  get_text = get_text;
  null = null;
  object = empty_object;
  of_int = int;
  of_uint = λ n. int (pos n);
  of_bool = bool;
  of_string = string;
  of_text = bytes;
  of_list = of_list;
  assign = assign;
}

find-assign :
    (t : Tree) (k i : String) (v : Tree)
    → find i (assign t k v) ≡ (if k == i then some v else find i t)
unfolding find assign
find-assign (field j w r) k i v = ground (
  arith,
  string_eq.same_iff j k,
  string_eq.same_iff k i,
  string_eq.same_iff j i,
  find-assign r k i v,
)
find-assign null k i v = refl
find-assign _ k i v = refl

is_object-assign : (t : Tree) (k : String) (v : Tree) → is_object (assign t k v) ≡ true
unfolding is_object assign
is_object-assign (field j w r) k v = ground arith
is_object-assign null k v = refl
is_object-assign _ k v = refl

get_string_total : (t : Tree) → is_string t ≡ true → (s : String) × (get_string t ≡ ok s)
unfolding is_string get_string
get_string_total (string s) h = (s, refl)
get_string_total null h = absurd (ground arith)
get_string_total _ h = absurd (ground arith)

get_int_total : (t : Tree) → is_number_integer t ≡ true → (z : ℤ) × (get_int t ≡ ok z)
unfolding is_number_integer get_int
get_int_total (int z) h = (narrow z, refl)
get_int_total null h = absurd (ground arith)
get_int_total _ h = absurd (ground arith)

narrow-IsInt : (z : ℤ) → IsInt (narrow z)
narrow-IsInt (pos n) = omega arith
narrow-IsInt (negsuc n) = omega arith

narrow_lem : (z : ℤ) → IsInt z → narrow z ≡ z
narrow_lem (pos n) h = ground arith
narrow_lem (negsuc n) h = ground arith

get_int-IsInt : (t : Tree) (z : ℤ) → get_int t ≡ ok z → IsInt z
unfolding get_int
get_int-IsInt (int y) z h = let e : narrow y ≡ z = cc in subst IsInt e (narrow-IsInt y)
get_int-IsInt null z h = absurd (ground arith)
get_int-IsInt _ z h = absurd (ground arith)

is_array-of_list : (ts : List Tree) → is_array (of_list ts) ≡ true
unfolding is_array of_list
is_array-of_list [] = refl
is_array-of_list (t ∷ ts) = refl

items-of_list : (ts : List Tree) → items (of_list ts) ≡ ts
unfolding items of_list
items-of_list [] = refl
items-of_list (t ∷ ts) = ap (◌∷◌ t) (items-of_list ts)

is_null-of_list : (ts : List Tree) → is_null (of_list ts) ≡ false
unfolding is_null of_list
is_null-of_list [] = refl
is_null-of_list (t ∷ ts) = refl

is_null-object_of : (t : Tree) → is_object t ≡ true → is_null t ≡ false
unfolding is_null is_object
is_null-object_of null h = absurd (ground arith)
is_null-object_of _ h = refl

is_string-object_of : (t : Tree) → is_object t ≡ true → is_string t ≡ false
unfolding is_string is_object
is_string-object_of (string s) h = absurd (ground arith)
is_string-object_of _ h = refl

pub tree_laws : JsonLaws tree_lib
unfolding is_object is_null find is_string is_number_integer get_string get_int get_uint get_bool
    is_array
tree_laws = record {
  IsText = λ t. Unit {0};
  dump_text = λ t _. (encode t, refl, ap ok (parse-encode t));
  Unwritable = λ t. ⊥;
  dump_unwritable = λ t e. absurd e;
  of_text-cases = λ b. inl tt;
  find-Unwritable = λ k t v _ e. e;
  null-IsText = tt;
  of_int-IsText = λ z. tt;
  of_string-IsText = λ s. tt;
  assign-IsText = λ t k v _ _ _. tt;
  parse-IsText = λ b t _. tt;
  find-IsText = λ k t v _ _. tt;
  is_null-null = refl;
  is_object-object = refl;
  find-null = λ k. refl;
  find-object = λ k. refl;
  is_object-assign = λ t k v _. is_object-assign t k v;
  find-assign = λ t k i v _. find-assign t k i v;
  is_string-of_string = λ s. refl;
  get_string-of_string = λ s. refl;
  is_number_integer-of_string = λ s. refl;
  is_number_integer-of_int = λ z. refl;
  get_int-of_int = λ z h. ap ok (narrow_lem z h);
  get_int-IsInt = get_int-IsInt;
  of_bool-IsText = λ b. tt;
  of_uint-IsText = λ n. tt;
  object-IsText = tt;
  of_list-IsText = λ js h. tt;
  is_string-null = refl;
  is_number_integer-null = refl;
  get_string_total = get_string_total;
  get_int_total = get_int_total;
  get_uint-of_uint = λ n h. refl;
  get_bool-of_bool = λ b. refl;
  is_array-of_list = is_array-of_list;
  items-of_list = items-of_list;
  is_null-of_string = λ s. refl;
  is_null-of_int = λ z. refl;
  is_null-of_bool = λ b. refl;
  is_null-of_list = is_null-of_list;
  is_null-object_of = is_null-object_of;
  is_string-object_of = is_string-object_of;
}

pub IsText_tree : (t : Tree) → tree_laws.IsText t
unfolding tree_laws
IsText_tree t = tt
