-- ===== src/Json/Fields.antt =====
-- Objects that are built of fields that may be missing, and what they hold.
use clsp.Base.{
  String, ◌≡◌, refl, true, Option, none, some, List, [], ◌∷◌, arith, if◌then◌else◌, ◌==◌, string_eq,
  false,
}
use clsp.Errors.{ok}
use clsp.Json.{at, JsonLib, JsonLaws, IsRecord}
use clsp.Json.Decode.{assign-IsRecord, object-IsRecord}

-- `if (o) j[k] = *o;` for each field
abbrev pub or_else {ℓ} : {A : Type ℓ} → Option A → Option A → Option A
or_else none o = o
or_else (some a) o = some a

-- The last field of a key that is there wins.
abbrev pub holds {ℓ} : {A : Type ℓ} → String → List (String × Option A) → Option A → Option A
holds k [] o = o
holds k ((i, a) ∷ d) o = holds k d (if i == k then or_else a o else o)

module _ (J : JsonLib) where
  open J use {Json, assign}

  abbrev pub put : String → Option Json → Json → Json
  put k none j = j
  put k (some v) j = assign j k v

  abbrev pub puts : List (String × Option Json) → Json → Json
  puts [] j = j
  puts ((k, o) ∷ d) j = puts d (put k o j)

  module _ (H : JsonLaws J) where
    put-IsRecord : (k : String) (o : Option Json) (j : Json) → IsRecord J j → IsRecord J (put k o j)
    put-IsRecord k none j r = r
    put-IsRecord k (some v) j r = assign-IsRecord J H j k v r

    find-put :
        (i k : String) (o : Option Json) (j : Json)
        → IsRecord J j
        → J.find i (put k o j) ≡ (if k == i then or_else o (J.find i j) else J.find i j)
    find-put i k none j r = ground arith
    find-put i k (some v) j r = H.find-assign j k i v r

    find-puts :
        (i : String) (d : List (String × Option Json)) (j : Json)
        → IsRecord J j
        → J.find i (puts d j) ≡ holds i d (J.find i j)
    find-puts i [] j r = refl
    find-puts i ((k, o) ∷ d) j r =
        rw (find-puts i d (put k o j) (put-IsRecord k o j r), find-put i k o j r) refl

    -- What an object holds under a key.
    pub find-puts_object :
        (i : String) (d : List (String × Option Json)) → J.find i (puts d J.object) ≡ holds i d none
    find-puts_object i d = rw (find-puts i d J.object (object-IsRecord J H), H.find-object i) refl

    is_object-puts :
        (d : List (String × Option Json)) (j : Json)
        → J.is_object j ≡ true
        → J.is_object (puts d j) ≡ true
    is_object-puts [] j h = h
    is_object-puts ((k, none) ∷ d) j h = is_object-puts d j h
    is_object-puts ((k, some v) ∷ d) j h =
        is_object-puts d (assign j k v) (H.is_object-assign j k v (ground (arith, h)))

    pub is_object-puts_object :
        (d : List (String × Option Json)) → J.is_object (puts d J.object) ≡ true
    is_object-puts_object d = is_object-puts d J.object H.is_object-object

    pub is_null-puts_object :
        (d : List (String × Option Json)) → J.is_null (puts d J.object) ≡ false
    is_null-puts_object d = H.is_null-object_of _ (is_object-puts_object d)

    pub at-puts_object :
        (d : List (String × Option Json)) (k : String) (v : Json)
        → holds k d none ≡ some v
        → at J (puts d J.object) k ≡ ok v
    at-puts_object d k v e = ground (arith, find-puts_object k d, e)
