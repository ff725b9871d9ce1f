-- ===== src/Json/Decode.antt =====
-- Objects that are built key by key, and what they hold.
use clsp.Base.{
  String, ◌≡◌, refl, Bool, true, ◌||◌, Option, none, some, List, [], ◌∷◌, if◌then◌else◌, arith,
  ◌==◌, string_eq,
}
use clsp.Json.{JsonLib, JsonLaws, IsRecord, assign_all}

-- The last entry of a key wins.
abbrev pub read {ℓ} : {A : Type ℓ} → String → List (String × A) → Option A → Option A
read k [] o = o
read k ((i, v) ∷ d) o = read k d (if i == k then some v else o)

true_right : (a b : Bool) → b ≡ true → (a || b) ≡ true
true_right a b h = ground arith

module _ (J : JsonLib) (H : JsonLaws J) where
  open J use {Json, null, object, assign, find}

  pub null-IsRecord : IsRecord J null
  null-IsRecord = ground (arith, H.is_null-null)

  pub object-IsRecord : IsRecord J object
  object-IsRecord = true_right _ _ H.is_object-object

  pub assign-IsRecord :
      (j : Json) (k : String) (v : Json) → IsRecord J j → IsRecord J (assign j k v)
  assign-IsRecord j k v r = true_right _ _ (H.is_object-assign j k v r)

  find-assign_all :
      (k : String) (d : List (String × Json)) (j : Json)
      → IsRecord J j
      → find k (assign_all J j d) ≡ read k d (find k j)
  find-assign_all k [] j r = refl
  find-assign_all k ((i, v) ∷ d) j r =
      rw (find-assign_all k d (assign j i v) (assign-IsRecord j i v r), H.find-assign j i k v r)

  -- What a freshly built object holds under a key.
  pub find-fields :
      (k : String) (d : List (String × Json)) → find k (assign_all J null d) ≡ read k d none
  find-fields k d = rw (find-assign_all k d null null-IsRecord, H.find-null k)

  is_object-assign_all :
      (d : List (String × Json)) (j : Json)
      → J.is_object j ≡ true
      → J.is_object (assign_all J j d) ≡ true
  is_object-assign_all [] j h = h
  is_object-assign_all ((i, v) ∷ d) j h =
      is_object-assign_all d (assign j i v) (H.is_object-assign j i v (true_right _ _ h))

  pub is_object-fields :
      (i : String) (v : Json) (d : List (String × Json))
      → J.is_object (assign_all J null ((i, v) ∷ d)) ≡ true
  is_object-fields i v d =
      is_object-assign_all d (assign null i v) (H.is_object-assign null i v null-IsRecord)

  abbrev pub AllText : List (String × Json) → Type 0
  AllText [] = Unit
  AllText ((k, v) ∷ d) = H.IsText v × AllText d

  assign_all-IsText :
      (d : List (String × Json)) (j : Json)
      → IsRecord J j
      → H.IsText j
      → AllText d
      → H.IsText (assign_all J j d)
  assign_all-IsText [] j r h a = h
  assign_all-IsText ((k, v) ∷ d) j r h (hv, a) =
      assign_all-IsText d (assign j k v) (assign-IsRecord j k v r) (H.assign-IsText j k v r h hv) a

  pub fields-IsText : (d : List (String × Json)) → AllText d → H.IsText (assign_all J null d)
  fields-IsText d a = assign_all-IsText d null null-IsRecord H.null-IsText a
