-- ===== src/Protocol/Reading.antt =====
-- Reading back what was written, field by field.
use clsp.Base.{
  String, ◌≡◌, refl, Bool, false, Option, none, some, List, [], ◌∷◌, map, All, string_eq, AllOption,
  AllOption-all, AllOption-map, ◌∙◌,
}
use clsp.Errors.{Result, ok}
use clsp.Base.Int.{ℤ}
use clsp.Json.{JsonLib, JsonLaws, IsInt}
use clsp.Json.Fields.{holds, puts, find-puts_object, put, or_else}
use clsp.Protocol.{read_optional, put_optional, traverse, get_list}

module _ (J : JsonLib) where
  open J use {Json, find}

  abbrev pub written : {A : Type 0} → (A → Json) → Option A → Option Json
  written g none = none
  written g (some a) = some (g a)

  pub put_optional_lem :
      {A : Type 0}
      → (g : A → Json) (k : String) (a : Option A) (j : Json)
      → put_optional J g k a j ≡ put J k (written g a) j
  unfolding put_optional
  put_optional_lem g k none j = refl
  put_optional_lem g k (some a) j = refl

  -- What `g` writes, `f` reads; and it is not null.
  abbrev pub Reads : {A : Type 0} → (Json → Result A) → (A → Json) → A → Type 0
  Reads f g a = (f (g a) ≡ ok a) × (J.is_null (g a) ≡ false)

  pub read_optional-written :
      {A : Type 0}
      → (f : Json → Result A) (g : A → Json) (k : String) (j : Json) (a : Option A)
      → find k j ≡ or_else (written g a) none
      → AllOption (Reads f g) a
      → read_optional J f k j ≡ ok a
  unfolding read_optional
  read_optional-written f g k j none e h = rw (e, read_optional) refl
  read_optional-written f g k j (some a) e (h, n) = rw (e, n, h, read_optional) refl

  pub traverse-map :
      {A : Type 0}
      → (f : Json → Result A) (g : A → Json) (as' : List A) → All (Reads f g) as'
      → traverse J f (map g as') ≡ ok as'
  unfolding traverse
  traverse-map f g [] h = refl
  traverse-map f g (a ∷ as') ((h, n), rest) = rw (h, traverse-map f g as' rest) refl

  module _ (H : JsonLaws J) where
    pub get_list-map :
        {A : Type 0}
        → (f : Json → Result A) (g : A → Json) (as' : List A) → All (Reads f g) as'
        → Reads (get_list J f) (λ xs. J.of_list (map g xs)) as'
    unfolding get_list
    get_list-map f g as' h = (
      rw (H.is_array-of_list (map g as'), H.items-of_list (map g as')) (traverse-map f g as' h),
      H.is_null-of_list (map g as'),
    )

    pub Reads-string : (s : String) → Reads J.get_string J.of_string s
    Reads-string s = (H.get_string-of_string s, H.is_null-of_string s)

    pub Reads-bool : (b : Bool) → Reads J.get_bool J.of_bool b
    Reads-bool b = (H.get_bool-of_bool b, H.is_null-of_bool b)

    pub Reads-int : (z : ℤ) → IsInt z → Reads J.get_int J.of_int z
    Reads-int z h = (H.get_int-of_int z h, H.is_null-of_int z)

    -- A field of an object, whether it is there or not.
    pub read_string :
        (d : List (String × Option Json)) (k : String) (a : Option String)
        → holds k d none ≡ or_else (written J.of_string a) none
        → read_optional J J.get_string k (puts J d J.object) ≡ ok a
    read_string d k a e =
        read_optional-written J.get_string J.of_string k (puts J d J.object) a
          (find-puts_object J H k d ∙ e) (AllOption-all Reads-string a)

    pub read_int :
        (d : List (String × Option Json)) (k : String) (a : Option ℤ)
        → holds k d none ≡ or_else (written J.of_int a) none
        → AllOption IsInt a
        → read_optional J J.get_int k (puts J d J.object) ≡ ok a
    read_int d k a e h =
        read_optional-written J.get_int J.of_int k (puts J d J.object) a
          (find-puts_object J H k d ∙ e) (AllOption-map Reads-int a h)
