-- ===== src/Uri/Paths.antt =====
-- A path survives the way to a URI and back.
use clsp.Base.{
  ℕ, ◌<◌, ◌≡◌, refl, sym, ap, ◌∙◌, inl, inr, Bool, true, false, ◌&&◌, some, [], ◌∷◌, ◌++◌, arith,
  ◌=ℕ=◌, if◌then◌else◌, Bool-cases, Bytes, All, string_eq,
}
use clsp.Uri.{
  file_scheme, is_alpha, is_unreserved, is_path_pass_through, encode_byte, strip, strip_drive,
  percent_encode, to_path, from_path, percent_decode, starts_slash, PathLib, from_generic,
}
use clsp.Uri.Codec.{IsByte, percent_decode-percent_encode}

-- `/X:`, a slash before what looks like a drive.
unfoldable pub is_slash_drive : Bytes → Bool
is_slash_drive (a ∷ b ∷ c ∷ rest) = a =ℕ= b'/' && (is_alpha b && c =ℕ= b':')
is_slash_drive s = false

strip_drive-not : (s : Bytes) → is_slash_drive s ≡ false → strip_drive s ≡ s
unfolding strip_drive is_slash_drive
strip_drive-not [] h = refl
strip_drive-not (a ∷ []) h = refl
strip_drive-not (a ∷ b ∷ []) h = refl
strip_drive-not (a ∷ b ∷ c ∷ rest) h = ground arith

strip-file_scheme : (s : Bytes) → strip file_scheme (file_scheme ++ s) ≡ some s
unfolding strip
strip-file_scheme s = refl

alpha_passes : (c : ℕ) → is_alpha c ≡ true → encode_byte c ≡ c ∷ []
unfolding encode_byte is_path_pass_through is_unreserved
alpha_passes c h = rw (h, encode_byte) refl

colon_passes : encode_byte b':' ≡ b':' ∷ []
unfolding encode_byte
colon_passes = refl

slash_passes : encode_byte b'/' ≡ b'/' ∷ []
unfolding encode_byte
slash_passes = refl

-- The first byte satisfies the test.
first_is : (ℕ → Bool) → Bytes → Bool
first_is f [] = false
first_is f (c ∷ s) = f c

abbrev is_colon : ℕ → Bool
is_colon c = c =ℕ= b':'

-- A test that `%` fails and that only bytes pass which stand for themselves sees through the code.
first_is-encode_byte :
    (f : ℕ → Bool) (c : ℕ) (s : Bytes)
    → f b'%' ≡ false
    → (f c ≡ true → is_path_pass_through c ≡ true)
    → first_is f (encode_byte c ++ s) ≡ f c
unfolding encode_byte first_is
first_is-encode_byte f c s h k = elim (Bool-cases (is_path_pass_through c)) [
  | inl p ↦ rw (p, encode_byte) refl
  | inr p ↦ rw (p, encode_byte) (ground arith)
]

colon_passes_if : (c : ℕ) → is_colon c ≡ true → is_path_pass_through c ≡ true
unfolding is_path_pass_through
colon_passes_if c h = let e : c ≡ b':' = ground arith in rw e refl

alpha_passes_if : (c : ℕ) → is_alpha c ≡ true → is_path_pass_through c ≡ true
unfolding is_path_pass_through is_unreserved
alpha_passes_if c h = rw h refl

percent_not_alpha : is_alpha b'%' ≡ false
unfolding is_alpha
percent_not_alpha = refl

-- A letter and a colon at the front.
is_drive : Bytes → Bool
unfolding first_is
is_drive [] = false
is_drive (b ∷ s) = is_alpha b && first_is is_colon s

is_drive-first : (s : Bytes) → first_is is_alpha s ≡ false → is_drive s ≡ false
unfolding is_drive first_is
is_drive-first [] h = refl
is_drive-first (b ∷ s) h = rw h refl

first_colon-percent_encode :
    (s : Bytes) → first_is is_colon (percent_encode s) ≡ first_is is_colon s
unfolding percent_encode first_is
first_colon-percent_encode [] = refl
first_colon-percent_encode (c ∷ s) =
    first_is-encode_byte is_colon c (percent_encode s) refl (colon_passes_if c)

is_drive-percent_encode : (s : Bytes) → is_drive (percent_encode s) ≡ is_drive s
unfolding percent_encode is_drive
is_drive-percent_encode [] = refl
is_drive-percent_encode (b ∷ s) = elim (Bool-cases (is_alpha b)) [
  | inl a ↦ rw (alpha_passes b a) (rw (a, first_colon-percent_encode s) refl)
  | inr a ↦
      is_drive-first (encode_byte b ++ percent_encode s) (
        first_is-encode_byte is_alpha b (percent_encode s) percent_not_alpha (alpha_passes_if b)
        ∙ a)
      ∙ rw a refl
]

is_slash_drive-slash : (s : Bytes) → is_slash_drive (b'/' ∷ s) ≡ is_drive s
unfolding is_slash_drive is_drive first_is
is_slash_drive-slash [] = refl
is_slash_drive-slash (b ∷ []) = ground arith
is_slash_drive-slash (b ∷ c ∷ s) = refl

percent_encode-slash : (s : Bytes) → percent_encode (b'/' ∷ s) ≡ b'/' ∷ percent_encode s
unfolding percent_encode
percent_encode-slash s = refl

percent_encode-drive :
    (d : ℕ) (s : Bytes)
    → is_alpha d ≡ true
    → percent_encode (d ∷ b':' ∷ s) ≡ d ∷ b':' ∷ percent_encode s
unfolding percent_encode
percent_encode-drive d s h = ap (λ t. t ++ (b':' ∷ percent_encode s)) (alpha_passes d h)

from_generic-slash :
    (s : Bytes) → from_generic (b'/' ∷ s) ≡ file_scheme ++ percent_encode (b'/' ∷ s)
unfolding from_generic
from_generic-slash s = refl

not_slash : (d : ℕ) → is_alpha d ≡ true → (d =ℕ= b'/') ≡ false
unfolding is_alpha
not_slash d h = ground arith

from_generic-relative :
    (d : ℕ) (s : Bytes)
    → (d =ℕ= b'/') ≡ false
    → from_generic (d ∷ s) ≡ file_scheme ++ (b'/' ∷ percent_encode (d ∷ s))
unfolding from_generic starts_slash
from_generic-relative d s h =
    ap (λ t. (if t then file_scheme else file_scheme ++ b'/' ∷ []) ++ percent_encode (d ∷ s)) h

strip_drive-drive :
    (d : ℕ) (s : Bytes) → is_alpha d ≡ true → strip_drive (b'/' ∷ d ∷ b':' ∷ s) ≡ d ∷ b':' ∷ s
unfolding strip_drive
strip_drive-drive d s h = ap (λ t. if t && true then d ∷ b':' ∷ s else b'/' ∷ d ∷ b':' ∷ s) h

encoded_not_drive :
    (s : Bytes)
    → is_slash_drive (b'/' ∷ s) ≡ false
    → is_slash_drive (percent_encode (b'/' ∷ s)) ≡ false
encoded_not_drive s h = rw percent_encode-slash (
    is_slash_drive-slash (percent_encode s)
    ∙ is_drive-percent_encode s
    ∙ sym (is_slash_drive-slash s)
    ∙ h)

module _ (F : PathLib) where
  open F use {FilePath, of_string, generic_string}

  to_path-file :
      (s : Bytes) → to_path F (file_scheme ++ s) ≡ of_string (percent_decode (strip_drive s))
  unfolding to_path
  to_path-file s = refl

  from_path-generic :
      (path : FilePath) (s : Bytes) → generic_string path ≡ s → from_path F path ≡ from_generic s
  unfolding from_path
  from_path-generic path s e = ap from_generic e

  -- From the URI of a path whose generic form is absolute, of bytes, and does not look like a slash
  -- and a drive, such as `/C:/x`, `toPath` makes the path of that generic form.
  pub to_path-from_path :
      (path : FilePath) (s : Bytes)
      → generic_string path ≡ b'/' ∷ s
      → All IsByte s
      → is_slash_drive (b'/' ∷ s) ≡ false
      → to_path F (from_path F path) ≡ of_string (generic_string path)
  to_path-from_path path s e a h =
      rw (from_path-generic path _ e, from_generic-slash, to_path-file, e)
        (rw (strip_drive-not (percent_encode (b'/' ∷ s)) (encoded_not_drive s h))
          (ap of_string (percent_decode-percent_encode (b'/' ∷ s) (omega arith, a))))

  -- So it does from the URI of a path whose generic form is of bytes and begins with a drive letter
  -- and a colon.
  pub to_path-from_path_drive :
      (path : FilePath) (d : ℕ) (s : Bytes)
      → generic_string path ≡ d ∷ b':' ∷ s
      → All IsByte s
      → is_alpha d ≡ true
      → d < 256
      → to_path F (from_path F path) ≡ of_string (generic_string path)
  to_path-from_path_drive path d s e a h b =
      rw
        (
          from_path-generic path _ e,
          from_generic-relative d (b':' ∷ s) (not_slash d h),
          to_path-file,
          e,
        )
        (rw (percent_encode-drive d s h) (
          rw (strip_drive-drive d (percent_encode s) h) (
            rw (← percent_encode-drive d s h)
              (ap of_string (percent_decode-percent_encode (d ∷ b':' ∷ s) (b, (omega arith, a)))))))
