-- ===== src/Uri/Codec.antt =====
-- Decoding undoes encoding.
use clsp.Base.{
  ℕ, ◌/◌, ◌%◌, ◌<◌, ◌≡◌, refl, ap, ◌∙◌, ◌≢◌, inl, inr, Bool, true, false, none, some, [], ◌∷◌, ◌++◌,
  arith, ◌=ℕ=◌, Bool-cases, Bytes, All, string_eq, holds_below, holds_below_lem,
}
use clsp.Uri.{
  is_path_pass_through, hex_digit, encode_byte, percent_encode, decode_pair, percent_decode,
}

abbrev pub IsByte : ℕ → Type 0
IsByte c = c < 256

-- The two digits of a byte are read back as the byte.
reads_back : ℕ → Bool
reads_back c = elim (decode_pair (hex_digit (c / 16 % 16)) (hex_digit (c % 16))) [
  | none ↦ false
  | some d ↦ d =ℕ= c
]

pair_table : holds_below 256 reads_back ≡ true
unfolding holds_below reads_back decode_pair hex_digit
pair_table = refl

decode_pair-hex_digit :
    (c : ℕ) → c < 256 → decode_pair (hex_digit (c / 16 % 16)) (hex_digit (c % 16)) ≡ some c
decode_pair-hex_digit c h =
    let t = holds_below_lem reads_back 256 pair_table c h in unfold reads_back in ground arith

percent_is_escaped : is_path_pass_through b'%' ≡ false
unfolding is_path_pass_through
percent_is_escaped = refl

percent_decode-copy : (c : ℕ) (s : Bytes) → c ≢ b'%' → percent_decode (c ∷ s) ≡ c ∷ percent_decode s
unfolding percent_decode
percent_decode-copy c [] n = refl
percent_decode-copy c (a ∷ []) n = refl
percent_decode-copy c (a ∷ b ∷ rest) n = ground arith

percent_decode-pair :
    (a b d : ℕ) (s : Bytes)
    → decode_pair a b ≡ some d
    → percent_decode (b'%' ∷ a ∷ b ∷ s) ≡ d ∷ percent_decode s
unfolding percent_decode
percent_decode-pair a b d s h = rw h refl

percent_decode-encode_byte :
    (c : ℕ) (s : Bytes) → IsByte c → percent_decode (encode_byte c ++ s) ≡ c ∷ percent_decode s
unfolding encode_byte
percent_decode-encode_byte c s h = elim (Bool-cases (is_path_pass_through c)) [
  | inl p ↦
      rw (p, encode_byte)
        (percent_decode-copy c s (λ e. cc (ap is_path_pass_through e, percent_is_escaped)))
  | inr p ↦ rw (p, encode_byte) (percent_decode-pair _ _ c s (decode_pair-hex_digit c h))
]

-- `percentDecode` gives back every string of bytes that `percentEncode` was given.
pub percent_decode-percent_encode :
    (s : Bytes) → All IsByte s → percent_decode (percent_encode s) ≡ s
unfolding percent_encode
percent_decode-percent_encode [] a = unfold percent_decode in refl
percent_decode-percent_encode (c ∷ s) (h, a) =
    percent_decode-encode_byte c (percent_encode s) h
    ∙ ap (◌∷◌ c) (percent_decode-percent_encode s a)
