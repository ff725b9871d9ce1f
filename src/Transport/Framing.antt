-- ===== src/Transport/Framing.antt =====
-- A frame that `sendMessage` writes, read by `readMessage`.
use clsp.Base.Int.{pos}
use clsp.Base.{
  ℕ, zero, suc, ◌+◌, ◌*◌, ◌/◌, ◌%◌, ◌^◌, ◌≤◌, ◌<◌, ◌≡◌, refl, ◌∙◌, inl, inr, Bool, true, false,
  ◌&&◌, some, [], ◌∷◌, ◌++◌, append_assoc, append-nil, arith, ltb, ltb→lt, Bool-cases, Bytes,
  length, length-append, All, All-append, string_eq, drop, take, ap,
}
use clsp.Transport.{
  message, length_of, cr, decimal, read_digits, until_cr, to_int32, ends_block, read_block,
  read_value, length_of, lf, read_char, reverse_onto, blank_line, content_length, find_key, key,
  read_body, read_message, message, read_headers, strip, send_message, receive_body,
}
use clsp.Uri.{strip}

abbrev IsDigit : ℕ → Type 0
IsDigit b = (b'0' ≤ b) × (b ≤ b'9')

decimal-IsDigit : (fuel n : ℕ) → All IsDigit (decimal fuel n)
unfolding decimal
decimal-IsDigit zero n = tt
decimal-IsDigit (suc fuel) n = elim (Bool-cases (ltb n 10)) [
  | inl e ↦ rw e ((omega arith, omega (arith, ltb→lt n 10 e)), tt)
  | inr e ↦ rw e (
      All-append IsDigit (decimal fuel (n / 10)) ((b'0' + n % 10) ∷ [])
        (decimal-IsDigit fuel (n / 10)) ((omega arith, omega arith), tt))
]

read_digits-digit :
    (m d : ℕ) (s : Bytes)
    → d < 10
    → m * 10 + d < 2 ^ 31
    → read_digits (pos m) ((b'0' + d) ∷ s) ≡ read_digits (pos (m * 10 + d)) s
unfolding read_digits to_int32
read_digits-digit m d s h k = ground arith

read_digits-decimal :
    (fuel n : ℕ) (s : Bytes)
    → n < fuel
    → n < 2 ^ 31
    → read_digits (pos 0) (decimal fuel n ++ s) ≡ read_digits (pos n) s
unfolding decimal
read_digits-decimal zero n s h k = absurd (omega arith)
read_digits-decimal (suc fuel) n s h k = elim (Bool-cases (ltb n 10)) [
  | inl e ↦
      let z : 0 * 10 + n ≡ n = omega arith in
      rw e (read_digits-digit 0 n s (ltb→lt n 10 e) (omega (arith, k)) ∙ rw z refl)
  | inr e ↦
      let big : 10 ≤ n = ground arith in
      let whole : n / 10 * 10 + n % 10 ≡ n = omega arith in
      rw (e, append_assoc (decimal fuel (n / 10)))
        (read_digits-decimal fuel (n / 10) ((b'0' + n % 10) ∷ s) (omega arith) (omega arith)
          ∙ read_digits-digit (n / 10) (n % 10) s (omega arith) (omega arith)
          ∙ rw whole refl)
]

abbrev BelowCr : ℕ → Type 0
BelowCr b = cr < b

until_cr-append : (s t : Bytes) → All BelowCr s → until_cr (s ++ cr ∷ t) ≡ s
unfolding until_cr
until_cr-append [] t h = refl
until_cr-append (b ∷ s) t (g, h) = rw (until_cr-append s t h) (ground arith)

length-decimal : (fuel n : ℕ) → 0 < length (decimal (suc fuel) n)
unfolding decimal
length-decimal fuel n = elim (Bool-cases (ltb n 10)) [
  | inl e ↦ rw e (omega arith)
  | inr e ↦ rw e (omega (arith, length-append (decimal fuel (n / 10)) ((b'0' + n % 10) ∷ [])))
]

read_value_nonempty : (s : Bytes) → 0 < length s → read_value s ≡ read_digits (pos 0) s
unfolding read_value
read_value_nonempty [] h = absurd (omega (arith, h))
read_value_nonempty (c ∷ s) h = refl

read_value-decimal : (n : ℕ) → n < 2 ^ 31 → read_value (decimal (suc n) n) ≡ length_of (pos n)
unfolding read_digits
read_value-decimal n h =
    read_value_nonempty (decimal (suc n) n) (length-decimal n n)
    ∙ rw (append-nil (decimal (suc n) n)) at (read_digits-decimal (suc n) n [] (omega arith) h)

above_cr : Bytes → Bool
above_cr [] = true
above_cr (b ∷ s) = ltb cr b && above_cr s

above_cr-All : (s : Bytes) → above_cr s ≡ true → All BelowCr s
unfolding above_cr
above_cr-All [] h = tt
above_cr-All (b ∷ s) h = (ground arith, above_cr-All s (ground arith))

digits-BelowCr : (s : Bytes) → All IsDigit s → All BelowCr s
digits-BelowCr [] h = tt
digits-BelowCr (b ∷ s) ((l, u), h) = (omega (arith, l), digits-BelowCr s h)

ends_block_above : (b : ℕ) (headers : Bytes) → cr < b → ends_block (b ∷ headers) ≡ false
unfolding ends_block
ends_block_above b [] h = refl
ends_block_above b (c ∷ []) h = refl
ends_block_above b (c ∷ d ∷ []) h = refl
ends_block_above b (c ∷ d ∷ e ∷ rest) h = ground arith

ends_block-cr : (headers : Bytes) → ends_block (cr ∷ headers) ≡ false
unfolding ends_block
ends_block-cr [] = refl
ends_block-cr (c ∷ []) = refl
ends_block-cr (c ∷ d ∷ []) = refl
ends_block-cr (c ∷ d ∷ e ∷ rest) = ground arith

ends_block_once : (headers : Bytes) → All BelowCr headers → ends_block (lf ∷ cr ∷ headers) ≡ false
unfolding ends_block
ends_block_once [] h = refl
ends_block_once (c ∷ []) h = refl
ends_block_once (c ∷ d ∷ rest) (k, h) = ground arith

read_block-blank_line :
    (fuel c : ℕ) (headers rest : Bytes)
    → 4 ≤ fuel
    → All BelowCr headers
    → read_block fuel c headers (record { rest = blank_line ++ rest; failed = false })
      ≡ some (reverse_onto headers blank_line, record { rest = rest; failed = false })
unfolding read_block read_char reverse_onto
read_block-blank_line zero c headers rest h k = absurd (omega (arith, h))
read_block-blank_line (suc zero) c headers rest h k = absurd (omega (arith, h))
read_block-blank_line (suc (suc zero)) c headers rest h k = absurd (omega (arith, h))
read_block-blank_line (suc (suc (suc zero))) c headers rest h k = absurd (omega (arith, h))
read_block-blank_line (suc (suc (suc (suc fuel)))) c headers rest h k =
    rw
      (
        ends_block-cr headers,
        ends_block_once headers k,
        ends_block-cr (lf ∷ cr ∷ headers),
        ends_block,
      )
      refl

read_block-line :
    (fuel c : ℕ) (w headers rest : Bytes)
    → length w + 4 ≤ fuel
    → All BelowCr w
    → All BelowCr headers
    → read_block fuel c headers (record { rest = w ++ (blank_line ++ rest); failed = false })
      ≡ some (reverse_onto headers (w ++ blank_line), record { rest = rest; failed = false })
unfolding read_block read_char reverse_onto
read_block-line fuel c [] headers rest h j k =
    read_block-blank_line fuel c headers rest (omega (arith, h)) k
read_block-line zero c (b ∷ w) headers rest h j k = absurd (omega (arith, h))
read_block-line (suc fuel) c (b ∷ w) headers rest h (l, j) k =
    rw (ends_block_above b headers l)
      (read_block-line fuel b w (b ∷ headers) rest (omega (arith, h)) j (l, k))

key-BelowCr : All BelowCr key
unfolding above_cr
key-BelowCr = above_cr-All key refl

content_length-decimal :
    (n : ℕ)
    → n < 2 ^ 31
    → content_length (key ++ (decimal (suc n) n ++ blank_line)) ≡ length_of (pos n)
unfolding content_length find_key strip
content_length-decimal n h =
    ap read_value (
      until_cr-append (decimal (suc n) n) (lf ∷ cr ∷ lf ∷ [])
        (digits-BelowCr (decimal (suc n) n) (decimal-IsDigit (suc n) n)))
    ∙ read_value-decimal n h

read_headers-line :
    (fuel c : ℕ) (d t : Bytes)
    → length d + 20 ≤ fuel
    → All BelowCr d
    → read_headers fuel c (record { rest = key ++ (d ++ (blank_line ++ t)); failed = false })
      ≡ some (content_length (key ++ (d ++ blank_line)), record { rest = t; failed = false })
unfolding read_headers
read_headers-line fuel c d t h k =
    rw
      (
        read_block-line fuel c (key ++ d) [] t (omega (arith, h))
            (All-append BelowCr key d key-BelowCr k) tt,
        reverse_onto,
      )
      refl

read_message-line :
    (fuel c : ℕ) (d t : Bytes)
    → length d + 20 ≤ fuel
    → All BelowCr d
    → read_message fuel c (record { rest = key ++ (d ++ (blank_line ++ t)); failed = false })
      ≡ some (
          receive_body
            (content_length (key ++ (d ++ blank_line)), record { rest = t; failed = false }))
unfolding read_message
read_message-line fuel c d t h k = rw (read_headers-line fuel c d t h k, read_message) refl

take-length : (xs ys : Bytes) → take (length xs) (xs ++ ys) ≡ xs
take-length [] ys = refl
take-length (x ∷ xs) ys = ap (◌∷◌ x) (take-length xs ys)

drop-length : (xs ys : Bytes) → drop (length xs) (xs ++ ys) ≡ ys
drop-length [] ys = refl
drop-length (x ∷ xs) ys = drop-length xs ys

read_body-append :
    (body rest : Bytes)
    → read_body (length body) (record { rest = body ++ rest; failed = false })
      ≡ (message body, record { rest = rest; failed = false })
unfolding read_body
read_body-append body rest =
    let enough : ltb (length (body ++ rest)) (length body) ≡ false =
      ground (arith, length-append body rest) in
    rw (enough, take-length body rest, drop-length body rest) refl

-- What `sendMessage` writes for a message of less than 2 GiB is read back by `readMessage` as that
-- message, whatever stands behind it in the input, which is left there; and the loop of the headers
-- has then ended, in no more rounds than the frame has bytes.
pub read_message-send_message :
    (body rest : Bytes) (fuel c : ℕ)
    → length body < 2 ^ 31
    → length (send_message body []) ≤ fuel
    → read_message fuel c (record { rest = send_message body [] ++ rest; failed = false })
      ≡ some (message body, record { rest = rest; failed = false })
unfolding send_message receive_body
read_message-send_message body rest fuel c h f =
    let d = decimal (suc (length body)) (length body) in
    let enough : length d + 20 ≤ fuel = omega (arith, f, length-append d (blank_line ++ body)) in
    let k = digits-BelowCr d (decimal-IsDigit (suc (length body)) (length body)) in
    ap (λ x. read_message fuel c (record { rest = key ++ x; failed = false }))
      (append_assoc d (blank_line ++ body) rest)
    ∙ read_message-line fuel c d (body ++ rest) enough k
    ∙ ap (λ l. some (receive_body (l, record { rest = body ++ rest; failed = false })))
        (content_length-decimal (length body) h)
    ∙ ap some (read_body-append body rest)
