-- ===== src/Transport/Eof.antt =====
-- The end of the input, which the loop of `readHeaders` does not test.
use clsp.Base.{ℕ, zero, suc, ◌≡◌, refl, true, false, none, [], ◌∷◌, arith, Bytes, string_eq, Bool}
use clsp.Transport.{ends_block, read_block, read_message, read_char, read_headers}

ends_block_same : (c : ℕ) (headers : Bytes) → ends_block (c ∷ c ∷ headers) ≡ false
unfolding ends_block
ends_block_same c [] = refl
ends_block_same c (b ∷ []) = refl
ends_block_same c (b ∷ a ∷ rest) = ground arith

read_block_eof :
    (fuel c : ℕ) (headers : Bytes) (b : Bool)
    → read_block fuel c (c ∷ headers) (record { rest = []; failed = b }) ≡ none
unfolding read_block read_char
read_block_eof zero c headers b = refl
read_block_eof (suc fuel) c headers b =
    rw (ends_block_same c headers) (read_block_eof fuel c (c ∷ headers) true)

-- Where the input has ended before a message and nothing has failed yet, `readMessage` never
-- returns, whatever its local variable held: no number of rounds is enough for its loop.
pub read_message_eof :
    (fuel c : ℕ) → read_message fuel c (record { rest = []; failed = false }) ≡ none
unfolding read_message read_headers read_block read_char ends_block
read_message_eof zero c = refl
read_message_eof (suc fuel) c = rw (read_block_eof fuel c [] true) refl
