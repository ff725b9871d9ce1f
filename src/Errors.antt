-- ===== src/Errors.antt =====
-- Exceptions as values (src/JsonRpc.hpp `ErrorCodes`, `JsonRpcException`;
-- include/clsp/ILanguageServer.hpp `RequestCancelled`).
use clsp.Base.{String, Bytes, ◌≡◌, ◌⊎◌, inl, inr, refl}
use clsp.Base.Int.{ℤ, pos, negsuc}

pub data ErrorCodes : Type 0 where
  parse_error invalid_request method_not_found invalid_params internal_error : ErrorCodes
  server_not_initialized request_failed server_cancelled content_modified : ErrorCodes
  request_cancelled : ErrorCodes

-- `static_cast<int>(code)`; `negsuc n` is -(n + 1).
unfoldable pub code_value : ErrorCodes → ℤ
code_value parse_error = negsuc 32699
code_value invalid_request = negsuc 32599
code_value method_not_found = negsuc 32600
code_value invalid_params = negsuc 32601
code_value internal_error = pos 32603
code_value server_not_initialized = negsuc 32001
code_value request_failed = negsuc 32802
code_value server_cancelled = negsuc 32801
code_value content_modified = negsuc 32800
code_value request_cancelled = negsuc 32799

-- A `std::string` that an error carries: text, or any bytes.
pub data Message : Type 0 where
  plain : String → Message
  octets : Bytes → Message

-- What user code may throw: `other` is any other `std::exception`, by its `what()`, and `foreign`
-- what is no `std::exception`.
pub data Exception : Type 0 where
  cancelled : Exception
  json_rpc : ErrorCodes → Message → Exception
  other : Message → Exception
  foreign : Exception

pub data Result {ℓ} (A : Type ℓ) : Type ℓ where
  ok : A → Result A
  err : Exception → Result A

infixl 5 ◌>>=◌ ◌>>◌
abbrev pub ◌>>=◌ {ℓ κ} : {A : Type ℓ} {B : Type κ} → Result A → (A → Result B) → Result B
ok a >>= f = f a
err e >>= f = err e

abbrev pub ◌>>◌ {ℓ κ} : {A : Type ℓ} {B : Type κ} → Result A → Result B → Result B
m >> n = m >>= λ _. n

pub Result-cases {ℓ} :
    {A : Type ℓ} (r : Result A) → ((a : A) × (r ≡ ok a)) ⊎ ((e : Exception) × (r ≡ err e))
Result-cases (ok a) = inl (a, refl)
Result-cases (err e) = inr (e, refl)

-- The computation does not throw.
abbrev pub Returns {ℓ} : {A : Type ℓ} → Result A → Type ℓ
Returns {A = A} r = (a : A) × (r ≡ ok a)

pub >>=-Returns {ℓ κ} :
    {A : Type ℓ} {B : Type κ} (m : Result A) (f : A → Result B)
    → Returns m
    → ((a : A) → m ≡ ok a → Returns (f a))
    → Returns (m >>= f)
>>=-Returns (ok a) f r h = h a refl
>>=-Returns (err e) f (a, p) h = absurd (cc)
