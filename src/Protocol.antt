-- ===== src/Protocol.antt =====
-- internal/protocol: the errors of a request, and the results of a check that may refuse it.
use aural_server.Base.{String, Bool, true, false, Option, none, some, ◌≡◌, refl, ◌⊎◌, inl, inr}

-- The error codes.
pub data Code : Type 0 where
  bad_request unauthorized forbidden not_found conflict internal : Code
  unsupported_version server_full server_password : Code
  guests_disabled registration_closed invalid_credentials username_taken already_registered : Code
  rate_limited too_large storage_full uploads_disabled : Code
  dm_disabled dm_blocked post_locked voice_disabled voice_failed stream_disabled : Code
  banned automod_blocked expression_limit : Code

-- `protocol.Error`.
pub record Failure : Type 0 where
  pub code : Code
  pub message : String

pub data Result {ℓ} (A : Type ℓ) : Type ℓ where
  ok : A → Result A
  err : Failure → Result A

-- `protocol.Errorf`, as the result of the check that fails.
abbrev pub refuse {ℓ} : {A : Type ℓ} → Code → String → Result A
refuse c m = err (record { code = c; message = m })

-- A test that must hold for the request to go on.
abbrev pub require : Bool → Code → String → Result (Unit {0})
require true c m = ok tt
require false c m = refuse c m

abbrev pub require_some {ℓ} : {A : Type ℓ} → Option A → Code → String → Result A
require_some none c m = refuse c m
require_some (some a) c m = ok a

infixl 5 ◌>>=◌ ◌>>◌
-- The early return of a handler: the first refusal is the answer.
abbrev pub ◌>>=◌ {ℓ κ} :
    {A : Type ℓ} {B : Type κ} (checked : Result A) (next : A → Result B) → Result B
err failure >>= next = err failure
ok value >>= next = next value

abbrev pub ◌>>◌ {ℓ} : {B : Type ℓ} (checked : Result (Unit {0})) (rest : Result B) → Result B
checked >> rest = checked >>= λ _. rest

pub Result-cases {ℓ} :
    {A : Type ℓ} (r : Result A) → ((a : A) × (r ≡ ok a)) ⊎ ((e : Failure) × (r ≡ err e))
Result-cases (ok a) = inl (a, refl)
Result-cases (err e) = inr (e, refl)

-- A chain that succeeds got past its first check with a value, and on from there.
pub >>=-eq-ok {ℓ κ} :
    {A : Type ℓ} {B : Type κ} (checked : Result A) (next : A → Result B) {result : B}
    → (checked >>= next) ≡ ok result
    → (value : A) × (checked ≡ ok value) × (next value ≡ ok result)
>>=-eq-ok (err failure) next success = cc
>>=-eq-ok (ok value) next success = (value, refl, success)
