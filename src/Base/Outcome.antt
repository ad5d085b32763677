-- ===== src/Base/Outcome.antt =====
-- What a function that may throw returns, and chains of such functions. The errors are those of
-- runtime/src/error.ts, with a constructor for each message that the modelled code throws.
use Prim.Native.Nat.{ℕ}
use Prim.Native.String.{String}
use mathlib.Core.Path.{ap, ◌≡◌, refl}
use mathlib.Core.Bool.{Bool, true, false}
use compact.Base.Tests.{if◌then◌else◌}

pub data Error : Type 0 where
  -- `expected ${name}`
  expected : String → Error
  -- `expected Enum[<=${maxValue}]`
  expected_enum : ℕ → Error
  -- `expected UnsignedInteger[<=${maxValue}]`
  expected_unsigned_integer : ℕ → Error
  -- `expected Bytes[${length}]`
  expected_bytes : ℕ → Error
  -- `expected ${length}-element array`
  expected_array : ℕ → Error
  -- `range error at ${src}: field or Uint value ${x} does not fit into ${n} bytes`
  does_not_fit : String → ℕ → ℕ → Error
  -- `range error at ${src}: byte vector [...] exceeds maximum value ${maxval} of ${name} type`
  exceeds_maximum : String → ℕ → String → Error
  -- `unexpected segment tag ${tag} in toBinaryRepr`
  unexpected_segment : String → Error
  -- `Expected ${name} to be defined`
  expected_defined : String → Error
  -- `Value ${x} is not a contract address`
  no_contract_address : String → Error
  -- `Contract re-entrancy detected: '${calleeAddress}' is already executing on the call stack; ...`
  reentrancy_detected : String → Error
  -- `Bug found: gas cost for contract '${callee}' not found`
  gas_cost_not_found : String → Error
  -- `Expected a verifier key hash: ..., but received '${hex}'`
  expected_verifier_key_hash : String → Error
  -- any other message, as it is written
  message : String → Error
  -- the platform's own errors
  native_type_error native_range_error : Error

pub data Result {ℓ} (A : Type ℓ) : Type ℓ where
  err : Error → Result A
  ok : A → Result A

-- What follows a call, unless the call throws.
infixl 5 ◌>>=◌
abbrev pub ◌>>=◌ {ℓ κ} : {A : Type ℓ} {B : Type κ} → Result A → (A → Result B) → Result B
err e >>= next = err e
ok a >>= next = next a

-- If the whole returns, so does the call.
pub >>=-eq-ok {ℓ κ} :
    {A : Type ℓ} {B : Type κ} (first : Result A) (next : A → Result B) {b : B}
    → (first >>= next) ≡ ok b
    → (a : A) × (first ≡ ok a) × (next a ≡ ok b)
>>=-eq-ok (err e) next h = cc
>>=-eq-ok (ok a) next h = (a, refl, h)

abbrev value_or {ℓ} : {A : Type ℓ} → A → Result A → A
value_or a (err e) = a
value_or a (ok b) = b

pub ok-injective {ℓ} : {A : Type ℓ} {a b : A} → ◌≡◌ {A = Result A} (ok a) (ok b) → a ≡ b
ok-injective {a} e = ap (value_or a) e

abbrev pub IsErr {ℓ} : {A : Type ℓ} → Result A → Type 0
IsErr (ok a) = ⊥
IsErr (err e) = Unit {0}

-- A check that throws did not, where the whole returns.
pub if_err-eq-ok {ℓ} :
    {A : Type ℓ} (b : Bool) (e : Error) (r : Result A) {a : A}
    → (if b then err e else r) ≡ ok a
    → (b ≡ false) × (r ≡ ok a)
if_err-eq-ok true e r h = cc
if_err-eq-ok false e r h = (refl, h)
