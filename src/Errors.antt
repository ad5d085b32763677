-- ===== src/Errors.antt =====
-- runtime/src/error.ts: the assertions that generated code and the runtime make, the text of a type
-- error, and the tests that recognize the errors of any copy of the runtime, with the one of
-- runtime/src/module-resolution.ts.
use Prim.Native.String
use compact.Base.{
  Bool, true, false, not, if◌then◌else◌, String, [], ◌∷◌, Option, none, some, ◌≡◌, ◌↔◌, refl, Error,
  message, native_type_error, native_range_error, expected_defined, Result, ok, err, IsErr,
}
use compact.Resolution.{Thrown, error, resolution_error}
use compact.Resolution.Messages.{template}

unfoldable pub assert : Bool → String → Result (Unit {0})
assert b s = if not b then err (message (String.◌++◌ "failed assert: " s)) else ok tt

-- A value that may be absent.
pub data Nullable {ℓ} (A : Type ℓ) : Type ℓ where
  undefined null : Nullable A
  defined : A → Nullable A

unfoldable pub assert_defined {ℓ} : {A : Type ℓ} → Nullable A → String → Result A
assert_defined undefined name = err (expected_defined name)
assert_defined null name = err (expected_defined name)
assert_defined (defined a) name = ok a

unfoldable pub assert_undefined {ℓ} : {A : Type ℓ} → Nullable A → String → Result (Unit {0})
assert_undefined undefined name = ok tt
assert_undefined null name = ok tt
assert_undefined (defined a) name =
    err (message (template ("Expected " ∷ name ∷ " to be undefined" ∷ [])))

-- The text of the value is what the library object-inspect makes of it.
unfoldable pub type_error {ℓ} :
    {A : Type ℓ} (inspect : A → String) → (who what place type_name : String) → (x : A) → Error
type_error inspect who what place type_name x = message (
    template (
      "type error: "
      ∷ who
      ∷ " "
      ∷ what
      ∷ " at "
      ∷ place
      ∷ "; expected value of type "
      ∷ type_name
      ∷ " but received "
      ∷ inspect x
      ∷ []))

-- What is caught, a value of the type `unknown`, with the two fields that the tests read, where it has them as
-- Booleans.
pub data Caught : Type 0 where
  no_object null_object : Caught
  object : (is_compact_error is_module_resolution_error : Option Bool) → Caught

-- `field === true`
abbrev is_true : Option Bool → Bool
is_true none = false
is_true (some b) = b

unfoldable pub is_compact_error : Caught → Bool
is_compact_error no_object = false
is_compact_error null_object = false
is_compact_error (object compact resolution) = is_true compact

unfoldable pub is_module_resolution_error : Caught → Bool
is_module_resolution_error no_object = false
is_module_resolution_error null_object = false
is_module_resolution_error (object compact resolution) = is_true resolution

abbrev is_native : Error → Bool
is_native native_type_error = true
is_native native_range_error = true
is_native e = false

-- What is thrown, as an object: the platform's own errors have neither field, and a resolution
-- error has the field of its superclass.
unfoldable pub thrown_object : Thrown → Caught
thrown_object (error e) = object (if is_native e then none else some true) none
thrown_object (resolution_error context failure) = object (some true) (some true)

-- Of any value, just one of the assertions that it is there and that it is not throws.
pub one_assertion_throws {ℓ} :
    {A : Type ℓ} (t : Nullable A) (name : String)
    → IsErr (assert_defined t name) ↔ (assert_undefined t name ≡ ok tt)
unfolding assert_defined assert_undefined
one_assertion_throws undefined name = (λ h. refl, λ h. tt)
one_assertion_throws null name = (λ h. refl, λ h. tt)
one_assertion_throws (defined a) name = (λ h. absurd h, λ h. cc)

-- An assertion returns exactly if it holds.
pub assert-eq-ok : (b : Bool) (s : String) → (assert b s ≡ ok tt) ↔ (b ≡ true)
unfolding assert
assert-eq-ok true s = (λ h. refl, λ h. refl)
assert-eq-ok false s = (λ h. cc, λ h. cc)

-- A resolution error is recognized as one, and as an error of the runtime.
pub resolution_error_recognized :
    (t : Thrown)
    → is_module_resolution_error (thrown_object t) ≡ true
    → is_compact_error (thrown_object t) ≡ true
unfolding is_module_resolution_error is_compact_error thrown_object
resolution_error_recognized (error e) h = absurd (cc h)
resolution_error_recognized (resolution_error context failure) h = refl
