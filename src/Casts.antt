-- ===== src/Casts.antt =====
-- runtime/src/casts.ts: conversions between numbers and byte arrays. A `bigint` that these
-- functions take is a field or Uint value, so a natural number.
pub mod Store
pub mod Load
pub mod RoundTrip
use compact.Base.{
  ℕ, zero, suc, ◌+◌, ◌-◌, ◌*◌, ◌/◌, ◌%◌, bit_and, String, List, Option, none, some, ltb, ◌==◌,
  if◌then◌else◌, set, get_elem?, replicate, Error, does_not_fit, exceeds_maximum, native_type_error,
  Result, ok, err, ◌>>=◌,
}
use compact.Base.Int.{ℤ, ◌%ℤ◌}
use compact.Constants.{jubjub_scalar_modulus}

unfoldable pub convert_numeric_to_jubjub_scalar : ℤ → ℤ
convert_numeric_to_jubjub_scalar x = x %ℤ jubjub_scalar_modulus

-- The `for` loop with `left` rounds to go, in round `i`; `none` is the end of the loop with no
-- `return`.
store_loop : (left i x : ℕ) → List ℕ → Option (List ℕ)
store_loop zero i x a = none
store_loop (suc left) i x a =
    let a' = set a i (bit_and x 0xff) in
    let x' = x / 0x100 in
    let more = store_loop left (i + 1) x' a' in if x' == 0 then some a' else more

or_does_not_fit : String → ℕ → ℕ → Option (List ℕ) → Result (List ℕ)
or_does_not_fit src x_0 n none = err (does_not_fit src x_0 n)
or_does_not_fit src x_0 n (some a) = ok a

pub convert_bigint_to_bytes : ℕ → ℕ → String → Result (List ℕ)
unfolding or_does_not_fit
convert_bigint_to_bytes n x src = or_does_not_fit src x n (store_loop n 0 x (replicate n 0))

-- `BigInt(a[i])`, which throws where `a[i]` is undefined
abbrev pub big_int_at : List ℕ → ℕ → Result ℕ
big_int_at a i = elim (get_elem? a i) [ none ↦ err native_type_error | some b ↦ ok b ]

-- The loops `for (i = n - 1; i >= 0; i -= 1)` recur on `i + 1`.
field_loop : ℕ → List ℕ → ℕ → Result ℕ
field_loop zero a x = ok x
field_loop (suc i) a x = do b ← big_int_at a i; field_loop i a (x * 0x100 + b)

pub convert_bytes_to_field : ℕ → ℕ → List ℕ → String → String → Result ℕ
convert_bytes_to_field maxval n a name src = do x ← field_loop n a 0; ok (x % (maxval + 1))

uint_loop : ℕ → String → String → ℕ → List ℕ → ℕ → Result ℕ
uint_loop maxval name src zero a x = ok x
uint_loop maxval name src (suc i) a x = do
  b ← big_int_at a i
  let x' = x * 0x100 + b
  if ltb maxval x' then err (exceeds_maximum src maxval name) else uint_loop maxval name src i a x'

pub convert_bytes_to_uint : ℕ → ℕ → List ℕ → String → String → Result ℕ
convert_bytes_to_uint maxval n a name src = uint_loop maxval name src n a 0
