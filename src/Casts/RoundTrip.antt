-- ===== src/Casts/RoundTrip.antt =====
-- The functions of runtime/src/casts.ts together: from numbers to bytes and back, and from bytes to
-- numbers and back.
use native.Mathlib.Nat.{mod-eq_of_lt}
use compact.Base.{
  ℕ, ◌^◌, ◌≤◌, ◌<◌, ◌≡◌, ap, ◌∙◌, arith, String, List, length, take, take-all, ok, ◌>>=◌,
}
use compact.Base.Bytes.{
  le_value, IsBytes, bytes_of, length-bytes_of, le_value-bytes_of, bytes_of-le_value,
  le_value-lt-pow, take-bytes_of,
}
use compact.Casts.{convert_bigint_to_bytes, convert_bytes_to_field, convert_bytes_to_uint}
use compact.Casts.Store.{convert_bigint_to_bytes_fits}
use compact.Casts.Load.{convert_bytes_to_field_lem, convert_bytes_to_uint_lem}

-- A number that is below 256 ^ n, n not 0, and at most maxval comes back from its n bytes, both
-- through the Uint cast and through the field cast.
pub number_round_trip :
    (maxval n x : ℕ) (name src src' : String)
    → 0 < n
    → x < 256 ^ n
    → x ≤ maxval
    → ((convert_bigint_to_bytes n x src >>= λ a. convert_bytes_to_uint maxval n a name src') ≡ ok x)
      × ((convert_bigint_to_bytes n x src >>= λ a. convert_bytes_to_field maxval n a name src')
          ≡ ok x)
number_round_trip maxval n x name src src' p h k =
    let back : le_value (take n (bytes_of n x)) ≡ x =
      ap le_value (take-bytes_of n x) ∙ le_value-bytes_of n x h in
    let whole : n ≤ length (bytes_of n x) = omega (arith, length-bytes_of n x) in
    rw (convert_bigint_to_bytes_fits n x src p h) (
      rw (convert_bytes_to_uint_lem maxval n (bytes_of n x) name src' whole, back) (ground arith),
      rw (convert_bytes_to_field_lem maxval n (bytes_of n x) name src' whole, back)
          (ap ok (mod-eq_of_lt (omega arith))),
    )

-- A non-empty array of bytes whose number is at most maxval comes back from that number.
pub bytes_round_trip :
    (maxval : ℕ) (a : List ℕ) (name src src' : String)
    → IsBytes a
    → 0 < length a
    → le_value a ≤ maxval
    → (convert_bytes_to_uint maxval (length a) a name src >>= λ x.
        convert_bigint_to_bytes (length a) x src')
      ≡ ok a
bytes_round_trip maxval a name src src' h p k =
    rw (convert_bytes_to_uint_lem maxval (length a) a name src (omega arith), take-all a)
      (ground (
        arith,
        convert_bigint_to_bytes_fits (length a) (le_value a) src' p (le_value-lt-pow a h),
        bytes_of-le_value a h,
      ))
