-- ===== src/Casts/Load.antt =====
-- `convertBytesToField` and `convertBytesToUint` of runtime/src/casts.ts.
use native.Mathlib.Nat.{le_trans, pow-suc, one-le-pow}
use compact.Base.{
  ℕ, zero, suc, ◌+◌, ◌*◌, ◌%◌, ◌^◌, ◌≤◌, ◌<◌, ◌≡◌, refl, ap, ◌∙◌, arith, String, List, length, take,
  get_elem?-lt, ltb, ltb-false, ok, err, exceeds_maximum, native_type_error, get_elem?-ge,
  if◌then◌else◌, Bool-cases, inl, inr, leb,
}
use compact.Base.Bytes.{le_value, le_value-take-suc}
use compact.Casts.{big_int_at, field_loop, uint_loop, convert_bytes_to_field, convert_bytes_to_uint}

mul_pos_ge : (x p : ℕ) → 1 ≤ p → x ≤ x * p
mul_pos_ge x p h = grind arith

shrinks : (x i low : ℕ) {m : ℕ} → x * 256 ^ i + low ≤ m → x ≤ m
shrinks x i low h =
    le_trans (omega (arith, mul_pos_ge x (256 ^ i) (one-le-pow i 256 (omega arith)))) h

-- The byte at a place of the array, and the number that the loop has when it has taken it in.
round :
    (i : ℕ) (a : List ℕ) (x : ℕ)
    → suc i ≤ length a
    → (b : ℕ) × (big_int_at a i ≡ ok b)
      × ((x * 256 + b) * 256 ^ i + le_value (take i a)
          ≡ x * 256 ^ suc i + le_value (take (suc i) a))
round i a x h =
    let (b, e) = get_elem?-lt a i h in
    (
      b,
      rw (e, big_int_at) refl,
      omega (arith, le_value-take-suc i a e, ap (λ (t : ℕ). x * t) (pow-suc 256 i)),
    )

field_loop_lem :
    (i : ℕ) (a : List ℕ) (x : ℕ)
    → i ≤ length a
    → field_loop i a x ≡ ok (x * 256 ^ i + le_value (take i a))
unfolding field_loop
field_loop_lem zero a x h = ground arith
field_loop_lem (suc i) a x h =
    let (b, read, same) = round i a x h in
    rw read (field_loop_lem i a (x * 256 + b) (omega arith) ∙ ap ok same)

-- From an array of at least n bytes, convertBytesToField returns the number of its first n bytes
-- modulo maxval + 1.
pub convert_bytes_to_field_lem :
    (maxval n : ℕ) (a : List ℕ) (name src : String)
    → n ≤ length a
    → convert_bytes_to_field maxval n a name src ≡ ok (le_value (take n a) % (maxval + 1))
unfolding convert_bytes_to_field
convert_bytes_to_field_lem maxval n a name src h = rw (field_loop_lem n a 0 h) (ground arith)

uint_loop_fits :
    (maxval : ℕ) (name src : String) (i : ℕ) (a : List ℕ) (x : ℕ)
    → i ≤ length a
    → x * 256 ^ i + le_value (take i a) ≤ maxval
    → uint_loop maxval name src i a x ≡ ok (x * 256 ^ i + le_value (take i a))
unfolding uint_loop
uint_loop_fits maxval name src zero a x h k = ground arith
uint_loop_fits maxval name src (suc i) a x h k =
    let (b, read, same) = round i a x h in
    let total : (x * 256 + b) * 256 ^ i + le_value (take i a) ≤ maxval = omega arith in
    rw (read, ltb-false maxval (x * 256 + b) (shrinks (x * 256 + b) i (le_value (take i a)) total))
      (uint_loop_fits maxval name src i a (x * 256 + b) (omega arith) total ∙ ap ok same)

uint_loop_throws :
    (maxval : ℕ) (name src : String) (i : ℕ) (a : List ℕ) (x : ℕ)
    → i ≤ length a
    → x ≤ maxval
    → maxval < x * 256 ^ i + le_value (take i a)
    → uint_loop maxval name src i a x ≡ err (exceeds_maximum src maxval name)
unfolding uint_loop
uint_loop_throws maxval name src zero a x h p k = absurd (omega arith)
uint_loop_throws maxval name src (suc i) a x h p k =
    let (b, read, same) = round i a x h in
    elim (Bool-cases (ltb maxval (x * 256 + b))) [
      | inl over ↦ rw (read, over) refl
      | inr under ↦
          rw (read, under)
            (uint_loop_throws maxval name src i a (x * 256 + b) (omega arith) (ground arith)
              (omega arith))
    ]

-- From an array of at least n bytes, convertBytesToUint returns the number of its first n bytes if
-- that is at most maxval, and throws the range error otherwise.
pub convert_bytes_to_uint_lem :
    (maxval n : ℕ) (a : List ℕ) (name src : String)
    → n ≤ length a
    → convert_bytes_to_uint maxval n a name src ≡ (
        if leb (le_value (take n a)) maxval
        then ok (le_value (take n a))
        else err (exceeds_maximum src maxval name))
unfolding convert_bytes_to_uint
convert_bytes_to_uint_lem maxval n a name src h =
    elim (Bool-cases (leb (le_value (take n a)) maxval)) [
      | inl fits ↦ rw fits (uint_loop_fits maxval name src n a 0 h (ground arith) ∙ ground arith)
      | inr over ↦ rw over (uint_loop_throws maxval name src n a 0 h (omega arith) (ground arith))
    ]

-- An array that is too short is read past its end, and the platform throws.
pub convert_bytes_short :
    (maxval n : ℕ) (a : List ℕ) (name src : String)
    → length a ≤ n
    → (convert_bytes_to_field maxval (suc n) a name src ≡ err native_type_error)
      × (convert_bytes_to_uint maxval (suc n) a name src ≡ err native_type_error)
unfolding convert_bytes_to_field convert_bytes_to_uint field_loop uint_loop
convert_bytes_short maxval n a name src h =
    let past : big_int_at a n ≡ err native_type_error = rw (get_elem?-ge a n h, big_int_at) refl in
    (rw past refl, rw past refl)
