-- ===== src/Casts/Store.antt =====
-- `convertBigintToBytes` of runtime/src/casts.ts.
use native.Mathlib.Nat.{pow-suc, one-le-pow}
use compact.Base.{
  if◌then◌else◌, ℕ, zero, suc, ◌+◌, ◌/◌, ◌%◌, ◌^◌, ◌≤◌, ◌<◌, ◌≡◌, ◌⊎◌, inl, inr, refl, ap, ◌∙◌,
  arith, String, List, [], ◌∷◌, ◌++◌, append_assoc, none, some, Bool-cases, ◌==◌, length,
  length-append, append-set, set, ==_iff, replicate, bit_and, does_not_fit, ok, err, true, ltb,
  ◌&&◌,
}
use compact.Base.Bits.{bit_and-mask}
use compact.Base.Bytes.{bytes_of, bytes_of-zero}
use compact.Casts.{store_loop, convert_bigint_to_bytes}

-- One round writes the lowest byte in its place.
round_lem :
    (x : ℕ) (done rest : List ℕ)
    → set (done ++ 0 ∷ rest) (length done) (bit_and x 0xff) ≡ done ++ x % 256 ∷ rest
round_lem x done rest = rw (append-set done 0 (bit_and x 0xff) rest, bit_and-mask 8 x) refl

-- The round after, in the form of the loop's own state.
next_lem :
    (left x b : ℕ) (done : List ℕ)
    → store_loop left (length done + 1) x (done ++ b ∷ replicate left 0)
      ≡ store_loop left (length (done ++ b ∷ [])) x ((done ++ b ∷ []) ++ replicate left 0)
next_lem left x b done =
    cc (length-append done (b ∷ []), append_assoc done (b ∷ []) (replicate left 0))

store_loop_lem :
    (left x : ℕ) (done : List ℕ)
    → x < 256 ^ suc left
    → store_loop (suc left) (length done) x (done ++ replicate (suc left) 0)
      ≡ some (done ++ bytes_of (suc left) x)
unfolding store_loop
store_loop_lem zero x done h =
    let stop : (x / 256 == 0) ≡ true = ground arith in rw (stop, round_lem) refl
store_loop_lem (suc left) x done h = elim (Bool-cases (x / 256 == 0)) [
  | inl stop ↦ rw (stop, round_lem, (==_iff (x / 256) 0).0 stop, bytes_of-zero (suc left)) refl
  | inr more ↦
      let rest = done ++ x % 256 ∷ [] in
      let fits : x / 256 < 256 ^ suc left = omega (arith, pow-suc 256 (suc left)) in
      rw (more, round_lem)
        (next_lem (suc left) (x / 256) (x % 256) done
          ∙ store_loop_lem left (x / 256) rest fits
          ∙ ap some (append_assoc done (x % 256 ∷ []) (bytes_of (suc left) (x / 256))))
]

store_loop-none :
    (left i x : ℕ) (a : List ℕ) → (left ≡ 0) ⊎ (256 ^ left ≤ x) → store_loop left i x a ≡ none
unfolding store_loop
store_loop-none zero i x a h = refl
store_loop-none (suc left) i x a h = ground (
  arith,
  store_loop-none left (i + 1) (x / 256) (set a i (bit_and x 0xff)),
  pow-suc 256 left,
  one-le-pow left 256,
)

-- A number that fits into n bytes, n not 0, is stored as its n lowest bytes, least significant
-- first.
pub convert_bigint_to_bytes_fits :
    (n x : ℕ) (src : String)
    → 0 < n
    → x < 256 ^ n
    → convert_bigint_to_bytes n x src ≡ ok (bytes_of n x)
unfolding convert_bigint_to_bytes
convert_bigint_to_bytes_fits zero x src p h = elim p [ ]
convert_bigint_to_bytes_fits (suc n) x src p h = rw (store_loop_lem n x [] h) refl

-- Any other number, and every number where n is 0, is refused with the range error.
pub convert_bigint_to_bytes_throws :
    (n x : ℕ) (src : String)
    → (n ≡ 0) ⊎ (256 ^ n ≤ x)
    → convert_bigint_to_bytes n x src ≡ err (does_not_fit src x n)
unfolding convert_bigint_to_bytes
convert_bigint_to_bytes_throws n x src h = rw (store_loop-none n 0 x (replicate n 0) h) refl

-- convertBigintToBytes returns the n lowest bytes of the number, least significant first, if n is
-- not 0 and the number is below 256 ^ n, and throws the range error otherwise.
pub convert_bigint_to_bytes_lem :
    (n x : ℕ) (src : String)
    → convert_bigint_to_bytes n x src
      ≡ (if ltb 0 n && ltb x (256 ^ n) then ok (bytes_of n x) else err (does_not_fit src x n))
convert_bigint_to_bytes_lem n x src =
    ground (arith, convert_bigint_to_bytes_fits n x src, convert_bigint_to_bytes_throws n x src)
