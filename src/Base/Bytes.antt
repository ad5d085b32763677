-- ===== src/Base/Bytes.antt =====
-- Bytes, least significant first.
use Prim.Native.Nat.{ℕ, zero, suc, ◌+◌, ◌-◌, ◌*◌, ◌/◌, ◌%◌, ◌^◌, ◌≤◌, ◌<◌}
use mathlib.Core.Path.{◌≡◌, refl, ap, ap₂, ◌∙◌}
use mathlib.Core.Option.{some}
use mathlib.Core.List.{List, [], ◌∷◌, ◌++◌}
use native.Mathlib.Omega.{arith}
use native.Mathlib.Nat.{pow-suc}
use compact.Base.Lists.{
  length, length-append, length-replicate, get_elem?, take, replicate, All, All-append,
}

abbrev pub le_value : List ℕ → ℕ
le_value [] = 0
le_value (b ∷ bs) = b + 256 * le_value bs

abbrev pub IsBytes : List ℕ → Type 0
IsBytes a = All (λ b. b < 256) a

-- No trailing zero: no end of the bytes but the empty one has the value 0.
abbrev pub IsNormal : List ℕ → Type 0
IsNormal [] = Unit
IsNormal (b ∷ bs) = (0 < b + 256 * le_value bs) × IsNormal bs

pub normal-injective :
    (a b : List ℕ)
    → IsBytes a
    → IsBytes b
    → IsNormal a
    → IsNormal b
    → le_value a ≡ le_value b
    → a ≡ b
normal-injective [] [] ba bb na nb e = refl
normal-injective [] (y ∷ ys) ba bb na (p, nb) e = absurd (omega arith)
normal-injective (x ∷ xs) [] ba bb (p, na) nb e = absurd (omega arith)
normal-injective (x ∷ xs) (y ∷ ys) (hx, ba) (hy, bb) (p, na) (q, nb) e =
    ap₂ ◌∷◌ (omega arith) (normal-injective xs ys ba bb na nb (omega arith))

pub le_value-lt-pow : (a : List ℕ) → IsBytes a → le_value a < 256 ^ length a
le_value-lt-pow [] h = omega arith
le_value-lt-pow (b ∷ bs) (hb, h) = omega (arith, le_value-lt-pow bs h, pow-suc 256 (length bs))

-- Bytes with no trailing zero are as short as their value allows.
pub normal-length : (n : ℕ) (a : List ℕ) → IsNormal a → le_value a < 256 ^ n → length a ≤ n
normal-length n [] h lt = omega arith
normal-length zero (b ∷ bs) (p, h) lt = absurd (omega arith)
normal-length (suc n) (b ∷ bs) (p, h) lt =
    omega (arith, normal-length n bs h (omega (arith, pow-suc 256 n)))

pub le_value-append : (a b : List ℕ) → le_value (a ++ b) ≡ le_value a + 256 ^ length a * le_value b
le_value-append [] b = omega arith
le_value-append (x ∷ xs) b =
    omega (arith, le_value-append xs b, ap (λ (t : ℕ). t * le_value b) (pow-suc 256 (length xs)))

pub le_value-zeros : (n : ℕ) → le_value (replicate n 0) ≡ 0
le_value-zeros zero = refl
le_value-zeros (suc n) = omega (arith, le_value-zeros n)

pub zeros-IsBytes : (n : ℕ) → IsBytes (replicate n 0)
zeros-IsBytes zero = tt
zeros-IsBytes (suc n) = (omega arith, zeros-IsBytes n)

-- Zeros up to a length.
abbrev pub pad : ℕ → List ℕ → List ℕ
pad n a = a ++ replicate (n - length a) 0

pub length-pad : (n : ℕ) (a : List ℕ) → length a ≤ n → length (pad n a) ≡ n
length-pad n a h =
    omega (
      arith,
      length-append a (replicate (n - length a) 0),
      length-replicate {A = ℕ} (n - length a) 0,
    )

pub le_value-pad : (n : ℕ) (a : List ℕ) → le_value (pad n a) ≡ le_value a
le_value-pad n a = omega (
  arith,
  le_value-append a (replicate (n - length a) 0),
  ap (λ (t : ℕ). 256 ^ length a * t) (le_value-zeros (n - length a)),
)

-- The next byte counts for its place.
pub le_value-take-suc :
    (i : ℕ) (a : List ℕ) {b : ℕ}
    → get_elem? a i ≡ some b
    → le_value (take (suc i) a) ≡ le_value (take i a) + 256 ^ i * b
le_value-take-suc i [] e = absurd (cc)
le_value-take-suc zero (x ∷ xs) e = ground arith
le_value-take-suc (suc i) (x ∷ xs) {b} e =
    omega (arith, le_value-take-suc i xs e, ap (λ (t : ℕ). t * b) (pow-suc 256 i))

-- The lowest bytes of a number.
abbrev pub bytes_of : ℕ → ℕ → List ℕ
bytes_of zero x = []
bytes_of (suc n) x = x % 256 ∷ bytes_of n (x / 256)

pub length-bytes_of : (n x : ℕ) → length (bytes_of n x) ≡ n
length-bytes_of zero x = refl
length-bytes_of (suc n) x = ap suc (length-bytes_of n (x / 256))

pub bytes_of-IsBytes : (n x : ℕ) → IsBytes (bytes_of n x)
bytes_of-IsBytes zero x = tt
bytes_of-IsBytes (suc n) x = (omega arith, bytes_of-IsBytes n (x / 256))

pub le_value-bytes_of : (n x : ℕ) → x < 256 ^ n → le_value (bytes_of n x) ≡ x
le_value-bytes_of zero x h = omega arith
le_value-bytes_of (suc n) x h =
    omega (arith, le_value-bytes_of n (x / 256) (omega (arith, pow-suc 256 n)))

pub bytes_of-zero : (n : ℕ) → bytes_of n 0 ≡ replicate n 0
bytes_of-zero zero = refl
bytes_of-zero (suc n) = ap (λ bs. 0 ∷ bs) (bytes_of-zero n)

pub bytes_of-le_value : (a : List ℕ) → IsBytes a → bytes_of (length a) (le_value a) ≡ a
bytes_of-le_value [] h = refl
bytes_of-le_value (b ∷ bs) (hb, h) =
    let quotient : (b + 256 * le_value bs) / 256 ≡ le_value bs = omega arith in
    ap₂ ◌∷◌ (omega arith) (ap (bytes_of (length bs)) quotient ∙ bytes_of-le_value bs h)

pub take-bytes_of : (n x : ℕ) → take n (bytes_of n x) ≡ bytes_of n x
take-bytes_of zero x = refl
take-bytes_of (suc n) x = ap (λ bs. x % 256 ∷ bs) (take-bytes_of n (x / 256))

-- Bytes that end in another byte than zero have no trailing zero.
pub append-IsNormal :
    (a : List ℕ) (b : ℕ) → 0 < b → (0 < le_value (a ++ b ∷ [])) × IsNormal (a ++ b ∷ [])
append-IsNormal [] b h = (omega arith, (omega arith, tt))
append-IsNormal (x ∷ a) b h =
    let (more, normal) = append-IsNormal a b h in (omega arith, (omega arith, normal))

pub pad-IsBytes : (n : ℕ) (a : List ℕ) → IsBytes a → IsBytes (pad n a)
pad-IsBytes n a h = All-append (λ b. b < 256) a _ h (zeros-IsBytes (n - length a))
