-- ===== src/Base/Bits.antt =====
-- Masks and shifts of natural numbers.
use Prim.Native.Nat.{
  ℕ, zero, suc, ◌+◌, ◌-◌, ◌*◌, ◌/◌, ◌%◌, ◌^◌, ◌≤◌, ◌<◌, min, max, bit_and, bit_or, digits,
  bit_and-bitwise, bit_or-bitwise,
}
use mathlib.Core.Path.{◌≡◌, refl, ap}
use native.Mathlib.Omega.{arith}
use native.Mathlib.Nat.{pow-suc, one-le-pow}

-- The digit recursion behind the native operations gives one result for all sufficient fuel.
module _ (rest : ℕ → ℕ) (digit : ℕ → ℕ → ℕ) where
  enough_digits : (n m a b : ℕ) → a ≤ n → a ≤ m → digits rest digit n a b ≡ digits rest digit m a b
  enough_digits (suc n) (suc m) (suc a) b p q =
      ap (λ (t : ℕ). t * 2 + digit (suc a % 2) (b % 2))
        (enough_digits n m (suc a / 2) (b / 2) (omega arith) (omega arith))
  enough_digits (suc n) (suc m) zero b p q = refl
  enough_digits (suc n) zero zero b p q = refl
  enough_digits zero (suc m) zero b p q = refl
  enough_digits zero zero zero b p q = refl
  enough_digits (suc n) zero (suc a) b p q = elim q [ ]
  enough_digits zero m (suc a) b p q = elim p [ ]

bit_and_step : (a b : ℕ) → bit_and a b ≡ 2 * bit_and (a / 2) (b / 2) + min (a % 2) (b % 2)
bit_and_step zero b = omega (arith, bit_and-bitwise 0 b, bit_and-bitwise 0 (b / 2))
bit_and_step (suc a) b = omega (
  arith,
  bit_and-bitwise (suc a) b,
  bit_and-bitwise (suc a / 2) (b / 2),
  enough_digits (λ _. 0) min a (suc a / 2) (suc a / 2) (b / 2) (omega arith) (omega arith),
)

bit_or_step : (a b : ℕ) → bit_or a b ≡ 2 * bit_or (a / 2) (b / 2) + max (a % 2) (b % 2)
bit_or_step zero b = omega (arith, bit_or-bitwise 0 b, bit_or-bitwise 0 (b / 2))
bit_or_step (suc a) b = omega (
  arith,
  bit_or-bitwise (suc a) b,
  bit_or-bitwise (suc a / 2) (b / 2),
  enough_digits (λ y. y) max a (suc a / 2) (suc a / 2) (b / 2) (omega arith) (omega arith),
)

-- With zero on the right, by a bound on the left argument.
bit_zero : (n a : ℕ) → a ≤ n → (bit_and a 0 ≡ 0) × (bit_or a 0 ≡ a)
bit_zero n zero h = (refl, refl)
bit_zero zero (suc a) h = elim h [ ]
bit_zero (suc n) (suc a) h =
    let (none_left, all_left) = bit_zero n (suc a / 2) (omega arith) in
    (omega (arith, bit_and_step (suc a) 0), omega (arith, bit_or_step (suc a) 0))

double_shift : (n k : ℕ) → n * 2 ^ suc k ≡ n * 2 ^ k * 2
double_shift n k = omega (arith, ap (λ (t : ℕ). n * t) (pow-suc 2 k))

bit_and-low : (k high low : ℕ) → low < 2 ^ k → bit_and (high * 2 ^ k + low) (2 ^ k - 1) ≡ low
bit_and-low zero high low h = ground (arith, (bit_zero (high + low) (high + low) (omega arith)).0)
bit_and-low (suc k) high low h =
    let whole = high * 2 ^ suc k + low in
    ground (
      arith,
      bit_and_step whole (2 ^ suc k - 1),
      double_shift high k,
      pow-suc 2 k,
      bit_and-low k high (low / 2) (omega (arith, pow-suc 2 k)),
    )

pub bit_and-mask : (k a : ℕ) → bit_and a (2 ^ k - 1) ≡ a % 2 ^ k
bit_and-mask k a = ground (arith, bit_and-low k (a / 2 ^ k) (a % 2 ^ k), one-le-pow k 2)

pub bit_or-shifted : (k high low : ℕ) → low < 2 ^ k → bit_or (high * 2 ^ k) low ≡ high * 2 ^ k + low
bit_or-shifted zero high low h = ground (arith, (bit_zero high high (omega arith)).1)
bit_or-shifted (suc k) high low h = ground (
  arith,
  bit_or_step (high * 2 ^ suc k) low,
  double_shift high k,
  bit_or-shifted k high (low / 2) (omega (arith, pow-suc 2 k)),
)
