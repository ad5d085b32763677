-- ===== src/Codec/Foreign/Limbs.antt =====
-- The arithmetic of the limbs: the value less 1 in the field, split at a bit and joined again.
use compact.Base.{
  ℕ, ◌+◌, ◌-◌, ◌*◌, ◌/◌, ◌%◌, ◌^◌, ◌≤◌, ◌≡◌, ◌∙◌, arith, bit_and, bit_or, ◌==◌, if◌then◌else◌,
}
use compact.Base.Bits.{bit_and-mask, bit_or-shifted}
use native.Mathlib.Nat.{mod-lt, div-add-mod', one-le-pow}

-- What `toValue` and `fromValue` do to the value.
abbrev pub less_one : ℕ → ℕ → ℕ
less_one max value = if value == 0 then max else value - 1

abbrev pub plus_one : ℕ → ℕ → ℕ
plus_one max res = if res == max then 0 else res + 1

pub plus_one-less_one : (max value : ℕ) → value ≤ max → plus_one max (less_one max value) ≡ value
plus_one-less_one max value h = ground arith

pub less_one-le : (max value : ℕ) → value ≤ max → less_one max value ≤ max
less_one-le max value h = ground arith

pub join_limbs : (k v : ℕ) → bit_or (v / 2 ^ k * 2 ^ k) (bit_and v (2 ^ k - 1)) ≡ v
join_limbs k v = rw (bit_and-mask k v) (
    bit_or-shifted k (v / 2 ^ k) (v % 2 ^ k) (mod-lt v (one-le-pow k 2 (omega arith)))
    ∙ div-add-mod' v (2 ^ k))
