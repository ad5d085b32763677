-- ===== src/Tests/Fields.antt =====
-- The field arithmetic of runtime/src/built-ins.ts at concrete inputs.
use compact.Base.{ℕ, ◌+◌, ◌-◌, ◌/◌, ◌≡◌, refl, arith, ok}
use compact.Base.Int.{pos}
use compact.Constants.{secp256k1_base_modulus}
use compact.Fields.{add, neg, sub, mul, inv}
use compact.Fields.Foreign.{Noble, secp256k1_base, modulus}
use compact.Fields.Laws.{operations_are_residues}
use compact.Fields.Ring.{mul-inv}

-- The largest number of a field.
abbrev last : ℕ
last = secp256k1_base_modulus - 1

operations_are_residues_example :
    (add secp256k1_base (pos last) (pos 2) ≡ pos 1)
    × (sub secp256k1_base (pos last) (pos 2) ≡ pos (secp256k1_base_modulus - 3))
    × (mul secp256k1_base (pos last) (pos 2) ≡ pos (secp256k1_base_modulus - 2))
    × (neg secp256k1_base (pos last) ≡ pos 1)
operations_are_residues_example =
    operations_are_residues secp256k1_base last 2 (omega arith) (omega arith)

-- The inverse of 2 is all that the example asks for.
halves : Noble
halves = record { inv = λ f x. ok (pos ((modulus f + 1) / 2)) }

mul-inv_example :
    (inv secp256k1_base halves (pos 2) ≡ ok (pos ((secp256k1_base_modulus + 1) / 2)))
    × (mul secp256k1_base
          (mul secp256k1_base (pos last) (pos 2))
          (pos ((secp256k1_base_modulus + 1) / 2))
        ≡ pos last)
unfolding halves
mul-inv_example =
    mul-inv halves secp256k1_base last 2 ((secp256k1_base_modulus + 1) / 2) (omega arith)
      (omega arith) (omega arith) (refl, omega arith, refl)
