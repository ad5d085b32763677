-- ===== src/Fields/Secp256r1.antt =====
-- The secp256r1 field arithmetic of runtime/src/built-ins.ts.
use compact.Base.{if◌then◌else◌, message, Result, err}
use compact.Base.Int.{ℤ, pos, ◌+ℤ◌, ◌-ℤ◌, ◌*ℤ◌, ◌%ℤ◌, ltb_ℤ, leb_ℤ, eq_ℤ}
use compact.Constants.{secp256r1_base_modulus, secp256r1_scalar_modulus}
use compact.Fields.Foreign.{Noble, secp256r1_base, secp256r1_scalar}

unfoldable pub secp256r1_base_add : ℤ → ℤ → ℤ
secp256r1_base_add x y =
    let t = x +ℤ y in
    if ltb_ℤ t (pos secp256r1_base_modulus) then t else t -ℤ pos secp256r1_base_modulus

unfoldable pub secp256r1_base_neg : ℤ → ℤ
secp256r1_base_neg x = if eq_ℤ x (pos 0) then x else pos secp256r1_base_modulus -ℤ x

unfoldable pub secp256r1_base_sub : ℤ → ℤ → ℤ
secp256r1_base_sub x y =
    let t = x -ℤ y in if leb_ℤ (pos 0) t then t else t +ℤ pos secp256r1_base_modulus

unfoldable pub secp256r1_base_mul : ℤ → ℤ → ℤ
secp256r1_base_mul x y = x *ℤ y %ℤ secp256r1_base_modulus

unfoldable pub secp256r1_base_inv : Noble → ℤ → Result ℤ
secp256r1_base_inv n x =
    if eq_ℤ x (pos 0)
    then err (message "secp256r1 base field has no inverse for 0")
    else n.inv secp256r1_base x

unfoldable pub secp256r1_scalar_add : ℤ → ℤ → ℤ
secp256r1_scalar_add x y =
    let t = x +ℤ y in
    if ltb_ℤ t (pos secp256r1_scalar_modulus) then t else t -ℤ pos secp256r1_scalar_modulus

unfoldable pub secp256r1_scalar_neg : ℤ → ℤ
secp256r1_scalar_neg x = if eq_ℤ x (pos 0) then x else pos secp256r1_scalar_modulus -ℤ x

unfoldable pub secp256r1_scalar_sub : ℤ → ℤ → ℤ
secp256r1_scalar_sub x y =
    let t = x -ℤ y in if leb_ℤ (pos 0) t then t else t +ℤ pos secp256r1_scalar_modulus

unfoldable pub secp256r1_scalar_mul : ℤ → ℤ → ℤ
secp256r1_scalar_mul x y = x *ℤ y %ℤ secp256r1_scalar_modulus

unfoldable pub secp256r1_scalar_inv : Noble → ℤ → Result ℤ
secp256r1_scalar_inv n x =
    if eq_ℤ x (pos 0)
    then err (message "secp256r1 scalar field has no inverse for 0")
    else n.inv secp256r1_scalar x
