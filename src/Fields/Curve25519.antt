-- ===== src/Fields/Curve25519.antt =====
-- The Curve25519 field arithmetic of runtime/src/built-ins.ts.
use compact.Base.{if◌then◌else◌, message, Result, err}
use compact.Base.Int.{ℤ, pos, ◌+ℤ◌, ◌-ℤ◌, ◌*ℤ◌, ◌%ℤ◌, ltb_ℤ, leb_ℤ, eq_ℤ}
use compact.Constants.{curve25519_base_modulus, curve25519_scalar_modulus}
use compact.Fields.Foreign.{Noble, curve25519_base, curve25519_scalar}

unfoldable pub curve25519_base_add : ℤ → ℤ → ℤ
curve25519_base_add x y =
    let t = x +ℤ y in
    if ltb_ℤ t (pos curve25519_base_modulus) then t else t -ℤ pos curve25519_base_modulus

unfoldable pub curve25519_base_neg : ℤ → ℤ
curve25519_base_neg x = if eq_ℤ x (pos 0) then x else pos curve25519_base_modulus -ℤ x

unfoldable pub curve25519_base_sub : ℤ → ℤ → ℤ
curve25519_base_sub x y =
    let t = x -ℤ y in if leb_ℤ (pos 0) t then t else t +ℤ pos curve25519_base_modulus

unfoldable pub curve25519_base_mul : ℤ → ℤ → ℤ
curve25519_base_mul x y = x *ℤ y %ℤ curve25519_base_modulus

unfoldable pub curve25519_base_inv : Noble → ℤ → Result ℤ
curve25519_base_inv n x =
    if eq_ℤ x (pos 0)
    then err (message "Curve25519 base field has no inverse for 0")
    else n.inv curve25519_base x

unfoldable pub curve25519_scalar_add : ℤ → ℤ → ℤ
curve25519_scalar_add x y =
    let t = x +ℤ y in
    if ltb_ℤ t (pos curve25519_scalar_modulus) then t else t -ℤ pos curve25519_scalar_modulus

unfoldable pub curve25519_scalar_neg : ℤ → ℤ
curve25519_scalar_neg x = if eq_ℤ x (pos 0) then x else pos curve25519_scalar_modulus -ℤ x

unfoldable pub curve25519_scalar_sub : ℤ → ℤ → ℤ
curve25519_scalar_sub x y =
    let t = x -ℤ y in if leb_ℤ (pos 0) t then t else t +ℤ pos curve25519_scalar_modulus

unfoldable pub curve25519_scalar_mul : ℤ → ℤ → ℤ
curve25519_scalar_mul x y = x *ℤ y %ℤ curve25519_scalar_modulus

unfoldable pub curve25519_scalar_inv : Noble → ℤ → Result ℤ
curve25519_scalar_inv n x =
    if eq_ℤ x (pos 0)
    then err (message "Curve25519 scalar field has no inverse for 0")
    else n.inv curve25519_scalar x
