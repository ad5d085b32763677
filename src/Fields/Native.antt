-- ===== src/Fields/Native.antt =====
-- The native field arithmetic of runtime/src/built-ins.ts; `FIELD_MODULUS` is `maxField() + 1`.
use compact.Base.{ℕ, ◌+◌, if◌then◌else◌}
use compact.Base.Int.{ℤ, pos, ◌+ℤ◌, ◌-ℤ◌, ◌*ℤ◌, ◌%ℤ◌, ltb_ℤ, leb_ℤ}
use compact.Codec.Ocrt.{Ocrt}

abbrev pub field_modulus : Ocrt → ℕ
field_modulus o = o.max_field + 1

unfoldable pub add_field : Ocrt → ℤ → ℤ → ℤ
add_field o x y =
    let t = x +ℤ y in if ltb_ℤ t (pos (field_modulus o)) then t else t -ℤ pos (field_modulus o)

unfoldable pub sub_field : Ocrt → ℤ → ℤ → ℤ
sub_field o x y = let t = x -ℤ y in if leb_ℤ (pos 0) t then t else t +ℤ pos (field_modulus o)

unfoldable pub mul_field : Ocrt → ℤ → ℤ → ℤ
mul_field o x y = x *ℤ y %ℤ field_modulus o
