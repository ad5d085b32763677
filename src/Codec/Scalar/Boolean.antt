-- ===== src/Codec/Scalar/Boolean.antt =====
-- `CompactTypeBoolean` of runtime/src/compact-types.ts.
use mathlib.Core.Path.{subst}
use compact.Base.{◌≡◌, refl, arith, Bool, true, false, List, [], ◌∷◌, ok, ℕ}
use compact.Codec.{Value}
use compact.Codec.Laws.{IsCodec, Encodes, HasBytes}
use compact.Codec.Scalar.{compact_type_boolean}

boolean-Encodes : (b : Bool) → (v : Value) × Encodes compact_type_boolean b v
unfolding compact_type_boolean
boolean-Encodes true =
    ((1 ∷ []) ∷ [], record { gives = refl; fits = omega arith; back = λ rest. refl })
boolean-Encodes false = ([] ∷ [], record { gives = refl; fits = omega arith; back = λ rest. refl })

boolean-decodes :
    (v rest : Value) (b : Bool)
    → HasBytes v
    → compact_type_boolean.from_value v ≡ ok (b, rest)
    → Unit {0} × HasBytes rest
unfolding compact_type_boolean
boolean-decodes [] rest b bs h = cc
boolean-decodes (a ∷ v) rest b (_, bs) h =
    let rest-eq : v ≡ rest = ground arith in (tt, subst HasBytes rest-eq bs)

-- CompactTypeBoolean is a codec of the two Booleans.
pub boolean-IsCodec : IsCodec compact_type_boolean (λ _. Unit {0})
boolean-IsCodec = record { encodes = λ b _. boolean-Encodes b; decodes = boolean-decodes }

-- An atom that the decoder of Boolean reads as b is the atom that its encoder writes for b.
pub boolean_canonical :
    (a : List ℕ) (v rest : Value) (b : Bool)
    → compact_type_boolean.from_value (a ∷ v) ≡ ok (b, rest)
    → compact_type_boolean.to_value b ≡ ok (a ∷ [])
unfolding compact_type_boolean
boolean_canonical [] v rest b h = ground arith
boolean_canonical (x ∷ []) v rest b h = ground arith
boolean_canonical (x ∷ y ∷ a) v rest b h = cc
