-- ===== src/Tests/Casts.antt =====
-- runtime/src/casts.ts at concrete inputs.
use compact.Base.{◌≡◌, [], ◌∷◌, ok}
use compact.Casts.{convert_bigint_to_bytes}
use compact.Casts.Store.{convert_bigint_to_bytes_lem}

convert_bigint_to_bytes_lem_example :
    convert_bigint_to_bytes 3 0x1234 "test" ≡ ok (0x34 ∷ 0x12 ∷ 0 ∷ [])
convert_bigint_to_bytes_lem_example = convert_bigint_to_bytes_lem 3 0x1234 "test"
