-- ===== src/Constants.antt =====
-- runtime/src/constants.ts: the orders of the fields. `MAX_FIELD` and `FIELD_MODULUS` come from
-- the on-chain runtime and are parameters (Codec/Ocrt).
use compact.Base.{ℕ, ◌+◌, ◌-◌, ◌^◌}

abbrev pub jubjub_scalar_modulus : ℕ
jubjub_scalar_modulus = 0xe7db4ea6533afa906673b0101343b00a6682093ccc81082d0970e5ed6f72cb7

abbrev pub max_jubjub_scalar : ℕ
max_jubjub_scalar = jubjub_scalar_modulus - 1

abbrev pub secp256k1_base_modulus : ℕ
secp256k1_base_modulus = 2 ^ 256 - 2 ^ 32 - 977

abbrev pub max_secp256k1_base : ℕ
max_secp256k1_base = secp256k1_base_modulus - 1

abbrev pub secp256k1_scalar_modulus : ℕ
secp256k1_scalar_modulus = 0xfffffffffffffffffffffffffffffffebaaedce6af48a03bbfd25e8cd0364141

abbrev pub max_secp256k1_scalar : ℕ
max_secp256k1_scalar = secp256k1_scalar_modulus - 1

abbrev pub secp256r1_base_modulus : ℕ
secp256r1_base_modulus = 2 ^ 256 - 2 ^ 224 + 2 ^ 192 + 2 ^ 96 - 1

abbrev pub max_secp256r1_base : ℕ
max_secp256r1_base = secp256r1_base_modulus - 1

abbrev pub secp256r1_scalar_modulus : ℕ
secp256r1_scalar_modulus = 0xffffffff00000000ffffffffffffffffbce6faada7179e84f3b9cac2fc632551

abbrev pub max_secp256r1_scalar : ℕ
max_secp256r1_scalar = secp256r1_scalar_modulus - 1

abbrev pub curve25519_base_modulus : ℕ
curve25519_base_modulus = 2 ^ 255 - 19

abbrev pub max_curve25519_base : ℕ
max_curve25519_base = curve25519_base_modulus - 1

abbrev pub curve25519_scalar_modulus : ℕ
curve25519_scalar_modulus = 2 ^ 252 + 27742317777372353535851937790883648493

abbrev pub max_curve25519_scalar : ℕ
max_curve25519_scalar = curve25519_scalar_modulus - 1
