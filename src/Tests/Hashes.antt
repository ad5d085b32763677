-- ===== src/Tests/Hashes.antt =====
-- The hash functions at concrete inputs, with functions of the libraries that are easy to compute.
use compact.Base.{ℕ, ◌≡◌, ◌⊎◌, inl, refl, arith, List, [], ◌∷◌, length, replicate, ok, ◌<◌, All}
use compact.Base.Int.{pos}
use compact.Codec.Scalar.{compact_type_bytes}
use compact.Codec.Scalar.Bytes.{compact_type_bytes-IsCodec}
use compact.Hashes.{Hashes, persistent_hash, keccak256}
use compact.Codec.Binary.{to_binary_repr}
use compact.Hashes.Digests.{digests_have_32_bytes}
use compact.Hashes.Collisions.{IsCollision, keccak256-Collision}
use compact.Tests.Runtime.{runtime}

abbrev first_byte : List ℕ → ℕ
first_byte [] = 0
first_byte (a ∷ l) = a

-- The persistent hash is the encoding itself, Keccak-256 looks at the first byte only, and SHA-512
-- at nothing.
abbrev hashes : Hashes
hashes = record {
  transient_hash = λ l v. ok v;
  transient_commit = λ l v w. ok v;
  persistent_hash = λ l v. ok v;
  persistent_commit = λ l v w. ok v;
  degrade_to_transient = λ v. ok v;
  upgrade_from_transient = λ v. ok v;
  keccak_256 = λ a. first_byte a ∷ replicate 31 0;
  sha512 = λ a. replicate 64 0;
}

abbrev digest : List ℕ
digest = 1 ∷ 2 ∷ replicate 30 0

abbrev one : List ℕ
one = 1 ∷ 0 ∷ []

abbrev other : List ℕ
other = 1 ∷ 5 ∷ []

digests_have_32_bytes_example : length digest ≡ 32
unfolding persistent_hash compact_type_bytes
digests_have_32_bytes_example =
    digests_have_32_bytes runtime hashes (compact_type_bytes 3) (1 ∷ 2 ∷ 0 ∷ []) digest [] (pos 0)
      (inl refl)

two_bytes :
    (a b : ℕ) → a < 256 → b < 256 → All (λ c. c < 256) (a ∷ b ∷ []) × (length (a ∷ b ∷ []) ≡ 2)
two_bytes a b h k = ((h, (k, tt)), refl)

keccak256-Collision_example :
    (one ≡ other) ⊎ IsCollision (compact_type_bytes 2) one other hashes.keccak_256
unfolding keccak256 compact_type_bytes to_binary_repr
keccak256-Collision_example =
    keccak256-Collision hashes (compact_type_bytes 2) (compact_type_bytes-IsCodec 2) tt one other
      (two_bytes 1 0 (omega arith) (omega arith)) (two_bytes 1 5 (omega arith) (omega arith)) refl
