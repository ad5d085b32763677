-- ===== src/Hashes.antt =====
-- The hash functions of runtime/src/built-ins.ts. The functions of the onchain runtime and of
-- `@noble/hashes` are parameters; nothing is assumed of them.
pub mod Digests
pub mod Collisions
use compact.Base.{
  ℕ, ◌+◌, ◌-◌, List, [], ◌∷◌, ◌++◌, ltb, ◌==◌, not, if◌then◌else◌, length, drop, replicate, Result,
  ok, err, message, native_type_error, native_range_error, ◌>>=◌,
}
use compact.Base.Int.{ℤ}
use compact.Codec.{Atom, Value, Alignment, CompactType}
use compact.Codec.Ocrt.{Ocrt}
use compact.Codec.Binary.{to_binary_repr}

-- The functions of `@midnightntwrk/onchain-runtime-v4` and of `@noble/hashes`.
pub record Hashes : Type 0 where
  pub transient_hash : Alignment → Value → Result Value
  pub transient_commit : Alignment → Value → Value → Result Value
  pub persistent_hash : Alignment → Value → Result Value
  pub persistent_commit : Alignment → Value → Value → Result Value
  pub degrade_to_transient : Value → Result Value
  pub upgrade_from_transient : Value → Result Value
  pub keccak_256 : List ℕ → List ℕ
  pub sha512 : List ℕ → List ℕ

-- `const wrapped = value[0]; const res = new Uint8Array(32); res.set(wrapped, 0)`, which throws
-- where there is no atom and where the atom is longer than the array.
set_into_32 : Value → Result (List ℕ)
set_into_32 [] = err native_type_error
set_into_32 (wrapped ∷ value) =
    if ltb 32 (length wrapped)
    then err native_range_error
    else ok (wrapped ++ drop (length wrapped) (replicate 32 0))

module _ (o : Ocrt) (h : Hashes) where
  unfoldable pub transient_hash : {A : Type 0} → CompactType A → A → Result ℕ
  transient_hash rt_type value = do
    v ← rt_type.to_value value
    digest ← h.transient_hash rt_type.alignment v
    o.value_to_big_int digest

  unfoldable pub transient_commit : {A : Type 0} → CompactType A → A → ℤ → Result ℕ
  transient_commit rt_type value opening = do
    v ← rt_type.to_value value
    w ← o.big_int_to_value opening
    digest ← h.transient_commit rt_type.alignment v w
    o.value_to_big_int digest

  unfoldable pub persistent_hash : {A : Type 0} → CompactType A → A → Result (List ℕ)
  unfolding set_into_32
  persistent_hash rt_type value = do
    v ← rt_type.to_value value
    digest ← h.persistent_hash rt_type.alignment v
    set_into_32 digest

  unfoldable pub persistent_commit : {A : Type 0} → CompactType A → A → List ℕ → Result (List ℕ)
  unfolding set_into_32
  persistent_commit rt_type value opening =
      if not (length opening == 32) then err (message "Expected 32-byte string") else do
        v ← rt_type.to_value value
        digest ← h.persistent_commit rt_type.alignment v (opening ∷ [])
        set_into_32 digest

  unfoldable pub degrade_to_transient : List ℕ → Result ℕ
  degrade_to_transient x =
      if not (length x == 32)
      then err (message "Expected 32-byte string")
      else do value ← h.degrade_to_transient (x ∷ []); o.value_to_big_int value

  unfoldable pub upgrade_from_transient : ℤ → Result (List ℕ)
  unfolding set_into_32
  upgrade_from_transient x = do
    v ← o.big_int_to_value x
    digest ← h.upgrade_from_transient v
    set_into_32 digest

module _ (h : Hashes) where
  unfoldable pub keccak256 : {A : Type 0} → CompactType A → A → Result (List ℕ)
  keccak256 rt_type value = do bytes ← to_binary_repr rt_type value; ok (h.keccak_256 bytes)

  unfoldable pub sha512 : {A : Type 0} → CompactType A → A → Result (List ℕ)
  sha512 rt_type value = do bytes ← to_binary_repr rt_type value; ok (h.sha512 bytes)
