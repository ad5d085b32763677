-- ===== src/Hashes/Digests.antt =====
-- The results of the hash functions of runtime/src/built-ins.ts.
use compact.Base.{
  ℕ, ◌+◌, ◌≡◌, ap, ◌∙◌, arith, List, [], ◌∷◌, ◌++◌, ◌⊎◌, ltb, ◌==◌, not, length, length-append,
  drop, replicate, ok, >>=-eq-ok, if_err-eq-ok, length-drop, ok-injective, inl, inr,
}
use compact.Base.Int.{ℤ}
use mathlib.Core.Path.{subst}
use compact.Codec.{Value, CompactType}
use compact.Codec.Ocrt.{Ocrt}
use compact.Hashes.{Hashes, set_into_32, persistent_hash, persistent_commit, upgrade_from_transient}

length-set_into_32 : (value : Value) {r : List ℕ} → set_into_32 value ≡ ok r → length r ≡ 32
unfolding set_into_32
length-set_into_32 [] e = cc
length-set_into_32 (wrapped ∷ value) {r} e =
    let (fits, returned) = if_err-eq-ok (ltb 32 (length wrapped)) _ _ e in
    let zeros = replicate 32 0 in
    let filled : length (wrapped ++ drop (length wrapped) zeros) ≡ 32 =
      length-append wrapped (drop (length wrapped) zeros)
      ∙ ap (λ n. length wrapped + n) (length-drop (length wrapped) zeros)
      ∙ ground arith in
    subst (λ a. length a ≡ 32) (ok-injective returned) filled

module _ (o : Ocrt) (h : Hashes) {A : Type 0} (t : CompactType A) (x : A) (r : List ℕ) where
  length-persistent_hash : persistent_hash o h t x ≡ ok r → length r ≡ 32
  unfolding persistent_hash
  length-persistent_hash e =
      let (v, _, e_1) = >>=-eq-ok (t.to_value x) _ e in
      let (digest, _, e_2) = >>=-eq-ok (h.persistent_hash t.alignment v) _ e_1 in
      length-set_into_32 digest e_2

  length-persistent_commit :
      (opening : List ℕ) → persistent_commit o h t x opening ≡ ok r → length r ≡ 32
  unfolding persistent_commit
  length-persistent_commit opening e =
      let (_, e_0) = if_err-eq-ok (not (length opening == 32)) _ _ e in
      let (v, _, e_1) = >>=-eq-ok (t.to_value x) _ e_0 in
      let (digest, _, e_2) = >>=-eq-ok (h.persistent_commit t.alignment v (opening ∷ [])) _ e_1 in
      length-set_into_32 digest e_2

  length-upgrade_from_transient : (n : ℤ) → upgrade_from_transient o h n ≡ ok r → length r ≡ 32
  unfolding upgrade_from_transient
  length-upgrade_from_transient n e =
      let (v, _, e_1) = >>=-eq-ok (o.big_int_to_value n) _ e in
      let (digest, _, e_2) = >>=-eq-ok (h.upgrade_from_transient v) _ e_1 in
      length-set_into_32 digest e_2

  -- Every array that persistentHash, persistentCommit or upgradeFromTransient returns has 32
  -- bytes, whatever the library's functions return.
  pub digests_have_32_bytes :
      (opening : List ℕ) (n : ℤ)
      → (persistent_hash o h t x ≡ ok r)
        ⊎ ((persistent_commit o h t x opening ≡ ok r) ⊎ (upgrade_from_transient o h n ≡ ok r))
      → length r ≡ 32
  digests_have_32_bytes opening n (inl e) = length-persistent_hash e
  digests_have_32_bytes opening n (inr (inl e)) = length-persistent_commit opening e
  digests_have_32_bytes opening n (inr (inr e)) = length-upgrade_from_transient n e
