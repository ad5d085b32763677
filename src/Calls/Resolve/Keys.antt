-- ===== src/Calls/Resolve/Keys.antt =====
-- `checkImplementation` of runtime/src/contract.ts: when it returns.
use compact.Base.{
  ℕ, ◌≡◌, ◌↔◌, ◌⊎◌, inl, inr, refl, sym, ap, ◌∙◌, arith, String, Bool, true, false, List, [], ◌∷◌,
  Option, none, some, Bool-cases, if◌then◌else◌,
}
use compact.Base.Names.{same, same_iff, Dict, lookup}
use compact.Resolution.{
  Thrown, ModuleResolutionContext, is_verifier_key_hash, as_verifier_key_hash, verifier_key_hash_of,
}
use compact.Context.{Ledger, ContractState, Outcome, returned, thrown}
use compact.Calls.Resolve.{
  ◌>>=◌, recorded_hash, hash_of_key, deployed_hash, compare, check_called, check_other,
  check_others, check_implementation,
}

Outcome-cases {ℓ} :
    {A : Type ℓ} (o : Outcome A) → ((a : A) × (o ≡ returned a)) ⊎ ((e : Thrown) × (o ≡ thrown e))
Outcome-cases (returned a) = inl (a, refl)
Outcome-cases (thrown e) = inr (e, refl)

abbrev result_of {ℓ} : {A : Type ℓ} → A → Outcome A → A
result_of a (returned b) = b
result_of a (thrown e) = a

pub returned-injective {ℓ} :
    {A : Type ℓ} {a b : A} → ◌≡◌ {A = Outcome A} (returned a) (returned b) → a ≡ b
returned-injective {a} e = ap (result_of a) e

if_bind {ℓ κ} :
    {A : Type ℓ} {B : Type κ} (b : Bool) {a : A} (t : Thrown) (next : A → Outcome B) {r : B}
    → ((if b then returned a else thrown t) >>= next) ≡ returned r
    → next a ≡ returned r
if_bind true t next e = e
if_bind false t next e = absurd (cc e)

both_iff :
    (first : Outcome (Unit {0})) (rest : Outcome (Unit {0}))
    → ((first >>= λ _. rest) ≡ returned tt) ↔ ((first ≡ returned tt) × (rest ≡ returned tt))
both_iff (returned u) rest = (λ e. (refl, e), λ (_, e). e)
both_iff (thrown t) rest = (λ e. absurd (cc e), λ (e, _). absurd (cc e))

module _ {l : Ledger} (hex_of_sha256 : List ℕ → String) (deployed_state : ContractState l) where
  -- The key of the circuit on the chain has this fingerprint, or there is no key.
  abbrev pub IsDeployed : String → String → Type 0
  IsDeployed circuit_id hash =
      deployed_hash hex_of_sha256 deployed_state circuit_id ≡ returned (some hash)

  abbrev pub HasNoKey : String → Type 0
  HasNoKey circuit_id = deployed_hash hex_of_sha256 deployed_state circuit_id ≡ returned none

  -- Every other circuit that is recorded has no key on the chain or the recorded one.
  abbrev pub OthersAgree : String → Dict String → Type 0
  OthersAgree callee [] = Unit {0}
  OthersAgree callee ((k, recorded) ∷ expected_vk) =
      ((k ≡ callee) ⊎ HasNoKey k ⊎ IsDeployed k recorded) × OthersAgree callee expected_vk

  of_hash-is_hash :
      (key : Option (List ℕ)) {hash : String}
      → hash_of_key hex_of_sha256 key ≡ returned (some hash)
      → is_verifier_key_hash hash ≡ true
  unfolding verifier_key_hash_of as_verifier_key_hash
  of_hash-is_hash none e = absurd (cc e)
  of_hash-is_hash (some []) e = absurd (cc e)
  of_hash-is_hash (some (b ∷ key)) e = ground arith

  is_deployed :
      (k : String) {hash : String}
      → IsDeployed k hash
      → hash_of_key hex_of_sha256 (lookup k deployed_state.verifier_keys) ≡ returned (some hash)
  unfolding deployed_hash
  is_deployed k e = e

  same_hash :
      (k : String) {recorded deployed : String}
      → HasNoKey k ⊎ IsDeployed k recorded
      → IsDeployed k deployed
      → recorded ≡ deployed
  same_hash k (inl absent) here = absurd (cc (absent, here))
  same_hash k (inr there) here = cc (there, here)

  other_agrees :
      {k callee recorded : String}
      → (k ≡ callee) ⊎ HasNoKey k ⊎ IsDeployed k recorded
      → same k callee ≡ false
      → HasNoKey k ⊎ IsDeployed k recorded
  other_agrees {k} {callee} (inl e) off = absurd (ground (arith, same_iff k callee))
  other_agrees (inr h) off = h

  module _ (context : ModuleResolutionContext) where
    compare_iff :
        (k expected deployed : String)
        → (compare context k expected deployed ≡ returned tt) ↔ (expected ≡ deployed)
    compare_iff k expected deployed = ground (arith, same_iff expected deployed)

    -- A recorded hash and the hash on the chain.
    recorded_iff :
        (k recorded deployed : String)
        → is_verifier_key_hash deployed ≡ true
        → ((recorded_hash context k recorded >>= λ expected. compare context k expected deployed)
            ≡ returned tt)
          ↔ (recorded ≡ deployed)
    unfolding recorded_hash
    recorded_iff k recorded deployed h = (
      λ e. (compare_iff k recorded deployed).0 (
          if_bind (is_verifier_key_hash recorded) _
            (λ expected. compare context k expected deployed) e),
      λ e. rw (e, h) ((compare_iff k deployed deployed).1 refl),
    )

    -- One round for another circuit.
    check_other_iff :
        (k recorded : String) (deployed : Outcome (Option String))
        → deployed_hash hex_of_sha256 deployed_state k ≡ deployed
        → ((deployed >>= check_other context k recorded) ≡ returned tt)
          ↔ (HasNoKey k ⊎ IsDeployed k recorded)
    check_other_iff k recorded (returned none) here = (λ e. inl here, λ h. refl)
    check_other_iff k recorded (returned (some deployed)) here =
        let (sound, complete) =
          recorded_iff k recorded deployed
            (of_hash-is_hash (lookup k deployed_state.verifier_keys) (is_deployed k here)) in
        (
          λ e. inr (here ∙ ap (λ r. returned (some r)) (sym (sound e))),
          λ h. complete (same_hash k h here),
        )
    check_other_iff k recorded (thrown t) here = (
      λ e. absurd (cc e),
      λ h. elim h [ inl x ↦ absurd (cc (x, here)) | inr x ↦ absurd (cc (x, here)) ],
    )

    check_others_iff :
        (callee : String) (expected_vk : Dict String)
        → (check_others hex_of_sha256 deployed_state context callee expected_vk ≡ returned tt)
          ↔ OthersAgree callee expected_vk
    check_others_iff callee [] = (λ e. tt, λ h. refl)
    check_others_iff callee ((k, recorded) ∷ d) =
        let rest = check_others_iff callee d in
        elim (Bool-cases (same k callee)) [
          | inl at ↦ rw at (λ e. (inl ((same_iff k callee).0 at), rest.0 e), λ (_, h). rest.1 h)
          | inr off ↦ rw off (
              let both =
                both_iff
                  (deployed_hash hex_of_sha256 deployed_state k >>= check_other context k recorded)
                  (check_others hex_of_sha256 deployed_state context callee d) in
              let one =
                check_other_iff k recorded (deployed_hash hex_of_sha256 deployed_state k) refl in
              (
                λ e. (inr (one.0 (both.0 e).0), rest.0 (both.0 e).1),
                λ (a, h). both.1 (one.1 (other_agrees a off), rest.1 h),
              ))
        ]

    check_called_iff :
        (k : String) (deployed : Outcome (Option String)) (recorded : Option String)
        → deployed_hash hex_of_sha256 deployed_state k ≡ deployed
        → ((deployed >>= λ d. check_called context k d recorded) ≡ returned tt)
          ↔ ((hash : String) × (recorded ≡ some hash) × IsDeployed k hash)
    check_called_iff k (returned none) recorded here =
        (λ e. absurd (cc e), λ (hash, _, there). absurd (cc (here, there)))
    check_called_iff k (returned (some deployed)) none here =
        (λ e. absurd (cc e), λ (hash, e, there). absurd (cc e))
    check_called_iff k (returned (some deployed)) (some recorded) here =
        let (sound, complete) =
          recorded_iff k recorded deployed
            (of_hash-is_hash (lookup k deployed_state.verifier_keys) (is_deployed k here)) in
        (
          λ e. (deployed, ap some (sound e), here),
          λ (hash, e, there). complete (cc (e, same_hash k (inr there) here)),
        )
    check_called_iff k (thrown t) recorded here =
        (λ e. absurd (cc e), λ (hash, _, there). absurd (cc (here, there)))

    -- checkImplementation returns exactly if the called circuit has a key on the chain whose
    -- fingerprint is recorded under the circuit's name, and each other circuit that is recorded
    -- either has no key there or has the recorded one.
    pub check_implementation_iff :
        (expected_vk : Dict String) (callee : String)
        → (check_implementation hex_of_sha256 deployed_state context expected_vk callee
            ≡ returned tt)
          ↔ (((hash : String) × (lookup callee expected_vk ≡ some hash) × IsDeployed callee hash)
              × OthersAgree callee expected_vk)
    unfolding check_implementation
    check_implementation_iff expected_vk callee =
        let both =
          both_iff
            (deployed_hash hex_of_sha256 deployed_state callee >>= λ d.
              check_called context callee d (lookup callee expected_vk))
            (check_others hex_of_sha256 deployed_state context callee expected_vk) in
        let called =
          check_called_iff callee (deployed_hash hex_of_sha256 deployed_state callee)
            (lookup callee expected_vk) refl in
        let others = check_others_iff callee expected_vk in
        (
          λ e. (called.0 (both.0 e).0, others.0 (both.0 e).1),
          λ (c, o). both.1 (called.1 c, others.1 o),
        )
