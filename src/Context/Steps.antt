-- ===== src/Context/Steps.antt =====
-- Chains of steps on the state of runtime/src/circuit-context.ts.
use compact.Base.{String, Option, none, some, ◌≡◌, refl, ap}
use compact.Context.{
  modify, get, assert_defined, Ledger, State, Outcome, returned, thrown, M, follow, ◌>>=◌, or_else,
}

module _ {l : Ledger} where
  follow-eq-returned :
      {A B : Type 0} (r : Outcome A × State l) (f : A → M l B) {b : B} {u : State l}
      → follow r f ≡ (returned b, u)
      → (a : A) × (t : State l) × (r ≡ (returned a, t)) × (f a t ≡ (returned b, u))
  follow-eq-returned (returned a, t) f e = (a, t, refl, e)
  follow-eq-returned (thrown x, t) f e = absurd (cc (ap (λ p. p.0) e))

  -- If the whole returns, so does its first step.
  pub >>=-eq-returned :
      {A B : Type 0} (m : M l A) (f : A → M l B) (s : State l) {b : B} {u : State l}
      → (m >>= f) s ≡ (returned b, u)
      → (a : A) × (t : State l) × (m s ≡ (returned a, t)) × (f a t ≡ (returned b, u))
  unfolding ◌>>=◌
  >>=-eq-returned m f s e = follow-eq-returned (m s) f e

  -- A step that keeps a property of the state, whatever it leaves.
  abbrev pub Keeps {κ} : (State l → Type κ) → {A : Type 0} → M l A → Type κ
  Keeps P m = (s : State l) → P s → P (m s).1

  follow-Keeps {κ} :
      (P : State l → Type κ) {A B : Type 0} (r : Outcome A × State l) (f : A → M l B)
      → P r.1
      → ((a : A) → Keeps P (f a))
      → P (follow r f).1
  follow-Keeps P (returned a, t) f h k = k a t h
  follow-Keeps P (thrown x, t) f h k = h

  pub >>=-Keeps {κ} :
      (P : State l → Type κ) {A B : Type 0} (m : M l A) (f : A → M l B)
      → Keeps P m
      → ((a : A) → Keeps P (f a))
      → Keeps P (m >>= f)
  unfolding ◌>>=◌
  >>=-Keeps P m f hm hf s h = follow-Keeps P (m s) f (hm s h) hf

  pub assert_defined-Keeps {κ} :
      (P : State l → Type κ) {A B : Type 0} (o : Option A) (name : String) (f : A → M l B)
      → ((a : A) → o ≡ some a → Keeps P (f a))
      → Keeps P (assert_defined o name >>= f)
  unfolding ◌>>=◌
  assert_defined-Keeps P none name f h s p = p
  assert_defined-Keeps P (some a) name f h s p = h a refl s p

  missing-Keeps {κ} :
      (P : State l → Type κ) {A B : Type 0} (r : Outcome ⊥ × State l) (f : A → M l B)
      → P r.1
      → P (follow (follow r (λ x. absurd x)) f).1
  missing-Keeps P (returned x, t) f h = absurd x
  missing-Keeps P (thrown e, t) f h = h

  pub or_else-Keeps {κ} :
      (P : State l → Type κ) {A B : Type 0} (o : Option A) (missing : M l ⊥) (f : A → M l B)
      → Keeps P missing
      → ((a : A) → o ≡ some a → Keeps P (f a))
      → Keeps P (or_else o missing >>= f)
  unfolding ◌>>=◌
  or_else-Keeps P none missing f k h s p = missing-Keeps P (missing s) f (k s p)
  or_else-Keeps P (some a) missing f k h s p = h a refl s p

  -- A step that reads the state, or throws.
  pub read-Keeps {κ} :
      (P : State l → Type κ) {A B : Type 0} (o : Outcome A) (f : A → M l B) (s : State l)
      → P s
      → ((a : A) → o ≡ returned a → P (f a s).1)
      → P (follow (o, s) f).1
  read-Keeps P (returned a) f s p h = h a refl
  read-Keeps P (thrown e) f s p h = p

  pub required-Keeps {κ} :
      (P : State l → Type κ) {A : Type 0} (o : Option A) (name : String)
      → Keeps P (assert_defined {A = A} o name)
  required-Keeps P none name s p = p
  required-Keeps P (some a) name s p = p

  -- The same in a chain.
  pub checked-Keeps {κ} :
      (P : State l → Type κ) {A B : Type 0} (o : State l → Outcome A) (f : State l → A → M l B)
      → ((s : State l) (a : A) → o s ≡ returned a → Keeps P (f s a))
      → Keeps P (get >>= λ s. (λ t. (o s, t)) >>= f s)
  unfolding ◌>>=◌
  checked-Keeps P o f h s p = read-Keeps P (o s) (f s) s p (λ a x. h s a x s p)

  read-eq-returned :
      {A B : Type 0} (o : Outcome A) (f : A → M l B) (s : State l) {b : B} {u : State l}
      → follow (o, s) f ≡ (returned b, u)
      → (a : A) × (o ≡ returned a) × (f a s ≡ (returned b, u))
  read-eq-returned (returned a) f s e = (a, refl, e)
  read-eq-returned (thrown x) f s e = absurd (cc (ap (λ p. p.0) e))

  pub checked-eq-returned :
      {A B : Type 0} (o : State l → Outcome A) (f : State l → A → M l B) (s : State l) {b : B}
      {u : State l}
      → (get >>= λ s. (λ t. (o s, t)) >>= f s) s ≡ (returned b, u)
      → (a : A) × (o s ≡ returned a) × (f s a s ≡ (returned b, u))
  unfolding ◌>>=◌
  checked-eq-returned o f s e = read-eq-returned (o s) (f s) s e

  missing-eq-returned :
      {A B : Type 0} (r : Outcome ⊥ × State l) (f : A → M l B) {b : B} {u : State l}
      → follow (follow r (λ x. absurd x)) f ≡ (returned b, u)
      → ⊥
  missing-eq-returned (returned x, t) f e = absurd x
  missing-eq-returned (thrown x, t) f e = absurd (cc (ap (λ p. p.0) e))

  pub or_else-eq-returned :
      {A B : Type 0} (o : Option A) (missing : M l ⊥) (f : A → M l B) (s : State l) {b : B}
      {u : State l}
      → (or_else o missing >>= f) s ≡ (returned b, u)
      → (a : A) × (o ≡ some a) × (f a s ≡ (returned b, u))
  unfolding ◌>>=◌
  or_else-eq-returned none missing f s e = absurd (missing-eq-returned (missing s) f e)
  or_else-eq-returned (some a) missing f s e = (a, refl, e)

  -- The same for a value that has to be there, a read that may throw, a change, and a look.
  pub defined-eq-returned :
      {A B : Type 0} (o : Option A) (name : String) (f : A → M l B) (s : State l) {b : B}
      {u : State l}
      → (assert_defined o name >>= f) s ≡ (returned b, u)
      → (a : A) × (o ≡ some a) × (f a s ≡ (returned b, u))
  unfolding ◌>>=◌
  defined-eq-returned none name f s e = absurd (cc (ap (λ p. p.0) e))
  defined-eq-returned (some a) name f s e = (a, refl, e)

  pub lift-eq-returned :
      {A B : Type 0} (o : Outcome A) (f : A → M l B) (s : State l) {b : B} {u : State l}
      → ((λ t. (o, t)) >>= f) s ≡ (returned b, u)
      → (a : A) × (o ≡ returned a) × (f a s ≡ (returned b, u))
  unfolding ◌>>=◌
  lift-eq-returned o f s e = read-eq-returned o f s e

  pub get->>= : {B : Type 0} (f : State l → M l B) (s : State l) → (get >>= f) s ≡ f s s
  unfolding ◌>>=◌
  get->>= f s = refl

  pub modify->>= :
      {B : Type 0} (g : State l → State l) (f : Unit {0} → M l B) (s : State l)
      → (modify g >>= f) s ≡ f tt (g s)
  unfolding ◌>>=◌
  modify->>= g f s = refl
