-- ===== src/Conformance/Outcome.antt =====
-- `checkConformance` of runtime/src/conformance.ts: when it returns `Conformant`.
use compact.Base.{
  ℕ, suc, ◌≡◌, ◌↔◌, refl, sym, ap, ◌∙◌, arith, String, Bool, true, false, not, List, [], ◌∷◌,
  Option, none, some, if◌then◌else◌, ◌==◌, ==_iff, length, Bool-cases, inl, inr, Option-cases,
}
use mathlib.Core.Path.{subst}
use compact.Base.Names.{lookup}
use compact.Signature.{
  SignatureType, InterfaceCircuitDeclaration, ImplementedCircuit, signature, unsigned,
  CircuitSignatures, DeclaredInterface,
}
use compact.Conformance.{
  ConformanceResult, conformant, violation, unreadable, or_else, first_unreadable_tag,
  signature_types_equal, check_arguments, check_result, check_circuit, check_conformance,
}

-- An implemented type can be read and is the declared one.
abbrev pub Matches : SignatureType → SignatureType → Type 0
Matches t u = (first_unreadable_tag u ≡ none) × (signature_types_equal t u ≡ true)

abbrev pub AllMatch : List SignatureType → List SignatureType → Type 0
AllMatch [] [] = Unit {0}
AllMatch (t ∷ l) (u ∷ m) = Matches t u × AllMatch l m
AllMatch _ _ = ⊥

-- A declared circuit is implemented: it is there, it has a proof, and its types are the declared.
abbrev pub Implements : InterfaceCircuitDeclaration → Option ImplementedCircuit → Type 0
Implements d none = ⊥
Implements d (some unsigned) = ⊥
Implements d (some (signature s)) =
    (s.provable ≡ true)
    × AllMatch d.argument_types s.argument_types
    × Matches d.result_type s.result_type

abbrev pub ImplementsAll : DeclaredInterface → CircuitSignatures → Type 0
ImplementsAll [] implementation = Unit {0}
ImplementsAll ((k, d) ∷ declaration) implementation =
    Implements d (lookup k implementation) × ImplementsAll declaration implementation

AllMatch-length : (l m : List SignatureType) → AllMatch l m → length l ≡ length m
AllMatch-length [] [] h = refl
AllMatch-length (t ∷ l) (u ∷ m) (_, h) = ap suc (AllMatch-length l m h)
AllMatch-length [] (u ∷ m) h = elim h [ ]
AllMatch-length (t ∷ l) [] h = elim h [ ]

check_arguments-AllMatch :
    (k : String) (i : ℕ) (l m : List SignatureType) → AllMatch l m → check_arguments k i l m ≡ none
unfolding check_arguments
check_arguments-AllMatch k i [] [] h = refl
check_arguments-AllMatch k i (t ∷ l) (u ∷ m) ((readable, equal), h) =
    rw (readable, equal, check_arguments) (check_arguments-AllMatch k (suc i) l m h)
check_arguments-AllMatch k i [] (u ∷ m) h = elim h [ ]
check_arguments-AllMatch k i (t ∷ l) [] h = elim h [ ]

AllMatch-check_arguments :
    (k : String) (i : ℕ) (l m : List SignatureType)
    → length l ≡ length m
    → check_arguments k i l m ≡ none
    → AllMatch l m
unfolding check_arguments
AllMatch-check_arguments k i [] [] e h = tt
AllMatch-check_arguments k i (t ∷ l) (u ∷ m) e h = elim (Option-cases (first_unreadable_tag u)) [
  | inr (tag, found) ↦ absurd (ground (arith, found, h))
  | inl readable ↦ elim (Bool-cases (signature_types_equal t u)) [
    | inl equal ↦ (
      (readable, equal),
      AllMatch-check_arguments k (suc i) l m (omega arith) (ground (arith, readable, equal, h)),
    )
    | inr differs ↦ absurd (ground (arith, readable, differs, h))
  ]
]
AllMatch-check_arguments k i [] (u ∷ m) e h = absurd (omega (arith, e))
AllMatch-check_arguments k i (t ∷ l) [] e h = absurd (omega (arith, e))

check_result_iff : (k : String) (t u : SignatureType) → (check_result k t u ≡ none) ↔ Matches t u
unfolding check_result
check_result_iff k t u = ground (arith, Option-cases (first_unreadable_tag u))

check_circuit-Implements :
    (k : String) (d : InterfaceCircuitDeclaration) (found : Option ImplementedCircuit)
    → Implements d found
    → check_circuit k d found ≡ none
unfolding check_circuit
check_circuit-Implements k d none h = elim h [ ]
check_circuit-Implements k d (some unsigned) h = elim h [ ]
check_circuit-Implements k d (some (signature s)) (provable, arguments, result) =
    rw
      (
        provable,
        (==_iff (length d.argument_types) (length s.argument_types)).1
            (AllMatch-length _ _ arguments),
        check_arguments-AllMatch k 0 _ _ arguments,
      )
      ((check_result_iff k d.result_type s.result_type).1 result)

or_else-none {ℓ} : {A : Type ℓ} (a b : Option A) → or_else a b ≡ none → (a ≡ none) × (b ≡ none)
or_else-none none b h = (refl, h)
or_else-none (some a) b h = cc

if_some-none {ℓ} :
    {A : Type ℓ} (b : Bool) (x : A) (o : Option A)
    → (if b then some x else o) ≡ none
    → (b ≡ false) × (o ≡ none)
if_some-none true x o h = cc
if_some-none false x o h = (refl, h)

Implements-check_circuit :
    (k : String) (d : InterfaceCircuitDeclaration) (found : Option ImplementedCircuit)
    → check_circuit k d found ≡ none
    → Implements d found
unfolding check_circuit
Implements-check_circuit k d none h = cc
Implements-check_circuit k d (some unsigned) h = cc
Implements-check_circuit k d (some (signature s)) h =
    let same_length = length d.argument_types == length s.argument_types in
    let (proved, h_1) = if_some-none (not s.provable) _ _ h in
    let (counted, h_2) = if_some-none (not same_length) _ _ h_1 in
    let (arguments, result) =
      or_else-none (check_arguments k 0 d.argument_types s.argument_types) _ h_2 in
    let e : length d.argument_types ≡ length s.argument_types = ground arith in
    (
      ground arith,
      AllMatch-check_arguments k 0 _ _ e arguments,
      (check_result_iff k d.result_type s.result_type).0 result,
    )

-- What a check reports is no conformance.
abbrev Reports : Option ConformanceResult → Type 0
Reports (some conformant) = ⊥
Reports _ = Unit {0}

or_else-Reports : (a b : Option ConformanceResult) → Reports a → Reports b → Reports (or_else a b)
or_else-Reports none b h k = k
or_else-Reports (some conformant) b h k = h
or_else-Reports (some (violation name check i)) b h k = tt
or_else-Reports (some (unreadable name tag i)) b h k = tt

if-Reports :
    (b : Bool) (x y : Option ConformanceResult)
    → Reports x
    → Reports y
    → Reports (if b then x else y)
if-Reports true x y h k = h
if-Reports false x y h k = k

check_arguments-Reports :
    (k : String) (i : ℕ) (l m : List SignatureType) → Reports (check_arguments k i l m)
unfolding check_arguments
check_arguments-Reports k i [] m = tt
check_arguments-Reports k i (t ∷ l) [] = tt
check_arguments-Reports k i (t ∷ l) (u ∷ m) = elim (Option-cases (first_unreadable_tag u)) [
  | inr (tag, found) ↦ rw (found, check_arguments) tt
  | inl readable ↦
      rw (readable, check_arguments)
        (if-Reports (signature_types_equal t u) _ _ (check_arguments-Reports k (suc i) l m) tt)
]

check_result-Reports : (k : String) (t u : SignatureType) → Reports (check_result k t u)
unfolding check_result
check_result-Reports k t u = elim (Option-cases (first_unreadable_tag u)) [
  | inr (tag, found) ↦ rw (found, check_result) tt
  | inl readable ↦ rw (readable, check_result) (if-Reports (signature_types_equal t u) _ _ tt tt)
]

check_circuit-Reports :
    (k : String) (d : InterfaceCircuitDeclaration) (found : Option ImplementedCircuit)
    → Reports (check_circuit k d found)
unfolding check_circuit
check_circuit-Reports k d none = tt
check_circuit-Reports k d (some unsigned) = tt
check_circuit-Reports k d (some (signature s)) = if-Reports (not s.provable) _ _ tt (
    if-Reports (not (length d.argument_types == length s.argument_types)) _ _ tt (
      or_else-Reports _ _ (check_arguments-Reports k 0 d.argument_types s.argument_types)
        (check_result-Reports k d.result_type s.result_type)))

module _ (k : String) (d : InterfaceCircuitDeclaration) (declaration : DeclaredInterface)
    (implementation : CircuitSignatures) where
  round_passed :
      check_circuit k d (lookup k implementation) ≡ none
      → check_conformance ((k, d) ∷ declaration) implementation
        ≡ check_conformance declaration implementation
  unfolding check_conformance
  round_passed h = rw (h, check_conformance) refl

  round_failed :
      {failure : ConformanceResult}
      → check_circuit k d (lookup k implementation) ≡ some failure
      → check_conformance ((k, d) ∷ declaration) implementation ≡ failure
  unfolding check_conformance
  round_failed h = rw (h, check_conformance) refl

-- checkConformance returns Conformant exactly if every declared circuit is implemented with a
-- proof and with as many arguments, all of whose types and whose result type can be read and are
-- equal to the declared.
pub check_conformance_iff :
    (declaration : DeclaredInterface) (implementation : CircuitSignatures)
    → (check_conformance declaration implementation ≡ conformant)
      ↔ ImplementsAll declaration implementation
unfolding check_conformance
check_conformance_iff [] implementation = (λ h. tt, λ h. refl)
check_conformance_iff ((k, d) ∷ declaration) implementation =
    let found = lookup k implementation in
    elim (Option-cases (check_circuit k d found)) [
      | inl passed ↦
          let (sound, complete) = check_conformance_iff declaration implementation in
          (
            λ h. (
              Implements-check_circuit k d found passed,
              sound (sym (round_passed k d declaration implementation passed) ∙ h),
            ),
            λ (i, h). round_passed k d declaration implementation passed ∙ complete h,
          )
      | inr (failure, reported) ↦ (
        λ h. absurd (
            subst Reports
              (reported ∙ ap some (sym (round_failed k d declaration implementation reported) ∙ h))
              (check_circuit-Reports k d found)),
        λ (i, h). absurd (cc (reported, check_circuit-Implements k d found i)),
      )
    ]
