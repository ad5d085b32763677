-- ===== src/Resolution/Kinds.antt =====
-- The descriptions of failures in runtime/src/module-resolution.ts and their kinds.
use Prim.Native.Char.{code}
use Prim.Native.String
use Prim.Native.String.append
use compact.Base.{
  ℕ, Bool, ◌≡◌, refl, sym, ap, ◌∙◌, String, List, [], ◌∷◌, ◌++◌, none, some, get_elem?, ◌==◌,
  if◌then◌else◌,
}
use compact.Resolution.{
  codes, ModuleResolutionFailure, module_provider_absent, operation_absent,
  unsupported_implementation, provider_threw, nonconformant_implementation, unreadable_module,
  malformed_verifier_key_hash, implementation_mismatch, module_load_rejected, incomplete_module,
}
use compact.Resolution.Messages.{
  template, describe_conformance, unreadable_place, join_names, describe_failure,
}

-- `failure.kind`
pub data Kind : Type 0 where
  module_provider_absent_kind operation_absent_kind unsupported_implementation_kind
        provider_threw_kind :
      Kind
  nonconformant_implementation_kind unreadable_module_kind malformed_verifier_key_hash_kind : Kind
  implementation_mismatch_kind module_load_rejected_kind incomplete_module_kind : Kind

pub kind_of : ModuleResolutionFailure → Kind
kind_of module_provider_absent = module_provider_absent_kind
kind_of operation_absent = operation_absent_kind
kind_of unsupported_implementation = unsupported_implementation_kind
kind_of (provider_threw cause) = provider_threw_kind
kind_of (nonconformant_implementation c k i) = nonconformant_implementation_kind
kind_of (unreadable_module c t i) = unreadable_module_kind
kind_of (malformed_verifier_key_hash c r) = malformed_verifier_key_hash_kind
kind_of (implementation_mismatch c e a) = implementation_mismatch_kind
kind_of (module_load_rejected cause) = module_load_rejected_kind
kind_of (incomplete_module m) = incomplete_module_kind

codes-append : (s t : String) → codes (String.◌++◌ s t) ≡ codes s ++ codes t
codes-append String.[] t = ap codes (append.nil t)
codes-append (String.◌∷◌ c s) t =
    ap codes (append.cons c s t) ∙ ap (λ l. code c ∷ l) (codes-append s t)

-- Whether a character stands at a place of the text.
abbrev is_char : ℕ → ℕ → List ℕ → Bool
is_char i c l = elim (get_elem? l i) [ none ↦ Bool.false | some d ↦ d == c ]

-- The kind, by four characters of the description.
abbrev read_kind : List ℕ → Kind
read_kind l =
    if is_char 4 b'c' l
    then module_provider_absent_kind
    else if is_char 4 b'd' l
    then operation_absent_kind
    else if is_char 4 b's' l
    then unreadable_module_kind
    else if is_char 4 b'i' l
    then module_load_rejected_kind
    else if is_char 4 b'v' l
    then implementation_mismatch_kind
    else if is_char 4 b'm' l
    then (if is_char 11 b'r' l
        then malformed_verifier_key_hash_kind
        else if is_char 20 b'h' l
        then unsupported_implementation_kind
        else provider_threw_kind)
    else if is_char 20 b'c' l
    then implementation_mismatch_kind
    else if is_char 29 b'i' l
    then nonconformant_implementation_kind
    else incomplete_module_kind

first_part :
    (s t : String) (parts : List String)
    → codes (template (s ∷ t ∷ parts)) ≡ codes s ++ codes (template (t ∷ parts))
first_part s t parts = codes-append s (template (t ∷ parts))

-- The kind is read from the description.
read-describe_failure :
    (f : ModuleResolutionFailure) → read_kind (codes (describe_failure f)) ≡ kind_of f
unfolding describe_failure kind_of
read-describe_failure module_provider_absent = refl
read-describe_failure operation_absent = refl
read-describe_failure unsupported_implementation = refl
read-describe_failure (provider_threw cause) = refl
read-describe_failure (nonconformant_implementation c k i) = ap read_kind (
    first_part "the resolved module does not implement the contract type: "
      (describe_conformance c k i) [])
read-describe_failure (unreadable_module c t i) = ap read_kind (
    first_part "it uses a type constructor this runtime does not know, '" t (
      "', in " ∷ unreadable_place c i ∷ "; the module was probably built by a newer compiler" ∷ []))
read-describe_failure (malformed_verifier_key_hash c r) = ap read_kind (
    first_part "the module records '" r (
      "' as the verifier key fingerprint for circuit '" ∷ c
      ∷ "', which is not 64 lowercase hex digits" ∷ []))
read-describe_failure (implementation_mismatch c none a) = ap read_kind (
    first_part "the resolved module carries no verifier key fingerprint for circuit '" c
      ("', but the deployed contract's is '" ∷ a ∷ "'" ∷ []))
read-describe_failure (implementation_mismatch c (some e) a) = ap read_kind (
    first_part "the verifier key for circuit '" c
      ("' is '" ∷ e ∷ "' in the resolved module but '" ∷ a ∷ "' on chain" ∷ []))
read-describe_failure (module_load_rejected cause) = refl
read-describe_failure (incomplete_module m) = ap read_kind (
    first_part "the resolved module does not export " (join_names m)
      ("; it was built before dynamic resolution" ∷ []))

-- Two failures with the same description are of the same kind.
pub describe_failure_kind :
    (f g : ModuleResolutionFailure)
    → describe_failure f ≡ describe_failure g
    → kind_of f ≡ kind_of g
describe_failure_kind f g same =
    sym (read-describe_failure f) ∙ ap (λ s. read_kind (codes s)) same ∙ read-describe_failure g
