-- ===== src/Base/Names.antt =====
-- JavaScript's strings as names, and objects that are keyed by them, as lists in insertion order.
use Prim.Native.String.{String}
use Prim.Native.String
use mathlib.Core.Path.{◌≡◌, refl, ap}
use mathlib.Core.Logic.{◌≢◌, ◌↔◌, inl, inr}
use mathlib.Core.Bool.{Bool, true, false, ◌||◌}
use mathlib.Core.Option.{Option, none, some}
use mathlib.Core.List.{List, [], ◌∷◌}
use native.Mathlib.Omega.{arith}
use text.Mathlib.Text
use text.Mathlib.TextEquality
use compact.Base.Tests.{if◌then◌else◌, Bool-cases}

-- `a === b`
abbrev pub same : String → String → Bool
same a b = Text.◌==◌ a b

pub same_iff : (a b : String) → (same a b ≡ true) ↔ (a ≡ b)
same_iff = TextEquality.eq_iff

-- A template that ends with a name in quotes.
abbrev pub quoted : String → String → String
quoted what name = String.◌++◌ what (String.◌++◌ "'" (String.◌++◌ name "'"))

abbrev pub Dict {ℓ} : Type ℓ → Type ℓ
Dict V = List (String × V)

module _ {ℓ} {V : Type ℓ} where
  -- `Object.hasOwn(d, k) ? d[k] : undefined`
  abbrev pub lookup : String → Dict V → Option V
  lookup k [] = none
  lookup k ((j, v) ∷ d) = if same k j then some v else lookup k d

  -- `k in d`
  abbrev pub has : String → Dict V → Bool
  has k [] = false
  has k ((j, v) ∷ d) = if same k j then true else has k d

  -- `d[k] = v`
  abbrev pub insert : String → V → Dict V → Dict V
  insert k v [] = (k, v) ∷ []
  insert k v ((j, w) ∷ d) = if same k j then (j, v) ∷ d else (j, w) ∷ insert k v d

  pub lookup-insert : (k : String) (v : V) (d : Dict V) → lookup k (insert k v d) ≡ some v
  lookup-insert k v [] = ground (arith, same_iff k k)
  lookup-insert k v ((j, w) ∷ d) = ground (arith, same_iff k j, lookup-insert k v d)

  pub lookup-insert_ne :
      (i k : String) (v : V) (d : Dict V) → i ≢ k → lookup i (insert k v d) ≡ lookup i d
  lookup-insert_ne i k v [] h = ground (arith, same_iff i k)
  lookup-insert_ne i k v ((j, w) ∷ d) h =
      ground (arith, same_iff i k, same_iff k j, same_iff i j, lookup-insert_ne i k v d h)

  pub has-lookup : (k : String) (d : Dict V) {v : V} → lookup k d ≡ some v → has k d ≡ true
  has-lookup k [] h = ground arith
  has-lookup k ((j, w) ∷ d) {v} h = elim (Bool-cases (same k j)) [
    | inl at ↦ rw at refl
    | inr off ↦ rw off (has-lookup k d {v = v} (ground arith))
  ]

  pub lookup-has : (k : String) (d : Dict V) → has k d ≡ true → (v : V) × (lookup k d ≡ some v)
  lookup-has k [] h = ground arith
  lookup-has k ((j, w) ∷ d) h = elim (Bool-cases (same k j)) [
    | inl at ↦ rw at (w, refl)
    | inr off ↦ rw off (lookup-has k d (ground arith))
  ]

  pub has-insert :
      (i k : String) (v : V) (d : Dict V) → has i (insert k v d) ≡ (same i k || has i d)
  has-insert i k v [] = ground (arith, same_iff i k)
  has-insert i k v ((j, w) ∷ d) =
      ground (arith, same_iff i k, same_iff k j, same_iff i j, has-insert i k v d)

  pub lookup-none-has : (k : String) (d : Dict V) → lookup k d ≡ none → has k d ≡ false
  lookup-none-has k [] h = refl
  lookup-none-has k ((j, w) ∷ d) h = elim (Bool-cases (same k j)) [
    | inl at ↦ ground (arith, at)
    | inr off ↦ rw off (lookup-none-has k d (ground arith))
  ]

-- A `Set` of names: whether it has one, with one more, and less one.
abbrev pub member : String → List String → Bool
member k [] = false
member k (j ∷ l) = if same k j then true else member k l

abbrev pub add : String → List String → List String
add k l = if member k l then l else k ∷ l

abbrev pub delete : String → List String → List String
delete k [] = []
delete k (j ∷ l) = if same k j then delete k l else j ∷ delete k l

-- A name that was not there is deleted again.
pub delete-fresh : (k : String) (l : List String) → member k l ≡ false → delete k l ≡ l
delete-fresh k [] h = refl
delete-fresh k (j ∷ l) h = elim (Bool-cases (same k j)) [
  | inl at ↦ ground (arith, at)
  | inr off ↦ rw off (ap (λ t. j ∷ t) (delete-fresh k l (ground arith)))
]

pub delete-cons : (k : String) (l : List String) → member k l ≡ false → delete k (k ∷ l) ≡ l
delete-cons k l h = rw ((same_iff k k).1 refl) (delete-fresh k l h)

pub member-delete_ne :
    (i k : String) (l : List String) → same i k ≡ false → member i (delete k l) ≡ member i l
member-delete_ne i k [] h = refl
member-delete_ne i k (j ∷ l) h =
    ground (arith, same_iff i k, same_iff k j, same_iff i j, member-delete_ne i k l h)
