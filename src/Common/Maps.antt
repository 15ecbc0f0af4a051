-- ===== src/Common/Maps.antt =====
-- Go's maps, as association lists. The order of the list stands for the order in which a `range` over
-- the map runs, which Go leaves open: a statement about every list is one about every order.
use mathlib.Core.Path.{◌≡◌, refl}
use mathlib.Core.Logic.{◌↔◌, ◌⊎◌, ◌≢◌, inl, inr}
use mathlib.Core.Bool.{Bool, true, false}
use mathlib.Core.Option.{Option, none, some}
use mathlib.Core.List.{List, [], ◌∷◌}
use native.Mathlib.Omega.{arith}
use Prim.Native.Nat.{ℕ}
use Prim.Native.String.{String}
use text.Mathlib.Text.{◌==◌ as str_eq}
use text.Mathlib.TextEquality.{eq_iff}
use fa_st_gshare_autoscaler.Common.Tests.{if◌then◌else◌, Bool-cases, nat_beq, nat_beq_iff}
use fa_st_gshare_autoscaler.Common.Int.{ℤ, eqb_ℤ, eqb_ℤ_iff}

-- Go's map type; its keys are of a type that Go calls comparable.
abbrev pub GoMap {ℓ κ} : Type ℓ → Type κ → Type (ℓ ⊔ κ)
GoMap K V = List (K × V)

-- A comparable type, with the test that Go writes `==`.
pub record Comparable {ℓ} (K : Type ℓ) : Type ℓ where
  pub same_key : K → K → Bool
  pub same_key_iff : (j k : K) → (same_key j k ≡ true) ↔ (j ≡ k)

instance abbrev pub string_eq : Comparable String
string_eq = record { same_key = str_eq; same_key_iff = eq_iff }

instance abbrev pub int_eq : Comparable ℤ
int_eq = record { same_key = eqb_ℤ; same_key_iff = eqb_ℤ_iff }

instance abbrev pub nat_eq : Comparable ℕ
nat_eq = record { same_key = nat_beq; same_key_iff = nat_beq_iff }

infix 50 ◌==◌
abbrev pub ◌==◌ {ℓ} : {K : Type ℓ} → ⦃c : Comparable K⦄ → K → K → Bool
◌==◌ ⦃c⦄ j k = c.same_key j k

module _ {ℓ} {K : Type ℓ} ⦃e : Comparable K⦄ where
  pub beq_self : (k : K) → (k == k) ≡ true
  beq_self k = (e.same_key_iff k k).1 refl

  pub beq_ne : (j k : K) → j ≢ k → (j == k) ≡ false
  beq_ne j k h = elim (Bool-cases (j == k)) [
    | inl hit ↦ absurd (h ((e.same_key_iff j k).0 hit))
    | inr miss ↦ miss
  ]

module _ {ℓ κ} {K : Type ℓ} {V : Type κ} ⦃e : Comparable K⦄ where
  unfoldable pub lookup : K → GoMap K V → Option V
  lookup k [] = none
  lookup k ((j, v) ∷ m) = if j == k then some v else lookup k m

  -- `delete(m, k)`
  unfoldable pub delete : K → GoMap K V → GoMap K V
  delete k [] = []
  delete k ((j, v) ∷ m) = let rest = delete k m in if j == k then rest else (j, v) ∷ rest

  -- `m[k] = v`
  unfoldable pub insert : K → V → GoMap K V → GoMap K V
  unfolding delete
  insert k v m = (k, v) ∷ delete k m

  pub lookup-delete_self : (k : K) (m : GoMap K V) → lookup k (delete k m) ≡ none
  unfolding lookup delete
  lookup-delete_self k [] = refl
  lookup-delete_self k ((j, v) ∷ m) = elim (Bool-cases (j == k)) [
    | inl hit ↦ rw hit (lookup-delete_self k m)
    | inr miss ↦ rw (miss, miss) (lookup-delete_self k m)
  ]

  pub lookup-delete_ne : (k j : K) (m : GoMap K V) → k ≢ j → lookup j (delete k m) ≡ lookup j m
  unfolding lookup delete
  lookup-delete_ne k j [] h = refl
  lookup-delete_ne k j ((i, v) ∷ m) h = elim (Bool-cases (i == k)) [
    | inl hit ↦ ground (arith, lookup-delete_ne k j m h, e.same_key_iff i k, e.same_key_iff i j, h)
    | inr miss ↦ ground (arith, lookup-delete_ne k j m h)
  ]

  pub lookup-insert_self : (k : K) (v : V) (m : GoMap K V) → lookup k (insert k v m) ≡ some v
  unfolding lookup insert
  lookup-insert_self k v m = rw (beq_self k)

  pub lookup-insert_ne :
      (k j : K) (v : V) (m : GoMap K V) → k ≢ j → lookup j (insert k v m) ≡ lookup j m
  unfolding lookup insert
  lookup-insert_ne k j v m h = rw (beq_ne k j h) (lookup-delete_ne k j m h)

  -- A map that is not empty has a key.
  pub lookup-some_of_ne_nil : (m : GoMap K V) → m ≢ [] → (k : K) × (v : V) × (lookup k m ≡ some v)
  unfolding lookup
  lookup-some_of_ne_nil [] h = absurd (h refl)
  lookup-some_of_ne_nil ((k, v) ∷ m) h = (k, v, rw (beq_self k))

  pub not-nil_of_lookup : (k : K) (v : V) (m : GoMap K V) → lookup k m ≡ some v → m ≢ []
  unfolding lookup
  not-nil_of_lookup k v [] h = ground arith
  not-nil_of_lookup k v ((j, w) ∷ m) h = λ q. ground arith

-- What a loop over the map does to its values.
unfoldable pub map_values {ℓ κ} : {K : Type ℓ} {V : Type κ} → (V → V) → GoMap K V → GoMap K V
map_values f [] = []
map_values f ((k, v) ∷ m) = (k, f v) ∷ map_values f m

module _ {ℓ κ} {K : Type ℓ} {V : Type κ} ⦃e : Comparable K⦄ where
  pub lookup-map_values-some :
      (f : V → V) (k : K) (v : V) (m : GoMap K V)
      → lookup k m ≡ some v
      → lookup k (map_values f m) ≡ some (f v)
  unfolding lookup map_values
  lookup-map_values-some f k v [] h = ground arith
  lookup-map_values-some f k v ((j, w) ∷ m) h = ground (arith, lookup-map_values-some f k v m)

  pub lookup-map_values-none :
      (f : V → V) (k : K) (m : GoMap K V) → lookup k m ≡ none → lookup k (map_values f m) ≡ none
  unfolding lookup map_values
  lookup-map_values-none f k [] h = refl
  lookup-map_values-none f k ((j, w) ∷ m) h = ground (arith, lookup-map_values-none f k m)

-- Equal or not, by the type's test.
pub Eq-cases {ℓ} : {K : Type ℓ} ⦃e : Comparable K⦄ (j k : K) → (j ≡ k) ⊎ (j ≢ k)
Eq-cases ⦃e⦄ j k = elim (Bool-cases (j == k)) [
  | inl hit ↦ inl ((e.same_key_iff j k).0 hit)
  | inr miss ↦ inr (λ q. ground (arith, e.same_key_iff j k))
]
