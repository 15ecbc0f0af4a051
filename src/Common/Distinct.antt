-- ===== src/Common/Distinct.antt =====
-- Lists whose elements are related in pairs, and maps whose keys all differ.
use mathlib.Core.Path.{◌≡◌, refl, sym, subst, ◌∙◌}
use mathlib.Core.Logic.{◌≢◌, ◌⊎◌, inl, inr}
use mathlib.Core.Option.{none, some, some-injective}
use mathlib.Core.List.{List, [], ◌∷◌}
use mathlib.Core.List.{Permᴰ}
use mathlib.Core.List.Permᴰ.{nil, cons, swap, trans}
use native.Mathlib.Omega.{arith}
use fa_st_gshare_autoscaler.Common.Tests.{Bool-cases, if_cases}
use fa_st_gshare_autoscaler.Common.Lists.{All}
use fa_st_gshare_autoscaler.Common.Maps.{
  Comparable, Eq-cases, GoMap, beq_ne, beq_self, delete, insert, lookup, lookup-delete_ne,
  lookup-delete_self, lookup-insert_ne, lookup-insert_self, ◌==◌,
}

module _ {ℓ} {A : Type ℓ} where
  -- Each element is related to every later one.
  abbrev pub Pairs {κ} : (A → A → Type κ) → List A → Type κ
  Pairs R [] = Unit
  Pairs R (x ∷ xs) = All (R x) xs × Pairs R xs

  pub All-map {κ μ} :
      (P : A → Type κ) (Q : A → Type μ) (xs : List A) → ((x : A) → P x → Q x) → All P xs → All Q xs
  All-map P Q [] h p = tt
  All-map P Q (x ∷ xs) h (p, ps) = (h x p, All-map P Q xs h ps)

  pub All-both {κ μ} :
      (P : A → Type κ) (Q : A → Type μ) (xs : List A)
      → All P xs
      → All Q xs
      → All (λ x. P x × Q x) xs
  All-both P Q [] p q = tt
  All-both P Q (x ∷ xs) (p, ps) (q, qs) = ((p, q), All-both P Q xs ps qs)

  pub Perm-All {κ} : (P : A → Type κ) {xs ys : List A} → Permᴰ xs ys → All P ys → All P xs
  Perm-All P nil h = tt
  Perm-All P (cons e d) (p, ps) = (subst P (sym e) p, Perm-All P d ps)
  Perm-All P (swap e e') (p, (q, ps)) = (subst P (sym e) q, (subst P (sym e') p, ps))
  Perm-All P (trans d d') h = Perm-All P d (Perm-All P d' h)

  module _ {κ} (R : A → A → Type κ) (turn : (x y : A) → R x y → R y x) where
    pub Perm-Pairs : {xs ys : List A} → Permᴰ xs ys → Pairs R ys → Pairs R xs
    Perm-Pairs nil h = tt
    Perm-Pairs (cons {b = b} {l₁ = xs} e d) (p, ps) =
        (subst (λ x. All (R x) xs) (sym e) (Perm-All (R b) d p), Perm-Pairs d ps)
    Perm-Pairs (swap {a = a} {a' = a'} {b' = b'} {l = xs} e e') ((r, p), (q, ps)) = (
      (
        subst (R a) (sym e') (subst (λ x. R x a') (sym e) (turn a' b' r)),
        subst (λ x. All (R x) xs) (sym e) q,
      ),
      (subst (λ x. All (R x) xs) (sym e') p, ps),
    )
    Perm-Pairs (trans d d') h = Perm-Pairs d (Perm-Pairs d' h)

module _ {ℓ κ} {K : Type ℓ} {V : Type κ} ⦃e : Comparable K⦄ where
  -- No key occurs twice.
  abbrev pub AreDistinct : GoMap K V → Type ℓ
  AreDistinct m = Pairs (λ x y. x.0 ≢ y.0) m

  All-delete {μ} : (P : K × V → Type μ) (k : K) (m : GoMap K V) → All P m → All P (delete k m)
  unfolding delete
  All-delete P k [] h = tt
  All-delete P k ((j, v) ∷ m) (p, h) =
      if_cases (All P) (j == k) _ _ (All-delete P k m h) (p, All-delete P k m h)

  delete-forgets : (k : K) (m : GoMap K V) → All (λ x. k ≢ x.0) (delete k m)
  unfolding delete
  delete-forgets k [] = tt
  delete-forgets k ((j, v) ∷ m) = elim (Bool-cases (j == k)) [
    | inl hit ↦ rw hit (delete-forgets k m)
    | inr miss ↦ rw miss ((λ q. ground (arith, e.same_key_iff j k)), delete-forgets k m)
  ]

  pub AreDistinct-delete : (k : K) (m : GoMap K V) → AreDistinct m → AreDistinct (delete k m)
  unfolding delete
  AreDistinct-delete k [] h = tt
  AreDistinct-delete k ((j, v) ∷ m) (p, h) =
      if_cases AreDistinct (j == k) _ _ (AreDistinct-delete k m h)
        (All-delete (λ y. j ≢ y.0) k m p, AreDistinct-delete k m h)

  pub AreDistinct-insert :
      (k : K) (v : V) (m : GoMap K V) → AreDistinct m → AreDistinct (insert k v m)
  unfolding insert
  AreDistinct-insert k v m h = (delete-forgets k m, AreDistinct-delete k m h)

  -- In such a map every entry is found.
  pub AreDistinct-lookup : (m : GoMap K V) → AreDistinct m → All (λ x. lookup x.0 m ≡ some x.1) m
  unfolding lookup
  AreDistinct-lookup [] h = tt
  AreDistinct-lookup ((k, v) ∷ m) (p, h) = (
    rw (beq_self k) refl,
    All-map (λ x. (k ≢ x.0) × (lookup x.0 m ≡ some x.1)) (λ x. lookup x.0 ((k, v) ∷ m) ≡ some x.1) m
        (λ x q. rw (beq_ne k x.0 q.0) q.1)
        (All-both (λ x. k ≢ x.0) (λ x. lookup x.0 m ≡ some x.1) m p (AreDistinct-lookup m h)),
  )

  -- An entry of the map after a write is the one written or an older one.
  pub insert-cases :
      (j k : K) (v w : V) (m : GoMap K V)
      → lookup k (insert j v m) ≡ some w
      → ((j ≡ k) × (v ≡ w)) ⊎ ((j ≢ k) × (lookup k m ≡ some w))
  insert-cases j k v w m h = elim (Eq-cases j k) [
    | inl hit ↦ inl (
      hit,
      some-injective _ _ (
          sym (lookup-insert_self j v m)
          ∙ subst (λ i. lookup i (insert j v m) ≡ some w) (sym hit) h),
    )
    | inr miss ↦ inr (miss, sym (lookup-insert_ne j k v m miss) ∙ h)
  ]

  -- An entry of the map after a deletion is an older one under another key.
  pub delete-cases :
      (j k : K) (w : V) (m : GoMap K V)
      → lookup k (delete j m) ≡ some w
      → (j ≢ k) × (lookup k m ≡ some w)
  delete-cases j k w m h = elim (Eq-cases j k) [
    | inl hit ↦
        ground (arith, subst (λ i. lookup i (delete j m) ≡ none) hit (lookup-delete_self j m), h)
    | inr miss ↦ (miss, sym (lookup-delete_ne j k m miss) ∙ h)
  ]
