-- ===== src/Common/Lists.antt =====
-- Lists measured and indexed by native numbers, under the library's names, and Go's slices.
use Prim.Native.Nat.{ℕ, zero, suc, ◌+◌, ◌<◌, ◌≤◌}
use mathlib.Core.Path.{◌≡◌, refl, ap}
use mathlib.Core.Logic.{◌≢◌}
use mathlib.Core.List.{List, [], ◌∷◌, ◌++◌}
use mathlib.Core.Option.{Option, none, some}
use native.Mathlib.Omega.{arith}

module _ {ℓ} {A : Type ℓ} where
  abbrev pub length : List A → ℕ
  length [] = 0
  length (x ∷ xs) = suc (length xs)

  abbrev pub get_elem? : List A → ℕ → Option A
  get_elem? [] i = none
  get_elem? (x ∷ xs) zero = some x
  get_elem? (x ∷ xs) (suc i) = get_elem? xs i

  -- A write out of bounds changes nothing.
  abbrev pub set : List A → ℕ → A → List A
  set [] i v = []
  set (x ∷ xs) zero v = v ∷ xs
  set (x ∷ xs) (suc i) v = x ∷ set xs i v

  -- `append(s[:i], s[i+1:]...)`
  abbrev pub remove_at : List A → ℕ → List A
  remove_at [] i = []
  remove_at (x ∷ xs) zero = xs
  remove_at (x ∷ xs) (suc i) = x ∷ remove_at xs i

  abbrev pub take : ℕ → List A → List A
  take zero xs = []
  take (suc n) [] = []
  take (suc n) (x ∷ xs) = x ∷ take n xs

  abbrev pub All {κ} : (A → Type κ) → List A → Type κ
  All P [] = Unit
  All P (x ∷ xs) = P x × All P xs

  -- A property of what is there, if anything.
  abbrev pub MayBe {κ} : (A → Type κ) → Option A → Type κ
  MayBe P none = Unit
  MayBe P (some x) = P x

module _ {ℓ} {A : Type ℓ} where
  pub length-append : (xs ys : List A) → length (xs ++ ys) ≡ length xs + length ys
  length-append [] ys = omega arith
  length-append (x ∷ xs) ys = omega (arith, length-append xs ys)

  pub All-append {κ} : (P : A → Type κ) (xs ys : List A) → All P xs → All P ys → All P (xs ++ ys)
  All-append P [] ys p q = q
  All-append P (x ∷ xs) ys p q = (p.0, All-append P xs ys p.1 q)

  pub All-get {κ} :
      (P : A → Type κ) (xs : List A) (i : ℕ) (a : A) → All P xs → get_elem? xs i ≡ some a → P a
  All-get P [] i a p e = ground arith
  All-get P (x ∷ xs) zero a p e = ground arith
  All-get P (x ∷ xs) (suc i) a p e = All-get P xs i a p.1 e

  pub All-set {κ} :
      (P : A → Type κ) (xs : List A) (i : ℕ) (v : A) → All P xs → P v → All P (set xs i v)
  All-set P [] i v p q = tt
  All-set P (x ∷ xs) zero v p q = (q, p.1)
  All-set P (x ∷ xs) (suc i) v p q = (p.0, All-set P xs i v p.1 q)

  pub All-remove_at {κ} : (P : A → Type κ) (xs : List A) (i : ℕ) → All P xs → All P (remove_at xs i)
  All-remove_at P [] i p = tt
  All-remove_at P (x ∷ xs) zero p = p.1
  All-remove_at P (x ∷ xs) (suc i) p = (p.0, All-remove_at P xs i p.1)

  pub get_elem?-set_self :
      (xs : List A) (i : ℕ) (v a : A) → get_elem? xs i ≡ some a → get_elem? (set xs i v) i ≡ some v
  get_elem?-set_self [] i v a h = ground arith
  get_elem?-set_self (x ∷ xs) zero v a h = refl
  get_elem?-set_self (x ∷ xs) (suc i) v a h = get_elem?-set_self xs i v a h

  pub get_elem?-set_ne :
      (xs : List A) (i j : ℕ) (v : A) → i ≢ j → get_elem? (set xs i v) j ≡ get_elem? xs j
  get_elem?-set_ne [] i j v h = refl
  get_elem?-set_ne (x ∷ xs) zero zero v h = absurd (h refl)
  get_elem?-set_ne (x ∷ xs) zero (suc j) v h = refl
  get_elem?-set_ne (x ∷ xs) (suc i) zero v h = refl
  get_elem?-set_ne (x ∷ xs) (suc i) (suc j) v h = get_elem?-set_ne xs i j v (λ e. h (ap suc e))

  -- A slice without its element `i`: what stood before `i` stays, what stood after moves up.
  pub get_elem?-remove_at_lt :
      (xs : List A) (i j : ℕ) → j < i → get_elem? (remove_at xs i) j ≡ get_elem? xs j
  get_elem?-remove_at_lt [] i j h = refl
  get_elem?-remove_at_lt (x ∷ xs) zero j h = absurd (omega arith)
  get_elem?-remove_at_lt (x ∷ xs) (suc i) zero h = refl
  get_elem?-remove_at_lt (x ∷ xs) (suc i) (suc j) h = get_elem?-remove_at_lt xs i j (omega arith)

  pub get_elem?-remove_at_ge :
      (xs : List A) (i j : ℕ) → i ≤ j → get_elem? (remove_at xs i) j ≡ get_elem? xs (suc j)
  get_elem?-remove_at_ge [] i j h = refl
  get_elem?-remove_at_ge (x ∷ xs) zero j h = refl
  get_elem?-remove_at_ge (x ∷ xs) (suc i) zero h = absurd (omega arith)
  get_elem?-remove_at_ge (x ∷ xs) (suc i) (suc j) h = get_elem?-remove_at_ge xs i j (omega arith)

  pub remove_at-set : (xs : List A) (i : ℕ) (v : A) → remove_at (set xs i v) i ≡ remove_at xs i
  remove_at-set [] i v = refl
  remove_at-set (x ∷ xs) zero v = refl
  remove_at-set (x ∷ xs) (suc i) v = ap (◌∷◌ x) (remove_at-set xs i v)

  pub get_elem?-length : (xs : List A) → get_elem? xs (length xs) ≡ none
  get_elem?-length [] = refl
  get_elem?-length (x ∷ xs) = get_elem?-length xs

  pub get_elem?-append_ne :
      (xs : List A) (y : A) (i : ℕ) → length xs ≢ i → get_elem? (xs ++ (y ∷ [])) i ≡ get_elem? xs i
  get_elem?-append_ne [] y zero h = absurd (h refl)
  get_elem?-append_ne [] y (suc i) h = refl
  get_elem?-append_ne (x ∷ xs) y zero h = refl
  get_elem?-append_ne (x ∷ xs) y (suc i) h = get_elem?-append_ne xs y i (λ e. h (ap suc e))

  pub get_elem?-append_length :
      (xs : List A) (y : A) → get_elem? (xs ++ (y ∷ [])) (length xs) ≡ some y
  get_elem?-append_length [] y = refl
  get_elem?-append_length (x ∷ xs) y = get_elem?-append_length xs y

  pub lt-length_of_get_elem? :
      (xs : List A) (i : ℕ) (a : A) → get_elem? xs i ≡ some a → i < length xs
  lt-length_of_get_elem? [] i a h = ground arith
  lt-length_of_get_elem? (x ∷ xs) zero a h = omega arith
  lt-length_of_get_elem? (x ∷ xs) (suc i) a h = omega (arith, lt-length_of_get_elem? xs i a h)
