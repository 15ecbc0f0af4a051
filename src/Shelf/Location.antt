-- ===== src/Shelf/Location.antt =====
-- The index `itemLocation` of internal/shelf/shelf.go against what the shelves hold, seen as a function
-- from a shelf's index and an item's id: the index names exactly the places that are filled.
use fa_st_gshare_autoscaler.Common.{
  int_eq, nat_eq, Bool-cases, Eq-cases, GoMap, Option, Option-cases, arith, delete, if◌then◌else◌,
  inl, inr, insert, lookup, lookup-delete_ne, lookup-delete_self, lookup-insert_ne,
  lookup-insert_self, lookup-map_values-none, lookup-map_values-some, ltb, ltb→lt, map_values, none,
  some, suc, sym, zero, ℕ, ℤ, ◌-◌, ◌<◌, ◌∙◌, ◌≡◌, ◌≢◌, ◌≤◌,
}

abbrev pub Places : Type 0 → Type 0
Places A = ℕ → ℤ → Option A

pub record Agrees {A : Type 0} (loc : GoMap ℤ ℕ) (at : Places A) : Type 0 where
  pub sound : (id : ℤ) (i : ℕ) → lookup id loc ≡ some i → (a : A) × (at i id ≡ some a)
  pub complete : (id : ℤ) (i : ℕ) (a : A) → at i id ≡ some a → lookup id loc ≡ some i

-- The index that a shelf has when shelf `i` is gone.
abbrev pub lowered : ℕ → ℕ → ℕ
lowered i j = if ltb i j then j - 1 else j

module _ {A : Type 0} {loc : GoMap ℤ ℕ} {at : Places A} (g : Agrees loc at) where
  -- An id that the index does not know is on no shelf.
  pub at-none : (x : ℤ) → lookup x loc ≡ none → (j : ℕ) → at j x ≡ none
  at-none x h j = elim (Option-cases (at j x)) [
    | inl e ↦ e
    | inr (a, e) ↦ ground (arith, g.complete x j a e)
  ]

  -- An item is on no shelf but the one that the index names.
  pub at-elsewhere : (x : ℤ) (i : ℕ) → lookup x loc ≡ some i → (j : ℕ) → i ≢ j → at j x ≡ none
  at-elsewhere x i h j ne = elim (Option-cases (at j x)) [
    | inl e ↦ e
    | inr (a, e) ↦ ground (arith, g.complete x j a e)
  ]

module _ {A : Type 0} {loc : GoMap ℤ ℕ} {at : Places A} (at' : Places A) (g : Agrees loc at) where
  -- A new item at shelf `i`.
  pub Agrees-insert :
      (x : ℤ) (i : ℕ) (a : A)
      → ((j : ℕ) (id : ℤ) → x ≢ id → at' j id ≡ at j id)
      → at' i x ≡ some a
      → ((j : ℕ) → i ≢ j → at' j x ≡ none)
      → Agrees (insert x i loc) at'
  Agrees-insert x i a other here only = record {
    sound = λ id j h. elim (Eq-cases x id) [
      | inl hit ↦ (a, ground (arith, lookup-insert_self x i loc))
      | inr miss ↦
          rw (other j id miss) (g.sound id j (ground (arith, lookup-insert_ne x id i loc miss)))
    ];
    complete = λ id j b h. elim (Eq-cases x id) [
      | inl hit ↦ elim (Eq-cases i j) [
        | inl same ↦ rw (← hit, ← same) (lookup-insert_self x i loc)
        | inr apart ↦ ground (arith, only j apart)
      ]
      | inr miss ↦
          rw (lookup-insert_ne x id i loc miss) (g.complete id j b (sym (other j id miss) ∙ h))
    ];
  }

  -- Item `x` is gone.
  pub Agrees-delete :
      (x : ℤ)
      → ((j : ℕ) (id : ℤ) → x ≢ id → at' j id ≡ at j id)
      → ((j : ℕ) → at' j x ≡ none)
      → Agrees (delete x loc) at'
  Agrees-delete x other gone = record {
    sound = λ id j h. elim (Eq-cases x id) [
      | inl hit ↦ ground (arith, lookup-delete_self x loc)
      | inr miss ↦
          rw (other j id miss) (g.sound id j (ground (arith, lookup-delete_ne x id loc miss)))
    ];
    complete = λ id j b h. elim (Eq-cases x id) [
      | inl hit ↦ ground (arith, gone j)
      | inr miss ↦
          rw (lookup-delete_ne x id loc miss) (g.complete id j b (sym (other j id miss) ∙ h))
    ];
  }

  pub at-lowered :
      (i : ℕ)
      → ((j : ℕ) (id : ℤ) → j < i → at' j id ≡ at j id)
      → ((j : ℕ) (id : ℤ) → i ≤ j → at' j id ≡ at (suc j) id)
      → (k : ℕ) (id : ℤ) → i ≢ k
      → at' (lowered i k) id ≡ at k id
  at-lowered i below above zero id ne = ground (arith, below 0 id)
  at-lowered i below above (suc k) id ne = elim (Bool-cases (ltb i (suc k))) [
    | inl gt ↦ ground (arith, above k id)
    | inr le ↦ ground (arith, below (suc k) id)
  ]

  -- Shelf `i`, which is empty, is gone, and the shelves above it move down by one.
  pub Agrees-collapse :
      (i : ℕ)
      → ((id : ℤ) → at i id ≡ none)
      → ((j : ℕ) (id : ℤ) → j < i → at' j id ≡ at j id)
      → ((j : ℕ) (id : ℤ) → i ≤ j → at' j id ≡ at (suc j) id)
      → Agrees (map_values (lowered i) loc) at'
  Agrees-collapse i bare below above = record {
    sound = λ id j h. elim (Option-cases (lookup id loc)) [
      | inl e ↦ ground (arith, lookup-map_values-none (lowered i) id loc e)
      | inr (k, e) ↦
          let (a, filled) = g.sound id k e in
          let moved : at' (lowered i k) id ≡ at k id =
            at-lowered i below above k id (λ q. ground (arith, bare id)) in
          (a, ground (arith, moved, lookup-map_values-some (lowered i) id k loc e))
    ];
    complete = λ id j b h. elim (Bool-cases (ltb j i)) [
      | inl lt ↦
          lookup-map_values-some (lowered i) id j loc
            (g.complete id j b (sym (below j id (ltb→lt j i lt)) ∙ h))
          ∙ ground arith
      | inr ge ↦
          lookup-map_values-some (lowered i) id (suc j) loc
            (g.complete id (suc j) b (sym (above j id (ground arith)) ∙ h))
          ∙ ground arith
    ];
  }
