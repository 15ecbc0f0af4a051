-- ===== src/Gpu/Allocated.antt =====
-- A configuration with replicas on a GPU of internal/controller/gpu_manager.go: how many items it records, and which
-- items of the GPU it does not record.
use fa_st_gshare_autoscaler.Gpu.Replicas.{insert_replicas_inv}
use fa_st_gshare_autoscaler.Gpu.Takes.{IsCleared}
use fa_st_gshare_autoscaler.Gpu.Items.{item_on, remove_some-Loses}
use fa_st_gshare_autoscaler.Gpu.{Config, GpuInfo, fits, insert_replicas, reduce_config, remove_some}
use fa_st_gshare_autoscaler.Shelf.Remove.{find-remove_self, remove-IsValid}
use fa_st_gshare_autoscaler.Shelf.Invariant.{IsValid, find}
use fa_st_gshare_autoscaler.Shelf.{ShelfPacker, new_shelf, remove}
use fa_st_gshare_autoscaler.Common.{
  int_eq, nat_eq, string_eq, All, Bool, Eq-cases, Float, GoMap, List, Option-cases, [], add64,
  add64_parts, arith, delete, if_cases, inl, inr, insert, length, lookup, lookup-delete_ne, ltb_ℤ,
  neg_part, none, one_sign, pos, pos_part, refl, some, sub64, subst, suc, true, zero, ℕ, ℤ, ◌++◌,
  ◌+◌, ◌<ℤ◌, ◌<◌, ◌==◌, ◌^◌, ◌∙◌, ◌∷◌, ◌≡◌, ◌≤◌, ◌⊎◌,
}

module _ {F T : Type 0} where
  -- What an allocated configuration has: replicas, and at most as many items.
  pub record IsAllocated (c : Config F T) : Type 0 where
    pub some_replica : pos 0 <ℤ c.allocated_replica
    pub few : pos_part c.allocated_replica < 2 ^ 63
    pub items : length c.shelf_items ≤ pos_part c.allocated_replica

  -- The configuration does not record the item of the GPU.
  abbrev pub Ignores : ℕ → ℤ → Config F T → Type 0
  Ignores i id c = c.associated_gpu ≡ i → lookup id c.shelf_items ≡ none

  pub Ignores-cases :
      (i : ℕ) (id : ℤ) (c : Config F T)
      → Ignores i id c ⊎ ((c.associated_gpu ≡ i) × (b : Bool) × (lookup id c.shelf_items ≡ some b))
  Ignores-cases i id c = elim (Option-cases (lookup id c.shelf_items)) [
    | inl n ↦ inl (λ e. n)
    | inr (b, p) ↦ elim (Eq-cases c.associated_gpu i) [
      | inl hit ↦ inr (hit, b, p)
      | inr miss ↦ inl (λ e. absurd (miss e))
    ]
  ]

  -- An item that one of several configurations recorded is gone, or none of them recorded it.
  pub cleared-or_ignored :
      (heap : List (GpuInfo F T)) (i : ℕ) (id : ℤ) (cs : List (Config F T))
      → All (λ c. IsCleared c heap) cs
      → (item_on heap i id ≡ none) ⊎ All (Ignores i id) cs
  cleared-or_ignored heap i id [] h = inr tt
  cleared-or_ignored heap i id (c ∷ cs) (p, h) = elim (Ignores-cases i id c) [
    | inr (hit, b, q) ↦ inl (subst (λ j. item_on heap j id ≡ none) hit (p id b q))
    | inl here ↦ elim (cleared-or_ignored heap i id cs h) [
      | inl n ↦ inl n
      | inr rest ↦ inr (here, rest)
    ]
  ]

  -- A GPU without items adds none.
  pub item_on-append :
      (heap : List (GpuInfo F T)) (g : GpuInfo F T) (i : ℕ) (id : ℤ)
      → find g.usage id ≡ none
      → item_on heap i id ≡ none
      → item_on (heap ++ (g ∷ [])) i id ≡ none
  item_on-append [] g zero id empty h = empty
  item_on-append [] g (suc i) id empty h = refl
  item_on-append (x ∷ heap) g zero id empty h = h
  item_on-append (x ∷ heap) g (suc i) id empty h = item_on-append heap g i id empty h

length-delete : (k : ℤ) (m : GoMap ℤ Bool) → length (delete k m) ≤ length m
unfolding delete
length-delete k [] = omega arith
length-delete k ((j, b) ∷ m) =
    if_cases (λ (r : GoMap ℤ Bool). length r ≤ suc (length m)) (j == k) _ _
      (omega (arith, length-delete k m)) (omega (arith, length-delete k m))

length-insert : (k : ℤ) (b : Bool) (m : GoMap ℤ Bool) → length (insert k b m) ≤ suc (length m)
unfolding insert
length-insert k b m = omega (arith, length-delete k m)

module _ {F : Type 0} ⦃f : Float F⦄ where
  pub find-new_shelf : (height id : ℤ) → find (new_shelf {F = F} height) id ≡ none
  unfolding new_shelf lookup
  find-new_shelf height id = refl

  -- The items recorded are at most as many as the replicas counted.
  pub length-insert_replicas :
      (left : ℕ) (quota : F) (sm : ℤ) (u : ShelfPacker F)
      → left < 2 ^ 63
      → length (insert_replicas left quota sm u [] (pos 0)).1
        ≤ pos_part (insert_replicas left quota sm u [] (pos 0)).2
  length-insert_replicas left quota sm u small =
      (insert_replicas_inv
        (λ u' items n left'.
          (length items ≤ pos_part n) × (pos_part n + left' ≤ left) × (neg_part n ≡ 0))
        (λ u' items n left'. length items ≤ pos_part n) quota sm (λ u' items n h. h.0)
        (λ left' u' items n id (le, fits, sign) e.
          let count = add64_parts n (pos 1) in
          (
            ground (
              arith,
              length-insert id true items,
              le,
              fits,
              sign,
              small,
              count,
              one_sign (add64 n (pos 1)),
            ),
            ground (arith, fits, sign, small, count, one_sign (add64 n (pos 1))),
            ground (arith, fits, sign, small, count, one_sign (add64 n (pos 1))),
          ))
        (λ left' u' items n x h e. h.0) left u [] (pos 0) (omega arith, omega arith, refl)).1

  -- What `ReduceConfig` takes from the record is gone from the packer.
  remove_some-gone :
      (limit : ℤ) (es : GoMap ℤ Bool) (removed : ℤ) (u : ShelfPacker F) (items : GoMap ℤ Bool)
      → IsValid u
      → (id : ℤ) (b : Bool) → lookup id items ≡ some b
      → lookup id (remove_some limit es removed (u, items)).1 ≡ none
      → find (remove_some limit es removed (u, items)).0 id ≡ none
  unfolding remove_some
  remove_some-gone limit [] removed u items v id b p = λ q. ground (arith, p, q)
  remove_some-gone limit ((x, y) ∷ es) removed u items v id b p =
      if_cases (λ (r : ShelfPacker F × GoMap ℤ Bool). lookup id r.1 ≡ none → find r.0 id ≡ none)
        (ltb_ℤ removed limit) _ (u, items)
        (elim (Eq-cases x id) [
          | inl hit ↦ λ q.
              (remove_some-Loses limit es (add64 removed (pos 1)) (remove u x).0 (delete x items)
                  (remove-IsValid u x v)).lost
                id (subst (λ z. find (remove u x).0 z ≡ none) hit (find-remove_self u x v))
          | inr miss ↦
              remove_some-gone limit es (add64 removed (pos 1)) (remove u x).0 (delete x items)
                (remove-IsValid u x v) id b (lookup-delete_ne x id items miss ∙ p)
        ])
        (λ q. ground (arith, p, q))

  length-remove_some :
      (limit : ℤ) (es : GoMap ℤ Bool) (removed : ℤ) (u : ShelfPacker F) (items : GoMap ℤ Bool)
      → length (remove_some limit es removed (u, items)).1 ≤ length items
  unfolding remove_some
  length-remove_some limit [] removed u items = omega arith
  length-remove_some limit ((x, y) ∷ es) removed u items =
      let more =
        length-remove_some limit es (add64 removed (pos 1)) (remove u x).0 (delete x items) in
      if_cases (λ (r : ShelfPacker F × GoMap ℤ Bool). length r.1 ≤ length items)
        (ltb_ℤ removed limit) _ (u, items) (omega (arith, more, length-delete x items))
        (omega arith)

module _ {F T : Type 0} ⦃f : Float F⦄ where
  pub reduce_config-gone :
      (g : GpuInfo F T) (c : Config F T) (replicas : ℤ)
      → IsValid g.usage
      → (id : ℤ) (b : Bool) → lookup id c.shelf_items ≡ some b
      → lookup id (reduce_config g c replicas).1.shelf_items ≡ none
      → find (reduce_config g c replicas).0.usage id ≡ none
  unfolding reduce_config
  reduce_config-gone g c replicas v id b p =
      let count = sub64 c.allocated_replica replicas in
      if_cases
        (λ (r : GpuInfo F T × Config F T × Bool).
          lookup id r.1.shelf_items ≡ none → find r.0.usage id ≡ none)
        (count == pos 0) _ _ (λ q. ground (arith, p, q))
        (remove_some-gone count c.shelf_items (pos 0) g.usage c.shelf_items v id b p)

  pub reduce_config-IsAllocated :
      (g : GpuInfo F T) (c : Config F T) (replicas : ℤ)
      → IsAllocated c
      → IsAllocated (reduce_config g c replicas).1
  unfolding reduce_config
  reduce_config-IsAllocated g c replicas al =
      let count = sub64 c.allocated_replica replicas in
      if_cases (λ (r : GpuInfo F T × Config F T × Bool). IsAllocated r.1) (count == pos 0) _ _ al
        (record {
          some_replica = al.some_replica;
          few = al.few;
          items = omega (
            arith,
            al.items,
            length-remove_some count c.shelf_items (pos 0) g.usage c.shelf_items,
          );
        })
