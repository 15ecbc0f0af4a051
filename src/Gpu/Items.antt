-- ===== src/Gpu/Items.antt =====
-- The items on the packers of a heap of GPUs (internal/controller/gpu_manager.go), and which of them
-- `DeallocateConfig` and `ReduceConfig` take away.
use fa_st_gshare_autoscaler.Gpu.Removal.{Emptied}
use fa_st_gshare_autoscaler.Gpu.{Config, GpuInfo, reduce_config, remove_some}
use fa_st_gshare_autoscaler.Shelf.Remove.{find-remove_ne, find-remove_self, remove-IsValid}
use fa_st_gshare_autoscaler.Shelf.Invariant.{IsValid, find}
use fa_st_gshare_autoscaler.Shelf.{Item, ShelfPacker, remove}
use fa_st_gshare_autoscaler.Common.{
  int_eq, nat_eq, Bool, Eq-cases, Float, GoMap, List, Option, Option-cases, [], add64, ap, arith,
  beq_ne, beq_self, delete, get_elem?, get_elem?-set_ne, get_elem?-set_self, if_cases, inl, inr,
  lookup, ltb_ℤ, none, pos, refl, set, some, sub64, subst, sym, true, ℕ, ℤ, ◌==◌, ◌∙◌, ◌∷◌, ◌≡◌,
  ◌≢◌,
}

module _ {F T : Type 0} where
  abbrev pub item_in : ℤ → Option (GpuInfo F T) → Option (Item F)
  item_in id none = none
  item_in id (some g) = find g.usage id

  -- The item with that id on the GPU with that address.
  abbrev pub item_on : List (GpuInfo F T) → ℕ → ℤ → Option (Item F)
  item_on heap i id = item_in id (get_elem? heap i)

  pub item_on-set_self :
      (heap : List (GpuInfo F T)) (i : ℕ) (g g' : GpuInfo F T) (id : ℤ)
      → get_elem? heap i ≡ some g
      → item_on (set heap i g') i id ≡ find g'.usage id
  item_on-set_self heap i g g' id e = ap (item_in id) (get_elem?-set_self heap i g' g e)

  pub item_on-set_ne :
      (heap : List (GpuInfo F T)) (i j : ℕ) (g' : GpuInfo F T) (id : ℤ)
      → i ≢ j
      → item_on (set heap i g') j id ≡ item_on heap j id
  item_on-set_ne heap i j g' id ne = ap (item_in id) (get_elem?-set_ne heap i j g' ne)

module _ {F : Type 0} where
  -- At most the items `es` are gone from a packer, and none is new.
  pub record Loses (es : GoMap ℤ Bool) (u u' : ShelfPacker F) : Type 0 where
    pub kept : (id : ℤ) → lookup id es ≡ none → find u' id ≡ find u id
    pub lost : (id : ℤ) → find u id ≡ none → find u' id ≡ none

module _ {F : Type 0} ⦃f : Float F⦄ where
  pub Emptied-Loses : (es : GoMap ℤ Bool) (u u' : ShelfPacker F) → Emptied es u u' → Loses es u u'
  Emptied-Loses es u u' m = record {
    kept = m.kept;
    lost = λ id free. elim (Option-cases (lookup id es)) [
      | inl n ↦ m.kept id n ∙ free
      | inr (b, p) ↦ m.gone id b p
    ];
  }

  lost-remove :
      (u : ShelfPacker F) (x id : ℤ) → IsValid u → find u id ≡ none → find (remove u x).0 id ≡ none
  lost-remove u x id v free = elim (Eq-cases x id) [
    | inl hit ↦ subst (λ y. find (remove u x).0 y ≡ none) hit (find-remove_self u x v)
    | inr miss ↦ find-remove_ne u x v id miss ∙ free
  ]

  Loses-cons :
      (x : ℤ) (b : Bool) (es : GoMap ℤ Bool) (u u' : ShelfPacker F)
      → IsValid u
      → Loses es (remove u x).0 u'
      → Loses ((x, b) ∷ es) u u'
  unfolding lookup
  Loses-cons x b es u u' v h = record {
    kept = λ id p. elim (Eq-cases x id) [
      | inl hit ↦ ground (arith, subst (λ y. (x == y) ≡ true) hit (beq_self x))
      | inr miss ↦ h.kept id (ground (arith, beq_ne x id miss)) ∙ find-remove_ne u x v id miss
    ];
    lost = λ id free. h.lost id (lost-remove u x id v free);
  }

  pub remove_some-Loses :
      (limit : ℤ) (es : GoMap ℤ Bool) (removed : ℤ) (u : ShelfPacker F) (items : GoMap ℤ Bool)
      → IsValid u
      → Loses es u (remove_some limit es removed (u, items)).0
  unfolding remove_some
  remove_some-Loses limit [] removed u items v = record { kept = λ id p. refl; lost = λ id p. p }
  remove_some-Loses limit ((id, b) ∷ es) removed u items v =
      if_cases (λ (r : ShelfPacker F × GoMap ℤ Bool). Loses ((id, b) ∷ es) u r.0)
        (ltb_ℤ removed limit) _ (u, items)
        (Loses-cons id b es u _ v (
          remove_some-Loses limit es (add64 removed (pos 1)) (remove u id).0 (delete id items)
            (remove-IsValid u id v)))
        (record { kept = λ x p. refl; lost = λ x p. p })

module _ {F T : Type 0} ⦃f : Float F⦄ where
  pub reduce_config-Loses :
      (g : GpuInfo F T) (c : Config F T) (replicas : ℤ)
      → IsValid g.usage
      → Loses c.shelf_items g.usage (reduce_config g c replicas).0.usage
  unfolding reduce_config
  reduce_config-Loses g c replicas v =
      let count = sub64 c.allocated_replica replicas in
      if_cases (λ (r : GpuInfo F T × Config F T × Bool). Loses c.shelf_items g.usage r.0.usage)
        (count == pos 0) _ _ (record { kept = λ id p. refl; lost = λ id p. p })
        (remove_some-Loses count c.shelf_items (pos 0) g.usage c.shelf_items v)

  -- A GPU is replaced by one that has lost items of a configuration.
  module _ (c : Config F T) (heap : List (GpuInfo F T)) (g g' : GpuInfo F T)
      (e : get_elem? heap c.associated_gpu ≡ some g)
      (m : Loses c.shelf_items g.usage g'.usage) where
    pub set-kept :
        (i : ℕ) (id : ℤ)
        → (c.associated_gpu ≡ i → lookup id c.shelf_items ≡ none)
        → item_on (set heap c.associated_gpu g') i id ≡ item_on heap i id
    set-kept i id free = elim (Eq-cases c.associated_gpu i) [
      | inl hit ↦
          subst (λ j. item_on (set heap c.associated_gpu g') j id ≡ item_on heap j id) hit
            (item_on-set_self heap c.associated_gpu g g' id e
              ∙ m.kept id (free hit)
              ∙ sym (ap (item_in id) e))
      | inr miss ↦ item_on-set_ne heap c.associated_gpu i g' id miss
    ]

    pub set-lost :
        (i : ℕ) (id : ℤ)
        → item_on heap i id ≡ none
        → item_on (set heap c.associated_gpu g') i id ≡ none
    set-lost i id free = elim (Eq-cases c.associated_gpu i) [
      | inl hit ↦
          subst (λ j. item_on heap j id ≡ none → item_on (set heap c.associated_gpu g') j id ≡ none)
            hit
            (λ here.
              item_on-set_self heap c.associated_gpu g g' id e
              ∙ m.lost id (sym (ap (item_in id) e) ∙ here))
            free
      | inr miss ↦ item_on-set_ne heap c.associated_gpu i g' id miss ∙ free
    ]
