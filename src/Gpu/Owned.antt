-- ===== src/Gpu/Owned.antt =====
-- The items that configurations record (`ShelfItems` of config_finder.go) and the packers of the GPUs of
-- internal/controller/gpu_manager.go: what an allocation or a removal for one leaves of another.
use fa_st_gshare_autoscaler.Gpu.Keeps.{KeepsAll}
use fa_st_gshare_autoscaler.Gpu.Takes.{TakesOne}
use fa_st_gshare_autoscaler.Gpu.Items.{item_in, item_on, item_on-set_self}
use fa_st_gshare_autoscaler.Gpu.{Config, GpuInfo, reduce_config, remove_some}
use fa_st_gshare_autoscaler.Shelf.Remove.{find-remove_ne, remove-IsValid}
use fa_st_gshare_autoscaler.Shelf.Invariant.{IsValid, find}
use fa_st_gshare_autoscaler.Shelf.{ShelfPacker, remove}
use fa_st_gshare_autoscaler.Common.{
  int_eq, string_eq, Bool, Eq-cases, Float, GoMap, List, Option-cases, [], add64, ap, arith, delete,
  get_elem?, if_cases, inl, inr, lookup, lookup-delete_ne, lookup-delete_self, ltb_ℤ, none, pos,
  refl, set, some, sub64, subst, sym, ℤ, ◌==◌, ◌∙◌, ◌∷◌, ◌≡◌, ◌≢◌, ◌⊎◌,
}

module _ {F T : Type 0} where
  -- Each item that the configuration records is on its GPU.
  abbrev pub IsHeld : List (GpuInfo F T) → Config F T → Type 0
  IsHeld heap c =
      (id : ℤ) (b : Bool)
      → lookup id c.shelf_items ≡ some b
      → item_on heap c.associated_gpu id ≢ none

  -- No item of one GPU is recorded by both.
  abbrev pub Apart : Config F T → Config F T → Type 0
  Apart c d =
      c.associated_gpu ≡ d.associated_gpu
      → (id : ℤ) → (lookup id c.shelf_items ≡ none) ⊎ (lookup id d.shelf_items ≡ none)

  pub Apart-sym : (c d : Config F T) → Apart c d → Apart d c
  Apart-sym c d h e id = elim (h (sym e) id) [ inl n ↦ inr n | inr n ↦ inl n ]

  -- The same configuration with some of its items.
  pub record Shrinks (c c' : Config F T) : Type 0 where
    pub same_uuid : c'.uuid ≡ c.uuid
    pub same_gpu : c'.associated_gpu ≡ c.associated_gpu
    pub fewer :
        (id : ℤ) (b : Bool) → lookup id c'.shelf_items ≡ some b → lookup id c.shelf_items ≡ some b

  pub Shrinks-refl : (c : Config F T) → Shrinks c c
  Shrinks-refl c = record { same_uuid = refl; same_gpu = refl; fewer = λ id b p. p }

  pub none_of_fewer :
      (c c' : Config F T) (id : ℤ)
      → Shrinks c c'
      → lookup id c.shelf_items ≡ none
      → lookup id c'.shelf_items ≡ none
  none_of_fewer c c' id s free = elim (Option-cases (lookup id c'.shelf_items)) [
    | inl n ↦ n
    | inr (b, p) ↦ ground (arith, s.fewer id b p)
  ]

  pub Apart-Shrinks :
      (c c' d d' : Config F T) → Shrinks c c' → Shrinks d d' → Apart c d → Apart c' d'
  Apart-Shrinks c c' d d' s t h e id = elim (h (sym s.same_gpu ∙ e ∙ t.same_gpu) id) [
    | inl n ↦ inl (none_of_fewer c c' id s n)
    | inr n ↦ inr (none_of_fewer d d' id t n)
  ]

  pub IsHeld-KeepsAll :
      (heap heap' : List (GpuInfo F T)) (c : Config F T)
      → KeepsAll heap heap'
      → IsHeld heap c
      → IsHeld heap' c
  IsHeld-KeepsAll heap heap' c k h id b p = elim (Option-cases (item_on heap c.associated_gpu id)) [
    | inl n ↦ absurd (h id b p n)
    | inr (it, q) ↦ λ n. ground (arith, k c.associated_gpu id it q)
  ]

  -- What is taken from one configuration is not taken from another.
  pub IsHeld-TakesOne :
      (heap heap' : List (GpuInfo F T)) (c d : Config F T)
      → TakesOne c heap heap'
      → Apart c d
      → IsHeld heap d
      → IsHeld heap' d
  IsHeld-TakesOne heap heap' c d t apart h id b p n = h id b p (
      sym (
        t.kept d.associated_gpu id
          (λ e. elim (apart e id) [ inl free ↦ free | inr free ↦ ground (arith, p, free) ]))
      ∙ n)

module _ {F : Type 0} ⦃f : Float F⦄ where
  -- What `ReduceConfig` leaves recorded was recorded before, and stays on the packer.
  remove_some-kept :
      (limit : ℤ) (es : GoMap ℤ Bool) (removed : ℤ) (u : ShelfPacker F) (items : GoMap ℤ Bool)
      → IsValid u
      → (id : ℤ) (b : Bool) → lookup id (remove_some limit es removed (u, items)).1 ≡ some b
      → (lookup id items ≡ some b)
        × (find (remove_some limit es removed (u, items)).0 id ≡ find u id)
  unfolding remove_some
  remove_some-kept limit [] removed u items v id b = λ p. (p, refl)
  remove_some-kept limit ((x, y) ∷ es) removed u items v id b =
      if_cases
        (λ (r : ShelfPacker F × GoMap ℤ Bool).
          lookup id r.1 ≡ some b → (lookup id items ≡ some b) × (find r.0 id ≡ find u id))
        (ltb_ℤ removed limit) _ (u, items)
        (λ p.
          let (there, same) =
            remove_some-kept limit es (add64 removed (pos 1)) (remove u x).0 (delete x items)
              (remove-IsValid u x v) id b p in
          elim (Eq-cases x id) [
            | inl hit ↦ ground (
              arith,
              subst (λ z. lookup z (delete x items) ≡ none) hit (lookup-delete_self x items),
              there,
            )
            | inr miss ↦ (
              sym (lookup-delete_ne x id items miss) ∙ there,
              same ∙ find-remove_ne u x v id miss,
            )
          ])
        (λ p. (p, refl))

module _ {F T : Type 0} ⦃f : Float F⦄ where
  reduce_config-kept :
      (g : GpuInfo F T) (c : Config F T) (replicas : ℤ)
      → IsValid g.usage
      → (id : ℤ) (b : Bool) → lookup id (reduce_config g c replicas).1.shelf_items ≡ some b
      → (lookup id c.shelf_items ≡ some b)
        × (find (reduce_config g c replicas).0.usage id ≡ find g.usage id)
  unfolding reduce_config
  reduce_config-kept g c replicas v id b =
      let count = sub64 c.allocated_replica replicas in
      if_cases
        (λ (r : GpuInfo F T × Config F T × Bool).
          lookup id r.1.shelf_items ≡ some b
          → (lookup id c.shelf_items ≡ some b) × (find r.0.usage id ≡ find g.usage id))
        (count == pos 0) _ _ (λ p. (p, refl))
        (remove_some-kept count c.shelf_items (pos 0) g.usage c.shelf_items v id b)

  pub reduce_config-Shrinks :
      (g : GpuInfo F T) (c : Config F T) (replicas : ℤ)
      → IsValid g.usage
      → Shrinks c (reduce_config g c replicas).1
  unfolding reduce_config
  reduce_config-Shrinks g c replicas v =
      let count = sub64 c.allocated_replica replicas in
      record {
        same_uuid =
            if_cases (λ (r : GpuInfo F T × Config F T × Bool). r.1.uuid ≡ c.uuid) (count == pos 0) _
              _ refl refl;
        same_gpu =
            if_cases
              (λ (r : GpuInfo F T × Config F T × Bool). r.1.associated_gpu ≡ c.associated_gpu)
              (count == pos 0) _ _ refl refl;
        fewer = λ id b p. (reduce_config-kept g c replicas v id b p).0;
      }

  -- The configuration reduced holds what it has left.
  pub reduce_config-IsHeld :
      (heap : List (GpuInfo F T)) (g : GpuInfo F T) (c : Config F T) (replicas : ℤ)
      → IsValid g.usage
      → get_elem? heap c.associated_gpu ≡ some g
      → IsHeld heap c
      → IsHeld
          (set heap c.associated_gpu (reduce_config g c replicas).0)
          (reduce_config g c replicas).1
  reduce_config-IsHeld heap g c replicas v e h id b p =
      let (g', c', empty) = reduce_config g c replicas in
      let (there, same) = reduce_config-kept g c replicas v id b p in
      let here =
        sym (item_on-set_self heap c.associated_gpu g g' id e)
        ∙ ap (λ i. item_on (set heap c.associated_gpu g') i id)
            (sym (reduce_config-Shrinks g c replicas v).same_gpu) in
      λ n. h id b there (ap (item_in id) e ∙ sym same ∙ here ∙ n)
