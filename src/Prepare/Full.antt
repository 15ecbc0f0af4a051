-- ===== src/Prepare/Full.antt =====
-- `PrepareConfigsRequirements` of internal/controller/config_finder.go puts no item on a GPU that no configuration
-- records.
use fa_st_gshare_autoscaler.Gpu.Allocated.{Ignores, IsAllocated, length-insert_replicas}
use fa_st_gshare_autoscaler.Gpu.Items.{item_in, item_on, item_on-set_ne, item_on-set_self}
use fa_st_gshare_autoscaler.Gpu.Valid.{AreSound-get, AreSound-weaken, IsSound}
use fa_st_gshare_autoscaler.Prepare.Sound.{IsHealthy}
use fa_st_gshare_autoscaler.Prepare.{Site, commit, kept_if}
use fa_st_gshare_autoscaler.Gpu.Replicas.{insert_replicas-Filling}
use fa_st_gshare_autoscaler.Gpu.{AllocationTypes, Config, GpuInfo, allocate_and_commit_config}
use fa_st_gshare_autoscaler.Shelf.Invariant.{find}
use fa_st_gshare_autoscaler.Common.{
  int_eq, nat_eq, string_eq, Bool, Bool-cases, Eq-cases, Float, GoMap, List, MayBe, Option,
  Option-cases, [], ap, arith, get_elem?, inl, inr, length, lookup, ltb_ℤ, none, pos, pos_part,
  refl, set, subst, sym, ℕ, ℤ, ◌+◌, ◌<◌, ◌^◌, ◌∙◌, ◌∷◌, ◌≡◌, ◌≤◌,
}

module _ {F T : Type 0} where
  kept_if-Ignores :
      (i : ℕ) (id : ℤ) (c : Config F T)
      → length c.shelf_items ≤ pos_part c.allocated_replica
      → MayBe (Ignores i id) (kept_if c)
      → Ignores i id c
  unfolding lookup
  kept_if-Ignores i id c le h = elim (Bool-cases (ltb_ℤ (pos 0) c.allocated_replica)) [
    | inl more ↦ rw more at h
    | inr no_replica ↦ λ e. empty c.shelf_items (ground (arith, le, no_replica))
  ]
    where
      empty : (m : GoMap ℤ Bool) → length m ≤ 0 → lookup id m ≡ none
      empty [] q = refl
      empty (x ∷ m) q = absurd (omega (arith, q))

module _ {F T W C : Type 0} where
  -- What comes of one configuration: its items are all that is new, it has replicas, and its UUID.
  pub record Prepared (heap : List (GpuInfo F T)) (c : Config F T)
      (r : Site W C F T × Option (Config F T)) : Type 0 where
    pub full :
        (i : ℕ) (id : ℤ)
        → item_on heap i id ≡ none
        → MayBe (Ignores i id) r.1
        → item_on r.0.heap i id ≡ none
    pub allocated : MayBe IsAllocated r.1
    pub named : MayBe (λ d. d.uuid ≡ c.uuid) r.1

  pub Prepared-nothing : (c : Config F T) (site : Site W C F T) → Prepared site.heap c (site, none)
  Prepared-nothing c site = record { full = λ i id e h. e; allocated = tt; named = tt }

module _ {F T : Type 0} ⦃f : Float F⦄ where
  allocate-IsAllocated :
      (g : GpuInfo F T) (c : Config F T)
      → c.shelf_items ≡ []
      → IsSound (pos_part c.required_replica) g
      → ((id : ℤ)
          → lookup id (allocate_and_commit_config g c).1.shelf_items ≡ none
          → find (allocate_and_commit_config g c).0.usage id ≡ find g.usage id)
        × (pos_part (allocate_and_commit_config g c).1.allocated_replica < 2 ^ 63)
        × (length (allocate_and_commit_config g c).1.shelf_items
            ≤ pos_part (allocate_and_commit_config g c).1.allocated_replica)
  unfolding allocate_and_commit_config
  allocate-IsAllocated g c fresh s =
      let n = pos_part c.required_replica in
      let ids = s.packer.ids in
      rw fresh (
        let (k, filling) =
          insert_replicas-Filling g.usage n c.quota_req c.sm_partition s.packer.valid ids in
        let counted = filling.counted in
        (
          filling.kept,
          omega (arith, counted, filling.small),
          length-insert_replicas n c.quota_req c.sm_partition g.usage filling.small,
        ))

module _ {F T W C : Type 0} ⦃f : Float F⦄ ⦃a : AllocationTypes T⦄ where
  pub commit-Prepared :
      (n : ℕ) (c : Config F T) (address : ℕ) (site : Site W C F T)
      → c.shelf_items ≡ []
      → IsHealthy (n + pos_part c.required_replica) site
      → Prepared site.heap c (commit c address site)
  unfolding commit allocate_and_commit_config
  commit-Prepared n c address site fresh h = elim (Option-cases (get_elem? site.heap address)) [
    | inl e ↦ rw (e, commit) (Prepared-nothing c site)
    | inr (g, e) ↦
        let k = n + pos_part c.required_replica in
        let enough =
          AreSound-weaken k (pos_part c.required_replica) site.heap (omega arith) h.gpus in
        let c0 = record c { associated_gpu = address; vgpu_uuid = g.uuid } in
        let (g', c', complete) = allocate_and_commit_config g c0 in
        let (kept, few, le) =
          allocate-IsAllocated g c0 fresh
            (AreSound-get (pos_part c.required_replica) site.heap address g enough e) in
        rw (e, commit)
          (record {
            full = λ i id free ignored. elim (Eq-cases address i) [
              | inl hit ↦
                  subst (λ j. item_on (set site.heap address g') j id ≡ none) hit
                    (item_on-set_self site.heap address g g' id e
                      ∙ kept id (kept_if-Ignores i id c' le ignored hit)
                      ∙ sym (ap (item_in id) e)
                      ∙ subst (λ j. item_on site.heap j id ≡ none) (sym hit) free)
              | inr miss ↦ item_on-set_ne site.heap address i g' id miss ∙ free
            ];
            allocated = elim (Bool-cases (ltb_ℤ (pos 0) c'.allocated_replica)) [
              | inl more ↦
                  rw more (record { some_replica = ground (arith, more); few = few; items = le })
              | inr no_replica ↦ rw no_replica tt
            ];
            named = elim (Bool-cases (ltb_ℤ (pos 0) c'.allocated_replica)) [
              | inl more ↦ rw more refl
              | inr no_replica ↦ rw no_replica tt
            ];
          })
  ]
