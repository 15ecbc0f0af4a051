-- ===== src/Update/Emptied.antt =====
-- A scale-down of `UpdateFunction` (internal/controller/fastfunc_scale.go) takes from the GPUs what it takes from the
-- records.
use fa_st_gshare_autoscaler.Update.Full.{FullBeside}
use fa_st_gshare_autoscaler.Update.Bookkeeping.{apply_removal-AreSound}
use fa_st_gshare_autoscaler.Update.Released.{apply_removal-Takes}
use fa_st_gshare_autoscaler.Update.Shrunk.{IsOld, Shrunk, apply_removal-Shrunk}
use fa_st_gshare_autoscaler.Update.Beside.{OwnedBeside}
use fa_st_gshare_autoscaler.Select.Pick.Drawn.{DrawnIn}
use fa_st_gshare_autoscaler.Gpu.Allocated.{
  Ignores, Ignores-cases, IsAllocated, reduce_config-IsAllocated, reduce_config-gone,
}
use fa_st_gshare_autoscaler.Gpu.Owned.{none_of_fewer, reduce_config-Shrinks}
use fa_st_gshare_autoscaler.Gpu.Takes.{IsCleared, TakesOne}
use fa_st_gshare_autoscaler.Gpu.Items.{item_on, item_on-set_self, reduce_config-Loses, set-lost}
use fa_st_gshare_autoscaler.Gpu.Valid.{AreSound, AreSound-get}
use fa_st_gshare_autoscaler.Update.{Accounts, apply_reduction, apply_removal, apply_removals}
use fa_st_gshare_autoscaler.Scale.{ReduceInfo}
use fa_st_gshare_autoscaler.Gpu.{Config, GpuInfo, reduce_config}
use fa_st_gshare_autoscaler.Shelf.Invariant.{IsValid}
use mathlib.Core.Option.{some-injective}
use fa_st_gshare_autoscaler.Common.{
  int_eq, nat_eq, string_eq, All, Eq-cases, Float, GoMap, List, Option-cases, String, [], ap,
  delete, delete-cases, get_elem?, inl, inr, insert, insert-cases, lookup, lookup-delete_ne,
  lookup-insert_ne, lookup-insert_self, none, set, some, subst, sym, ℕ, ℤ, ◌∙◌, ◌∷◌, ◌≡◌,
}

module _ {F T : Type 0} (others : Config F T → Type 0) (new_uuid : ℕ → String) (drawn : ℕ)
    (start : GoMap String (Config F T)) where
  -- The items of a configuration are gone, and the configuration with them.
  FullBeside-remove :
      (heap heap' : List (GpuInfo F T)) (m : GoMap String (Config F T)) (c : Config F T)
      → IsOld start c
      → TakesOne c heap heap'
      → IsCleared c heap'
      → Shrunk others start heap m
      → FullBeside others new_uuid drawn heap m
      → FullBeside others new_uuid drawn heap' (delete c.uuid m)
  FullBeside-remove heap heap' m c old t cleared s o = record {
    full = λ i id os ms. elim (Ignores-cases i id c) [
      | inr (hit, b, p) ↦ subst (λ j. item_on heap' j id ≡ none) hit (cleared id b p)
      | inl here ↦ t.lost i id (
          o.full i id os (λ u d e. elim (Eq-cases c.uuid u) [
            | inl hit ↦ left i id u d e hit here
            | inr miss ↦ ms u d (lookup-delete_ne c.uuid u m miss ∙ e)
          ]))
    ];
    allocated = λ u d e. o.allocated u d (delete-cases c.uuid u d m e).1;
    named = λ u d e. o.named u d (delete-cases c.uuid u d m e).1;
  }
    where
      left :
          (i : ℕ) (id : ℤ) (u : String) (d : Config F T)
          → lookup u m ≡ some d
          → c.uuid ≡ u
          → Ignores i id c
          → Ignores i id d
      left i id u d e hit here at =
          let (c0, there, r) = s.from u d e in
          let same : c0 ≡ c =
            some-injective _ _ (sym there ∙ subst (λ v. lookup v start ≡ some c) hit old) in
          none_of_fewer c0 d id r (
            subst (λ (x : Config F T). lookup id x.shelf_items ≡ none) (sym same)
              (here (ap (λ (x : Config F T). x.associated_gpu) (sym same) ∙ sym r.same_gpu ∙ at)))

  module _ ⦃f : Float F⦄ where
    -- What a reduction takes from the record it takes from the GPU.
    FullBeside-reduce :
        (heap : List (GpuInfo F T)) (m : GoMap String (Config F T)) (c : Config F T)
        (g : GpuInfo F T) (replicas : ℤ)
        → lookup c.uuid m ≡ some c
        → get_elem? heap c.associated_gpu ≡ some g
        → IsValid g.usage
        → FullBeside others new_uuid drawn heap m
        → FullBeside others new_uuid drawn
            (set heap c.associated_gpu (reduce_config g c replicas).0)
            (insert (reduce_config g c replicas).1.uuid (reduce_config g c replicas).1 m)
    FullBeside-reduce heap m c g replicas here e v o =
        let (g', c', empty) = reduce_config g c replicas in
        let r = reduce_config-Shrinks g c replicas v in
        record {
          full = λ i id os ms.
              let own = ms c'.uuid c' (lookup-insert_self c'.uuid c' m) in
              elim (Ignores-cases i id c) [
                | inr (hit, b, p) ↦
                    subst (λ j. item_on (set heap c.associated_gpu g') j id ≡ none) hit
                      (item_on-set_self heap c.associated_gpu g g' id e
                        ∙ reduce_config-gone g c replicas v id b p (own (r.same_gpu ∙ hit)))
                | inl ignored ↦ set-lost c heap g g' e (reduce_config-Loses g c replicas v) i id (
                    o.full i id os (λ u d q. elim (Eq-cases c'.uuid u) [
                      | inl hit ↦
                          subst (Ignores i id)
                            (some-injective _ _
                              (sym here ∙ ap (λ w. lookup w m) (sym r.same_uuid ∙ hit) ∙ q))
                            ignored
                      | inr miss ↦ ms u d (lookup-insert_ne c'.uuid u c' m miss ∙ q)
                    ]))
              ];
          allocated = λ u d q. elim (insert-cases c'.uuid u c' d m q) [
            | inl (hit, same) ↦
                subst IsAllocated same
                  (reduce_config-IsAllocated g c replicas (o.allocated c.uuid c here))
            | inr (miss, there) ↦ o.allocated u d there
          ];
          named = λ u d q. elim (insert-cases c'.uuid u c' d m q) [
            | inl (hit, same) ↦
                let (k, from, to, drew) = o.named c.uuid c here in
                subst (DrawnIn new_uuid 0 drawn) same (k, from, to, r.same_uuid ∙ drew)
            | inr (miss, there) ↦ o.named u d there
          ];
        }

    module _ {heap0 : List (GpuInfo F T)} (w : OwnedBeside others heap0 start) where
      apply_removal-FullBeside :
          (c : Config F T) (acc : Accounts F T)
          → IsOld start c
          → AreSound 0 acc.heap
          → Shrunk others start acc.heap acc.fn.configs
          → FullBeside others new_uuid drawn acc.heap acc.fn.configs
          → FullBeside others new_uuid drawn
              (apply_removal c acc).heap
              (apply_removal c acc).fn.configs
      unfolding apply_removal
      apply_removal-FullBeside c acc old sound s o =
          elim (Option-cases (get_elem? acc.heap c.associated_gpu)) [
            | inl e ↦ rw (e, apply_removal) o
            | inr (g, e) ↦
                let (taken, cleared) = apply_removal-Takes c acc sound in
                rw (e, apply_removal)
                  (FullBeside-remove acc.heap _ acc.fn.configs c old
                    (rw (e, apply_removal) at taken) (rw (e, apply_removal) at cleared) s o)
          ]

      pub apply_removals-FullBeside :
          (cs : List (Config F T)) (acc : Accounts F T)
          → All (IsOld start) cs
          → AreSound 0 acc.heap
          → Shrunk others start acc.heap acc.fn.configs
          → FullBeside others new_uuid drawn acc.heap acc.fn.configs
          → FullBeside others new_uuid drawn
              (apply_removals cs acc).heap
              (apply_removals cs acc).fn.configs
      unfolding apply_removals
      apply_removals-FullBeside [] acc old sound s o = o
      apply_removals-FullBeside (c ∷ cs) acc (p, old) sound s o =
          apply_removals-FullBeside cs (apply_removal c acc) old
            (apply_removal-AreSound 0 c acc sound)
            (apply_removal-Shrunk others start w c acc p sound s)
            (apply_removal-FullBeside c acc p sound s o)

      pub apply_reduction-FullBeside :
          (info : ReduceInfo F T) (acc : Accounts F T)
          → lookup info.config.uuid acc.fn.configs ≡ some info.config
          → AreSound 0 acc.heap
          → FullBeside others new_uuid drawn acc.heap acc.fn.configs
          → FullBeside others new_uuid drawn
              (apply_reduction info acc).heap
              (apply_reduction info acc).fn.configs
      unfolding apply_reduction
      apply_reduction-FullBeside info acc here sound o =
          let c = info.config in
          elim (Option-cases (get_elem? acc.heap c.associated_gpu)) [
            | inl e ↦ rw (e, apply_reduction) o
            | inr (g, e) ↦
                rw (e, apply_reduction)
                  (FullBeside-reduce acc.heap acc.fn.configs c g info.new_replica here e
                    (AreSound-get 0 acc.heap c.associated_gpu g sound e).packer.valid o)
          ]
