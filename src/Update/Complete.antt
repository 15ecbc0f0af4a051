-- ===== src/Update/Complete.antt =====
-- After a call of `UpdateFunction` (internal/controller/fastfunc_scale.go) that succeeds, no GPU has an item that no
-- configuration records.
use fa_st_gshare_autoscaler.Update.Emptied.{apply_reduction-FullBeside, apply_removals-FullBeside}
use fa_st_gshare_autoscaler.Update.Full.{FullBeside}
use fa_st_gshare_autoscaler.Update.Bookkeeping.{apply_reduction-AreSound}
use fa_st_gshare_autoscaler.Update.Entry.{apply_reductions-Keeps, apply_removals-Keeps}
use fa_st_gshare_autoscaler.Update.Planned.{scale_down-OfAll}
use fa_st_gshare_autoscaler.Update.Listed.{configs-Differ, configs-IsPending}
use fa_st_gshare_autoscaler.Update.Shrunk.{
  IsOld, IsPending, IsPending-after, Shrunk, Shrunk-start, apply_reduction-Shrunk,
}
use fa_st_gshare_autoscaler.Update.Once.{
  Differ, Permutes, Permutes-KeepsElements, ReduceOnce, scale_down-ReduceOnce,
}
use fa_st_gshare_autoscaler.Update.Beside.{OwnedBeside}
use fa_st_gshare_autoscaler.Gpu.Owned.{reduce_config-Shrinks}
use fa_st_gshare_autoscaler.Gpu.Valid.{AreSound, AreSound-get}
use fa_st_gshare_autoscaler.Update.{
  Accounts, Backend, apply_reduction, apply_reductions, apply_removals, scale_down_fast_func,
  shrink_function,
}
use fa_st_gshare_autoscaler.Functions.{FastFunc, State, put_function}
use fa_st_gshare_autoscaler.Scale.{ReduceInfo}
use fa_st_gshare_autoscaler.Gpu.{Config, GpuInfo, reduce_config}
use fa_st_gshare_autoscaler.Common.{
  int_eq, nat_eq, string_eq, All, All-both, All-map, Float, GoMap, List, Option-cases, String, [],
  ap, arith, get_elem?, inl, inr, insert, lookup, lookup-insert_ne, refl, some, sym, ℕ, ◌∙◌, ◌∷◌,
  ◌≡◌, ◌≤◌,
}

module _ {F T : Type 0} ⦃f : Float F⦄ (others : Config F T → Type 0) (new_uuid : ℕ → String)
    (drawn : ℕ) (start : GoMap String (Config F T)) {heap0 : List (GpuInfo F T)}
    (w : OwnedBeside others heap0 start) where
  -- A configuration that is still to be reduced, and stands in the map as it did.
  abbrev pub IsUntouched : Accounts F T → Config F T → Type 0
  IsUntouched acc c = IsPending start acc.heap c × (lookup c.uuid acc.fn.configs ≡ some c)

  IsUntouched-after :
      (info : ReduceInfo F T) (acc : Accounts F T)
      → IsOld start info.config
      → AreSound 0 acc.heap
      → (d : Config F T) → Differ info.config d × IsUntouched acc d
      → IsUntouched (apply_reduction info acc) d
  unfolding apply_reduction
  IsUntouched-after info acc old sound d (ne, (pending, here)) =
      let c = info.config in
      (
        IsPending-after others start w info acc old sound d (ne, pending),
        elim (Option-cases (get_elem? acc.heap c.associated_gpu)) [
          | inl e ↦ rw (e, apply_reduction) here
          | inr (g, e) ↦
              let (g', c', empty) = reduce_config g c info.new_replica in
              let v = (AreSound-get 0 acc.heap c.associated_gpu g sound e).packer.valid in
              let same = (reduce_config-Shrinks g c info.new_replica v).same_uuid in
              rw (e, apply_reduction)
                (lookup-insert_ne c'.uuid d.uuid c' acc.fn.configs (λ q. ne (sym same ∙ q)) ∙ here)
        ],
      )

  accounts-FullBeside :
      (infos : List (ReduceInfo F T)) (cs : List (Config F T)) (acc : Accounts F T)
      → ReduceOnce infos
      → All (λ i. IsUntouched acc i.config) infos
      → All (IsOld start) cs
      → AreSound 0 acc.heap
      → Shrunk others start acc.heap acc.fn.configs
      → FullBeside others new_uuid drawn acc.heap acc.fn.configs
      → FullBeside others new_uuid drawn
          (apply_removals cs (apply_reductions infos acc)).heap
          (apply_removals cs (apply_reductions infos acc)).fn.configs
  unfolding apply_reductions
  accounts-FullBeside [] cs acc once pending old sound s o =
      apply_removals-FullBeside others new_uuid drawn start w cs acc old sound s o
  accounts-FullBeside (info ∷ infos) cs acc (apart, once) ((p, here), pending) old sound s o =
      let acc' = apply_reduction info acc in
      accounts-FullBeside infos cs acc' once
        (All-map (λ i. Differ info.config i.config × IsUntouched acc i.config)
          (λ i. IsUntouched acc' i.config) infos
          (λ i. IsUntouched-after info acc p.0 sound i.config)
          (All-both (λ i. Differ info.config i.config) (λ i. IsUntouched acc i.config) infos apart
            pending))
        old (apply_reduction-AreSound 0 info acc sound)
        (apply_reduction-Shrunk others start w info acc p.0 p.1 sound s)
        (apply_reduction-FullBeside others new_uuid drawn start w info acc here sound o)

module _ {W C F T : Type 0} (others : Config F T → Type 0) (new_uuid : ℕ → String) (name : String)
    (drawn : ℕ) (before : GoMap String (FastFunc F T)) where
  -- A function is put under its name, and nothing beside its items and the others' is on a GPU.
  pub record PutsFull (st : State W C F T) : Type 0 where
    pub fn : FastFunc F T
    pub result : st.functions ≡ insert name fn before
    pub more : drawn ≤ st.drawn
    pub full : FullBeside others new_uuid st.drawn st.site.heap fn.configs

  pub PutsFull-put :
      (fn : FastFunc F T) (st : State W C F T)
      → drawn ≤ st.drawn
      → fn.name ≡ name
      → st.functions ≡ before
      → FullBeside others new_uuid st.drawn st.site.heap fn.configs
      → PutsFull (put_function fn st)
  PutsFull-put fn st more own same full = record {
    fn = fn;
    result = ap (λ k. insert k fn st.functions) own ∙ ap (insert name fn) same;
    more = more;
    full = full;
  }

module _ {W C S F T : Type 0} ⦃f : Float F⦄ (b : Backend W C S F T)
    (sorts : Permutes b.sort_configs) (others : Config F T → Type 0) where
  pub shrink_function-PutsFull :
      (fn : FastFunc F T) (new_rps : F) (st : State W C F T)
      → AreSound 0 st.site.heap
      → OwnedBeside others st.site.heap fn.configs
      → FullBeside others b.new_uuid st.drawn st.site.heap fn.configs
      → PutsFull others b.new_uuid fn.name st.drawn st.functions (shrink_function b fn new_rps st)
  unfolding shrink_function
  shrink_function-PutsFull fn new_rps st sound o full =
      let (w', reduced, removed) = scale_down_fast_func b fn new_rps st.site.world in
      let start : Accounts F T = record {
        fn = fn;
        heap = st.site.heap;
        scheduled = st.scheduled;
      } in
      let acc = apply_reductions reduced start in
      let end = apply_removals removed acc in
      let P = IsPending fn.configs st.site.heap in
      let chosen =
        scale_down-OfAll b (Permutes-KeepsElements b.sort_configs sorts) P fn new_rps st.site.world
          (configs-IsPending others st.site.heap fn o) in
      let once =
        scale_down-ReduceOnce b sorts fn new_rps st.site.world
          (configs-Differ others st.site.heap fn o) in
      PutsFull-put others b.new_uuid fn.name st.drawn st.functions end.fn
        (record st {
          site = record st.site { world = w'; heap = end.heap };
          scheduled = end.scheduled;
        })
        (omega arith)
        ((apply_removals-Keeps removed acc).0 ∙ (apply_reductions-Keeps reduced start).0) refl
        (accounts-FullBeside others b.new_uuid st.drawn fn.configs o reduced removed start once
          (All-map (λ i. P i.config)
            (λ i. IsUntouched others b.new_uuid st.drawn fn.configs o start i.config) reduced
            (λ i p. (p, p.0)) chosen.0)
          (All-map P (IsOld fn.configs) removed (λ c p. p.0) chosen.1) sound
          (Shrunk-start others fn.configs o) full)
