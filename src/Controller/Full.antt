-- ===== src/Controller/Full.antt =====
-- Over every run of the calls of internal/controller in which no call of `UpdateFunction` fails, no GPU has an item
-- that no configuration records.
use fa_st_gshare_autoscaler.Controller.Owned.{Steps-IsOwned}
use fa_st_gshare_autoscaler.Controller.Healthy.{Steps-IsHealthy}
use fa_st_gshare_autoscaler.Controller.Recorders.{
  IsFull, IsFull-FullBeside, IsFull-forget, IsFull-put,
}
use fa_st_gshare_autoscaler.Controller.Owners.{IsOwned, IsOwned-OwnedBeside, Others}
use fa_st_gshare_autoscaler.Deletion.Kept.{free_configs-Takes}
use fa_st_gshare_autoscaler.Update.Grown.{act-PutsFull}
use fa_st_gshare_autoscaler.Update.Complete.{PutsFull}
use fa_st_gshare_autoscaler.Update.Entry.{or_new-name}
use fa_st_gshare_autoscaler.Update.Once.{Permutes}
use fa_st_gshare_autoscaler.Update.Listed.{values-All, values-lookup}
use fa_st_gshare_autoscaler.Gpu.Allocated.{Ignores, IsAllocated, cleared-or_ignored}
use fa_st_gshare_autoscaler.Gpu.Valid.{AreSound}
use fa_st_gshare_autoscaler.Prepare.Sound.{AnswersInRange, IsHealthy, IsHealthy-weaken}
use fa_st_gshare_autoscaler.Controller.{
  Step, Steps, beats, begin, checks, deletes, greets, loses, releases, then_step, updates,
}
use fa_st_gshare_autoscaler.Deletion.{handle_deleted}
use fa_st_gshare_autoscaler.Update.{Backend, demand, reading, request_of, update_function}
use fa_st_gshare_autoscaler.Functions.{State, current_configs, or_new}
use fa_st_gshare_autoscaler.Api.{FastFuncObject}
use fa_st_gshare_autoscaler.Scale.{decide, predicted_rate}
use fa_st_gshare_autoscaler.Gpu.{AllocationTypes}
use fa_st_gshare_autoscaler.Common.{
  int_eq, nat_eq, string_eq, All, All-map, AreDistinct-lookup, Float, Option-cases, String, arith,
  inl, inr, lookup, some, subst, sym, true, ℕ, ℤ, ◌+◌, ◌<◌, ◌^◌, ◌≡◌,
}

module _ {W C F T : Type 0} ⦃f : Float F⦄ ⦃a : AllocationTypes T⦄ (new_uuid : ℕ → String) where
  -- Every item on the GPUs of the state is recorded.
  abbrev pub RecordsItems : State W C F T → Type 0
  RecordsItems st = IsFull new_uuid st.drawn st.site.heap st.functions

  handle_deleted-IsFull :
      (name : String) (st : State W C F T)
      → AreSound 0 st.site.heap
      → IsOwned st.site.heap st.functions
      → RecordsItems st
      → RecordsItems (handle_deleted name st)
  unfolding handle_deleted current_configs
  handle_deleted-IsFull name st sound o p = elim (Option-cases (lookup name st.functions)) [
    | inl e ↦ rw (e, handle_deleted) p
    | inr (fn, e) ↦
        let cs = current_configs fn in
        let listed : All IsAllocated cs = values-All IsAllocated fn.configs (
          All-map (λ x. lookup x.0 fn.configs ≡ some x.1) (λ x. IsAllocated x.1) fn.configs
            (λ x q. p.allocated name x.0 x.1 (fn, e, q))
            (AreDistinct-lookup fn.configs (o.distinct name fn e))) in
        let taken = free_configs-Takes cs (st.site.heap, st.scheduled) sound listed in
        rw (e, handle_deleted)
          (IsFull-forget new_uuid p name fn _ e
            (λ i id. elim (cleared-or_ignored _ i id cs taken.gone) [
              | inl free ↦ inr free
              | inr all ↦ inl (λ u c q. values-lookup (Ignores i id) fn.configs u c all q)
            ])
            taken.lost)
  ]

module _ {W C S F T : Type 0} ⦃f : Float F⦄ ⦃a : AllocationTypes T⦄ (b : Backend W C S F T)
    (answers : AnswersInRange b.request) (sorts : Permutes b.sort_configs)
    (once : (m k : ℕ) → b.new_uuid m ≡ b.new_uuid k → m ≡ k) where
  update_function-IsFull :
      (obj : FastFuncObject S) (rates : F × F × F) (min_rps : F) (preferred : String)
      (st : State W C F T)
      → 1 + demand b (request_of b obj rates min_rps preferred st) st < 2 ^ 63
      → IsHealthy (demand b (request_of b obj rates min_rps preferred st) st) st.site
      → IsOwned st.site.heap st.functions
      → RecordsItems b.new_uuid st
      → (update_function b obj rates min_rps preferred st).1 ≡ true
      → RecordsItems b.new_uuid (update_function b obj rates min_rps preferred st).0
  unfolding update_function
  update_function-IsFull obj rates min_rps preferred st few h o p e =
      let known = lookup obj.name st.functions in
      let fn = or_new obj.name known in
      let r = reading b rates min_rps known fn in
      let (action, count) = decide r fn.scale_down_count in
      let others = Others st.functions obj.name in
      let st' = (update_function b obj rates min_rps preferred st).0 in
      let put : PutsFull others b.new_uuid obj.name st.drawn st.functions st' =
        subst (λ name. PutsFull others b.new_uuid name st.drawn st.functions st')
          (or_new-name b obj.name st.functions o.named)
          (act-PutsFull b answers once others action obj (record fn { scale_down_count = count })
            (request_of b obj rates min_rps preferred st) (predicted_rate r) st sorts few h
            (IsOwned-OwnedBeside o obj.name) (IsFull-FullBeside b.new_uuid p obj.name) e) in
      subst (IsFull b.new_uuid st'.drawn st'.site.heap) (sym put.result)
        (IsFull-put b.new_uuid p obj.name put.fn st'.site.heap st'.drawn put.more put.full)

  module _ (itv : ℤ) (elapsed : ℤ → ℤ → F) where
    -- A call that does not fail.
    abbrev pub HasNoError : {st st' : State W C F T} {k : ℕ} → Step b itv elapsed st k st' → Type 0
    HasNoError (updates obj rates min_rps preferred st) =
        (update_function b obj rates min_rps preferred st).1 ≡ true
    HasNoError (deletes name st) = Unit
    HasNoError (releases release item st range) = Unit
    HasNoError (greets g now st range) = Unit
    HasNoError (beats name now st) = Unit
    HasNoError (loses name st) = Unit
    HasNoError (checks now st) = Unit

    -- A run in which no call fails.
    abbrev pub HaveNoError :
        {st st' : State W C F T} {k : ℕ} → Steps b itv elapsed st k st' → Type 0
    HaveNoError (begin st) = Unit
    HaveNoError (then_step st st' st'' k k' run step) = HaveNoError run × HasNoError step

    Step-IsFull :
        (st : State W C F T) (k : ℕ) (st' : State W C F T) (step : Step b itv elapsed st k st')
        → HasNoError step
        → 1 + k < 2 ^ 63
        → IsHealthy k st.site
        → IsOwned st.site.heap st.functions
        → RecordsItems b.new_uuid st
        → RecordsItems b.new_uuid st'
    Step-IsFull st k st' (updates obj rates min_rps preferred s) e few h o p =
        update_function-IsFull obj rates min_rps preferred s few h o p e
    Step-IsFull st k st' (deletes name s) e few h o p =
        handle_deleted-IsFull b.new_uuid name s h.gpus o p
    Step-IsFull st k st' (releases release item s range) e few h o p = p
    Step-IsFull st k st' (greets g now s range) e few h o p = p
    Step-IsFull st k st' (beats name now s) e few h o p = p
    Step-IsFull st k st' (loses name s) e few h o p = p
    Step-IsFull st k st' (checks now s) e few h o p = p

    -- Whatever calls the goroutines of the controller make, in whatever order, if no call of
    -- UpdateFunction returns an error, then every item on a GPU is recorded by a configuration
    -- of a known function, and every configuration has replicas, at least as many as items, and
    -- a UUID that was drawn. This holds if it does at the start and each configuration there
    -- holds its items, shares none and is stored once under its own name, as when no GPU and no
    -- function is known, if no UUID is drawn twice, sort.Slice permutes its list, every packer
    -- is valid with ids for what the calls may take together, a new packer has that many as
    -- well, and every share of SMs that a node offers, at the start or in an answer, is an
    -- int64.
    pub Steps-IsFull :
        (st : State W C F T) (k : ℕ) (st' : State W C F T) (run : Steps b itv elapsed st k st')
        → HaveNoError run
        → 1 + k < 2 ^ 63
        → IsHealthy k st.site
        → IsOwned st.site.heap st.functions
        → IsFull b.new_uuid st.drawn st.site.heap st.functions
        → IsFull b.new_uuid st'.drawn st'.site.heap st'.functions
    Steps-IsFull st k st' (begin s) e few h o p = p
    Steps-IsFull st k st' (then_step s s' s'' k1 k2 run step) (before, e) few h o p =
        let weaker = IsHealthy-weaken (k1 + k2) k1 s.site (omega arith) h in
        Step-IsFull s' k2 s'' step e (omega arith)
          (Steps-IsHealthy b answers itv elapsed k2 s k1 s' run (omega arith)
            (IsHealthy-weaken (k1 + k2) (k2 + k1) s.site (omega arith) h))
          (Steps-IsOwned b answers sorts itv elapsed s k1 s' run (omega arith) weaker o)
          (Steps-IsFull s k1 s' run before (omega arith) weaker o p)
