-- ===== src/Controller/Owned.antt =====
-- Over every run of the calls of internal/controller, no item on a GPU is recorded by two configurations.
use fa_st_gshare_autoscaler.Controller.Healthy.{Steps-IsHealthy}
use fa_st_gshare_autoscaler.Controller.Owners.{
  IsOwned, IsOwned-OwnedBeside, IsOwned-forget, IsOwned-put, Others,
}
use fa_st_gshare_autoscaler.Deletion.Freed.{free_configs-IsHeld}
use fa_st_gshare_autoscaler.Update.Owned.{PutsOwned, act-PutsOwned}
use fa_st_gshare_autoscaler.Update.Entry.{or_new-name}
use fa_st_gshare_autoscaler.Update.Once.{Permutes}
use fa_st_gshare_autoscaler.Update.Listed.{values-All}
use fa_st_gshare_autoscaler.Gpu.Owned.{Apart}
use fa_st_gshare_autoscaler.Gpu.Valid.{AreSound}
use fa_st_gshare_autoscaler.Prepare.Sound.{AnswersInRange, IsHealthy, IsHealthy-weaken}
use fa_st_gshare_autoscaler.Controller.{
  Step, Steps, beats, begin, checks, deletes, greets, loses, releases, then_step, updates,
}
use fa_st_gshare_autoscaler.Deletion.{handle_deleted}
use fa_st_gshare_autoscaler.Update.{Backend, demand, reading, request_of, update_function}
use fa_st_gshare_autoscaler.Functions.{State, current_configs, or_new}
use fa_st_gshare_autoscaler.Api.{FastFuncObject}
use fa_st_gshare_autoscaler.Scale.{decide, predicted_rate}
use fa_st_gshare_autoscaler.Gpu.{AllocationTypes}
use fa_st_gshare_autoscaler.Common.{
  int_eq, string_eq, All-map, AreDistinct-lookup, Float, Option-cases, String, arith, inl, inr,
  lookup, some, subst, sym, ℕ, ℤ, ◌+◌, ◌<◌, ◌^◌, ◌≡◌,
}

module _ {W C F T : Type 0} ⦃f : Float F⦄ ⦃a : AllocationTypes T⦄ where
  -- The state owns the items that its functions record.
  abbrev pub OwnsItems : State W C F T → Type 0
  OwnsItems st = IsOwned st.site.heap st.functions

  -- A state in which a function is put, with the items it owns beside the others.
  IsOwned-PutsOwned :
      (name : String) (st st' : State W C F T)
      → OwnsItems st
      → PutsOwned (Others st.functions name) name st.functions st'
      → OwnsItems st'
  IsOwned-PutsOwned name st st' o p =
      subst (IsOwned st'.site.heap) (sym p.result)
        (IsOwned-put o name p.fn p.own st'.site.heap p.owned)

  handle_deleted-IsOwned :
      (name : String) (st : State W C F T)
      → AreSound 0 st.site.heap
      → OwnsItems st
      → OwnsItems (handle_deleted name st)
  unfolding handle_deleted current_configs
  handle_deleted-IsOwned name st sound o = elim (Option-cases (lookup name st.functions)) [
    | inl e ↦ rw (e, handle_deleted) o
    | inr (fn, e) ↦
        rw (e, handle_deleted)
          (IsOwned-forget o name _ (λ d (k, u, ne, own).
            free_configs-IsHeld (current_configs fn) (st.site.heap, st.scheduled) d sound
              (values-All (λ c. Apart c d) fn.configs
                (All-map (λ x. lookup x.0 fn.configs ≡ some x.1) (λ x. Apart x.1 d) fn.configs
                  (λ x p. o.apart name x.0 x.1 k u d (fn, e, p) own (λ same. absurd (ne same)))
                  (AreDistinct-lookup fn.configs (o.distinct name fn e))))
              (o.held k u d own)))
  ]

module _ {W C S F T : Type 0} ⦃f : Float F⦄ ⦃a : AllocationTypes T⦄ (b : Backend W C S F T)
    (answers : AnswersInRange b.request) (sorts : Permutes b.sort_configs) where
  pub update_function-IsOwned :
      (obj : FastFuncObject S) (rates : F × F × F) (min_rps : F) (preferred : String)
      (st : State W C F T)
      → 1 + demand b (request_of b obj rates min_rps preferred st) st < 2 ^ 63
      → IsHealthy (demand b (request_of b obj rates min_rps preferred st) st) st.site
      → OwnsItems st
      → OwnsItems (update_function b obj rates min_rps preferred st).0
  unfolding update_function
  update_function-IsOwned obj rates min_rps preferred st few h o =
      let known = lookup obj.name st.functions in
      let fn = or_new obj.name known in
      let r = reading b rates min_rps known fn in
      let (action, count) = decide r fn.scale_down_count in
      let others = Others st.functions obj.name in
      IsOwned-PutsOwned obj.name st (update_function b obj rates min_rps preferred st).0 o (
        subst
          (λ name.
            PutsOwned others name st.functions (update_function b obj rates min_rps preferred st).0)
          (or_new-name b obj.name st.functions o.named)
          (act-PutsOwned b others answers action obj (record fn { scale_down_count = count })
            (request_of b obj rates min_rps preferred st) (predicted_rate r) st sorts few h
            (IsOwned-OwnedBeside o obj.name)))

  module _ (itv : ℤ) (elapsed : ℤ → ℤ → F) where
    pub Step-IsOwned :
        (st : State W C F T) (k : ℕ) (st' : State W C F T)
        → Step b itv elapsed st k st'
        → 1 + k < 2 ^ 63
        → IsHealthy k st.site
        → OwnsItems st
        → OwnsItems st'
    Step-IsOwned st k st' (updates obj rates min_rps preferred s) few h o =
        update_function-IsOwned obj rates min_rps preferred s few h o
    Step-IsOwned st k st' (deletes name s) few h o = handle_deleted-IsOwned name s h.gpus o
    Step-IsOwned st k st' (releases release item s range) few h o = o
    Step-IsOwned st k st' (greets g now s range) few h o = o
    Step-IsOwned st k st' (beats name now s) few h o = o
    Step-IsOwned st k st' (loses name s) few h o = o
    Step-IsOwned st k st' (checks now s) few h o = o

    -- Whatever calls the goroutines of the controller make, in whatever order, each item that a
    -- configuration records stays on its GPU, no two configurations, of one function or of two,
    -- record the same item of a GPU, and functions and configurations stay stored once and under
    -- their own names, if this holds at the start (as it does when no function is known),
    -- sort.Slice permutes its list, every packer is valid with ids for what the calls may take
    -- together, a new packer has that many as well, and every share of SMs that a node offers,
    -- at the start or in an answer, is an int64.
    pub Steps-IsOwned :
        (st : State W C F T) (k : ℕ) (st' : State W C F T)
        → Steps b itv elapsed st k st'
        → 1 + k < 2 ^ 63
        → IsHealthy k st.site
        → IsOwned st.site.heap st.functions
        → IsOwned st'.site.heap st'.functions
    Steps-IsOwned st k st' (begin s) few h o = o
    Steps-IsOwned st k st' (then_step s s' s'' k1 k2 run step) few h o =
        Step-IsOwned s' k2 s'' step (omega arith)
          (Steps-IsHealthy b answers itv elapsed k2 s k1 s' run (omega arith)
            (IsHealthy-weaken (k1 + k2) (k2 + k1) s.site (omega arith) h))
          (Steps-IsOwned s k1 s' run (omega arith)
            (IsHealthy-weaken (k1 + k2) k1 s.site (omega arith) h) o)
