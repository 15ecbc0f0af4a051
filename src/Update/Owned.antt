-- ===== src/Update/Owned.antt =====
-- Whose items are on the GPUs after a call of `UpdateFunction` (internal/controller/fastfunc_scale.go).
use fa_st_gshare_autoscaler.Update.Entry.{adopt-Keeps, apply_reductions-Keeps, apply_removals-Keeps}
use fa_st_gshare_autoscaler.Update.Listed.{configs-Differ, configs-IsPending}
use fa_st_gshare_autoscaler.Update.Once.{Permutes, Permutes-KeepsElements, scale_down-ReduceOnce}
use fa_st_gshare_autoscaler.Update.Planned.{scale_down-OfAll}
use fa_st_gshare_autoscaler.Update.Shrunk.{
  IsOld, IsPending, Shrunk-OwnedBeside, Shrunk-start, accounts-Shrunk,
}
use fa_st_gshare_autoscaler.Update.Beside.{
  IsFarFrom, OwnedBeside, OwnedBeside-grow, adopt-OwnedBeside,
}
use fa_st_gshare_autoscaler.Gpu.Owned.{Apart, IsHeld}
use fa_st_gshare_autoscaler.Gpu.Valid.{AreSound, AreSound-weaken}
use fa_st_gshare_autoscaler.Select.Pick.Fresh.{HasNoItems, get_configs-HasNoItems}
use fa_st_gshare_autoscaler.Select.Untouched.{get_configs-KeepsAll}
use fa_st_gshare_autoscaler.Select.Sound.{get_configs-AreSound}
use fa_st_gshare_autoscaler.Prepare.Apart.{Holds-Apart, Holds-IsHeld, prepare_configs-Apart}
use fa_st_gshare_autoscaler.Prepare.Held.{prepare_configs-Holds}
use fa_st_gshare_autoscaler.Prepare.Holding.{Holds}
use fa_st_gshare_autoscaler.Prepare.Untouched.{prepare_configs-KeepsAll}
use fa_st_gshare_autoscaler.Prepare.Sound.{AnswersInRange, IsHealthy}
use fa_st_gshare_autoscaler.Update.{
  Accounts, Backend, act, adopt, apply_reductions, apply_removals, demand, demanded, deploy,
  fast_pods, grow_function, scale_down_fast_func, settle, shrink_function,
}
use fa_st_gshare_autoscaler.Functions.{
  FastFunc, State, current_configs, put_function, with_heap, with_world,
}
use fa_st_gshare_autoscaler.Pods.Spec.{cluster_of}
use fa_st_gshare_autoscaler.Pods.{add_fast_pods}
use fa_st_gshare_autoscaler.Api.{FastFuncObject}
use fa_st_gshare_autoscaler.Scale.{Action, scale_down, scale_up, stay}
use fa_st_gshare_autoscaler.Prepare.{prepare_configs_requirements}
use fa_st_gshare_autoscaler.Select.Pick.{get_configs}
use fa_st_gshare_autoscaler.Finder.{ResourceRequest}
use fa_st_gshare_autoscaler.Gpu.{AllocationTypes, Config, GpuInfo}
use fa_st_gshare_autoscaler.Shelf.Invariant.{found}
use fa_st_gshare_autoscaler.Common.{
  int_eq, string_eq, All, All-map, Bool, Float, GoMap, List, Option, Pairs, String, ap, arith,
  false, if_cases, insert, length, ltb, none, refl, some, true, ◌+◌, ◌<◌, ◌^◌, ◌∙◌, ◌≡◌,
}

module _ {W C F T : Type 0} (others : Config F T → Type 0) (name : String)
    (before : GoMap String (FastFunc F T)) where
  -- A function is put under its name, and owns its items beside the others.
  pub record PutsOwned (st : State W C F T) : Type 0 where
    pub fn : FastFunc F T
    pub own : fn.name ≡ name
    pub result : st.functions ≡ insert name fn before
    pub owned : OwnedBeside others st.site.heap fn.configs

  PutsOwned-put :
      (fn : FastFunc F T) (st : State W C F T)
      → fn.name ≡ name
      → st.functions ≡ before
      → OwnedBeside others st.site.heap fn.configs
      → PutsOwned (put_function fn st)
  PutsOwned-put fn st own same owned = record {
    fn = fn;
    own = own;
    result = ap (λ k. insert k fn st.functions) own ∙ ap (insert name fn) same;
    owned = owned;
  }

module _ {W C S F T : Type 0} ⦃f : Float F⦄ (b : Backend W C S F T)
    (sorts : Permutes b.sort_configs) (others : Config F T → Type 0) where
  shrink_function-PutsOwned :
      (fn : FastFunc F T) (new_rps : F) (st : State W C F T)
      → AreSound 0 st.site.heap
      → OwnedBeside others st.site.heap fn.configs
      → PutsOwned others fn.name st.functions (shrink_function b fn new_rps st)
  unfolding shrink_function
  shrink_function-PutsOwned fn new_rps st sound o =
      let (w', reduced, removed) = scale_down_fast_func b fn new_rps st.site.world in
      let start : Accounts F T = record {
        fn = fn;
        heap = st.site.heap;
        scheduled = st.scheduled;
      } in
      let acc = apply_reductions reduced start in
      let end = apply_removals removed acc in
      let P = IsPending fn.configs st.site.heap in
      let chosen =
        scale_down-OfAll b (Permutes-KeepsElements b.sort_configs sorts) P fn new_rps st.site.world
          (configs-IsPending others st.site.heap fn o) in
      let once =
        scale_down-ReduceOnce b sorts fn new_rps st.site.world
          (configs-Differ others st.site.heap fn o) in
      let shrunk =
        accounts-Shrunk others fn.configs o reduced removed start once chosen.0
          (All-map P (IsOld fn.configs) removed (λ c p. p.0) chosen.1) sound
          (Shrunk-start others fn.configs o) in
      PutsOwned-put others fn.name st.functions end.fn
        (record st {
          site = record st.site { world = w'; heap = end.heap };
          scheduled = end.scheduled;
        })
        ((apply_removals-Keeps removed acc).0 ∙ (apply_reductions-Keeps reduced start).0) refl
        (Shrunk-OwnedBeside others fn.configs o end.heap end.fn.configs shrunk)

module _ {W C S F T : Type 0} ⦃f : Float F⦄ ⦃a : AllocationTypes T⦄ (b : Backend W C S F T)
    (others : Config F T → Type 0) where
  settle-PutsOwned :
      (fn : FastFunc F T) (cs : List (Config F T)) (st : State W C F T) (r : W × Bool)
      → All (IsHeld st.site.heap) cs
      → Pairs Apart cs
      → All (IsFarFrom others fn.configs) cs
      → OwnedBeside others st.site.heap fn.configs
      → PutsOwned others fn.name st.functions (settle b fn cs st r).0
  unfolding settle
  settle-PutsOwned fn cs st (w, true) held apart far o =
      PutsOwned-put others fn.name st.functions (adopt cs fn) (with_world w st)
        (adopt-Keeps cs fn).0 refl (adopt-OwnedBeside others st.site.heap cs fn held apart far o)
  settle-PutsOwned fn cs st (w, false) held apart far o =
      PutsOwned-put others fn.name st.functions fn (with_world w st) refl refl o

  -- A configuration allocated after the others shares no item with them.
  Holds-IsFarFrom :
      (heap heap' : List (GpuInfo F T)) (m : GoMap String (Config F T)) (c : Config F T)
      → OwnedBeside others heap m
      → Holds heap heap' c
      → IsFarFrom others m c
  Holds-IsFarFrom heap heap' m c o h = (
    λ u d e. Holds-Apart heap heap' d c (o.held u d e) h,
    λ d p. Holds-Apart heap heap' d c (o.others_held d p) h,
  )

  module _ (answers : AnswersInRange b.request) where
    deploy-PutsOwned :
        (obj : FastFuncObject S) (fn : FastFunc F T) (req : ResourceRequest F T)
        (found : Option (List (Config F T))) (st : State W C F T)
        → ((cs : List (Config F T)) → found ≡ some cs → All HasNoItems cs)
        → 1 + demanded b found < 2 ^ 63
        → IsHealthy (demanded b found) st.site
        → OwnedBeside others st.site.heap fn.configs
        → PutsOwned others fn.name st.functions (deploy b obj fn req found st).0
    unfolding deploy
    deploy-PutsOwned obj fn req none st fresh few h o =
        PutsOwned-put others fn.name st.functions fn st refl refl o
    deploy-PutsOwned obj fn req (some cs) st fresh few h o =
        let heap = st.site.heap in
        let (site', prepared) = prepare_configs_requirements b.request req cs st.site in
        let new = fresh cs refl in
        let holds = prepare_configs-Holds b.request req cs st.site answers new few h in
        settle-PutsOwned fn prepared (record st { site = site' })
          (add_fast_pods (cluster_of b.kube) (fast_pods b obj prepared) site'.world)
          (All-map (Holds heap site'.heap) (IsHeld site'.heap) prepared
            (Holds-IsHeld heap site'.heap) holds)
          (prepare_configs-Apart b.request req cs st.site answers new few h)
          (All-map (Holds heap site'.heap) (IsFarFrom others fn.configs) prepared
            (λ c. Holds-IsFarFrom heap site'.heap fn.configs c o) holds)
          (OwnedBeside-grow others heap site'.heap fn.configs
            (prepare_configs-KeepsAll b.request req cs st.site answers few h) o)

    grow_function-PutsOwned :
        (obj : FastFuncObject S) (fn : FastFunc F T) (req : ResourceRequest F T)
        (st : State W C F T)
        → 1 + demand b req st < 2 ^ 63
        → IsHealthy (demand b req st) st.site
        → OwnedBeside others st.site.heap fn.configs
        → PutsOwned others fn.name st.functions (grow_function b obj fn req st).0
    unfolding grow_function
    grow_function-PutsOwned obj fn req st few h o =
        let nodes = st.site.nodes in
        let heap = st.site.heap in
        let (heap', found, drawn) =
          get_configs b.sort_gpus b.new_uuid b.store nodes req heap st.drawn in
        deploy-PutsOwned obj fn req found (record (with_heap heap' st) { drawn = drawn })
          (get_configs-HasNoItems b.new_uuid b.store req b.sort_gpus nodes heap st.drawn) few
          (record {
            gpus =
                get_configs-AreSound (demand b req st) few b.sort_gpus b.new_uuid b.store nodes req
                  heap st.drawn h.offers h.gpus;
            offers = h.offers;
          })
          (OwnedBeside-grow others heap heap' fn.configs
            (get_configs-KeepsAll b.sort_gpus b.new_uuid b.store nodes req heap st.drawn) o)

    pub act-PutsOwned :
        (action : Action) (obj : FastFuncObject S) (fn : FastFunc F T) (req : ResourceRequest F T)
        (predicted : F) (st : State W C F T)
        → Permutes b.sort_configs
        → 1 + demand b req st < 2 ^ 63
        → IsHealthy (demand b req st) st.site
        → OwnedBeside others st.site.heap fn.configs
        → PutsOwned others fn.name st.functions (act b action obj fn req predicted st).0
    unfolding act
    act-PutsOwned scale_up obj fn req predicted st sorts few h o =
        grow_function-PutsOwned obj fn req st few h o
    act-PutsOwned scale_down obj fn req predicted st sorts few h o =
        if_cases (λ (r : State W C F T × Bool). PutsOwned others fn.name st.functions r.0)
          (ltb 1 (length (current_configs fn))) _ _
          (shrink_function-PutsOwned b sorts others fn predicted st
            (AreSound-weaken (demand b req st) 0 st.site.heap (omega arith) h.gpus) o)
          (PutsOwned-put others fn.name st.functions fn st refl refl o)
    act-PutsOwned stay obj fn req predicted st sorts few h o =
        PutsOwned-put others fn.name st.functions fn st refl refl o
