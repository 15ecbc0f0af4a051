-- ===== src/Update/Grown.antt =====
-- A scale-up of `UpdateFunction` (internal/controller/fastfunc_scale.go) that succeeds records every item that it puts
-- on a GPU.
use fa_st_gshare_autoscaler.Update.Complete.{PutsFull, PutsFull-put, shrink_function-PutsFull}
use fa_st_gshare_autoscaler.Update.Full.{FullBeside, FullBeside-grow, adopt-FullBeside}
use fa_st_gshare_autoscaler.Update.Entry.{adopt-Keeps}
use fa_st_gshare_autoscaler.Update.Once.{Permutes}
use fa_st_gshare_autoscaler.Update.Beside.{OwnedBeside, OwnedBeside-grow}
use fa_st_gshare_autoscaler.Gpu.Valid.{AreSound-weaken}
use fa_st_gshare_autoscaler.Select.Pick.Found.{get_configs-FoundDrawn}
use fa_st_gshare_autoscaler.Select.Pick.Drawn.{DrawnIn, DrawnIn-wider}
use fa_st_gshare_autoscaler.Select.Pick.Fresh.{HasNoItems, get_configs-HasNoItems}
use fa_st_gshare_autoscaler.Select.Empty.{get_configs-AddsNone}
use fa_st_gshare_autoscaler.Select.Untouched.{get_configs-KeepsAll}
use fa_st_gshare_autoscaler.Select.Sound.{get_configs-AreSound}
use fa_st_gshare_autoscaler.Prepare.Recorded.{prepare_configs-AllPrepared}
use fa_st_gshare_autoscaler.Prepare.Sound.{AnswersInRange, IsHealthy}
use fa_st_gshare_autoscaler.Update.{
  Backend, act, adopt, demand, demanded, deploy, fast_pods, grow_function, settle,
}
use fa_st_gshare_autoscaler.Functions.{FastFunc, State, current_configs, with_heap, with_world}
use fa_st_gshare_autoscaler.Pods.Spec.{cluster_of}
use fa_st_gshare_autoscaler.Pods.{add_fast_pods}
use fa_st_gshare_autoscaler.Api.{FastFuncObject}
use fa_st_gshare_autoscaler.Scale.{Action, scale_down, scale_up, stay}
use fa_st_gshare_autoscaler.Prepare.{prepare_configs_requirements}
use fa_st_gshare_autoscaler.Select.Pick.{get_configs}
use fa_st_gshare_autoscaler.Finder.{ResourceRequest}
use fa_st_gshare_autoscaler.Gpu.{AllocationTypes, Config, GpuInfo}
use fa_st_gshare_autoscaler.Shelf.Invariant.{found}
use fa_st_gshare_autoscaler.Common.{
  int_eq, nat_eq, string_eq, All, All-map, Bool, Float, GoMap, List, MayBe, Option, Option-cases,
  Pairs, String, arith, false, if_cases, inl, inr, length, lookup, ltb, none, refl, some, sym, true,
  ℕ, ◌+◌, ◌<◌, ◌^◌, ◌∙◌, ◌≡◌, ◌≢◌, ◌≤◌,
}

module _ {W C S F T : Type 0} ⦃f : Float F⦄ ⦃a : AllocationTypes T⦄ (b : Backend W C S F T)
    (answers : AnswersInRange b.request) (once : (m k : ℕ) → b.new_uuid m ≡ b.new_uuid k → m ≡ k)
    (others : Config F T → Type 0) where
  -- A UUID drawn after those of a function is none of theirs.
  new-unknown :
      (low high : ℕ) (heap heap' : List (GpuInfo F T)) (m : GoMap String (Config F T))
      (c : Config F T)
      → OwnedBeside others heap m
      → FullBeside others b.new_uuid low heap' m
      → DrawnIn b.new_uuid low high c
      → lookup c.uuid m ≡ none
  new-unknown low high heap heap' m c o full (k, from, to, drew) =
      elim (Option-cases (lookup c.uuid m)) [
        | inl n ↦ n
        | inr (d, e) ↦
            let (k', from', to', drew') = full.named c.uuid d e in
            let again = once k k' (sym drew ∙ sym (o.keyed c.uuid d e) ∙ drew') in
            absurd (omega (arith, again, from, to'))
      ]

  settle-PutsFull :
      (low : ℕ) (fn : FastFunc F T) (cs : List (Config F T)) (st : State W C F T) (r : W × Bool)
      → low ≤ st.drawn
      → FullBeside others b.new_uuid st.drawn st.site.heap (adopt cs fn).configs
      → (settle b fn cs st r).1 ≡ true
      → PutsFull others b.new_uuid fn.name low st.functions (settle b fn cs st r).0
  unfolding settle
  settle-PutsFull low fn cs st (w, true) le full e =
      PutsFull-put others b.new_uuid fn.name low st.functions (adopt cs fn) (with_world w st) le
        (adopt-Keeps cs fn).0 refl full
  settle-PutsFull low fn cs st (w, false) le full e = ground arith

  -- The configurations that `GetConfigs` found, with the UUIDs drawn since `low`.
  abbrev AreNew : ℕ → ℕ → Option (List (Config F T)) → Type 0
  AreNew low high found =
      MayBe
        (λ cs.
          All HasNoItems cs
          × All (DrawnIn b.new_uuid low high) cs
          × Pairs (λ c d. c.uuid ≢ d.uuid) cs)
        found

  deploy-PutsFull :
      (low : ℕ) (obj : FastFuncObject S) (fn : FastFunc F T) (req : ResourceRequest F T)
      (found : Option (List (Config F T))) (st : State W C F T)
      → AreNew low st.drawn found
      → low ≤ st.drawn
      → 1 + demanded b found < 2 ^ 63
      → IsHealthy (demanded b found) st.site
      → OwnedBeside others st.site.heap fn.configs
      → FullBeside others b.new_uuid low st.site.heap fn.configs
      → (deploy b obj fn req found st).1 ≡ true
      → PutsFull others b.new_uuid fn.name low st.functions (deploy b obj fn req found st).0
  unfolding deploy
  deploy-PutsFull low obj fn req none st new le few h o full e =
      PutsFull-put others b.new_uuid fn.name low st.functions fn st le refl refl (
        FullBeside-grow others b.new_uuid low st.drawn st.site.heap st.site.heap fn.configs
          (λ i id p. p) le full)
  deploy-PutsFull low obj fn req (some cs) st (fresh, named, differ) le few h o full e =
      let heap = st.site.heap in
      let (site', prepared) = prepare_configs_requirements b.request req cs st.site in
      let all = prepare_configs-AllPrepared b.request req answers cs st.site fresh few h in
      settle-PutsFull low fn prepared (record st { site = site' })
        (add_fast_pods (cluster_of b.kube) (fast_pods b obj prepared) site'.world) le
        (adopt-FullBeside others b.new_uuid st.drawn heap site'.heap prepared fn all.full
          all.allocated
          (all.named (λ u. (k : ℕ) × (0 ≤ k) × (k < st.drawn) × (u ≡ b.new_uuid k))
            (All-map (DrawnIn b.new_uuid low st.drawn) (DrawnIn b.new_uuid 0 st.drawn) cs
              (λ c. DrawnIn-wider b.new_uuid low st.drawn 0 st.drawn c (omega arith) (omega arith))
              named))
          (all.differ differ)
          (all.named (λ u. lookup u fn.configs ≡ none)
            (All-map (DrawnIn b.new_uuid low st.drawn) (λ c. lookup c.uuid fn.configs ≡ none) cs
              (λ c. new-unknown low st.drawn heap heap fn.configs c o full) named))
          (FullBeside-grow others b.new_uuid low st.drawn heap heap fn.configs (λ i id p. p) le
            full))
        e

  grow_function-PutsFull :
      (obj : FastFuncObject S) (fn : FastFunc F T) (req : ResourceRequest F T) (st : State W C F T)
      → 1 + demand b req st < 2 ^ 63
      → IsHealthy (demand b req st) st.site
      → OwnedBeside others st.site.heap fn.configs
      → FullBeside others b.new_uuid st.drawn st.site.heap fn.configs
      → (grow_function b obj fn req st).1 ≡ true
      → PutsFull others b.new_uuid fn.name st.drawn st.functions (grow_function b obj fn req st).0
  unfolding grow_function
  grow_function-PutsFull obj fn req st few h o full e =
      let nodes = st.site.nodes in
      let heap = st.site.heap in
      let (heap', found, drawn') =
        get_configs b.sort_gpus b.new_uuid b.store nodes req heap st.drawn in
      let (drew, le) =
        get_configs-FoundDrawn b.new_uuid b.store once b.sort_gpus nodes req heap st.drawn in
      let fresh = get_configs-HasNoItems b.new_uuid b.store req b.sort_gpus nodes heap st.drawn in
      deploy-PutsFull st.drawn obj fn req found (record (with_heap heap' st) { drawn = drawn' })
        (both st.drawn drawn' found fresh drew) le few
        (record {
          gpus =
              get_configs-AreSound (demand b req st) few b.sort_gpus b.new_uuid b.store nodes req
                heap st.drawn h.offers h.gpus;
          offers = h.offers;
        })
        (OwnedBeside-grow others heap heap' fn.configs
          (get_configs-KeepsAll b.sort_gpus b.new_uuid b.store nodes req heap st.drawn) o)
        (FullBeside-grow others b.new_uuid st.drawn st.drawn heap heap' fn.configs
          (get_configs-AddsNone b.sort_gpus b.new_uuid b.store nodes req heap st.drawn)
          (omega arith) full)
        e
    where
      both :
          (low high : ℕ) (x : Option (List (Config F T)))
          → ((cs : List (Config F T)) → x ≡ some cs → All HasNoItems cs)
          → MayBe (λ cs. All (DrawnIn b.new_uuid low high) cs × Pairs (λ c d. c.uuid ≢ d.uuid) cs) x
          → AreNew low high x
      both low high none p q = tt
      both low high (some cs) p (q, r) = (p cs refl, q, r)

  pub act-PutsFull :
      (action : Action) (obj : FastFuncObject S) (fn : FastFunc F T) (req : ResourceRequest F T)
      (predicted : F) (st : State W C F T)
      → Permutes b.sort_configs
      → 1 + demand b req st < 2 ^ 63
      → IsHealthy (demand b req st) st.site
      → OwnedBeside others st.site.heap fn.configs
      → FullBeside others b.new_uuid st.drawn st.site.heap fn.configs
      → (act b action obj fn req predicted st).1 ≡ true
      → PutsFull others b.new_uuid fn.name st.drawn st.functions
          (act b action obj fn req predicted st).0
  unfolding act
  act-PutsFull scale_up obj fn req predicted st sorts few h o full e =
      grow_function-PutsFull obj fn req st few h o full e
  act-PutsFull scale_down obj fn req predicted st sorts few h o full e =
      if_cases
        (λ (r : State W C F T × Bool). PutsFull others b.new_uuid fn.name st.drawn st.functions r.0)
        (ltb 1 (length (current_configs fn))) _ _
        (shrink_function-PutsFull b sorts others fn predicted st
          (AreSound-weaken (demand b req st) 0 st.site.heap (omega arith) h.gpus) o full)
        (PutsFull-put others b.new_uuid fn.name st.drawn st.functions fn st (omega arith) refl refl
          full)
  act-PutsFull stay obj fn req predicted st sorts few h o full e =
      PutsFull-put others b.new_uuid fn.name st.drawn st.functions fn st (omega arith) refl refl
        full
