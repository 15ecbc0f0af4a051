-- ===== src/Controller.antt =====
-- internal/controller as a whole: the goroutines of the controller share the nodes, the GPUs and the
-- functions. A run is a sequence of the calls modelled in the other files, in any order.
use fa_st_gshare_autoscaler.Release.{Releaser, WorkItem, process_item}
use fa_st_gshare_autoscaler.Select.Sound.{AreInRange}
use fa_st_gshare_autoscaler.Deletion.{handle_deleted}
use fa_st_gshare_autoscaler.Update.{Backend, demand, request_of, update_function}
use fa_st_gshare_autoscaler.Functions.{State}
use fa_st_gshare_autoscaler.Api.{FastFuncObject}
use fa_st_gshare_autoscaler.Select.{VirtualGpu}
use fa_st_gshare_autoscaler.Nodes.{
  Handshake, NodeManager, check_node_liveness, lose_node, shake_hands, update_heartbeat,
}
use fa_st_gshare_autoscaler.Gpu.{AllocationTypes}
use fa_st_gshare_autoscaler.Common.{int_eq, string_eq, Float, List, String, some, ℕ, ℤ, ◌+◌, ◌≡◌}
pub mod Healthy
pub mod Owners
pub mod Owned
pub mod Recorders
pub mod Full

module _ {W C F T : Type 0} where
  -- The state as the node manager and the release worker see it.
  abbrev pub manager_of : ℤ → State W C F T → NodeManager C VirtualGpu
  manager_of itv st = record { nodes = st.site.nodes; check_ticker_itv = itv }

  abbrev pub with_manager : NodeManager C VirtualGpu → State W C F T → State W C F T
  with_manager nm st = record st { site = record st.site { nodes = nm.nodes } }

-- The virtual GPUs that a node's server offers after a release, or on connecting, have shares of SMs that are int64s.
abbrev pub ReleasesInRange : {C : Type 0} → Releaser C VirtualGpu → Type 0
ReleasesInRange {C = C} release =
    (c : C) (uuid : String) (vs : List VirtualGpu) → release c uuid ≡ some vs → AreInRange vs

module _ {W C S F T : Type 0} ⦃f : Float F⦄ ⦃a : AllocationTypes T⦄ (b : Backend W C S F T)
    (itv : ℤ) (elapsed : ℤ → ℤ → F) where
  -- One call, with the number of item ids that it may take of a packer: `UpdateFunction`, the clean-up
  -- after a deleted function, the release of a GPU, and those of the node manager: a handshake, a
  -- heartbeat, a lost connection and the check of the nodes.
  pub data Step : State W C F T → ℕ → State W C F T → Type 0 where
    updates :
        (obj : FastFuncObject S) (rates : F × F × F) (min_rps : F) (preferred : String)
        (st : State W C F T)
        → Step st
            (demand b (request_of b obj rates min_rps preferred st) st)
            (update_function b obj rates min_rps preferred st).0
    deletes : (name : String) (st : State W C F T) → Step st 0 (handle_deleted name st)
    releases :
        (release : Releaser C VirtualGpu) (item : WorkItem) (st : State W C F T)
        → ReleasesInRange release
        → Step st 0 (with_manager (process_item release item (manager_of itv st)).0 st)
    greets :
        (h : Handshake C VirtualGpu) (now : ℤ) (st : State W C F T)
        → ((vs : List VirtualGpu) → h.gpus ≡ some vs → AreInRange vs)
        → Step st 0 (with_manager (shake_hands h now (manager_of itv st)).0 st)
    beats :
        (name : String) (now : ℤ) (st : State W C F T)
        → Step st 0 (with_manager (update_heartbeat name now (manager_of itv st)).0 st)
    loses :
        (name : String) (st : State W C F T)
        → Step st 0 (with_manager (lose_node name (manager_of itv st)) st)
    checks :
        (now : ℤ) (st : State W C F T)
        → Step st 0 (with_manager (check_node_liveness elapsed now (manager_of itv st)) st)

  -- A run of calls, with the number of ids that they may take together.
  pub data Steps : State W C F T → ℕ → State W C F T → Type 0 where
    begin : (st : State W C F T) → Steps st 0 st
    then_step :
        (st st' st'' : State W C F T) (k k' : ℕ)
        → Steps st k st'
        → Step st' k' st''
        → Steps st (k + k') st''
