-- ===== src/Reconcile.antt =====
-- internal/controller/fastfunc_controller.go: `Reconcile`, which starts the controller's two goroutines and
-- cleans up after functions that are deleted.
use fa_st_gshare_autoscaler.Deletion.{handle_deleted}
use fa_st_gshare_autoscaler.Functions.{State}
use fa_st_gshare_autoscaler.Shelf.Invariant.{found}
use fa_st_gshare_autoscaler.Common.{
  string_eq, int_eq, Bool, Float, List, String, [], false, if◌then◌else◌, true, ◌∷◌,
}
pub mod Starts

-- What `Get` answers for the function of a request.
pub data Found : Type 0 where
  present gone get_error : Found

-- The goroutines that `Reconcile` starts.
pub data Routine : Type 0 where
  release_worker persistent_loop : Routine

-- The state with the fields `gpuReleaseQueue`, `gpuWorkerStarted` and the `sync.Once`, and the goroutines
-- started so far, the latest first.
pub record Reconciler (W C F T : Type 0) : Type 0 where
  pub state : State W C F T
  pub queue_made : Bool
  pub worker_started : Bool
  pub once_done : Bool
  pub started : List Routine

module _ {W C F T : Type 0} where
  -- The end of `Reconcile`, for a function that is there.
  unfoldable pub start : Reconciler W C F T → Reconciler W C F T
  start r =
      let worker = if r.worker_started then r.started else release_worker ∷ r.started in
      record r {
        queue_made = true;
        worker_started = true;
        once_done = true;
        started = if r.once_done then worker else persistent_loop ∷ worker;
      }

module _ {W C F T : Type 0} ⦃f : Float F⦄ where
  -- `Reconcile` of a request for that name; the flag is `false` for an error.
  unfoldable pub reconcile : String → Found → Reconciler W C F T → Reconciler W C F T × Bool
  unfolding handle_deleted start
  reconcile name present r = (start r, true)
  reconcile name gone r = (record r { state = handle_deleted name r.state }, true)
  reconcile name get_error r = (r, false)

  -- A sequence of requests, with the answers of `Get`.
  unfoldable pub reconcile_all : List (String × Found) → Reconciler W C F T → Reconciler W C F T
  unfolding reconcile
  reconcile_all [] r = r
  reconcile_all ((name, found) ∷ rest) r = reconcile_all rest (reconcile name found r).0
