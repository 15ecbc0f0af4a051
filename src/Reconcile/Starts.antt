-- ===== src/Reconcile/Starts.antt =====
-- How often `Reconcile` of internal/controller/fastfunc_controller.go starts its goroutines.
use fa_st_gshare_autoscaler.Reconcile.{
  Found, Reconciler, get_error, gone, persistent_loop, present, reconcile, reconcile_all,
  release_worker, start,
}
use fa_st_gshare_autoscaler.Common.{
  string_eq, Bool, Float, List, String, [], arith, false, if◌then◌else◌, true, ◌∷◌, ◌≡◌,
}

-- Whether a request is for a function that is there.
abbrev pub any_present : List (String × Found) → Bool
any_present [] = false
any_present ((name, present) ∷ rest) = true
any_present ((name, gone) ∷ rest) = any_present rest
any_present ((name, get_error) ∷ rest) = any_present rest

module _ {W C F T : Type 0} ⦃f : Float F⦄ where
  -- A reconciler that has started both goroutines, or none.
  abbrev pub HasStarted : Bool → Reconciler W C F T → Type 0
  HasStarted b r =
      (r.queue_made ≡ b)
      × (r.worker_started ≡ b)
      × (r.once_done ≡ b)
      × (r.started ≡ (if b then persistent_loop ∷ release_worker ∷ [] else []))

  running :
      (requests : List (String × Found)) (r : Reconciler W C F T)
      → HasStarted true r
      → HasStarted true (reconcile_all requests r)
  unfolding reconcile_all start
  running [] r h = h
  running ((name, present) ∷ rest) r h = running rest (start r) (ground arith)
  running ((name, gone) ∷ rest) r h = running rest (reconcile name gone r).0 h
  running ((name, get_error) ∷ rest) r h = running rest r h

  -- Whatever requests come to a reconciler that has started nothing, in whatever order, the
  -- release worker and the persistent loop are each started exactly once if any of the requests
  -- is for a function that is there, and not at all otherwise.
  pub reconcile_all-HasStarted :
      (requests : List (String × Found)) (r : Reconciler W C F T)
      → HasStarted false r
      → HasStarted (any_present requests) (reconcile_all requests r)
  unfolding reconcile_all start
  reconcile_all-HasStarted [] r h = h
  reconcile_all-HasStarted ((name, present) ∷ rest) r h = running rest (start r) (ground arith)
  reconcile_all-HasStarted ((name, gone) ∷ rest) r h =
      reconcile_all-HasStarted rest (reconcile name gone r).0 h
  reconcile_all-HasStarted ((name, get_error) ∷ rest) r h = reconcile_all-HasStarted rest r h
