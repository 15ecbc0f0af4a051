-- ===== src/Pods.antt =====
-- internal/controller/fastpod_add.go: the FaSTPods of a function are brought to the cluster. The client of
-- the Kubernetes API is a parameter with a state of its own.
use fa_st_gshare_autoscaler.Common.{Bool, List, [], false, if◌then◌else◌, true, ◌∷◌}
pub mod Added
pub mod Spec

-- What a call of the client answers: its result, a failure "not found", or another error.
pub data Answer (A : Type 0) : Type 0 where
  done : A → Answer A
  not_found failed : Answer A

-- The client's calls, on a pod `P` found by its key: `Get`, `Create` and `Update`. `key` is the pod's namespaced
-- name, and `with_replicas p q` is a copy of `q` that has the replicas of `p`.
pub record Cluster (W K P : Type 0) : Type 0 where
  pub key : P → K
  pub with_replicas : P → P → P
  pub get : W → K → W × Answer P
  pub create : W → P → W × Bool
  pub update : W → P → W × Bool

-- How the treatment of one pod ends: the loop goes on, the function returns nil, or an error.
pub data Ending : Type 0 where
  next returned error : Ending

module _ {W K P : Type 0} (k : Cluster W K P) where
  abbrev pub after_create : W × Bool → W × Ending
  after_create (w, b) = (w, if b then returned else error)

  abbrev pub after_update : W × Bool → W × Ending
  after_update (w, b) = (w, if b then next else error)

  -- The body of the loop, given the answer of `Get`.
  unfoldable pub treat : P → W × Answer P → W × Ending
  treat p (w, done existed) = after_update (k.update w (k.with_replicas p existed))
  treat p (w, not_found) = after_create (k.create w p)
  treat p (w, failed) = (w, error)

  unfoldable pub follow : W × Ending → (W → W × Bool) → W × Bool
  follow (w, next) rest = rest w
  follow (w, returned) rest = (w, true)
  follow (w, error) rest = (w, false)

  -- `AddFastPods`; the flag is `false` if it returns an error.
  unfoldable pub add_fast_pods : List P → W → W × Bool
  unfolding treat follow
  add_fast_pods [] w = (w, true)
  add_fast_pods (p ∷ ps) w = follow (treat p (k.get w (k.key p))) (add_fast_pods ps)
