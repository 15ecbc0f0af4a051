-- ===== src/Pods/Added.antt =====
-- What `AddFastPods` of internal/controller/fastpod_add.go does with the later pods.
use fa_st_gshare_autoscaler.Pods.{
  Cluster, add_fast_pods, after_create, follow, next, not_found, returned, treat,
}
use fa_st_gshare_autoscaler.Common.{List, [], ap, true, ◌++◌, ◌∙◌, ◌∷◌, ◌≡◌}

module _ {W K P : Type 0} (k : Cluster W K P) where
  -- The pods before `p` all exist and are updated, which takes the cluster from `w` to `w'`.
  abbrev pub Updated : List P → W → W → Type 0
  Updated [] w w' = w ≡ w'
  Updated (p ∷ ps) w w' = (v : W) × (treat k p (k.get w (k.key p)) ≡ (v, next)) × Updated ps v w'

  treat-create :
      (p : P) (v u : W) → k.create v p ≡ (u, true) → treat k p (v, not_found) ≡ (u, returned)
  unfolding treat
  treat-create p v u c = ap (after_create k) c

  -- If the pods before one that is not found exist and are updated, and that one is created,
  -- then AddFastPods returns nil at once: the pods after it change neither the cluster nor the
  -- result.
  pub add_fast_pods-create :
      (before after : List P) (p : P) (w w' v u : W)
      → Updated before w w'
      → k.get w' (k.key p) ≡ (v, not_found)
      → k.create v p ≡ (u, true)
      → add_fast_pods k (before ++ p ∷ after) w ≡ (u, true)
  unfolding add_fast_pods
  add_fast_pods-create [] after p w w' v u same g c =
      ap (λ r. follow k r (add_fast_pods k after))
        (ap (treat k p) (ap (λ y. k.get y (k.key p)) same ∙ g) ∙ treat-create p v u c)
  add_fast_pods-create (x ∷ before) after p w w' v u (m, step, more) g c =
      rw step (add_fast_pods-create before after p m w' v u more g c)
