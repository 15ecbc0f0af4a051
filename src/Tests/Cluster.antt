-- ===== src/Tests/Cluster.antt =====
-- The theorem on `AddFastPods` of internal/controller on a concrete cluster: the pods are pairs of a name and
-- a number of replicas, and the cluster a list of pods.
use fa_st_gshare_autoscaler.Pods.Added.{add_fast_pods-create}
use fa_st_gshare_autoscaler.Pods.{Answer, Cluster, add_fast_pods, done, not_found, treat}
use fa_st_gshare_autoscaler.Common.{
  nat_eq, List, [], insert, lookup, none, refl, some, true, ℕ, ◌++◌, ◌∷◌, ◌≡◌,
}

abbrev has_pod : List (ℕ × ℕ) → ℕ → Answer (ℕ × ℕ)
has_pod w name = elim (lookup name w) [ none ↦ not_found | some n ↦ done (name, n) ]

abbrev pods_list : Cluster (List (ℕ × ℕ)) ℕ (ℕ × ℕ)
pods_list = record {
  key = λ p. p.0;
  with_replicas = λ p q. (q.0, p.1);
  get = λ w name. (w, has_pod w name);
  create = λ w p. (p ∷ w, true);
  update = λ w p. (insert p.0 p.1 w, true);
}

-- The pod 1 exists, 2 does not, and 3 is never looked at.
add_fast_pods-create_example :
    add_fast_pods pods_list (((1, 5) ∷ []) ++ (2, 1) ∷ (3, 1) ∷ []) ((1, 1) ∷ [])
    ≡ ((2, 1) ∷ (1, 5) ∷ [], true)
unfolding treat insert lookup
add_fast_pods-create_example =
    add_fast_pods-create pods_list ((1, 5) ∷ []) ((3, 1) ∷ []) (2, 1) ((1, 1) ∷ []) ((1, 5) ∷ [])
      ((1, 5) ∷ []) ((2, 1) ∷ (1, 5) ∷ []) ((1, 5) ∷ [], refl, refl) refl refl
