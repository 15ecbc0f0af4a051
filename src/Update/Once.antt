-- ===== src/Update/Once.antt =====
-- `scaleDownFaSTFunc` of internal/controller/fastfunc_reconcile.go reduces a configuration at most once.
use fa_st_gshare_autoscaler.Scale.Reduction.{verdict-cases}
use fa_st_gshare_autoscaler.Update.Planned.{KeepsElements, config-judge, plan-OfAll, resize_all-All}
use fa_st_gshare_autoscaler.Update.{
  Backend, pod_key, resize, resize_all, retire_all, scale_down_fast_func,
}
use fa_st_gshare_autoscaler.Functions.{FastFunc, current_configs}
use fa_st_gshare_autoscaler.Pods.Spec.{KubeClient, Printer}
use fa_st_gshare_autoscaler.Scale.{ReduceInfo, judge, plan, scale_down_plan}
use fa_st_gshare_autoscaler.Gpu.{Config}
use mathlib.Core.List.{Permᴰ}
use fa_st_gshare_autoscaler.Common.{
  int_eq, string_eq, All, Float, List, Pairs, Perm-All, Perm-Pairs, String, [], if_cases, inl, inr,
  subst, sym, ◌∷◌, ◌≢◌,
}

-- A sorted list is a permutation of the list sorted.
abbrev pub Permutes : {A : Type 0} → (List A → List A) → Type 0
Permutes {A = A} sort = (xs : List A) → Permᴰ (sort xs) xs

pub Permutes-KeepsElements :
    {A : Type 0} (sort : List A → List A) → Permutes sort → KeepsElements sort
Permutes-KeepsElements sort h P xs p = Perm-All P (h xs) p

module _ {F T : Type 0} where
  -- Configurations with different UUIDs.
  abbrev pub Differ : Config F T → Config F T → Type 0
  Differ c d = c.uuid ≢ d.uuid

  abbrev pub ReduceOnce : List (ReduceInfo F T) → Type 0
  ReduceOnce infos = Pairs (λ i j. Differ i.config j.config) infos

  module _ ⦃f : Float F⦄ where
    plan-ReduceOnce :
        (new_rps : F) (cs : List (Config F T)) (current : F)
        → Pairs Differ cs
        → ReduceOnce (plan new_rps cs current).0
    unfolding plan
    plan-ReduceOnce new_rps [] current h = tt
    plan-ReduceOnce new_rps (c ∷ cs) current (p, h) =
        elim (verdict-cases (judge new_rps current c)) [
          | inl e ↦ rw (e, plan) tt
          | inr (inl e) ↦
              rw (e, plan) (plan-ReduceOnce new_rps cs (f.fsub current c.allocated_rps) h)
          | inr (inr (inl e)) ↦ rw (e, plan) (plan-ReduceOnce new_rps cs current h)
          | inr (inr (inr (info, e))) ↦
              let left = f.fsub current info.reduced_delta in
              rw (e, plan)
                (
                  subst (λ d. All (λ i. Differ d i.config) (plan new_rps cs left).0)
                      (sym (config-judge (Differ c) new_rps current c info e))
                      (plan-OfAll (Differ c) new_rps cs left p).0,
                  plan-ReduceOnce new_rps cs left h,
                )
        ]

    resize_all-ReduceOnce :
        {W S : Type 0} (kube : KubeClient W S) (print : Printer F) (name : String)
        (infos : List (ReduceInfo F T)) (w : W)
        → ReduceOnce infos
        → ReduceOnce (resize_all kube print name infos w).1
    unfolding resize_all
    resize_all-ReduceOnce kube print name [] w h = tt
    resize_all-ReduceOnce kube print name (info ∷ infos) w (p, h) =
        let r = resize kube print info.new_replica (kube.get w (pod_key name info.config)) in
        let rest = resize_all-ReduceOnce kube print name infos r.0 h in
        if_cases ReduceOnce r.1 _ _
          (resize_all-All (Differ info.config) kube print name infos r.0 p, rest) rest

module _ {W C S F T : Type 0} ⦃f : Float F⦄ (b : Backend W C S F T)
    (sorts : Permutes b.sort_configs) where
  pub scale_down-ReduceOnce :
      (fn : FastFunc F T) (new_rps : F) (w : W)
      → Pairs Differ (current_configs fn)
      → ReduceOnce (scale_down_fast_func b fn new_rps w).1
  unfolding scale_down_fast_func scale_down_plan
  scale_down-ReduceOnce fn new_rps w h =
      let configs = current_configs fn in
      let (updates, removals, end) = scale_down_plan b.sort_configs configs new_rps in
      let (w', removed) = retire_all b.kube fn.name removals w in
      resize_all-ReduceOnce b.kube b.print fn.name updates w' (
        plan-ReduceOnce new_rps (b.sort_configs configs) _
          (Perm-Pairs Differ (λ c d ne e. ne (sym e)) (sorts configs) h))
