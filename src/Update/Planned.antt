-- ===== src/Update/Planned.antt =====
-- The configurations that `scaleDownFaSTFunc` of internal/controller/fastfunc_reconcile.go reduces and removes are
-- configurations of the function.
use fa_st_gshare_autoscaler.Update.Released.{reduced_then}
use fa_st_gshare_autoscaler.Scale.Reduction.{verdict-cases}
use fa_st_gshare_autoscaler.Update.{
  Backend, pod_key, resize, resize_all, retire, retire_all, scale_down_fast_func,
}
use fa_st_gshare_autoscaler.Functions.{FastFunc, current_configs}
use fa_st_gshare_autoscaler.Pods.Spec.{KubeClient, Printer}
use fa_st_gshare_autoscaler.Scale.{ReduceInfo, judge, plan, reduce_to, scale_down_plan, shrink}
use fa_st_gshare_autoscaler.Gpu.{Config}
use fa_st_gshare_autoscaler.Common.{
  int_eq, string_eq, All, Float, List, String, [], arith, if_cases, inl, inr, subst, sym, ◌∷◌, ◌≡◌,
}

module _ {F T : Type 0} (P : Config F T → Type 0) where
  -- A property of the configurations reduced and of those removed.
  abbrev pub OfAll : List (ReduceInfo F T) → List (Config F T) → Type 0
  OfAll infos cs = All (λ i. P i.config) infos × All P cs

  pub reduced_then-All :
      (infos : List (ReduceInfo F T)) (cs : List (Config F T))
      → OfAll infos cs
      → All P (reduced_then infos cs)
  reduced_then-All [] cs h = h.1
  reduced_then-All (info ∷ infos) cs ((p, ps), q) = (p, reduced_then-All infos cs (ps, q))

  module _ ⦃f : Float F⦄ where
    pub config-judge :
        (new_rps current : F) (c : Config F T) (info : ReduceInfo F T)
        → judge new_rps current c ≡ shrink info
        → info.config ≡ c
    unfolding judge reduce_to
    config-judge new_rps current c info e = ground arith

    pub plan-OfAll :
        (new_rps : F) (cs : List (Config F T)) (current : F)
        → All P cs
        → OfAll (plan new_rps cs current).0 (plan new_rps cs current).1
    unfolding plan
    plan-OfAll new_rps [] current h = (tt, tt)
    plan-OfAll new_rps (c ∷ cs) current (p, h) = elim (verdict-cases (judge new_rps current c)) [
      | inl e ↦ rw (e, plan) (tt, tt)
      | inr (inl e) ↦
          let rest = plan-OfAll new_rps cs (f.fsub current c.allocated_rps) h in
          rw (e, plan) (rest.0, (p, rest.1))
      | inr (inr (inl e)) ↦ rw (e, plan) (plan-OfAll new_rps cs current h)
      | inr (inr (inr (info, e))) ↦
          let rest = plan-OfAll new_rps cs (f.fsub current info.reduced_delta) h in
          rw (e, plan) ((subst P (sym (config-judge new_rps current c info e)) p, rest.0), rest.1)
    ]

    module _ {W S : Type 0} (kube : KubeClient W S) where
      retire_all-All :
          (name : String) (cs : List (Config F T)) (w : W)
          → All P cs
          → All P (retire_all kube name cs w).1
      unfolding retire_all
      retire_all-All name [] w h = tt
      retire_all-All name (c ∷ cs) w (p, h) =
          let r = retire kube (kube.get w (pod_key name c)) in
          let rest = retire_all-All name cs r.0 h in if_cases (All P) r.1 _ _ (p, rest) rest

      pub resize_all-All :
          (print : Printer F) (name : String) (infos : List (ReduceInfo F T)) (w : W)
          → All (λ i. P i.config) infos
          → All (λ i. P i.config) (resize_all kube print name infos w).1
      unfolding resize_all
      resize_all-All print name [] w h = tt
      resize_all-All print name (info ∷ infos) w (p, h) =
          let r = resize kube print info.new_replica (kube.get w (pod_key name info.config)) in
          let rest = resize_all-All print name infos r.0 h in
          if_cases (All (λ i. P i.config)) r.1 _ _ (p, rest) rest

-- A sorted list has no element that the list sorted does not have.
abbrev pub KeepsElements : {A : Type 0} → (List A → List A) → Type 1
KeepsElements {A = A} sort = (P : A → Type 0) (xs : List A) → All P xs → All P (sort xs)

module _ {W C S F T : Type 0} ⦃f : Float F⦄ (b : Backend W C S F T)
    (sorts : KeepsElements b.sort_configs) where
  pub scale_down-OfAll :
      (P : Config F T → Type 0) (fn : FastFunc F T) (new_rps : F) (w : W)
      → All P (current_configs fn)
      → OfAll P (scale_down_fast_func b fn new_rps w).1 (scale_down_fast_func b fn new_rps w).2
  unfolding scale_down_fast_func scale_down_plan
  scale_down-OfAll P fn new_rps w h =
      let (updates, removals, end) = scale_down_plan b.sort_configs (current_configs fn) new_rps in
      let (w', removed) = retire_all b.kube fn.name removals w in
      let planned = plan-OfAll P new_rps (b.sort_configs (current_configs fn)) _ (sorts P _ h) in
      (
        resize_all-All P b.kube b.print fn.name updates w' planned.0,
        retire_all-All P b.kube fn.name removals w planned.1,
      )
