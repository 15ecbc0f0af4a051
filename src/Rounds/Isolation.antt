-- ===== src/Rounds/Isolation.antt =====
-- What a tick of `persistentReconcile` (internal/controller/fastfunc_reconcile.go) does to each function.
use fa_st_gshare_autoscaler.Update.Entry.{
  AreNamed, Puts-AreNamed, Puts-others, update_function-Puts,
}
use fa_st_gshare_autoscaler.Rounds.{
  Sources, check_function, check_functions, get_rps_metrics, rps_to_maintain, updated,
}
use fa_st_gshare_autoscaler.Update.{Backend}
use fa_st_gshare_autoscaler.Functions.{FastFunc, State, annotation, with_world}
use fa_st_gshare_autoscaler.Api.{FastFuncObject}
use fa_st_gshare_autoscaler.Gpu.{AllocationTypes}
use fa_st_gshare_autoscaler.Common.{
  string_eq, All, Float, GoMap, List, Option, Option-cases, String, [], inl, inr, lookup, map, none,
  refl, some, ℤ, ◌∙◌, ◌∷◌, ◌≡◌, ◌≢◌,
}

module _ {W C S F T : Type 0} ⦃f : Float F⦄ ⦃a : AllocationTypes T⦄ (b : Backend W C S F T)
    (src : Sources W S F) where
  -- Names stay with their entries, and the functions that are not in a list keep theirs.
  pub record Leaves (names : List String) (before after : GoMap String (FastFunc F T))
      : Type 0 where
    pub named : AreNamed after
    pub others : (j : String) → All (λ name. name ≢ j) names → lookup j after ≡ lookup j before

  updated-Leaves :
      (obj : FastFuncObject S) (rps : ℤ) (st : State W C F T) (r : W × Option (F × F × F))
      → AreNamed st.functions
      → Leaves (obj.name ∷ []) st.functions (updated b src obj rps st r).functions
  updated-Leaves obj rps st (w, none) h = record { named = h; others = λ j ne. refl }
  updated-Leaves obj rps st (w, some rates) h =
      let p =
        update_function-Puts b obj rates (f.of_int rps) (annotation "gpu-preferred" obj.annotations)
          (with_world w st) h in
      record { named = Puts-AreNamed p h; others = λ j ne. Puts-others p j ne.0 }

  check_function-Leaves :
      (obj : FastFuncObject S) (now : ℤ) (st : State W C F T)
      → AreNamed st.functions
      → Leaves (obj.name ∷ []) st.functions (check_function b src obj now st).functions
  unfolding check_function
  check_function-Leaves obj now st h = elim (Option-cases (rps_to_maintain src.atoi obj)) [
    | inl e ↦ rw (e, check_function) (record { named = h; others = λ j ne. refl })
    | inr (rps, e) ↦
        rw (e, check_function)
          (updated-Leaves obj rps st
            (get_rps_metrics src.query obj.name obj.namespace now st.site.world) h)
  ]

  abbrev pub names : List (FastFuncObject S) → List String
  names objs = map (λ o. o.name) objs

  -- The loop of persistentReconcile over any list of functions, whatever the cluster, the nodes
  -- and Prometheus answer, leaves the entry of every function that is not in the list, and keeps
  -- each function stored under its own name, if that held before.
  pub check_functions-Leaves :
      (clock : FastFuncObject S → ℤ) (objs : List (FastFuncObject S)) (st : State W C F T)
      → AreNamed st.functions
      → Leaves (names objs) st.functions (check_functions b src clock objs st).functions
  unfolding check_functions
  check_functions-Leaves clock [] st h = record { named = h; others = λ j ne. refl }
  check_functions-Leaves clock (obj ∷ objs) st h =
      let st' = check_function b src obj (clock obj) st in
      let first = check_function-Leaves obj (clock obj) st h in
      let rest = check_functions-Leaves clock objs st' first.named in
      record { named = rest.named; others = λ j ne. rest.others j ne.1 ∙ first.others j (ne.0, tt) }
