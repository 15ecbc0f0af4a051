-- ===== src/Update/Entry.antt =====
-- What `UpdateFunction` of internal/controller/fastfunc_reconcile.go does to `fastFuncMap`.
use fa_st_gshare_autoscaler.Update.{
  Accounts, Backend, act, adopt, apply_reduction, apply_reductions, apply_removal, apply_removals,
  deploy, fast_pods, grow_function, reading, scale_down_fast_func, settle, shrink_function,
  update_function, wanted,
}
use fa_st_gshare_autoscaler.Functions.{FastFunc, State, current_configs, or_new, with_heap}
use fa_st_gshare_autoscaler.Pods.Spec.{cluster_of}
use fa_st_gshare_autoscaler.Pods.{add_fast_pods}
use fa_st_gshare_autoscaler.Api.{FastFuncObject}
use fa_st_gshare_autoscaler.Scale.{
  Action, ReduceInfo, decide, predicted_rate, scale_down, scale_up, stay,
}
use fa_st_gshare_autoscaler.Prepare.{prepare_configs_requirements}
use fa_st_gshare_autoscaler.Select.Pick.{get_configs}
use fa_st_gshare_autoscaler.Finder.{ResourceRequest}
use fa_st_gshare_autoscaler.Gpu.{AllocationTypes, Config}
use fa_st_gshare_autoscaler.Shelf.Invariant.{found}
use mathlib.Core.Option.{some-injective}
use fa_st_gshare_autoscaler.Common.{
  int_eq, string_eq, Bool, Eq-cases, Float, GoMap, List, Option, Option-cases, String, [], ap,
  false, get_elem?, if_cases, inl, inr, insert, length, lookup, lookup-insert_ne,
  lookup-insert_self, ltb, none, refl, some, subst, sym, true, ℤ, ◌∙◌, ◌∷◌, ◌≡◌, ◌≢◌,
}

module _ {F T : Type 0} where
  -- Each function is stored under its own name.
  abbrev pub AreNamed : GoMap String (FastFunc F T) → Type 0
  AreNamed functions = (k : String) (fn : FastFunc F T) → lookup k functions ≡ some fn → fn.name ≡ k

  -- A function is put under its name, with that counter, and nothing else changes.
  pub record Puts (name : String) (count : ℤ) (before after : GoMap String (FastFunc F T))
      : Type 0 where
    pub fn : FastFunc F T
    pub own : fn.name ≡ name
    pub counted : fn.scale_down_count ≡ count
    pub result : after ≡ insert name fn before

  module _ {name : String} {count : ℤ} {before after : GoMap String (FastFunc F T)}
      (p : Puts name count before after) where
    pub Puts-others : (j : String) → name ≢ j → lookup j after ≡ lookup j before
    Puts-others j ne = ap (lookup j) p.result ∙ lookup-insert_ne name j p.fn before ne

    pub Puts-self : lookup name after ≡ some p.fn
    Puts-self = ap (lookup name) p.result ∙ lookup-insert_self name p.fn before

    pub Puts-AreNamed : AreNamed before → AreNamed after
    Puts-AreNamed h k fn e = elim (Eq-cases name k) [
      | inl hit ↦
          ap (λ (x : FastFunc F T). x.name)
            (some-injective _ _ (sym e ∙ subst (λ y. lookup y after ≡ some p.fn) hit Puts-self))
          ∙ p.own
          ∙ hit
      | inr miss ↦ h k fn (sym (Puts-others k miss) ∙ e)
    ]

module _ {F T : Type 0} ⦃f : Float F⦄ where
  -- The fields of a function that its scaling keeps.
  abbrev pub Keeps : FastFunc F T → FastFunc F T → Type 0
  Keeps fn fn' = (fn'.name ≡ fn.name) × (fn'.scale_down_count ≡ fn.scale_down_count)

  Keeps-trans : (x y z : FastFunc F T) → Keeps x y → Keeps y z → Keeps x z
  Keeps-trans x y z p q = (q.0 ∙ p.0, q.1 ∙ p.1)

  pub adopt-Keeps : (cs : List (Config F T)) (fn : FastFunc F T) → Keeps fn (adopt cs fn)
  unfolding adopt
  adopt-Keeps [] fn = (refl, refl)
  adopt-Keeps (c ∷ cs) fn = adopt-Keeps cs _

  apply_reduction-Keeps :
      (info : ReduceInfo F T) (acc : Accounts F T) → Keeps acc.fn (apply_reduction info acc).fn
  unfolding apply_reduction
  apply_reduction-Keeps info acc =
      elim (Option-cases (get_elem? acc.heap info.config.associated_gpu)) [
        | inl e ↦ rw (e, apply_reduction) (refl, refl)
        | inr (g, e) ↦ rw (e, apply_reduction) (refl, refl)
      ]

  pub apply_reductions-Keeps :
      (infos : List (ReduceInfo F T)) (acc : Accounts F T)
      → Keeps acc.fn (apply_reductions infos acc).fn
  unfolding apply_reductions
  apply_reductions-Keeps [] acc = (refl, refl)
  apply_reductions-Keeps (info ∷ infos) acc =
      let acc' = apply_reduction info acc in
      Keeps-trans acc.fn acc'.fn (apply_reductions infos acc').fn (apply_reduction-Keeps info acc)
        (apply_reductions-Keeps infos acc')

  apply_removal-Keeps :
      (c : Config F T) (acc : Accounts F T) → Keeps acc.fn (apply_removal c acc).fn
  unfolding apply_removal
  apply_removal-Keeps c acc = elim (Option-cases (get_elem? acc.heap c.associated_gpu)) [
    | inl e ↦ rw (e, apply_removal) (refl, refl)
    | inr (g, e) ↦ rw (e, apply_removal) (refl, refl)
  ]

  pub apply_removals-Keeps :
      (cs : List (Config F T)) (acc : Accounts F T) → Keeps acc.fn (apply_removals cs acc).fn
  unfolding apply_removals
  apply_removals-Keeps [] acc = (refl, refl)
  apply_removals-Keeps (c ∷ cs) acc =
      let acc' = apply_removal c acc in
      Keeps-trans acc.fn acc'.fn (apply_removals cs acc').fn (apply_removal-Keeps c acc)
        (apply_removals-Keeps cs acc')

  -- A function is put that keeps the name and the counter of another.
  Keeps-Puts :
      (fn fn' : FastFunc F T) (functions : GoMap String (FastFunc F T))
      → Keeps fn fn'
      → Puts fn.name fn.scale_down_count functions (insert fn'.name fn' functions)
  Keeps-Puts fn fn' functions (own, counted) = record {
    fn = fn';
    own = own;
    counted = counted;
    result = ap (λ k. insert k fn' functions) own;
  }

module _ {W C S F T : Type 0} ⦃f : Float F⦄ (b : Backend W C S F T) where
  shrink_function-Puts :
      (fn : FastFunc F T) (new_rps : F) (st : State W C F T)
      → Puts fn.name fn.scale_down_count st.functions (shrink_function b fn new_rps st).functions
  unfolding shrink_function
  shrink_function-Puts fn new_rps st =
      let (w', reduced, removed) = scale_down_fast_func b fn new_rps st.site.world in
      let start : Accounts F T = record {
        fn = fn;
        heap = st.site.heap;
        scheduled = st.scheduled;
      } in
      let acc = apply_reductions reduced start in
      Keeps-Puts fn (apply_removals removed acc).fn st.functions (
        Keeps-trans fn acc.fn (apply_removals removed acc).fn (apply_reductions-Keeps reduced start)
          (apply_removals-Keeps removed acc))

module _ {W C S F T : Type 0} ⦃f : Float F⦄ ⦃a : AllocationTypes T⦄ (b : Backend W C S F T) where
  settle-Puts :
      (fn : FastFunc F T) (cs : List (Config F T)) (st : State W C F T) (r : W × Bool)
      → Puts fn.name fn.scale_down_count st.functions (settle b fn cs st r).0.functions
  unfolding settle
  settle-Puts fn cs st (w, true) = Keeps-Puts fn (adopt cs fn) st.functions (adopt-Keeps cs fn)
  settle-Puts fn cs st (w, false) = Keeps-Puts fn fn st.functions (refl, refl)

  deploy-Puts :
      (obj : FastFuncObject S) (fn : FastFunc F T) (req : ResourceRequest F T)
      (o : Option (List (Config F T))) (st : State W C F T)
      → Puts fn.name fn.scale_down_count st.functions (deploy b obj fn req o st).0.functions
  unfolding deploy
  deploy-Puts obj fn req none st = Keeps-Puts fn fn st.functions (refl, refl)
  deploy-Puts obj fn req (some cs) st =
      let (site', prepared) = prepare_configs_requirements b.request req cs st.site in
      settle-Puts fn prepared (record st { site = site' })
        (add_fast_pods (cluster_of b.kube) (fast_pods b obj prepared) site'.world)

  act-Puts :
      (action : Action) (obj : FastFuncObject S) (fn : FastFunc F T) (req : ResourceRequest F T)
      (predicted : F) (st : State W C F T)
      → Puts fn.name fn.scale_down_count st.functions
          (act b action obj fn req predicted st).0.functions
  unfolding act grow_function
  act-Puts scale_up obj fn req predicted st =
      let (heap', found, drawn) =
        get_configs b.sort_gpus b.new_uuid b.store st.site.nodes req st.site.heap st.drawn in
      deploy-Puts obj fn req found (record (with_heap heap' st) { drawn = drawn })
  act-Puts scale_down obj fn req predicted st =
      if_cases
        (λ (r : State W C F T × Bool). Puts fn.name fn.scale_down_count st.functions r.0.functions)
        (ltb 1 (length (current_configs fn))) _ _ (shrink_function-Puts b fn predicted st)
        (Keeps-Puts fn fn st.functions (refl, refl))
  act-Puts stay obj fn req predicted st = Keeps-Puts fn fn st.functions (refl, refl)

  pub or_new-name :
      (name : String) (functions : GoMap String (FastFunc F T))
      → AreNamed functions
      → (or_new name (lookup name functions)).name ≡ name
  or_new-name name functions h = elim (Option-cases (lookup name functions)) [
    | inl e ↦ rw e refl
    | inr (fn, e) ↦ rw e (h name fn e)
  ]

  -- The counter of low loads that `UpdateFunction` leaves.
  abbrev pub next_count : FastFuncObject S → F × F × F → F → State W C F T → ℤ
  next_count obj rates min_rps st =
      let known = lookup obj.name st.functions in
      let fn = or_new obj.name known in
      (decide (reading b rates min_rps known fn) fn.scale_down_count).1

  -- UpdateFunction, in every branch, stores an entry under the name of its function, with the
  -- counter of low loads that the decision leaves, and changes no other entry, if each function
  -- is stored under its own name before.
  pub update_function-Puts :
      (obj : FastFuncObject S) (rates : F × F × F) (min_rps : F) (preferred : String)
      (st : State W C F T)
      → AreNamed st.functions
      → Puts obj.name
          (next_count obj rates min_rps st)
          st.functions
          (update_function b obj rates min_rps preferred st).0.functions
  unfolding update_function
  update_function-Puts obj rates min_rps preferred st h =
      let known = lookup obj.name st.functions in
      let fn = or_new obj.name known in
      let r = reading b rates min_rps known fn in
      let (action, count) = decide r fn.scale_down_count in
      subst
        (λ name.
          Puts name count st.functions
            (update_function b obj rates min_rps preferred st).0.functions)
        (or_new-name obj.name st.functions h)
        (act-Puts action obj (record fn { scale_down_count = count }) (wanted b obj r preferred)
          (predicted_rate r) st)
