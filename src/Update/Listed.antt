-- ===== src/Update/Listed.antt =====
-- `CurrentConfigs` of internal/controller/fastfunc_reconcile.go lists the configurations of a function.
use fa_st_gshare_autoscaler.Update.Shrunk.{IsPending}
use fa_st_gshare_autoscaler.Update.Once.{Differ}
use fa_st_gshare_autoscaler.Update.Beside.{OwnedBeside}
use fa_st_gshare_autoscaler.Functions.{FastFunc, current_configs}
use fa_st_gshare_autoscaler.Gpu.{Config, GpuInfo}
use mathlib.Core.Option.{some-injective}
use fa_st_gshare_autoscaler.Common.{
  int_eq, string_eq, All, All-both, All-map, AreDistinct, AreDistinct-lookup, Bool-cases, GoMap,
  List, Pairs, String, [], arith, inl, inr, lookup, map, some, subst, sym, ◌==◌, ◌∙◌, ◌∷◌, ◌≡◌, ◌≢◌,
}

module _ {F T : Type 0} where
  pub values-All :
      (P : Config F T → Type 0) (m : GoMap String (Config F T))
      → All (λ e. P e.1) m
      → All P (map (λ e. e.1) m)
  values-All P [] h = tt
  values-All P (e ∷ m) (p, h) = (p, values-All P m h)

  pub values-lookup :
      (P : Config F T → Type 0) (m : GoMap String (Config F T)) (u : String) (c : Config F T)
      → All P (map (λ e. e.1) m)
      → lookup u m ≡ some c
      → P c
  unfolding lookup
  values-lookup P [] u c h e = ground arith
  values-lookup P ((v, d) ∷ m) u c (p, h) e = elim (Bool-cases (v == u)) [
    | inl hit ↦ subst P (some-injective _ _ (rw hit at e)) p
    | inr miss ↦ values-lookup P m u c h (rw miss at e)
  ]

  values-Differ :
      (m : GoMap String (Config F T))
      → AreDistinct m
      → All (λ e. e.1.uuid ≡ e.0) m
      → Pairs Differ (map (λ e. e.1) m)
  values-Differ [] h k = tt
  values-Differ ((u, c) ∷ m) (p, h) (q, k) = (
    values-All (Differ c) m (
        All-map (λ e. (u ≢ e.0) × (e.1.uuid ≡ e.0)) (λ e. Differ c e.1) m
          (λ e r same. r.0 (sym q ∙ same ∙ r.1))
          (All-both (λ e. u ≢ e.0) (λ e. e.1.uuid ≡ e.0) m p k)),
    values-Differ m h k,
  )

  module _ (others : Config F T → Type 0) (heap : List (GpuInfo F T)) (fn : FastFunc F T)
      (o : OwnedBeside others heap fn.configs) where
    found-keyed : All (λ e. e.1.uuid ≡ e.0) fn.configs
    found-keyed =
        All-map (λ e. lookup e.0 fn.configs ≡ some e.1) (λ e. e.1.uuid ≡ e.0) fn.configs
          (λ e p. o.keyed e.0 e.1 p) (AreDistinct-lookup fn.configs o.distinct)

    pub configs-IsPending : All (IsPending fn.configs heap) (current_configs fn)
    unfolding current_configs
    configs-IsPending = values-All (IsPending fn.configs heap) fn.configs (
        All-map (λ e. lookup e.0 fn.configs ≡ some e.1) (λ e. IsPending fn.configs heap e.1)
          fn.configs
          (λ e p. (
            subst (λ u. lookup u fn.configs ≡ some e.1) (sym (o.keyed e.0 e.1 p)) p,
            o.held e.0 e.1 p,
          ))
          (AreDistinct-lookup fn.configs o.distinct))

    pub configs-Differ : Pairs Differ (current_configs fn)
    unfolding current_configs
    configs-Differ = values-Differ fn.configs o.distinct found-keyed
