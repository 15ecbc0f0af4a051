-- ===== src/Update/Linked.antt =====
-- The FaSTPods that a scale-up makes (internal/controller/config_to_fastpod.go) lead back to the configurations
-- that it records.
use fa_st_gshare_autoscaler.Update.{adopt}
use fa_st_gshare_autoscaler.Functions.{FastFunc, annotation, config_for_fast_pod}
use fa_st_gshare_autoscaler.Pods.Spec.{
  FastPod, PodKeys, Printer, convert_configs, pod_annotations, pod_of,
}
use fa_st_gshare_autoscaler.Api.{FastFuncObject}
use fa_st_gshare_autoscaler.Gpu.{AllocationTypes, Config}
use mathlib.Core.Option.{some-injective}
use fa_st_gshare_autoscaler.Common.{
  int_eq, string_eq, All, Float, List, Option, Option-cases, String, [], ap, arith, delete, inl,
  inr, insert, lookup, lookup-insert_ne, lookup-insert_self, none, refl, some, subst, ◌∙◌, ◌∷◌, ◌≡◌,
  ◌≢◌,
}

module _ {F T : Type 0} where
  -- No two of the configurations have the same UUID.
  abbrev pub HaveOwnUuids : List (Config F T) → Type 0
  HaveOwnUuids [] = Unit
  HaveOwnUuids (c ∷ cs) = All (λ d. d.uuid ≢ c.uuid) cs × HaveOwnUuids cs

module _ {F T S : Type 0} where
  -- The pods stand for the configurations, one by one.
  abbrev pub AreFor : FastFunc F T → List (Config F T) → List (FastPod S) → Type 0
  AreFor fn [] [] = Unit
  AreFor fn (c ∷ cs) (p ∷ ps) = (config_for_fast_pod fn p ≡ some c) × AreFor fn cs ps
  AreFor fn [] (p ∷ ps) = ⊥
  AreFor fn (c ∷ cs) [] = ⊥

module _ {F T : Type 0} ⦃f : Float F⦄ where
  pub lookup-adopt_ne :
      (k : String) (cs : List (Config F T)) (fn : FastFunc F T)
      → All (λ d. d.uuid ≢ k) cs
      → lookup k (adopt cs fn).configs ≡ lookup k fn.configs
  unfolding adopt
  lookup-adopt_ne k [] fn h = refl
  lookup-adopt_ne k (c ∷ cs) fn (ne, h) =
      lookup-adopt_ne k cs _ h ∙ lookup-insert_ne c.uuid k c fn.configs ne

  pub lookup-adopt :
      (cs : List (Config F T)) (fn : FastFunc F T)
      → HaveOwnUuids cs
      → All (λ c. lookup c.uuid (adopt cs fn).configs ≡ some c) cs
  unfolding adopt
  lookup-adopt [] fn h = tt
  lookup-adopt (c ∷ cs) fn (ne, h) =
      (lookup-adopt_ne c.uuid cs _ ne ∙ lookup-insert_self c.uuid c fn.configs, lookup-adopt cs _ h)

-- The owner reference leaves the annotations of a pod.
abbrev pub KeepsAnnotations : {S : Type 0} → (FastPod S → Option (FastPod S)) → Type 0
KeepsAnnotations {S = S} own = (p p' : FastPod S) → own p ≡ some p' → p'.annotations ≡ p.annotations

module _ {F T S : Type 0} ⦃a : AllocationTypes T⦄ (print : Printer F) (keys : PodKeys)
    (own : FastPod S → Option (FastPod S)) where
  config_uuid_lem :
      (obj : FastFuncObject S) (c : Config F T)
      → annotation "config_uuid" (pod_of print keys obj c).annotations ≡ c.uuid
  unfolding pod_of pod_annotations insert delete lookup
  config_uuid_lem obj c = refl

  convert_configs-AreFor :
      (keeps : KeepsAnnotations own) (fn : FastFunc F T) (obj : FastFuncObject S)
      (cs : List (Config F T)) (ps : List (FastPod S))
      → All (λ c. lookup c.uuid fn.configs ≡ some c) cs
      → convert_configs print keys own obj cs ≡ some ps
      → AreFor fn cs ps
  unfolding convert_configs config_for_fast_pod mathlib.Core.Option.bind
  convert_configs-AreFor keeps fn obj [] ps h e = subst (AreFor fn []) (some-injective _ _ e) tt
  convert_configs-AreFor keeps fn obj (c ∷ cs) ps (here, h) e =
      elim (Option-cases (own (pod_of print keys obj c))) [
        | inl n ↦ absurd (no_pods (rw (n, convert_configs) at e))
        | inr (p, o) ↦ elim (Option-cases (convert_configs print keys own obj cs)) [
          | inl n ↦ absurd (no_pods (rw (o, convert_configs, n) at e))
          | inr (qs, r) ↦
              let uuid =
                ap (annotation "config_uuid") (keeps (pod_of print keys obj c) p o)
                ∙ config_uuid_lem obj c in
              subst (AreFor fn (c ∷ cs)) (some-injective _ _ (rw (o, convert_configs, r) at e)) (
                ap (λ k. lookup k fn.configs) uuid ∙ here,
                convert_configs-AreFor keeps fn obj cs qs h r,
              )
        ]
      ]
    where
      no_pods : none ≡ some ps → ⊥
      no_pods q = ground arith

module _ {F T S : Type 0} ⦃f : Float F⦄ ⦃a : AllocationTypes T⦄ where
  -- If the configurations of a scale-up have different UUIDs and the owner reference leaves the
  -- annotations of a pod, then ConvertConfigs2FaSTPods makes one pod for each, in order, and
  -- GetConfigForFastPod of the function that has recorded them finds for each pod the very
  -- configuration it was made from.
  pub adopt-AreFor :
      (print : Printer F) (keys : PodKeys) (own : FastPod S → Option (FastPod S))
      (fn : FastFunc F T) (obj : FastFuncObject S) (cs : List (Config F T)) (ps : List (FastPod S))
      → KeepsAnnotations own
      → HaveOwnUuids cs
      → convert_configs print keys own obj cs ≡ some ps
      → AreFor (adopt cs fn) cs ps
  adopt-AreFor print keys own fn obj cs ps keeps uuids e =
      convert_configs-AreFor print keys own keeps (adopt cs fn) obj cs ps (lookup-adopt cs fn uuids)
        e
