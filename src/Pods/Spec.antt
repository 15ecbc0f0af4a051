-- ===== src/Pods/Spec.antt =====
-- internal/controller/config_to_fastpod.go: the FaSTPods of a function's configurations. The names of the
-- annotations, `fmt` and `strconv`, and the owner reference of controller-runtime are parameters.
use mathlib.Core.Option
use fa_st_gshare_autoscaler.Gpu.{AllocationTypes, Config}
use fa_st_gshare_autoscaler.Names.{get_fast_pod_name}
use fa_st_gshare_autoscaler.Api.{FastFuncObject}
use fa_st_gshare_autoscaler.Pods.{Answer, Cluster}
use fa_st_gshare_autoscaler.Common.{
  string_eq, Bool, GoMap, List, Option, String, [], insert, int32, some, ℤ, ◌∷◌,
}

-- What the program writes and reads of a FaSTPod; the selector is always empty.
pub record FastPod (S : Type 0) : Type 0 where
  pub name : String
  pub namespace : String
  pub labels : GoMap String String
  pub annotations : GoMap String String
  pub pod_spec : S
  pub replicas : ℤ

-- The client's calls on FaSTPods, found by namespace and name. The result `false` is an error.
pub record KubeClient (W S : Type 0) : Type 0 where
  pub get : W → String × String → W × Answer (FastPod S)
  pub create : W → FastPod S → W × Bool
  pub update : W → FastPod S → W × Bool
  pub delete_pod : W → FastPod S → W × Bool

-- The client as `AddFastPods` uses it.
abbrev pub cluster_of : {W S : Type 0} → KubeClient W S → Cluster W (String × String) (FastPod S)
cluster_of k = record {
  key = λ p. (p.namespace, p.name);
  with_replicas = λ p q. record q { replicas = p.replicas };
  get = k.get;
  create = k.create;
  update = k.update;
}

-- `fmt.Sprintf("%0.2f", x)` and `strconv.Itoa`
pub record Printer (F : Type 0) : Type 0 where
  pub two_places : F → String
  pub itoa : ℤ → String

-- The constants `fastpodv1.FaSTGShare...` of the library FaST-GShare.
pub record PodKeys : Type 0 where
  pub quota_request : String
  pub quota_limit : String
  pub sm_partition : String
  pub memory : String
  pub node_name : String
  pub vgpu_uuid : String
  pub allocation_type : String

-- The namespace of all FaSTPods
abbrev pub pod_namespace : String
pod_namespace = "fast-gshare-fn"

abbrev pub scale_min : String
scale_min = "com.openfaas.scale.min"

abbrev pub scale_max : String
scale_max = "com.openfaas.scale.max"

module _ {F T : Type 0} (print : Printer F) where
  open print use {itoa}

  unfoldable pub pod_labels : String → Config F T → GoMap String String
  unfolding insert
  pod_labels function_name c =
      insert "fast_function" function_name (
        insert scale_max (itoa c.allocated_replica)
          (insert scale_min (itoa c.allocated_replica) []))

module _ {F T : Type 0} ⦃a : AllocationTypes T⦄ (print : Printer F) (keys : PodKeys) where
  open print use {two_places, itoa}

  unfoldable pub pod_annotations : Config F T → GoMap String String
  unfolding insert
  pod_annotations c = insert "rps" (two_places c.allocated_rps) (
      insert "config_uuid" c.uuid (
        insert keys.allocation_type (a.to_name c.allocation_type) (
          insert keys.vgpu_uuid c.vgpu_uuid (
            insert keys.node_name c.node_name (
              insert keys.memory (itoa c.memory_req) (
                insert keys.sm_partition (itoa c.sm_partition) (
                  insert keys.quota_limit (two_places c.quota_limit)
                    (insert keys.quota_request (two_places c.quota_req) []))))))))

module _ {F T S : Type 0} ⦃a : AllocationTypes T⦄ (print : Printer F) (keys : PodKeys) where
  -- The FaSTPod of one configuration.
  unfoldable pub pod_of : FastFuncObject S → Config F T → FastPod S
  unfolding pod_labels pod_annotations
  pod_of obj c = record {
    name = get_fast_pod_name obj.name c.uuid;
    namespace = pod_namespace;
    labels = pod_labels print obj.name c;
    annotations = pod_annotations print keys c;
    pod_spec = obj.spec.pod_spec;
    replicas = int32 c.allocated_replica;
  }

  -- `ConvertConfigs2FaSTPods`, given what `SetControllerReference` makes of a pod; `none` is an error.
  unfoldable pub convert_configs :
      (FastPod S → Option (FastPod S))
      → FastFuncObject S
      → List (Config F T)
      → Option (List (FastPod S))
  unfolding pod_of
  convert_configs own obj [] = some []
  convert_configs own obj (c ∷ cs) =
      Option.bind (own (pod_of obj c)) λ p. Option.map (λ ps. p ∷ ps) (convert_configs own obj cs)
