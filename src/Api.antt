-- ===== src/Api.antt =====
-- api/v1/fastfunc_types.go: the object FaSTFunc as the controller reads it, over the type of a Kubernetes
-- pod's specification. A nil map of annotations reads as an empty one.
use fa_st_gshare_autoscaler.Common.{GoMap, String, ℤ}

-- `FaSTFuncSpec`
pub record FastFuncSpec (S : Type 0) : Type 0 where
  pub pod_spec : S
  pub min_qps : ℤ
  pub model_name : String
  pub allocation_type : String

-- `FaSTFunc`, with the fields of its metadata that the controller reads.
pub record FastFuncObject (S : Type 0) : Type 0 where
  pub name : String
  pub namespace : String
  pub annotations : GoMap String String
  pub spec : FastFuncSpec S
