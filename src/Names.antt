-- ===== src/Names.antt =====
-- The names that internal/controller builds from others: of a FaSTPod (config_to_fastpod.go) and of an
-- item of the release queue (fastfunc_controller.go).
use Prim.Native.String.{String, ◌++◌}

-- `getFastPodName`
abbrev pub get_fast_pod_name : String → String → String
get_fast_pod_name fast_func_name config_uuid = fast_func_name ++ "-" ++ config_uuid

-- `Key`, given what the method `String` of the function's namespaced name returns.
abbrev pub release_key : String → String → String
release_key fast_func_ref gpu_uuid = fast_func_ref ++ "/" ++ gpu_uuid

-- The queries of `getRPSMetrics`, for a window such as "10s".
abbrev pub rate_query : String → String → String → String
rate_query name namespace window =
    "rate(gateway_function_invocation_total{function_name='" ++ name ++ "." ++ namespace ++ "'}["
    ++ window ++ "])"
