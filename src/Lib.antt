-- ===== src/Lib.antt =====
-- FaST-GShare-Autoscaler: a Kubernetes controller that scales inference functions over shared GPUs.
-- A function (FaSTFunc) is served by configurations: a share of the multiprocessors, a quota of time and a
-- number of replicas on one GPU. From the measured rates the controller decides to scale; to scale up it
-- gathers the GPUs of the nodes that are ready, sorts them, searches each for its most efficient
-- configuration by a store of measurements, and allocates the replicas on the GPU's packer, a rectangle
-- packing by shelves. To scale down it takes replicas or configurations away. A worker gives empty
-- virtual GPUs back to their nodes.
--
-- The files, with the code that they model:
--   Shelf            internal/shelf/shelf.go: NewShelf, Insert, CanFit, Remove, IsEmpty,
--                    MaxInsertableItems, Reset
--   Profiling        internal/profiling/profiling_retrieve.go: NewRPSStore, Set, Get, GetQPS
--   Gpu              internal/controller/gpu_manager.go and model_memory.go, every method of GPUInfo
--   Nodes            internal/controller/node_manager.go: the handshake, heartbeats and
--                    liveness; Nodes/Connection is on the whole of handleNodeConnection,
--                    Nodes/Listing has ListNodes, Nodes/Acceptor StartTCPAcceptor
--   Finder           internal/controller/config_finder.go: getConfig
--   Select           internal/controller/config_finder.go and gpu_sort.go: extractGPUSFromNode,
--                    FilterGPUs and the order of the GPUs; Select/Pick has GetConfigs
--   Prepare          internal/controller/config_finder.go: PrepareConfigsRequirements
--   Scale            internal/controller/fastfunc_scale.go and fastfunc_reconcile.go: the decision of
--                    UpdateFunction and the plan of scaleDownFaSTFunc; Scale/Capacity has the
--                    laws of exact arithmetic that Scale/Left uses
--   Release          internal/controller/fastfunc_controller.go: the worker of the release queue
--   Names            the names of pods and of release items, and the queries
--   Api              api/v1/fastfunc_types.go: the object FaSTFunc
--   Pods             internal/controller/fastpod_add.go: AddFastPods; Pods/Spec has
--                    ConvertConfigs2FaSTPods of config_to_fastpod.go
--   Functions        internal/controller/fastfunc_reconcile.go: FastFunc and fastFuncMap, with the state
--                    of the controller; the handler of /current-configs of fastfunc_controller.go
--   Update           internal/controller/fastfunc_scale.go: UpdateFunction, with scaleDownFaSTFunc and
--                    the bookkeeping
--   Deletion         internal/controller/fastfunc_controller.go: handleDeletedFaSTFunc
--   Rounds           internal/controller/fastfunc_reconcile.go: the queries and persistentReconcile
--   Reconcile        internal/controller/fastfunc_controller.go: Reconcile
--   Controller       the calls of all goroutines as steps on one state; Controller/Owners and
--                    Controller/Recorders relate the items on the GPUs to the records of fastFuncMap
--   Process          cmd/main.go: the flags and the stages of the start, with SetupWithManager
--                    and the listers of fastfunc_controller.go
--   Common           integers, lists, maps, results and floats that the parts share
--   Tests            concrete inputs
-- A function of Go has its name in the model in snake case, such as insert_rect for Insert and get_config for
-- getConfig; a method that changes its receiver returns the new state beside its result.
--
-- Go's int and int64 are whole numbers that wrap around at 64 bits (Common/Int). float64 is a parameter with
-- the operations that the program calls; a theorem names the laws of IEEE 754 that it needs, and
-- Common/Fixed is an arithmetic in hundredths for the tests. Only Scale/Left reasons in exact arithmetic, in
-- which nothing is rounded, as the rates of float64 are not always. A Go map is a list of entries without double
-- keys; an iteration over a map follows that list, so a theorem on any list is one on any order of
-- iteration. GPUs are shared by pointers and lie in a heap of addresses. A call that holds the mutex is
-- one step. The library FaST-GShare (gRPC, allocation types, virtual GPUs), the Kubernetes client, the CSV reader,
-- strconv, sort.Slice, the UUIDs and the clock are parameters.
--
-- The quota loop of getConfig runs for at most eleven rounds, as it climbs by a tenth from 0.1 to 1.0. The
-- release worker runs on fuel, twelve turns for an item that is new. The accept loop of the node manager has no
-- end of its own, so a call is taken as far as a given number of rounds.
--
-- The goroutines of the controller share its state. Controller takes each call as one step, and a run as any
-- sequence of steps; what happens when two calls interleave inside (the code holds no lock over a whole
-- call) is not modelled. The nodes' servers and the Kubernetes API have a state of their own, which only
-- their calls change.
--
-- Not modelled: the registration and the generated copies of the API types, the sockets behind the accept loop,
-- the server of /current-configs, tickers and timers.

pub mod Common
pub mod Shelf
pub mod Profiling
pub mod Gpu
pub mod Nodes
pub mod Finder
pub mod Select
pub mod Prepare
pub mod Scale
pub mod Names
pub mod Release
pub mod Pods
pub mod Api
pub mod Functions
pub mod Update
pub mod Deletion
pub mod Rounds
pub mod Controller
pub mod Reconcile
pub mod Process
pub mod Tests
