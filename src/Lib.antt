-- ===== src/Lib.antt =====
-- Verification of the Karpenter provider for Azure.
--
-- The program is a controller of Kubernetes that launches Azure machines for pending pods. The parts
-- modelled here decide what it launches and what it remembers of the answers of Azure:
--
-- * Unavailable (pkg/cache/unavailableofferings.go): the cache of offerings that could not be launched.
--   `UnavailableOfferings` has the two stores and the sequence number; `mark_…`, `is_unavailable`,
--   `invalidate_capacity_reservation_group`, `flush` and `evict_expired` are its methods, each with the
--   instant of the call as an argument. A view for a capacity reservation group is its scope, a text,
--   and the unreserved view is the empty one. go-cache is the interface `Backend` with the laws
--   `IsBackend`; `Listed` fills it with lists.
-- * Offerings (pkg/utils/zones/zones.go, pkg/providers/instance/offerings): the zone labels, the
--   handlers that turn an error of a launch into markings (`handle_…`), and the three dispatchers that
--   choose the handler (`handle_response_error`, `handle_error_detail`, `handle_begin_create_error`).
--   The helpers of the SDK that classify an error are the parameter `Classifier`.
-- * Quota (pkg/providers/quota/quota.go, pkg/controllers/quota/controller.go,
--   pkg/providers/instance/quota.go): the snapshots of quota usage and the adjustments for what was
--   launched and deleted since. `Provider` is `DefaultProvider`; every method under its lock is one step,
--   and `Call` and `run` put the steps in any order. `Refresh` has `Update`, with the pages that Azure
--   answers and the calls that run meanwhile, and `Reconcile` of the controller; `Lifecycle` has what of an
--   instance counts against a quota.
-- * Machines (pkg/utils/machine/machine.go, pkg/providers/instance/aksmachinepoller,
--   pkg/providers/instance/machinecache): the provisioning state of a machine, the poller as a fold over
--   a list of events, and the cache of machines, whose operations take what the API returns.
-- * OsDisk (pkg/providers/instancetype/osdisk.go): type, size and placement of the OS disk of a VM size.
--   What skewer reads off the size is the record `DiskSku`.
-- * NodeClass (pkg/apis/v1beta1, pkg/operator/options, pkg/providers/imagefamily,
--   pkg/controllers/nodeclass/status/localdns.go and staticvalidation.go): the accessors of a node class
--   that the two reconcilers read, the choice of an image family, local DNS, and static validation. The
--   answers of the cluster and of Azure, and the parser of versions, are parameters.
-- * Allocation (pkg/providers/allocationstrategy and its stages): which offering of which instance type a
--   launch gets. `allocate` is `Allocate`; `availability_compatibility_filter`, `rank_instance_offerings`
--   and `sku_mix_rank` are the stages, and `Strategy` has the answers of the recommendation API and what
--   the shuffles and the unstable sort choose. The compatibility of an offering with the requirements is a
--   parameter, since the core library decides it.
-- * Reservations (pkg/controllers/nodeclass/status/capacityreservationgroup.go): the reconciler of a
--   node class's capacity reservation group. `reconcile` is `Reconcile`, in the steps between its calls;
--   what Azure answers, the parser of resource IDs and the list of instance types are `Environment`, and
--   `World` is what it changes: the status, the unavailable offerings and `unsupportedCloud`.
-- * Collection (pkg/controllers/nodeclaim/garbagecollection): the garbage collection of instances and of
--   network interfaces. `collect_instances` and `collect_nics` are the two `Reconcile`; what they list and
--   what the deletes answer are arguments, and what they delete is their result. The workers run in any
--   order, which the list of the deletes leaves open.
-- * Batching (pkg/utils/batcher/batcher.go): the batcher as steps of its goroutines, `Step`, and their
--   runs, `Run`: the two halves of `Enqueue`, the receives of the loop and of `waitForIdle`, the timers,
--   `executeBatches`, the end of a batch's goroutine, and `drain`. A timer may run out at any time.
-- * Drift (pkg/cloudprovider/drift.go): `is_node_class_drifted` and its checks in their order. What the
--   cluster answers for the node, Azure for the machine and the parser for an image ID are arguments,
--   `DriftAnswers`, and each check's result is a `Verdict`.
-- * Versions (pkg/controllers/nodeclass/status/kubernetesversion.go, with the recently used pairs of
--   images.go beside it): `reconcile`, with the control plane's version, the supported versions and the
--   parser and order of semantic versions as arguments, in `KubernetesVersionReconciler`.
--
-- Prelude has the shared types: texts are lists of character codes, maps are association lists, and ℤ
-- stands over the native ℕ with the wrap-around of int64 (`i64`). A handler of a launch error marks the
-- unavailable offerings through the view of the launch, and the reconciler of a capacity reservation group
-- invalidates the group's view; the other parts have no state in common with them.
--
-- Bounds and conventions. Case folding and white space are those of ASCII, as Azure's names, zones and
-- capabilities are. Instants and durations of the caches are natural numbers of nanoseconds, read off one
-- clock. Sequence numbers and generations are kept modulo 2^64 and vCPUs, sizes and delays modulo int64.
-- No loop needs fuel: each follows a list. A poller's events are a list, and a poll that still waits when
-- they run out returns `none`. The order in which Go iterates a map is the order of the list.
--
-- Not modelled: the texts of messages, logging and metrics; what happens between the reads and writes of
-- one operation of the machine cache, which does not hold its lock across a call of the API; the
-- clients of Azure and Kubernetes.
pub mod Prelude
pub mod Unavailable
pub mod Offerings
pub mod Quota
pub mod Machines
pub mod OsDisk
pub mod NodeClass
pub mod Allocation
pub mod Reservations
pub mod Collection
pub mod Batching
pub mod Drift
pub mod Versions
