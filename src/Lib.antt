-- ===== src/Lib.antt =====
-- The api-manager of StorageOS: a process in a Kubernetes cluster that keeps the objects of the
-- StorageOS control plane in step with those of Kubernetes. This library models its own logic,
-- from the Go sources, and proves what its operations may do.
--
-- A Go function that talks to Kubernetes or to StorageOS is a function of the calls made so far:
-- it ends with a value, an error or a fault of the runtime, and with a longer history of calls
-- (World/Monad). What the other systems answer is the record Env (World/Env): arbitrary functions
-- of the history, so every statement holds for all answers, changing ones included. World/Calls
-- lists the calls, World/Client how the code makes them (ControlPlane of
-- internal/pkg/storageos/client.go and the Kubernetes client), World/Trace the rules for what a
-- function may call, World/Ending for how it ends, World/Run for one run from given answers, and
-- World/Alike for two runs over maps that list their entries in two orders, as Go's loops over
-- maps may. Go maps, ParseUint, ParseBool, Atoi and DeepEqual are in Go.
--
-- The parts:
--
-- * controllers/fencer/fencer.go is Fencer: RequireAction, Check, fenceNode, fencePod,
--   getTargetPods, podPVCs, stosVolumes and pvcVA are require_action, check, fence_node,
--   fence_pod, get_target_pods, pod_pvcs, stos_volumes and pvc_va. Its children hold the proofs.
--   It calls Storageos for the volumes of a pod.
-- * internal/pkg/storageos/labels.go is Labels.
-- * internal/pkg/storageos/volume_labels.go and node_labels.go are Storageos/VolumeLabels and
--   Storageos/NodeLabels: EnsureVolumeLabels is ensure_volume_labels, and so on. A map is the
--   list of its entries in the order of one loop; the children SameLabels, Order and AnyOrder are
--   about two orders, and Abstract has maps of labels as a quotient that forgets the order.
-- * internal/pkg/storageos/volume.go, namespace.go and node.go are Storageos/Volume,
--   Storageos/Namespace and Storageos/Node.
-- * internal/pkg/storageos/shared_volume_types.go, shared_volume.go and
--   internal/pkg/endpoint/endpoint.go are Storageos/SharedVolume and its child Listing.
-- * internal/controllers/sharedvolume/controller.go is SharedVolumes: ensureService,
--   waitForClusterIP, waitForAvailable and frontend are ensure_service, wait_for_cluster_ip,
--   wait_for_available and frontend; one round of the loop in Start is reconcile_round, and what
--   it does for one volume reconcile_volume. wait.Poll is a parameter, with what is documented of
--   it as the hypothesis IsPoller.
-- * controllers/node-delete and controllers/namespace-delete are Deletes, over Storageos.
-- * internal/pkg/provisioner is Provisioner: storage classes, and which claims and volumes are
--   those of the driver.
-- * controllers/pvc-label and controllers/node-label are PvcLabel and NodeLabel, which call
--   Provisioner and Storageos.
-- * controllers/pod-mutator/scheduler is PodMutator, and controllers/pvc-mutator is PvcMutator,
--   with encryption/keygen.go in its child Encryption and encryption/keys/manager.go in Keys.
--   Keys uses internal/pkg/crypto, which is Crypto; there the primitives of Go's crypto packages
--   are the record Primitives, and what is documented of them is the hypothesis AreBlockCiphers.
-- * internal/pkg/storageos/client.go, with internal/pkg/secret/secret.go and the loop of main.go
--   that waits for a connection, is Session: Refresh, resetClient, Authenticate, respAuthToken
--   and ReadCredsFromMountedSecret are refresh, reset_client, authenticate, resp_auth_token and
--   read_creds_from_mounted_secret. Go/Text has what these use of the package strings.
-- * internal/pkg/cache is Cache; controllers/fencer/reconciler.go and the methods by which
--   operator-toolkit calls the fencer are Fencer/Poller. NodeObjects and VolumeObjects build the
--   maps of Storageos/Index, and the Diff of the label controllers, stale_nodes and stale_claims,
--   reads them.
-- * Handle of controllers/pod-mutator/controller.go and controllers/pvc-mutator/controller.go is
--   Admission, whose handle_request takes the mutators. main.go says which mutators there are:
--   with internal/pkg/labels and internal/pkg/cluster it is Main, and its children prove what the
--   two web hooks answer.
-- * internal/pkg/predicate is Predicate; the predicates of the controllers stand with NodeLabel,
--   PvcLabel and Deletes.
-- * main.go behind the parsing of its flags is Main/Start, with the flags in Main/Flags;
--   NewReconciler and SetupWithManager of the controllers are Wiring. What they ask of the
--   Kubernetes machinery are the steps of World/Setup; Main/Plan lists them, Main/Steps has the
--   rules for steps in a row, and Main/Order puts the connection of Session before them. A fatal
--   error is an error of the model.
-- * The goroutines that main.go starts, around the client and the channel apiReset, are Process:
--   its Step relates the states of the process, in any interleaving, and one wake of Refresh is
--   one step of it, through on_tick and reset_session of Session. The token is proved about in
--   Process/Tokens, the requests for a reset in Process/Resets, the end of the process in
--   Process/Shutdown.
-- * internal/pkg/storageos/mock_client.go, the client in memory for tests, is Storageos/Mock; its
--   pointers to shared volumes are numbers in a heap.
--
-- Every finite loop of the code runs over a list, so each is a recursion on that list and none
-- needs fuel; of the endless loops of the shared volume controller and of the node poller one
-- round is modelled, the loop of Refresh runs over a list of the events that wake it, and the
-- loop of main that waits for a connection over a number of attempts. A number of replicas is a
-- natural number below 2 ^ 64, as ParseUint returns it. Go visits a map in no fixed order; where
-- the result could depend on it, statements are about lookups.
--
-- Not modelled: contexts, time limits, tracing, metrics and logging; the Kubernetes machinery
-- that calls the controllers (vendor); the parsing of the command line; generated mocks and deep
-- copies; the locks and the random volumes of the client in memory.
pub mod Base
pub mod Go
pub mod World
pub mod Labels
pub mod Storageos
pub mod Fencer
pub mod Provisioner
pub mod PodMutator
pub mod PvcMutator
pub mod PvcLabel
pub mod NodeLabel
pub mod Crypto
pub mod Main
pub mod Admission
pub mod SharedVolumes
pub mod Deletes
pub mod Predicate
pub mod Session
pub mod Cache
pub mod Process
pub mod Wiring
mod Tests
