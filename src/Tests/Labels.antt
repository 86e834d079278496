-- ===== src/Tests/Labels.antt =====
-- Nodes and claims of the sample cluster, and their labels.
use api_manager.World.Calls
use api_manager.Tests.World.{cluster, healthy_cluster, sample_api_node, sample_pvc, sample_class}
use api_manager.Storageos.NodeLabels.{node_labels_from, no_node_labels, ensure_node_labels}
use api_manager.Storageos.NodeLabels.Updates.{NodeLabelCall, ensure_node_labels-Ensures}
use api_manager.Storageos.Node.{delete_node, find_node}
use api_manager.Storageos.Node.Lookup.{delete_node_failures}
use api_manager.Provisioner.{validate_or_set_storage_class_uid}
use api_manager.Provisioner.Classes.{validate_without_annotations}
use api_manager.PvcLabel.{ensure}
use api_manager.PvcLabel.Sync.{SyncCall, ensure-Ensures}
use api_manager.World.Errors.{
  node_not_found, node_has_lock, node_in_use, err, nil_dereference, nil_map_write, panic,
  ApiFailure,
}
use api_manager.Base.{arith, ◌↔◌, refl, ◌∷◌, some, ◌≡◌, String, String-discrete, none, []}
use api_manager.World.Trace.{Ensures}
use api_manager.World.Env.{failed, done, Env}
use api_manager.Base.Dict.{NodupKeys, Dict, lookup}
use api_manager.World.Calls.{pvc}
use api_manager.World.Objects.{Pvc}
use api_manager.World.Client.{cluster_key}
use api_manager.Go.Maps.{entries}

abbrev node_labels : Dict String
node_labels = ("zone", "b") ∷ ("storageos.com/computeonly", "maybe") ∷ []

ensure_node_labels-Ensures_example :
    Ensures
      (NodeLabelCall healthy_cluster
        (cluster_key "node-1")
        (node_labels_from no_node_labels node_labels))
      (λ _. Unit {0})
      (ensure_node_labels healthy_cluster (cluster_key "node-1") (some node_labels))
ensure_node_labels-Ensures_example =
    ensure_node_labels-Ensures healthy_cluster (cluster_key "node-1") (some node_labels)

abbrev no_response : ApiFailure
no_response = record { status = none; message = "connection refused" }

abbrev silent_cluster : Env
silent_cluster = record healthy_cluster { api_write = λ h c. failed no_response }

delete_node_failures_example :
    (((delete_node silent_cluster (cluster_key "node-1") []).0 ≡ panic nil_dereference)
      ↔ (no_response.status ≡ none))
    × (((delete_node silent_cluster (cluster_key "node-1") []).0 ≡ err node_in_use)
        ↔ (no_response.status ≡ some 409))
    × (((delete_node silent_cluster (cluster_key "node-1") []).0 ≡ err node_has_lock)
        ↔ (no_response.status ≡ some 423))
    × (((delete_node silent_cluster (cluster_key "node-1") []).0 ≡ err node_not_found)
        ↔ (no_response.status ≡ some 404))
unfolding cluster find_node String-discrete
delete_node_failures_example =
    delete_node_failures silent_cluster (cluster_key "node-1") [] (sample_api_node ∷ [])
      sample_api_node no_response refl refl refl

ensure-Ensures_example :
    Ensures
      (SyncCall healthy_cluster sample_pvc)
      (λ _. Unit {0})
      (ensure healthy_cluster sample_pvc)
ensure-Ensures_example = ensure-Ensures healthy_cluster sample_pvc

claim_labels-NodupKeys : NodupKeys (entries sample_pvc.labels)
unfolding lookup String-discrete
claim_labels-NodupKeys = (refl, (refl, tt))

abbrev bare_pvc : Pvc
bare_pvc = record sample_pvc { annotations = none }

abbrev bare_cluster : Env
bare_cluster = record healthy_cluster { pvc_at = λ h key. done bare_pvc }

validate_without_annotations_example :
    validate_or_set_storage_class_uid bare_cluster sample_class bare_pvc [] ≡ (
      panic nil_map_write,
      Calls.kube_get Calls.pvc (record { namespace = "app"; name = "data-0" }) ∷ [],
    )
validate_without_annotations_example =
    validate_without_annotations bare_cluster sample_class bare_pvc bare_pvc [] refl (ground arith)
      refl refl
