-- ===== src/Tests/Fencing.antt =====
-- Fencing of the sample node.
use api_manager.Tests.World.{sample_attachment, sick_cluster, sample_pod, healthy_cluster, cluster}
use api_manager.Fencer.{
  pvc_va, volume_keys, is_fenced, stos_volumes, get_target_pods, pod_pvcs, delete_attachments,
  pod_key, delete_pod, fence_pods, fence_pod, fence_node,
}
use api_manager.World.Env.{failed, History, Env}
use api_manager.Storageos.Volume.{find_volume, get_volume}
use api_manager.Fencer.Blocked.{fence_node_blocked, Unreadable}
use api_manager.World.Trace.{Extends}
use api_manager.World.Calls.{Kind, kube_delete, kube_get, IsRead, Call}
use api_manager.Fencer.Branches.{fence_pods-Swept, Swept}
use api_manager.Base.{refl, In, ◌≢◌, ◌≡◌, [], ◌∷◌}
use api_manager.World.Errors.{ok, kube, multi_one}
use api_manager.World.Client.{cluster_key}
use api_manager.Storageos.Namespace.{find_namespace, get_namespace}
use api_manager.Go.Strconv.{parse_bool}
use api_manager.Go.Maps.{get}
use api_manager.World.Monad.{handle, ask_api, ask_kube, ◌>>=◌}

program : Unit {0}
unfolding cluster fence_node fence_pods fence_pod delete_pod delete_attachments get_target_pods
    stos_volumes pod_pvcs is_fenced volume_keys pvc_va get_volume get_namespace find_namespace
    find_volume parse_bool get ◌>>=◌ ask_kube ask_api handle
program = tt

abbrev pod_deletion : Call
pod_deletion = kube_delete Kind.pod (pod_key sample_pod) 0

-- The pod and its attachment go, in this order.
fence_node_run : fence_node healthy_cluster "node-1" [] ≡ (
  ok tt,
  kube_delete Kind.volume_attachment (cluster_key "va-1") 0
      ∷ pod_deletion
      ∷ (fence_node sick_cluster "node-1" []).1,
)
unfolding program
fence_node_run = refl

-- The reads of fencing the sample pod, up to its claims and up to its volumes.
abbrev claims_read : History
claims_read = kube_get Kind.pvc (record { namespace = "app"; name = "data-0" }) ∷ []

abbrev volumes_read : History
volumes_read = Call.list_volumes "ns-id" ∷ Call.list_namespaces ∷ claims_read

fence_pods-Swept_example :
    Swept healthy_cluster
      (sample_attachment ∷ [])
      []
      (sample_pod ∷ [])
      (fence_pods healthy_cluster (sample_attachment ∷ []) (sample_pod ∷ []) [])
fence_pods-Swept_example =
    fence_pods-Swept healthy_cluster (sample_attachment ∷ []) (sample_pod ∷ []) []

-- The claim of the pod is gone.
abbrev claimless_cluster : Env
claimless_cluster = record healthy_cluster { pvc_at = λ h key. failed "NotFound" }

unreadable : Unreadable claimless_cluster sample_pod
unfolding program
unreadable h = (multi_one (kube "NotFound"), refl)

fence_node_blocked_example :
    Extends IsRead [] (fence_node claimless_cluster "node-1" []).1
    × ((fence_node claimless_cluster "node-1" []).0 ≢ ok tt)
unfolding program
fence_node_blocked_example =
    fence_node_blocked claimless_cluster "node-1" [] (sample_attachment ∷ []) (sample_pod ∷ [])
      sample_pod refl refl (In.here refl) refl unreadable
