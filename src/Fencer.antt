-- ===== src/Fencer.antt =====
-- controllers/fencer/fencer.go: the pods of a node that StorageOS reports offline are deleted, so
-- that they can start on another node. Log lines and tracing spans are left out.
pub mod PodClaims
pub mod Coverage
pub mod Safety
pub mod Nodes
pub mod Branches
pub mod Blocked
pub mod Decisions
pub mod Poller
use api_manager.Base.{
  is_empty, not, all, ◌!=◌, Option, String, Bool, true, false, none, some, List, [], ◌∷◌, ◌++◌,
  ◌==◌, if◌then◌else◌,
}
use api_manager.Go.Maps.{get}
use api_manager.World.Objects.{VolumeAttachment, Volume, ObjectKey, PodVolume, Pod, Pvc}
use api_manager.World.Errors.{
  message, nil_dereference, panic, ok, Result, node_not_cached, wrapped, error_or_nil, Error,
  is_not_found,
}
use api_manager.World.Env.{done, failed, Reply, Env}
use api_manager.World.Monad.{◌>>◌, lift, M, pure, throw, handle, ◌>>=◌}
use api_manager.World.Client.{
  delete_now, list_pods, list_volume_attachments, cluster_key, get_node, get_pvc, get_pv,
}
use api_manager.Storageos.Node.{Node, node_health_offline}
use api_manager.Labels.{reserved_label_fencing}
use api_manager.Go.Strconv.{parse_bool}
use api_manager.World.Calls.{Kind}
use api_manager.Storageos.Volume.{get_volume}
use api_manager.Provisioner.{pvc_provisioner_annotation_key}

abbrev pub driver_name : String
driver_name = "csi.storageos.com"

abbrev pub is_offline : Node → Bool
is_offline n = elim n.health [ node_health_offline ↦ true | _ ↦ false ]

abbrev pub pod_key : Pod → ObjectKey
pod_key p = record { namespace = p.namespace; name = p.name }

-- The claims and the errors that `podPVCs` has met so far.
pub record Claims : Type 0 where
  pub pvcs : List Pvc
  pub errors : List Error

-- Whether the label is set to a text that reads as true. Any other text counts as false.
unfoldable pub is_fenced : Pod → Bool
is_fenced pod = elim (get pod.labels reserved_label_fencing) [
  | none ↦ false
  | some v ↦ (parse_bool v).value
]

-- The keys of the volumes of the claims that are bound.
unfoldable pub volume_keys : List Pvc → List ObjectKey
volume_keys [] = []
volume_keys (pvc ∷ rest) =
    let keys = volume_keys rest in
    if pvc.volume_name != ""
    then record { namespace = pvc.namespace; name = pvc.volume_name } ∷ keys
    else keys

-- `pvcVA`. It dereferences the volume name of each attachment that it passes.
unfoldable pub pvc_va : Pvc → List VolumeAttachment → Result (Option VolumeAttachment)
pvc_va pvc [] = ok none
pvc_va pvc (va ∷ rest) = elim va.persistent_volume_name [
  | none ↦ panic nil_dereference
  | some name ↦ if name == pvc.volume_name then ok (some va) else pvc_va pvc rest
]

module _ (env : Env) where
  unfoldable pub require_action : Node → M Bool
  require_action node =
      handle (get_node env (cluster_key node.name)) (λ _. pure (is_offline node))
        (λ e. if is_not_found e then pure false else throw e)

  -- Whether the PV of a claim without the annotation is one of the driver. A failed lookup of the
  -- PV leaves the claim out.
  unfoldable pub is_static_pvc : Pvc → M Bool
  is_static_pvc pvc =
      handle (get_pv env (cluster_key pvc.volume_name))
        (λ pv. pure (elim pv.csi_driver [ none ↦ false | some driver ↦ driver == driver_name ]))
        (λ _. pure false)

  -- Whether the loop of `podPVCs` appends a claim that it found, by the claim's annotation.
  unfoldable pub is_storageos_pvc : Pvc → Option String → M Bool
  unfolding is_static_pvc
  is_storageos_pvc pvc (some provisioner) = pure (provisioner == driver_name)
  is_storageos_pvc pvc none = is_static_pvc pvc

  abbrev pub provisioner_of : Pvc → Option String
  provisioner_of pvc = get pvc.annotations pvc_provisioner_annotation_key

  -- One round of the loop of `podPVCs`. Volumes without a claim are passed over.
  unfoldable pub pod_volume : (namespace : String) → Claims → Option String → M Claims
  unfolding is_storageos_pvc
  pod_volume ns s none = pure s
  pod_volume ns s (some claim) =
      if claim == ""
      then pure s
      else handle (get_pvc env (record { namespace = ns; name = claim }))
          (λ pvc. do
            ours ← is_storageos_pvc pvc (provisioner_of pvc)
            pure (if ours then record s { pvcs = s.pvcs ++ pvc ∷ [] } else s))
          (λ e. pure (record s { errors = s.errors ++ e ∷ [] }))

  unfoldable pub pod_volumes : (namespace : String) → Claims → List PodVolume → M Claims
  unfolding pod_volume
  pod_volumes ns s [] = pure s
  pod_volumes ns s (vol ∷ rest) = do s' ← pod_volume ns s vol.claim_name; pod_volumes ns s' rest

  unfoldable pub pod_pvcs : Pod → M (List Pvc)
  unfolding pod_volumes error_or_nil
  pod_pvcs pod = do
    s ← pod_volumes pod.namespace (record { pvcs = []; errors = [] }) pod.volumes
    lift (error_or_nil s.errors)
    pure s.pvcs

  -- One round of the loop of `getTargetPods`: the pods so far, and the next pod.
  unfoldable pub target_pod : List Pod → Pod → M (List Pod)
  unfolding is_fenced
  target_pod found pod =
      if is_fenced pod
      then handle (pod_pvcs pod)
          (λ pvcs. pure (if is_empty (volume_keys pvcs) then found else found ++ pod ∷ []))
          (λ e. throw (wrapped "failed to get pvcs for pod" e))
      else pure found

  unfoldable pub target_pods_from : List Pod → List Pod → M (List Pod)
  unfolding target_pod
  target_pods_from found [] = pure found
  target_pods_from found (pod ∷ rest) = do
    found' ← target_pod found pod
    target_pods_from found' rest

  unfoldable pub get_target_pods : (node_name : String) → M (List Pod)
  unfolding target_pods_from
  get_target_pods node_name = do pods ← list_pods env node_name; target_pods_from [] pods

  unfoldable pub stos_volumes_from : List Volume → List ObjectKey → M (List Volume)
  stos_volumes_from volumes [] = pure volumes
  stos_volumes_from volumes (key ∷ rest) = do
    volume ←
        handle (get_volume env key) pure
          (λ e. throw (wrapped "failed to get storageos volume for pvc" e))
    stos_volumes_from (volumes ++ volume ∷ []) rest

  unfoldable pub stos_volumes : List ObjectKey → M (List Volume)
  unfolding stos_volumes_from
  stos_volumes keys = stos_volumes_from [] keys

  -- What is done with the attachment of a claim. A failed delete is only logged.
  unfoldable pub delete_found : Option VolumeAttachment → M Unit
  delete_found none = pure tt
  delete_found (some va) =
      if va.attacher != driver_name
      then pure tt
      else handle (delete_now env Kind.volume_attachment (cluster_key va.name)) pure (λ _. pure tt)

  unfoldable pub delete_attachment : List VolumeAttachment → Pvc → M Unit
  unfolding pvc_va delete_found
  delete_attachment vas pvc = lift (pvc_va pvc vas) >>= delete_found

  unfoldable pub delete_attachments : List VolumeAttachment → List Pvc → M Unit
  unfolding delete_attachment
  delete_attachments vas [] = pure tt
  delete_attachments vas (pvc ∷ rest) = do delete_attachment vas pvc; delete_attachments vas rest

  unfoldable pub delete_pod : Pod → M Unit
  delete_pod pod =
      handle (delete_now env Kind.pod (pod_key pod)) pure
        (λ e. throw (wrapped "failed to delete pod" e))

  unfoldable pub fence_pod : Pod → List VolumeAttachment → M Unit
  fence_pod pod vas = do
    pvcs ← handle (pod_pvcs pod) pure (λ e. throw (wrapped "failed to get pvcs for pod" e))
    volumes ←
        handle (stos_volumes (volume_keys pvcs)) pure
          (λ e. throw (wrapped "failed to get storageos volumes for pod" e))
    if all (λ v. v.healthy) volumes then delete_pod pod >> delete_attachments vas pvcs else pure tt

  -- The loop of `fenceNode`: the failure of one pod does not stop the others.
  unfoldable pub fence_pods : List VolumeAttachment → List Pod → M Unit
  fence_pods vas [] = pure tt
  fence_pods vas (pod ∷ rest) = do
    handle (fence_pod pod vas) pure (λ _. pure tt)
    fence_pods vas rest

  unfoldable pub fence_node : (node_name : String) → M Unit
  unfolding fence_pods
  fence_node node_name = do
    vas ← list_volume_attachments env node_name
    pods ← get_target_pods node_name
    fence_pods vas pods

  -- What `Check` does with the node that `scheme.Convert` makes of the cached one.
  unfoldable pub check_latest : Reply String Node → M Bool
  check_latest (failed reason) =
      throw (wrapped "failed to convert cached object to Node" (message reason))
  check_latest (done latest) =
      if is_offline latest
      then handle (get_target_pods latest.name) (λ pods. pure (not (is_empty pods)))
          (λ e. throw (wrapped "failed to get target pods to fence" e))
      else pure false

  -- `Check`, which says whether the fencing has to run again. The cache of nodes is go-cache, a
  -- parameter here, and so is `scheme.Convert`. The code returns `true` beside each error.
  unfoldable pub check :
      (cached : ObjectKey → Option Node) (convert : Node → Reply String Node) → Node → M Bool
  check cached convert node = elim (cached (cluster_key node.name)) [
    | none ↦ throw node_not_cached
    | some val ↦ check_latest (convert val)
  ]
