-- ===== src/Fencer/Decisions.antt =====
-- When controllers/fencer/fencer.go starts fencing and when it stops, and the fault on an
-- attachment with an inline volume.
use mathlib.Core.Logic.{if_neg}
use api_manager.World.Env.{done, History, Env}
use api_manager.Fencer.{
  Reply, check_latest, fence_pod, pod_key, get_target_pods, Kind, is_offline, cluster_key,
  volume_keys, stos_volumes, pod_pvcs, ok, nil_dereference, Volume, Node, ObjectKey, panic, Pod,
  throw, lift, ◌>>=◌, pure, all, String, delete_attachment, handle, List, VolumeAttachment, check,
  delete_attachments, require_action, pvc_va,
}
use api_manager.World.Objects.{Pvc}
use api_manager.World.Monad.{handle, pure, ◌>>=◌, lift, throw, ask_kube}
use api_manager.Base.{
  ◌∙◌, arith, ◌⊎◌, ◌↔◌, [], true, false, Option, ◌∷◌, ◌++◌, ◌≢◌, none, some, All, ◌≡◌,
}
use api_manager.World.Calls.{kube_delete}
use api_manager.Fencer.Branches.{fence_pod_deleted}

module _ (env : Env) where
  -- An action is required exactly when the Kubernetes node exists and StorageOS reports it offline.
  pub require_action_iff :
      (node : Node) (h : History)
      → ((require_action env node h).0 ≡ ok true)
        ↔ ((env.node_exists h (cluster_key node.name) ≡ done tt) × (is_offline node ≡ true))
  unfolding require_action handle ask_kube pure throw
  require_action_iff node h = ground arith

  -- Fencing is not run again exactly when the node is still cached, and it is no longer offline or
  -- it has no target pod left.
  pub check_iff :
      (cached : ObjectKey → Option Node) (convert : Node → Reply String Node) (node : Node)
      (h : History)
      → ((check env cached convert node h).0 ≡ ok false) ↔ (
          (val : Node) × (latest : Node) × (cached (cluster_key node.name) ≡ some val)
          × (convert val ≡ done latest)
          × ((is_offline latest ≡ false)
              ⊎ ((is_offline latest ≡ true) × ((get_target_pods env latest.name h).0 ≡ ok []))))
  unfolding check check_latest handle pure throw
  check_iff cached convert node h = elim (cached (cluster_key node.name)) [
    | none ↦ ground arith
    | some val ↦ ground arith
  ]

  -- The name of each attachment's volume is set and differs from the name of the claim's volume.
  abbrev pub Passed : Pvc → VolumeAttachment → Type 0
  Passed pvc va =
      (name : String) × (va.persistent_volume_name ≡ some name) × (name ≢ pvc.volume_name)

  pub pvc_va_inline :
      (pvc : Pvc) (pre post : List VolumeAttachment) (va : VolumeAttachment)
      → All (Passed pvc) pre
      → va.persistent_volume_name ≡ none
      → pvc_va pvc (pre ++ va ∷ post) ≡ panic nil_dereference
  unfolding pvc_va
  pvc_va_inline pvc [] post va p e = rw e
  pvc_va_inline pvc (w ∷ pre) post va ((name, named, other), p) e =
      rw (named, if_neg _ other) (pvc_va_inline pvc pre post va p e)

  -- A healthy pod is deleted, and then the process ends with a nil pointer, if the node has an
  -- attachment with an inline volume listed before the attachment of the pod's first claim.
  pub fence_pod_inline :
      (pre post : List VolumeAttachment) (va : VolumeAttachment) (pod : Pod) (h h1 h2 : History)
      (pvc : Pvc) (pvcs : List Pvc) (volumes : List Volume)
      → pod_pvcs env pod h ≡ (ok (pvc ∷ pvcs), h1)
      → stos_volumes env (volume_keys (pvc ∷ pvcs)) h1 ≡ (ok volumes, h2)
      → all (λ v. v.healthy) volumes ≡ true
      → env.kube_write h2 (kube_delete Kind.pod (pod_key pod) 0) ≡ done tt
      → All (Passed pvc) pre
      → va.persistent_volume_name ≡ none
      → fence_pod env pod (pre ++ va ∷ post) h
        ≡ (panic nil_dereference, kube_delete Kind.pod (pod_key pod) 0 ∷ h2)
  unfolding delete_attachments delete_attachment ◌>>=◌ lift
  fence_pod_inline pre post va pod h h1 h2 pvc pvcs volumes claims found healthy works p e =
      fence_pod_deleted env (pre ++ va ∷ post) pod h h1 h2 (pvc ∷ pvcs) volumes claims found healthy
        works
      ∙ rw (pvc_va_inline pvc pre post va p e)
