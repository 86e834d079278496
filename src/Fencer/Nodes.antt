-- ===== src/Fencer/Nodes.antt =====
-- Which pods of a node controllers/fencer/fencer.go fences.
use api_manager.World.Env.{done, History, Env}
use api_manager.Base.{
  is_empty, All-append, ◌++◌, refl, if◌then◌else◌, ◌≢◌, ◌∷◌, true, [], In, All, ◌≡◌, List, String,
}
use api_manager.Fencer.{
  pod_pvcs, ObjectKey, volume_keys, Pvc, is_fenced, pod_key, VolumeAttachment, get_target_pods,
  target_pods_from, target_pod,
}
use api_manager.World.Objects.{Pod}
use api_manager.World.Calls.{kube_delete, Kind, IsRead, Call}
use api_manager.World.Trace.{
  Ensures-returned, Returns, Ensures-throw, Ensures-if, Ensures-handle, Ensures-pure,
  Ensures-ask_kube, Ensures-bind, Ensures,
}
use api_manager.Fencer.Safety.{MayDetach, MayFence}
use api_manager.Fencer.PodClaims.{pod_pvcs-Ensures, IsOurs}

-- The pod was listed as one of the node, it carries the fencing label with a true value, and a
-- bound StorageOS claim was among those that were collected for it.
pub record IsTarget (env : Env) (node_name : String) (pod : Pod) : Type 0 where
  pub at : History
  pub pods : List Pod
  pub listed : env.pods_on at node_name ≡ done pods
  pub among : In pod pods
  pub labelled : is_fenced pod ≡ true
  pub pvcs : List Pvc
  pub collected : Returns (pod_pvcs env pod) pvcs
  pub ours : All (IsOurs env) pvcs
  pub bound : volume_keys pvcs ≢ []

module _ (env : Env) (node_name : String) where
  target_pod-Ensures :
      (at : History) (pods found : List Pod) (pod : Pod)
      → env.pods_on at node_name ≡ done pods
      → In pod pods
      → All (IsTarget env node_name) found
      → Ensures IsRead (All (IsTarget env node_name)) (target_pod env found pod)
  unfolding target_pod
  target_pod-Ensures at pods found pod listed among q =
      Ensures-if (is_fenced pod) _ _
        (λ labelled.
          Ensures-handle (Ensures-returned (pod_pvcs-Ensures env pod))
            (λ pvcs claims. Ensures-pure _ (added labelled pvcs claims (volume_keys pvcs) refl))
            (λ e. Ensures-throw _))
        (λ _. Ensures-pure _ q)
    where
      added :
          is_fenced pod ≡ true
          → (pvcs : List Pvc) → All (IsOurs env) pvcs × Returns (pod_pvcs env pod) pvcs
          → (keys : List ObjectKey) → volume_keys pvcs ≡ keys
          → All (IsTarget env node_name) (if is_empty keys then found else found ++ pod ∷ [])
      added labelled pvcs claims [] e = q
      added labelled pvcs (ours, collected) (k ∷ ks) e =
          All-append (IsTarget env node_name) found (pod ∷ []) q (
            record {
              at = at;
              pods = pods;
              listed = listed;
              among = among;
              labelled = labelled;
              pvcs = pvcs;
              collected = collected;
              ours = ours;
              bound = λ n. cc;
            },
            tt,
          )

  pub target_pods_from-Ensures :
      (at : History) (pods found rest : List Pod)
      → env.pods_on at node_name ≡ done pods
      → ((p : Pod) → In p rest → In p pods)
      → All (IsTarget env node_name) found
      → Ensures IsRead (All (IsTarget env node_name)) (target_pods_from env found rest)
  unfolding target_pods_from
  target_pods_from-Ensures at pods found [] listed sub q = Ensures-pure _ q
  target_pods_from-Ensures at pods found (pod ∷ rest) listed sub q =
      Ensures-bind (target_pod-Ensures at pods found pod listed (sub pod (In.here refl)) q)
        (λ found' q'.
          target_pods_from-Ensures at pods found' rest listed (λ p i. sub p (In.there i)) q')

  pub get_target_pods-Ensures :
      Ensures IsRead (All (IsTarget env node_name)) (get_target_pods env node_name)
  unfolding get_target_pods
  get_target_pods-Ensures =
      Ensures-bind {R = λ pods. (h : History) × (env.pods_on h node_name ≡ done pods)}
        (Ensures-ask_kube _ _ refl (λ h pods e. (h, e)))
        (λ pods at. target_pods_from-Ensures at.0 pods [] pods at.1 (λ p i. i) tt)

  -- The calls that fencing the node may make: each deletion of a pod is that of a target pod of the
  -- node, and each deletion of an attachment is that of an attachment that was listed for the node.
  abbrev pub FenceNodeCall : Call → Type 0
  FenceNodeCall (kube_delete Kind.pod key grace) =
      (pod : Pod) × IsTarget env node_name pod × (key ≡ pod_key pod) × MayFence env pod
  FenceNodeCall (kube_delete Kind.volume_attachment key grace) =
      (h : History) × (vas : List VolumeAttachment) × (env.attachments_on h node_name ≡ done vas)
      × ((pod : Pod) × IsTarget env node_name pod × MayDetach env vas pod key)
  FenceNodeCall c = IsRead c
