-- ===== src/Fencer/Safety.antt =====
-- What controllers/fencer/fencer.go deletes, and on which grounds.
use api_manager.World.Env.{Env}
use api_manager.World.Objects.{ObjectKey, Volume, VolumeAttachment, Pvc, Pod}
use api_manager.Base.{
  ◌≢◌, All-In, All-of_In, String-discrete, ◌==◌, String, refl, arith, ◌!=◌, [], if◌then◌else◌, none,
  ◌∷◌, Option, true, some, ◌≡◌, In, All, all, List,
}
use api_manager.Fencer.{
  stos_volumes, pod_pvcs, nil_dereference, delete_pod, ◌>>◌, pure, panic, delete_found, M, ok,
  delete_attachments, Result, delete_attachment, fence_pod, cluster_key, volume_keys, pod_key,
  driver_name, pvc_va,
}
use api_manager.World.Calls.{kube_list, kube_delete, kube_get, IsRead, Kind, Call}
use api_manager.World.Trace.{
  Ensures-and, Ensures-returned, Returns, Ensures-throw, Ensures-lift, Ensures-ask_kube,
  Ensures-handle, Ensures-if, Ensures-bind, Ensures-weaken, Ensures-pure, Ensures, OkHas,
}
use api_manager.Fencer.PodClaims.{stos_volumes-Ensures, pod_pvcs-Ensures, VolumesFor, IsOurs}
use mathlib.Core.Logic.{if_pos, if_neg}
use api_manager.World.Errors.{err}
use api_manager.Fencer.Coverage.{pod_pvcs-Covered, HasHealthyVolume, healthy_volumes, AreCovered}

-- The grounds for the deletion of a pod: these are the claims that were collected for that pod, all
-- of them StorageOS claims, and no StorageOS claim of the pod is missing; these are the volumes that
-- were looked up for those that are bound, one for each; and each of them has a healthy one.
pub record MayFence (env : Env) (pod : Pod) : Type 0 where
  pub pvcs : List Pvc
  pub volumes : List Volume
  pub collected : Returns (pod_pvcs env pod) pvcs
  pub ours : All (IsOurs env) pvcs
  pub covered : AreCovered env pod pvcs
  pub looked_up : Returns (stos_volumes env (volume_keys pvcs)) volumes
  pub found : VolumesFor (volume_keys pvcs) volumes
  pub healthy : all (λ v. v.healthy) volumes ≡ true
  pub each : (pvc : Pvc) → In pvc pvcs → pvc.volume_name ≢ "" → HasHealthyVolume volumes pvc

-- The grounds for the deletion of an attachment: it is listed, it belongs to the StorageOS driver,
-- and it is the attachment of one of the claims of the pod, which is a StorageOS claim.
pub record MayDetach (env : Env) (vas : List VolumeAttachment) (pod : Pod) (key : ObjectKey)
    : Type 0 where
  pub attachment : VolumeAttachment
  pub listed : In attachment vas
  pub attacher : attachment.attacher ≡ driver_name
  pub named : key ≡ cluster_key attachment.name
  pub pvcs : List Pvc
  pub collected : Returns (pod_pvcs env pod) pvcs
  pub pvc : Pvc
  pub among : In pvc pvcs
  pub ours : IsOurs env pvc
  pub claimed : attachment.persistent_volume_name ≡ some pvc.volume_name

-- The calls that fencing a pod may make.
abbrev pub FenceCall : Env → List VolumeAttachment → Pod → Call → Type 0
FenceCall env vas pod (kube_delete Kind.pod key grace) =
    (key ≡ pod_key pod) × (grace ≡ 0) × MayFence env pod
FenceCall env vas pod (kube_delete Kind.volume_attachment key grace) =
    (grace ≡ 0) × MayDetach env vas pod key
FenceCall env vas pod c = IsRead c

module _ (env : Env) (vas : List VolumeAttachment) (pod : Pod) where
  read-FenceCall : (c : Call) → IsRead c → FenceCall env vas pod c
  read-FenceCall (kube_get k key) r = r
  read-FenceCall (kube_list k n) r = r
  read-FenceCall Call.list_namespaces r = r
  read-FenceCall Call.list_nodes r = r
  read-FenceCall (Call.list_volumes n) r = r
  read-FenceCall (Call.get_volume n i) r = r
  read-FenceCall (kube_delete k key g) r = absurd (cc)
  read-FenceCall (Call.create_secret _) r = r
  read-FenceCall _ r = r

  abbrev Attached : Pvc → List VolumeAttachment → Option VolumeAttachment → Type 0
  Attached pvc l none = Unit
  Attached pvc l (some va) = In va l × (va.persistent_volume_name ≡ some pvc.volume_name)

  Attached-cons :
      (pvc : Pvc) (l : List VolumeAttachment) (va : VolumeAttachment)
      (r : Result (Option VolumeAttachment))
      → OkHas (Attached pvc l) r
      → OkHas (Attached pvc (va ∷ l)) r
  Attached-cons pvc l va (ok none) q = tt
  Attached-cons pvc l va (ok (some w)) q = (In.there q.0, q.1)
  Attached-cons pvc l va (err e) q = tt
  Attached-cons pvc l va (panic f) q = tt

  pvc_va-Attached : (pvc : Pvc) (l : List VolumeAttachment) → OkHas (Attached pvc l) (pvc_va pvc l)
  unfolding pvc_va
  pvc_va-Attached pvc [] = tt
  pvc_va-Attached pvc (va ∷ l) =
      go va.persistent_volume_name refl (Attached-cons pvc l va _ (pvc_va-Attached pvc l))
    where
      go :
          (o : Option String)
          → va.persistent_volume_name ≡ o
          → OkHas (Attached pvc (va ∷ l)) (pvc_va pvc l)
          → OkHas (Attached pvc (va ∷ l)) (elim o [
            | none ↦ panic nil_dereference
            | some name ↦ if name == pvc.volume_name then ok (some va) else pvc_va pvc l
          ])
      go none e rest = tt
      go (some name) e rest = elim (String-discrete name pvc.volume_name) [
        | yes p ↦ rw (if_pos _ p) (In.here refl, rw p at e)
        | no p ↦ rw (if_neg _ p) rest
      ]

  -- One of the claims that were collected for the pod.
  IsClaim : Pvc → Type 0
  IsClaim pvc = (pvcs : List Pvc) × Returns (pod_pvcs env pod) pvcs × In pvc pvcs × IsOurs env pvc

  delete_attachment-Ensures :
      (pvc : Pvc)
      → IsClaim pvc
      → Ensures (FenceCall env vas pod) (λ _. Unit) (delete_attachment env vas pvc)
  unfolding delete_attachment IsClaim
  delete_attachment-Ensures pvc (pvcs, collected, among, ours) =
      Ensures-bind (Ensures-lift _ (pvc_va-Attached pvc vas)) found
    where
      found :
          (o : Option VolumeAttachment)
          → Attached pvc vas o
          → Ensures (FenceCall env vas pod) (λ _. Unit) (delete_found env o)
      found none at = Ensures-pure _ tt
      found (some va) at =
          Ensures-if (va.attacher != driver_name) _ _ (λ _. Ensures-pure _ tt)
            (λ same.
              Ensures-handle {R = λ _. Unit}
                (Ensures-ask_kube _ _
                  (
                    refl,
                    record {
                      attachment = va;
                      listed = at.0;
                      attacher = ground arith;
                      named = refl;
                      pvcs = pvcs;
                      collected = collected;
                      pvc = pvc;
                      among = among;
                      ours = ours;
                      claimed = at.1;
                    },
                  )
                  (λ h a e. tt))
                (λ _ _. Ensures-pure _ tt) (λ _. Ensures-pure _ tt))

  delete_attachments-Ensures :
      (pvcs : List Pvc)
      → All IsClaim pvcs
      → Ensures (FenceCall env vas pod) (λ _. Unit) (delete_attachments env vas pvcs)
  unfolding delete_attachments
  delete_attachments-Ensures [] ours = Ensures-pure _ tt
  delete_attachments-Ensures (pvc ∷ rest) ours =
      Ensures-bind (delete_attachment-Ensures pvc ours.0)
        (λ _ _. delete_attachments-Ensures rest ours.1)

  delete_pod-Ensures :
      MayFence env pod → Ensures (FenceCall env vas pod) (λ _. Unit) (delete_pod env pod)
  unfolding delete_pod
  delete_pod-Ensures may =
      Ensures-handle {R = λ _. Unit} (Ensures-ask_kube _ _ (refl, refl, may) (λ h a e. tt))
        (λ _ _. Ensures-pure _ tt) (λ e. Ensures-throw _)

  claims_of_pod :
      (pvcs : List Pvc) → All (IsOurs env) pvcs → Returns (pod_pvcs env pod) pvcs → All IsClaim pvcs
  unfolding IsClaim
  claims_of_pod pvcs ours collected =
      All-of_In _ pvcs (λ pvc i. (pvcs, collected, i, All-In _ pvcs ours i))

  pub fence_pod-Ensures : Ensures (FenceCall env vas pod) (λ _. Unit) (fence_pod env pod vas)
  unfolding fence_pod
  fence_pod-Ensures =
      Ensures-bind
        (Ensures-handle
          (reads
            (Ensures-returned (Ensures-and (pod_pvcs-Ensures env pod) (pod_pvcs-Covered env pod))))
          (λ l o. Ensures-pure l o) (λ e. Ensures-throw _))
        (λ pvcs claims.
          Ensures-bind
            (Ensures-handle (reads (Ensures-returned (stos_volumes-Ensures env (volume_keys pvcs))))
              (λ l o. Ensures-pure l o) (λ e. Ensures-throw _))
            (λ volumes found. proceed pvcs volumes claims found))
    where
      reads :
          {A : Type 0} {Q : A → Type 0} {m : M A}
          → Ensures IsRead Q m
          → Ensures (FenceCall env vas pod) Q m
      reads = Ensures-weaken read-FenceCall (λ a q. q)

      proceed :
          (pvcs : List Pvc) (volumes : List Volume)
          → (All (IsOurs env) pvcs × AreCovered env pod pvcs) × Returns (pod_pvcs env pod) pvcs
          → VolumesFor (volume_keys pvcs) volumes
            × Returns (stos_volumes env (volume_keys pvcs)) volumes
          → Ensures
              (FenceCall env vas pod)
              (λ _. Unit)
              (if all (λ v. v.healthy) volumes
                then delete_pod env pod >> delete_attachments env vas pvcs
                else pure tt)
      proceed pvcs volumes ((ours, covered), collected) (found, looked_up) =
          Ensures-if (all (λ v. v.healthy) volumes)
            (delete_pod env pod >> delete_attachments env vas pvcs) (pure tt)
            (λ healthy.
              Ensures-bind {R = λ _. Unit}
                (delete_pod-Ensures (record {
                  pvcs = pvcs;
                  volumes = volumes;
                  collected = collected;
                  ours = ours;
                  covered = covered;
                  looked_up = looked_up;
                  found = found;
                  healthy = healthy;
                  each = healthy_volumes pvcs volumes found healthy;
                }))
                (λ _ _. delete_attachments-Ensures pvcs (claims_of_pod pvcs ours collected)))
            (λ _. Ensures-pure _ tt)
