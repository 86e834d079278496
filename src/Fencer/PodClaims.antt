-- ===== src/Fencer/PodClaims.antt =====
-- The claims of a pod that controllers/fencer/fencer.go counts as StorageOS claims, and the volumes
-- that it finds for them.
use api_manager.World.Env.{done, History, Env}
use api_manager.Base.{
  false, ◌==◌, All-append, if◌then◌else◌, inr, inl, Bool, String, All, ◌∷◌, [], Option, ◌++◌, refl,
  arith, none, ◌⊎◌, true, some, ◌≡◌, List,
}
use api_manager.World.Objects.{Pv, ObjectKey, Pvc}
use api_manager.Fencer.{
  error_or_nil, panic, ok, provisioner_of, PodVolume, Result, Pod, pod_volumes, Claims, pod_pvcs,
  stos_volumes_from, stos_volumes, pod_volume, is_storageos_pvc, driver_name, cluster_key,
  pvc_provisioner_annotation_key, Volume, get, is_static_pvc,
}
use api_manager.World.Trace.{
  Ensures-lift, Ensures-if, Ensures-weaken, Ensures-throw, OkHas, Ensures-bind, Ensures-pure,
  Ensures-ask_kube, Ensures-handle, Ensures,
}
use api_manager.World.Calls.{IsRead}
use mathlib.Core.List.{append-nil, append_assoc}
use api_manager.Storageos.Volume.Lookup.{get_volume-Ensures}
use api_manager.World.Errors.{err}

-- The claim is annotated with the StorageOS driver; or it has no such annotation, and its volume
-- was found and belongs to the driver.
abbrev pub IsOurs : Env → Pvc → Type 0
IsOurs env pvc =
    (get pvc.annotations pvc_provisioner_annotation_key ≡ some driver_name)
    ⊎ ((get pvc.annotations pvc_provisioner_annotation_key ≡ none)
        × ((h : History) × (pv : Pv) × (env.pv_at h (cluster_key pvc.volume_name) ≡ done pv)
            × (pv.csi_driver ≡ some driver_name)))

-- Each volume has the name of its key, and there are as many.
abbrev pub VolumesFor : List ObjectKey → List Volume → Type 0
VolumesFor [] [] = Unit
VolumesFor (k ∷ ks) (v ∷ vs) = (v.name ≡ k.name) × VolumesFor ks vs
VolumesFor [] (v ∷ vs) = ⊥
VolumesFor (k ∷ ks) [] = ⊥

module _ (env : Env) where
  abbrev PvOf : Pvc → Pv → Type 0
  PvOf pvc pv = (h : History) × (env.pv_at h (cluster_key pvc.volume_name) ≡ done pv)

  is_static_pvc-Ensures :
      (pvc : Pvc)
      → Ensures IsRead
          (λ b. b ≡ true → (pv : Pv) × PvOf pvc pv × (pv.csi_driver ≡ some driver_name))
          (is_static_pvc env pvc)
  unfolding is_static_pvc
  is_static_pvc-Ensures pvc =
      Ensures-handle {R = PvOf pvc} (Ensures-ask_kube _ _ refl (λ h pv e. (h, e)))
        (λ pv found. Ensures-pure _ (λ t. (pv, found, ground arith)))
        (λ e. Ensures-pure _ (λ t. absurd (cc)))

  is_storageos_pvc-Ensures :
      (pvc : Pvc) (o : Option String)
      → provisioner_of env pvc ≡ o
      → Ensures IsRead (λ b. b ≡ true → IsOurs env pvc) (is_storageos_pvc env pvc o)
  unfolding is_storageos_pvc
  is_storageos_pvc-Ensures pvc (some p) e = Ensures-pure _ (λ t. inl (ground arith))
  is_storageos_pvc-Ensures pvc none e =
      Ensures-weaken (λ c r. r) (λ b f t. let (pv, (h, x), d) = f t in inr (e, (h, pv, x, d)))
        (is_static_pvc-Ensures pvc)

  abbrev AllOurs : Claims → Type 0
  AllOurs s = All (IsOurs env) s.pvcs

  pod_volume-Ensures :
      (ns : String) (s : Claims) (o : Option String)
      → AllOurs s
      → Ensures IsRead AllOurs (pod_volume env ns s o)
  unfolding pod_volume
  pod_volume-Ensures ns s none ours = Ensures-pure s ours
  pod_volume-Ensures ns s (some claim) ours =
      Ensures-if (claim == "") _ _ (λ _. Ensures-pure s ours)
        (λ _.
          Ensures-handle {R = λ _. Unit} (Ensures-ask_kube _ _ refl (λ h a e. tt))
            (λ pvc _.
              Ensures-bind (is_storageos_pvc-Ensures pvc _ refl)
                (λ b f. Ensures-pure _ (extended pvc b f)))
            (λ e. Ensures-pure _ ours))
    where
      extended :
          (pvc : Pvc) (b : Bool)
          → (b ≡ true → IsOurs env pvc)
          → AllOurs (if b then record s { pvcs = s.pvcs ++ pvc ∷ [] } else s)
      extended pvc true f = All-append (IsOurs env) s.pvcs (pvc ∷ []) ours (f refl, tt)
      extended pvc false f = ours

  pod_volumes-Ensures :
      (ns : String) (s : Claims) (vols : List PodVolume)
      → AllOurs s
      → Ensures IsRead AllOurs (pod_volumes env ns s vols)
  unfolding pod_volumes
  pod_volumes-Ensures ns s [] ours = Ensures-pure s ours
  pod_volumes-Ensures ns s (vol ∷ rest) ours =
      Ensures-bind (pod_volume-Ensures ns s vol.claim_name ours)
        (λ s' o. pod_volumes-Ensures ns s' rest o)

  -- `podPVCs` only reads, and every claim that it returns is a claim of the StorageOS driver.
  pub pod_pvcs-Ensures : (pod : Pod) → Ensures IsRead (All (IsOurs env)) (pod_pvcs env pod)
  unfolding pod_pvcs
  pod_pvcs-Ensures pod = Ensures-bind (pod_volumes-Ensures _ _ pod.volumes tt) (λ s ours.
      Ensures-bind {R = λ _. Unit} (Ensures-lift _ (any_result (error_or_nil s.errors)))
        (λ _ _. Ensures-pure _ ours))
    where
      any_result : (r : Result Unit) → OkHas (λ _. Unit) r
      any_result (ok a) = tt
      any_result (err e) = tt
      any_result (panic f) = tt

  VolumesFor-snoc :
      (ks : List ObjectKey) (vs : List Volume) (k : ObjectKey) (v : Volume)
      → VolumesFor ks vs
      → v.name ≡ k.name
      → VolumesFor (ks ++ k ∷ []) (vs ++ v ∷ [])
  VolumesFor-snoc [] [] k v f e = (e, tt)
  VolumesFor-snoc (j ∷ ks) (w ∷ vs) k v f e = (f.0, VolumesFor-snoc ks vs k v f.1 e)
  VolumesFor-snoc [] (w ∷ vs) k v f e = absurd f
  VolumesFor-snoc (j ∷ ks) [] k v f e = absurd f

  stos_volumes_from-Ensures :
      (done_keys : List ObjectKey) (vs : List Volume) (ks : List ObjectKey)
      → VolumesFor done_keys vs
      → Ensures IsRead (VolumesFor (done_keys ++ ks)) (stos_volumes_from env vs ks)
  unfolding stos_volumes_from
  stos_volumes_from-Ensures ds vs [] f = Ensures-pure vs (rw append-nil f)
  stos_volumes_from-Ensures ds vs (k ∷ ks) f =
      Ensures-bind {R = λ v. v.name ≡ k.name}
        (Ensures-handle (get_volume-Ensures env k) (λ v e. Ensures-pure v e) (λ e. Ensures-throw _))
        (λ v e. rw (← append_assoc ds (k ∷ []) ks) (
          stos_volumes_from-Ensures (ds ++ k ∷ []) (vs ++ v ∷ []) ks
            (VolumesFor-snoc ds vs k v f e)))

  -- `stosVolumes` only reads, and returns one volume for each key, of the key's name.
  pub stos_volumes-Ensures :
      (ks : List ObjectKey) → Ensures IsRead (VolumesFor ks) (stos_volumes env ks)
  unfolding stos_volumes
  stos_volumes-Ensures ks = stos_volumes_from-Ensures [] [] ks tt
