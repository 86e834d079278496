-- ===== src/Storageos/SharedVolume/Updates.antt =====
-- What the listing of shared volumes returns, and what setting an endpoint changes.
use api_manager.World.Calls
use api_manager.Storageos.SharedVolume.{
  ℤ, err, Result, ok, String, List, Splitter, SharedVolume, split_address_port,
  label_nfs_mount_endpoint, label_pv_name, label_pvc_name, label_pvc_namespace,
}
use api_manager.Storageos.SharedVolume.Listing.{
  shared_volume_of, to_shared_volume, shared_among, shared_volumes_of, list_shared_volumes,
  set_external_endpoint,
}
use api_manager.Storageos.Volume.{get_volume_by_id}
use api_manager.World.Objects.{Namespace, Volume}
use api_manager.World.Env.{done, History, Env}
use api_manager.World.Trace.{
  Ensures-if, Ensures-throw, Ensures-handle, Ensures-pure, Ensures-ask_api, Ensures-weaken,
  Ensures-bind, Ensures,
}
use api_manager.Base.{
  In-right, ◌∙◌, sym, In-left, ap, none, ◌==◌, refl, All-append, arith, [], ◌≢◌, ◌++◌, Option, some,
  ◌∷◌, ◌≡◌, In, All,
}
use api_manager.World.Calls.{Call, IsRead}
use api_manager.Go.Maps.{index}
use api_manager.Storageos.Volume.Lookup.{get_namespace-Ensures}
use api_manager.World.Errors.{panic}

module _ (split_host_port : Splitter) where
  -- The volume has the names of its PV and of its claim, and an endpoint with an address and a
  -- port.
  pub record IsShared (vol : Volume) (sv : SharedVolume) : Type 0 where
    pub endpoint : String
    pub has_endpoint : vol.service_endpoint ≡ some endpoint
    pub same : sv ≡ shared_volume_of vol endpoint
    pub pv : index vol.labels label_pv_name ≢ ""
    pub pvc : index vol.labels label_pvc_name ≢ ""
    pub pvc_namespace : index vol.labels label_pvc_namespace ≢ ""
    pub parts : String × ℤ
    pub parsed : split_address_port split_host_port endpoint ≡ ok parts

  to_shared_volume-IsShared :
      (vol : Volume) (sv : SharedVolume)
      → to_shared_volume split_host_port vol ≡ ok sv
      → IsShared vol sv
  unfolding to_shared_volume
  to_shared_volume-IsShared vol sv e = go vol.service_endpoint refl
    where
      go : (o : Option String) → vol.service_endpoint ≡ o → IsShared vol sv
      go none x = absurd (ground arith)
      go (some endpoint) x = go' (split_address_port split_host_port endpoint) refl
        where
          go' :
              (r : Result (String × ℤ))
              → split_address_port split_host_port endpoint ≡ r
              → IsShared vol sv
          go' (ok p) y = record {
            endpoint = endpoint;
            has_endpoint = x;
            same = ground arith;
            pv = ground arith;
            pvc = ground arith;
            pvc_namespace = ground arith;
            parts = p;
            parsed = y;
          }
          go' (err f) y = absurd (ground arith)
          go' (panic f) y = absurd (ground arith)

  -- The volume was listed in a namespace, and is shared.
  module _ (env : Env) where
    abbrev pub IsListedShared : SharedVolume → Type 0
    IsListedShared sv =
        (h : History) × ((ns : String) × ((volumes : List Volume) × (env.volumes_in h ns
              ≡ done volumes)
            × ((vol : Volume) × In vol volumes × IsShared vol sv)))

    shared_among-All :
        (P : SharedVolume → Type 0) (found : List SharedVolume) (volumes : List Volume)
        → All P found
        → ((vol : Volume) (sv : SharedVolume) → In vol volumes → IsShared vol sv → P sv)
        → All P (shared_among split_host_port found volumes)
    unfolding shared_among
    shared_among-All P found [] a into = a
    shared_among-All P found (vol ∷ rest) a into =
        go (to_shared_volume split_host_port vol) refl
          (λ f af. shared_among-All P f rest af (λ v s i. into v s (In.there i)))
      where
        go :
            (r : Result SharedVolume)
            → to_shared_volume split_host_port vol ≡ r
            → ((f : List SharedVolume) → All P f → All P (shared_among split_host_port f rest))
            → All P (elim r [
              | ok sv ↦ shared_among split_host_port (found ++ sv ∷ []) rest
              | _ ↦ shared_among split_host_port found rest
            ])
        go (ok sv) e next = next _ (
            All-append P found (sv ∷ []) a
              (into vol sv (In.here refl) (to_shared_volume-IsShared vol sv e), tt))
        go (err f) e next = next found a
        go (panic f) e next = next found a

    shared_volumes_of-Ensures :
        (found : List SharedVolume) (namespaces : List Namespace)
        → All IsListedShared found
        → Ensures IsRead
            (All IsListedShared)
            (shared_volumes_of split_host_port env found namespaces)
    unfolding shared_volumes_of
    shared_volumes_of-Ensures found [] a = Ensures-pure _ a
    shared_volumes_of-Ensures found (ns ∷ rest) a =
        Ensures-bind {R = λ l. (h : History) × (env.volumes_in h ns.id ≡ done l)}
          (Ensures-handle {R = λ l. (h : History) × (env.volumes_in h ns.id ≡ done l)}
            (Ensures-ask_api _ _ refl (λ h l e. (h, e))) (λ l at. Ensures-pure _ at)
            (λ e. Ensures-throw _))
          (λ l at. shared_volumes_of-Ensures (shared_among split_host_port found l) rest (
            shared_among-All IsListedShared found l a
              (λ vol sv among is. (at.0, (ns.id, (l, at.1, (vol, among, is)))))))

    -- Listing the shared volumes only reads, and every shared volume that it returns is that of a
    -- listed volume with the names of a PV and a claim, and with an endpoint that can be parsed.
    pub list_shared_volumes-Ensures :
        Ensures IsRead (All IsListedShared) (list_shared_volumes split_host_port env)
    unfolding list_shared_volumes
    list_shared_volumes-Ensures =
        Ensures-bind {R = λ _. Unit {0}} (Ensures-ask_api _ _ refl (λ h a e. tt))
          (λ l _. shared_volumes_of-Ensures [] l tt)

  kept :
      (sv : SharedVolume) (found : List SharedVolume) (volumes : List Volume)
      → In sv found
      → In sv (shared_among split_host_port found volumes)
  unfolding shared_among
  kept sv found [] i = i
  kept sv found (vol ∷ rest) i = go (to_shared_volume split_host_port vol) (λ f j. kept sv f rest j)
    where
      go :
          (r : Result SharedVolume)
          → ((f : List SharedVolume) → In sv f → In sv (shared_among split_host_port f rest))
          → In sv (elim r [
            | ok w ↦ shared_among split_host_port (found ++ w ∷ []) rest
            | _ ↦ shared_among split_host_port found rest
          ])
      go (ok w) next = next _ (In-left (w ∷ []) i)
      go (err f) next = next found i
      go (panic f) next = next found i

  -- The loop over the volumes of a namespace leaves out none of those that are shared, whatever
  -- volumes that are not shared stand among them.
  pub shared_among_complete :
      (found : List SharedVolume) (volumes : List Volume) (vol : Volume) (sv : SharedVolume)
      → In vol volumes
      → to_shared_volume split_host_port vol ≡ ok sv
      → In sv (shared_among split_host_port found volumes)
  unfolding shared_among
  shared_among_complete found [] vol sv i e = elim i [ ]
  shared_among_complete found (v ∷ rest) vol sv (In.here p) e =
      first (to_shared_volume split_host_port v) (ap (to_shared_volume split_host_port) (sym p) ∙ e)
    where
      first :
          (r : Result SharedVolume)
          → r ≡ ok sv
          → In sv (elim r [
            | ok w ↦ shared_among split_host_port (found ++ w ∷ []) rest
            | _ ↦ shared_among split_host_port found rest
          ])
      first (ok w) q = kept sv (found ++ w ∷ []) rest (In-right found (In.here (ground arith)))
      first (err f) q = absurd (cc)
      first (panic f) q = absurd (cc)
  shared_among_complete found (v ∷ rest) vol sv (In.there i) e =
      go (to_shared_volume split_host_port v) (λ f. shared_among_complete f rest vol sv i e)
    where
      go :
          (r : Result SharedVolume)
          → ((f : List SharedVolume) → In sv (shared_among split_host_port f rest))
          → In sv (elim r [
            | ok w ↦ shared_among split_host_port (found ++ w ∷ []) rest
            | _ ↦ shared_among split_host_port found rest
          ])
      go (ok w) next = next _
      go (err f) next = next found
      go (panic f) next = next found

-- The calls of setting the endpoint: the volume was read under its identifier, in a namespace of
-- the given name, and has another endpoint.
abbrev pub EndpointCall : Env → (vol_id endpoint : String) → Call → Type 0
EndpointCall env vol_id endpoint (Calls.update_nfs_mount_endpoint ns id to version) =
    (vol : Volume) × ((h : History) × ((ns_id : String) × (env.volume_at h ns_id vol_id
          ≡ done vol)))
    × (ns ≡ vol.namespace_id)
    × (id ≡ vol.id)
    × (version ≡ vol.version)
    × (to ≡ endpoint)
    × (index vol.labels label_nfs_mount_endpoint ≢ endpoint)
EndpointCall env vol_id endpoint c = IsRead c

read-EndpointCall :
    (env : Env) (vol_id endpoint : String) (c : Call)
    → IsRead c
    → EndpointCall env vol_id endpoint c
read-EndpointCall env vol_id endpoint (Calls.update_nfs_mount_endpoint ns id to version) r =
    absurd (cc)
read-EndpointCall env vol_id endpoint _ r = r

-- Setting the external endpoint of a volume makes no change but one: the volume that was read gets
-- the endpoint, at the version that was read, if its label names another one.
pub set_external_endpoint-Ensures :
    (env : Env) (vol_id namespace endpoint : String)
    → Ensures
        (EndpointCall env vol_id endpoint)
        (λ _. Unit {0})
        (set_external_endpoint env vol_id namespace endpoint)
unfolding set_external_endpoint get_volume_by_id
set_external_endpoint-Ensures env vol_id namespace endpoint =
    Ensures-bind
      {R = λ vol. (h : History) × ((ns_id : String) × (env.volume_at h ns_id vol_id ≡ done vol))}
      (Ensures-bind
        (Ensures-weaken (read-EndpointCall env vol_id endpoint) (λ ns n. n)
          (get_namespace-Ensures env _))
        (λ ns _. Ensures-ask_api _ _ refl (λ h a e. (h, (ns.id, e)))))
      (λ vol at.
        Ensures-if (index vol.labels label_nfs_mount_endpoint == endpoint) _ _
          (λ _. Ensures-pure _ tt)
          (λ differ.
            Ensures-ask_api _ _ (vol, at, refl, refl, refl, refl, ground arith) (λ h a e. tt)))
