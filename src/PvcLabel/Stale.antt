-- ===== src/PvcLabel/Stale.antt =====
-- Which claims the resync of controllers/pvc-label finds, over what StorageOS lists.
use api_manager.PvcLabel.{
  deep_equal, Option, List, Volume, volume_objects, Pvc, ObjectKey, Env, diff, stale_claims,
}
use api_manager.Storageos.Volume.{object_key_from_object, volume_objects, get_volumes, volumes_of}
use api_manager.World.Env.{done, History}
use api_manager.World.Objects.{Namespace}
use api_manager.Base.{
  ap, refl, inr, All-append, All-In, inl, Bool-cases, ◌++◌, [], if◌then◌else◌, All-of_In, none, In,
  ◌∷◌, false, some, All, String, ◌≡◌,
}
use api_manager.World.Trace.{Ensures-ask_api, Ensures-bind, Ensures-pure, Ensures}
use api_manager.Storageos.Namespace.{list_namespaces}
use api_manager.World.Calls.{IsRead}
use api_manager.Storageos.Index.Laws.{indexed_sound}

module _ (env : Env) where
  -- At some time the StorageOS API listed the volume.
  abbrev pub WasListed : Volume → Type 0
  WasListed v =
      (h : History) × ((ns : String) × ((volumes : List Volume) × ((env.volumes_in h ns
              ≡ done volumes)
            × In v volumes)))

  volumes_of-Ensures :
      (volumes : List Volume) (l : List Namespace)
      → All WasListed volumes
      → Ensures IsRead (All WasListed) (volumes_of env volumes l)
  unfolding volumes_of
  volumes_of-Ensures volumes [] k = Ensures-pure _ k
  volumes_of-Ensures volumes (ns ∷ rest) k =
      Ensures-bind {R = All WasListed}
        (Ensures-ask_api _ _ refl
          (λ h l e. All-of_In WasListed l (λ v i. (h, (ns.id, (l, (e, i)))))))
        (λ l kl. volumes_of-Ensures (volumes ++ l) rest (All-append WasListed volumes l k kl))

  volume_objects-Ensures :
      Ensures IsRead
        (λ m.
          (key : ObjectKey) (v : Volume)
          → m key ≡ some v
          → WasListed v × (object_key_from_object v ≡ key))
        (volume_objects env)
  unfolding volume_objects get_volumes list_namespaces
  volume_objects-Ensures =
      Ensures-bind {R = All WasListed}
        (Ensures-bind {R = λ _. Unit {0}} (Ensures-ask_api _ _ refl (λ h l e. tt))
          (λ l _. volumes_of-Ensures [] l tt))
        (λ volumes k. Ensures-pure _ (λ key v e.
          let (i, at) = indexed_sound object_key_from_object volumes key v e in
          (All-In WasListed volumes k i, at)))

  -- A listed volume with other labels, whose name is the claim's own name, and whose namespace has
  -- as its identifier what is the name of the claim's namespace.
  abbrev pub HasStaleNamesake : Pvc → Type 0
  HasStaleNamesake claim =
      (v : Volume) × WasListed v
      × (v.name ≡ claim.name)
      × (v.namespace_id ≡ claim.namespace)
      × (deep_equal claim.labels v.labels ≡ false)

  diff-stale :
      (m : ObjectKey → Option Volume)
      → ((key : ObjectKey) (v : Volume)
          → m key ≡ some v
          → WasListed v × (object_key_from_object v ≡ key))
      → (claims : List Pvc) → All HasStaleNamesake (diff m claims)
  unfolding diff
  diff-stale m k [] = tt
  diff-stale m k (claim ∷ rest) = go (m own) refl (diff-stale m k rest)
    where
      own : ObjectKey
      own = record { namespace = claim.namespace; name = claim.name }

      go :
          (r : Option Volume)
          → m own ≡ r
          → All HasStaleNamesake (diff m rest)
          → All HasStaleNamesake (elim r [
            | none ↦ diff m rest
            | some vol ↦
                if deep_equal claim.labels vol.labels then diff m rest else claim ∷ diff m rest
          ])
      go none e later = later
      go (some v) e later = elim (Bool-cases (deep_equal claim.labels v.labels)) [
        | inl same ↦ rw same later
        | inr differ ↦
            let (listed, at) = k own v e in
            rw differ
              ((v, listed, ap (λ key. key.name) at, ap (λ key. key.namespace) at, differ), later)
      ]

  -- The resync only reads, and each claim that it returns has a listed volume with other labels. That
  -- volume is named as the claim itself, not as the claim's `volumeName`, and the identifier of the
  -- volume's namespace, not its name, is the name of the claim's namespace.
  pub stale_claims-Ensures :
      (claims : List Pvc) → Ensures IsRead (All HasStaleNamesake) (stale_claims env claims)
  unfolding stale_claims
  stale_claims-Ensures claims =
      Ensures-bind volume_objects-Ensures (λ m k. Ensures-pure _ (diff-stale m k claims))
