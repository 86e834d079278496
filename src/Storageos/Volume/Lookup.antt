-- ===== src/Storageos/Volume/Lookup.antt =====
-- What the lookups of internal/pkg/storageos/volume.go and namespace.go call and return.
use mathlib.Core.Logic.{if_pos, if_neg}
use api_manager.World.Client
use api_manager.World.Env.{done, History, Env}
use api_manager.Storageos.Namespace.{get_namespace, find_namespace}
use api_manager.Storageos.Volume.{
  err, ok, Result, Namespace, Volume, List, ObjectKey, String, get_volume, find_volume,
}
use api_manager.World.Trace.{
  Ensures-weaken, Ensures-lift, Ensures-ask_api, Ensures-bind, OkHas, Ensures,
}
use api_manager.World.Calls.{IsRead}
use api_manager.Base.{In, String-discrete, [], refl, arith, ◌∷◌, ◌≡◌}
use api_manager.World.Errors.{panic}

pub find_namespace_named :
    (name : String) (l : List Namespace) → OkHas (λ ns. ns.name ≡ name) (find_namespace name l)
unfolding find_namespace
find_namespace_named name [] = tt
find_namespace_named name (ns ∷ rest) = ground (arith, find_namespace_named name rest)

Picked : String → List Volume → Result Volume → Type 0
Picked name l r = OkHas (λ v. (v.name ≡ name) × In v l) r

Picked-cons :
    (name : String) (v : Volume) (l : List Volume) (r : Result Volume)
    → Picked name l r
    → Picked name (v ∷ l) r
unfolding Picked
Picked-cons name v l (ok w) p = (p.0, In.there p.1)
Picked-cons name v l (err e) p = tt
Picked-cons name v l (panic f) p = tt

find_volume-Picked : (name : String) (l : List Volume) → Picked name l (find_volume name l)
unfolding find_volume Picked
find_volume-Picked name [] = tt
find_volume-Picked name (v ∷ rest) = elim (String-discrete v.name name) [
  | yes p ↦ rw (if_pos _ p) (p, In.here refl)
  | no p ↦ rw (if_neg _ p) (Picked-cons name v rest _ (find_volume-Picked name rest))
]

module _ (env : Env) where
  pub get_namespace-Ensures :
      (key : ObjectKey) → Ensures IsRead (λ ns. ns.name ≡ key.name) (get_namespace env key)
  unfolding get_namespace
  get_namespace-Ensures key =
      Ensures-bind (Ensures-ask_kube_list) (λ l _. Ensures-lift _ (find_namespace_named key.name l))
    where
      Ensures-ask_kube_list : Ensures IsRead (λ _. Unit) (Client.list_namespaces env)
      Ensures-ask_kube_list = Ensures-ask_api _ _ refl (λ h a e. tt)

  -- The volume has the key's name, and the StorageOS API listed it in a namespace of that name.
  pub record IsListed (key : ObjectKey) (vol : Volume) : Type 0 where
    pub named : vol.name ≡ key.name
    pub at : History
    pub ns : Namespace
    pub in_namespace : ns.name ≡ key.namespace
    pub volumes : List Volume
    pub listed : env.volumes_in at ns.id ≡ done volumes
    pub among : In vol volumes

  -- A lookup of a volume only reads, and returns a listed volume of the key's name.
  pub get_volume-IsListed : (key : ObjectKey) → Ensures IsRead (IsListed key) (get_volume env key)
  unfolding get_volume Picked
  get_volume-IsListed key = Ensures-bind (get_namespace-Ensures _) (λ ns same.
      Ensures-bind {R = λ l. (h : History) × (env.volumes_in h ns.id ≡ done l)}
        (Ensures-ask_api _ _ refl (λ h a e. (h, e)))
        (λ l found.
          Ensures-lift _
            (go ns same l found (find_volume key.name l) (find_volume-Picked key.name l))))
    where
      go :
          (ns : Namespace)
          → ns.name ≡ key.namespace
          → (l : List Volume) → (h : History) × (env.volumes_in h ns.id ≡ done l)
          → (r : Result Volume) → Picked key.name l r
          → OkHas (IsListed key) r
      go ns same l found (ok v) p = record {
        named = p.0;
        at = found.0;
        ns = ns;
        in_namespace = same;
        volumes = l;
        listed = found.1;
        among = p.1;
      }
      go ns same l found (err e) p = tt
      go ns same l found (panic f) p = tt

  pub get_volume-Ensures :
      (key : ObjectKey) → Ensures IsRead (λ v. v.name ≡ key.name) (get_volume env key)
  get_volume-Ensures key = Ensures-weaken (λ c r. r) (λ v l. l.named) (get_volume-IsListed key)
