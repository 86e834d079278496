-- ===== src/Storageos/SharedVolume.antt =====
-- internal/pkg/storageos/shared_volume_types.go and internal/pkg/endpoint/endpoint.go: a shared
-- volume, and the service and the endpoints that it wants.
pub mod Matches
pub mod Updates
pub mod Listing
use api_manager.Base.{
  eqb, true, not, ◌&&◌, ◌||◌, ◌==◌, ◌!=◌, false, none, [], if◌then◌else◌, ◌∷◌, some, Bool, ℕ,
  String, Option, List,
}
use api_manager.World.Objects.{
  Endpoints, Service, EndpointPort, EndpointSubset, OwnerReference, ServicePort,
}
use api_manager.Go.Strconv.{atoi, pos, int32, Parsed, ℤ}
use api_manager.World.Errors.{number, message, err, Result, ok}

abbrev pub nfs_port : ℕ
nfs_port = 2049

abbrev pub nfs_port_name : String
nfs_port_name = "nfs"

abbrev pub nfs_protocol : String
nfs_protocol = "TCP"

abbrev pub volume_id_label_name : String
volume_id_label_name = "storageos.com/volume-id"

abbrev pub label_nfs_mount_endpoint : String
label_nfs_mount_endpoint = "storageos.com/nfs/mount-endpoint"

abbrev pub label_pv_name : String
label_pv_name = "csi.storage.k8s.io/pv/name"

abbrev pub label_pvc_name : String
label_pvc_name = "csi.storage.k8s.io/pvc/name"

abbrev pub label_pvc_namespace : String
label_pvc_namespace = "csi.storage.k8s.io/pvc/namespace"

-- `corev1.ServiceTypeClusterIP`
abbrev pub service_type_cluster_ip : String
service_type_cluster_ip = "ClusterIP"

pub record SharedVolume : Type 0 where
  pub id : String
  pub service_name : String
  pub pvc_name : String
  pub namespace : String
  pub internal_endpoint : String
  pub external_endpoint : String

abbrev pub new_shared_volume :
    (id pv_name pvc_name pvc_namespace int_endpoint ext_endpoint : String) → SharedVolume
new_shared_volume id pv_name pvc_name pvc_namespace int_endpoint ext_endpoint = record {
  id = id;
  service_name = pv_name;
  pvc_name = pvc_name;
  namespace = pvc_namespace;
  internal_endpoint = int_endpoint;
  external_endpoint = ext_endpoint;
}

-- `IsEqual`; `none` is the nil pointer.
unfoldable pub is_equal : SharedVolume → Option SharedVolume → Bool
is_equal v none = false
is_equal v (some obj) =
    if obj.service_name != v.service_name
      || obj.pvc_name != v.pvc_name
      || obj.namespace != v.namespace
      || obj.internal_endpoint != v.internal_endpoint
      || obj.external_endpoint != v.external_endpoint
    then false
    else true

-- `net.SplitHostPort`: the host and the port, or nothing for a text without them.
abbrev pub Splitter : Type 0
Splitter = String → Option (String × String)

abbrev with_port : String → Parsed ℤ → Result (String × ℤ)
with_port address r = elim r.error [ none ↦ ok (address, r.value) | some e ↦ err (number e) ]

module _ (split_host_port : Splitter) where
  unfoldable pub split_address_port : String → Result (String × ℤ)
  split_address_port endpoint = elim (split_host_port endpoint) [
    | none ↦ err (message "invalid address")
    | some parts ↦ with_port parts.0 (atoi parts.1)
  ]

  unfoldable pub internal_address : SharedVolume → String
  internal_address v = elim (split_address_port v.internal_endpoint) [ ok p ↦ p.0 | _ ↦ "" ]

  unfoldable pub internal_port : SharedVolume → ℤ
  internal_port v = elim (split_address_port v.internal_endpoint) [ ok p ↦ p.1 | _ ↦ pos 0 ]

  abbrev pub service_port : SharedVolume → ServicePort
  service_port v = record {
    name = nfs_port_name;
    port = nfs_port;
    protocol = nfs_protocol;
    target_port = int32 (internal_port v);
  }

  unfoldable pub service : SharedVolume → OwnerReference → Service
  service v owner_ref = record {
    name = v.service_name;
    namespace = v.namespace;
    labels = some ((volume_id_label_name, v.id) ∷ []);
    owner_references = owner_ref ∷ [];
    type = service_type_cluster_ip;
    cluster_ip = "";
    ports = service_port v ∷ [];
  }

  unfoldable pub ports_are_equal : SharedVolume → List ServicePort → Bool
  ports_are_equal v (p ∷ []) =
      if p.name != nfs_port_name
        || not (eqb p.port nfs_port)
        || p.protocol != nfs_protocol
        || not (eqb p.target_port (int32 (internal_port v)))
      then false
      else true
  ports_are_equal v _ = false

  unfoldable pub service_is_equal : SharedVolume → Service → Bool
  unfolding ports_are_equal
  service_is_equal v svc =
      if svc.name != v.service_name
        || svc.namespace != v.namespace
        || svc.type != service_type_cluster_ip
      then false
      else ports_are_equal v svc.ports

  unfoldable pub updated_ports : SharedVolume → List ServicePort → List ServicePort
  updated_ports v (p ∷ []) = record p { target_port = int32 (internal_port v) } ∷ []
  updated_ports v _ = service_port v ∷ []

  unfoldable pub service_update : SharedVolume → Service → Service
  unfolding updated_ports
  service_update v svc = record svc { ports = updated_ports v svc.ports }

  abbrev pub endpoint_port : SharedVolume → EndpointPort
  endpoint_port v = record {
    name = nfs_port_name;
    port = int32 (internal_port v);
    protocol = nfs_protocol;
  }

  abbrev pub endpoint_subset : SharedVolume → EndpointSubset
  endpoint_subset v = record { addresses = internal_address v ∷ []; ports = endpoint_port v ∷ [] }

  unfoldable pub endpoints : SharedVolume → Endpoints
  endpoints v = record {
    name = v.service_name;
    namespace = v.namespace;
    labels = some ((volume_id_label_name, v.id) ∷ []);
    subsets = endpoint_subset v ∷ [];
  }

  unfoldable pub subset_is_equal : SharedVolume → EndpointSubset → Bool
  subset_is_equal v s = elim s.addresses [
    | [] ↦ false
    | ip ∷ _ ↦ elim s.ports [
      | [] ↦ false
      | p ∷ _ ↦
          ip == internal_address v
          && p.name == nfs_port_name
          && eqb p.port (int32 (internal_port v))
          && p.protocol == nfs_protocol
    ]
  ]

  unfoldable pub subsets_are_equal : SharedVolume → List EndpointSubset → Bool
  unfolding subset_is_equal
  subsets_are_equal v (s ∷ []) = subset_is_equal v s
  subsets_are_equal v _ = false

  unfoldable pub endpoints_is_equal : SharedVolume → Endpoints → Bool
  unfolding subsets_are_equal
  endpoints_is_equal v e =
      if e.name != v.service_name || e.namespace != v.namespace
      then false
      else subsets_are_equal v e.subsets

  abbrev pub updated_subset : SharedVolume → List String → List EndpointPort → List EndpointSubset
  updated_subset v (ip ∷ []) (p ∷ []) =
      record {
        addresses = internal_address v ∷ [];
        ports = record p { port = int32 (internal_port v) } ∷ [];
      }
      ∷ []
  updated_subset v _ _ = endpoint_subset v ∷ []

  unfoldable pub updated_subsets : SharedVolume → List EndpointSubset → List EndpointSubset
  updated_subsets v (s ∷ []) = updated_subset v s.addresses s.ports
  updated_subsets v _ = endpoint_subset v ∷ []

  unfoldable pub endpoints_update : SharedVolume → Endpoints → Endpoints
  unfolding updated_subsets
  endpoints_update v e = record e { subsets = updated_subsets v e.subsets }
