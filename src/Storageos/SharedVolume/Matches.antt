-- ===== src/Storageos/SharedVolume/Matches.antt =====
-- When the objects of internal/pkg/storageos/shared_volume_types.go match a shared volume.
use api_manager.Storageos.SharedVolume.{
  EndpointPort, String, ServicePort, EndpointSubset, Service, List, OwnerReference, Endpoints, some,
  Splitter, SharedVolume, is_equal, service, service_is_equal, service_update, ports_are_equal,
  updated_ports, endpoints, endpoints_is_equal, endpoints_update, subsets_are_equal, updated_subset,
  updated_subsets, nfs_port, nfs_port_name, nfs_protocol, service_type_cluster_ip,
}
use api_manager.Base.{[], ◌↔◌, arith, true, ◌∷◌, ◌≡◌}

-- Two shared volumes count as equal exactly when all their texts but the identifier are.
pub is_equal_iff :
    (v w : SharedVolume)
    → (is_equal v (some w) ≡ true) ↔ (
        (w.service_name ≡ v.service_name)
        × (w.pvc_name ≡ v.pvc_name)
        × (w.namespace ≡ v.namespace)
        × (w.internal_endpoint ≡ v.internal_endpoint)
        × (w.external_endpoint ≡ v.external_endpoint))
unfolding is_equal
is_equal_iff v w = ground arith

module _ (split_host_port : Splitter) (v : SharedVolume) where
  -- The service and the endpoints that are created for a shared volume match it, whatever its
  -- endpoint.
  pub created_match :
      (owner : OwnerReference)
      → (service_is_equal split_host_port v (service split_host_port v owner) ≡ true)
        × (endpoints_is_equal split_host_port v (endpoints split_host_port v) ≡ true)
  unfolding service_is_equal service endpoints_is_equal endpoints
  created_match owner = (ground arith, ground arith)

  -- The ports that an update of a service leaves matching: a single port has the fixed name, number
  -- and protocol, since only its target is written; any other list is replaced.
  abbrev pub IsRepairable : List ServicePort → Type 0
  IsRepairable (p ∷ []) =
      (p.name ≡ nfs_port_name) × (p.port ≡ nfs_port) × (p.protocol ≡ nfs_protocol)
  IsRepairable _ = Unit

  repaired :
      (ports : List ServicePort)
      → (ports_are_equal split_host_port v (updated_ports split_host_port v ports) ≡ true)
        ↔ IsRepairable ports
  unfolding ports_are_equal updated_ports
  repaired [] = ground arith
  repaired (p ∷ []) = ground arith
  repaired (p ∷ q ∷ ps) = ground arith

  -- A service matches after its update exactly when its name, namespace and type were right, and
  -- its ports were not a single port with another name, number or protocol.
  pub service_update_iff :
      (svc : Service)
      → (service_is_equal split_host_port v (service_update split_host_port v svc) ≡ true) ↔ (
          (svc.name ≡ v.service_name)
          × (svc.namespace ≡ v.namespace)
          × (svc.type ≡ service_type_cluster_ip)
          × IsRepairable svc.ports)
  unfolding service_is_equal service_update
  service_update_iff svc = ground (arith, repaired svc.ports)

  -- The subsets that an update of endpoints leaves matching: a single subset of one address and one
  -- port has the fixed name and protocol at that port; anything else is replaced.
  abbrev pub IsSubsetRepairable : List String → List EndpointPort → Type 0
  IsSubsetRepairable (ip ∷ []) (p ∷ []) = (p.name ≡ nfs_port_name) × (p.protocol ≡ nfs_protocol)
  IsSubsetRepairable _ _ = Unit

  abbrev pub AreRepairable : List EndpointSubset → Type 0
  AreRepairable (s ∷ []) = IsSubsetRepairable s.addresses s.ports
  AreRepairable _ = Unit

  repaired_subset :
      (addresses : List String) (ports : List EndpointPort)
      → (subsets_are_equal split_host_port v (updated_subset split_host_port v addresses ports)
          ≡ true)
        ↔ IsSubsetRepairable addresses ports
  unfolding subsets_are_equal
  repaired_subset [] ports = ground arith
  repaired_subset (ip ∷ []) [] = ground arith
  repaired_subset (ip ∷ []) (p ∷ []) = ground arith
  repaired_subset (ip ∷ []) (p ∷ q ∷ ps) = ground arith
  repaired_subset (ip ∷ jp ∷ ips) ports = ground arith

  repaired_subsets :
      (subsets : List EndpointSubset)
      → (subsets_are_equal split_host_port v (updated_subsets split_host_port v subsets) ≡ true)
        ↔ AreRepairable subsets
  unfolding subsets_are_equal updated_subsets
  repaired_subsets [] = ground arith
  repaired_subsets (s ∷ []) = repaired_subset s.addresses s.ports
  repaired_subsets (s ∷ t ∷ ss) = ground arith

  -- Endpoints match after their update exactly when their name and namespace were right, and they
  -- were not a single subset of one address and one port whose name or protocol is another.
  pub endpoints_update_iff :
      (e : Endpoints)
      → (endpoints_is_equal split_host_port v (endpoints_update split_host_port v e) ≡ true)
        ↔ ((e.name ≡ v.service_name) × (e.namespace ≡ v.namespace) × AreRepairable e.subsets)
  unfolding endpoints_is_equal endpoints_update
  endpoints_update_iff e = ground (arith, repaired_subsets e.subsets)
