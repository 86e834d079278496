-- ===== src/Tests/SharedVolumes.antt =====
-- A shared volume, its service and its endpoints.
use api_manager.Tests.World.{healthy_cluster}
use api_manager.Storageos.SharedVolume.{Splitter, SharedVolume, service_is_equal, service_update}
use api_manager.Storageos.SharedVolume.Matches.{IsRepairable, service_update_iff}
use api_manager.Storageos.SharedVolume.Listing.{list_shared_volumes}
use api_manager.Storageos.SharedVolume.Updates.{IsListedShared, list_shared_volumes-Ensures}
use api_manager.Base.{All, [], ◌↔◌, ◌∷◌, true, none, some, ◌≡◌}
use api_manager.World.Trace.{Ensures}
use api_manager.World.Objects.{Service}
use api_manager.World.Calls.{IsRead}

-- Each text is split into one address and one port.
abbrev sample_splitter : Splitter
sample_splitter endpoint = some ("10.0.0.1", "2049")

abbrev sample_shared : SharedVolume
sample_shared = record {
  id = "vol-id";
  service_name = "pv-1";
  pvc_name = "data-0";
  namespace = "app";
  internal_endpoint = "10.0.0.1:2049";
  external_endpoint = "";
}

-- The protocol of the port is another one.
abbrev wrong_service : Service
wrong_service = record {
  name = "pv-1";
  namespace = "app";
  labels = none;
  owner_references = [];
  type = "ClusterIP";
  cluster_ip = "10.1.1.1";
  ports = record { name = "nfs"; port = 2049; protocol = "UDP"; target_port = 1 } ∷ [];
}

service_update_iff_example :
    (service_is_equal sample_splitter sample_shared
        (service_update sample_splitter sample_shared wrong_service)
      ≡ true)
    ↔ ((wrong_service.name ≡ "pv-1")
        × (wrong_service.namespace ≡ "app")
        × (wrong_service.type ≡ "ClusterIP")
        × IsRepairable sample_splitter sample_shared wrong_service.ports)
service_update_iff_example = service_update_iff sample_splitter sample_shared wrong_service

list_shared_volumes-Ensures_example :
    Ensures IsRead
      (All (IsListedShared sample_splitter healthy_cluster))
      (list_shared_volumes sample_splitter healthy_cluster)
list_shared_volumes-Ensures_example = list_shared_volumes-Ensures sample_splitter healthy_cluster
