-- ===== src/World/Objects.antt =====
-- The objects that the code reads and writes, with the fields that it uses: those of the Kubernetes
-- API first, then those of the StorageOS API.
use api_manager.Base.{ℕ, String, Bool, Option, List}
use api_manager.Base.Dict.{Dict}
use api_manager.Go.Maps.{StringMap}

pub record ObjectKey : Type 0 where
  pub namespace : String
  pub name : String

-- `spec.volumes[i]`: the name of the volume's claim, if its source is a claim.
pub record PodVolume : Type 0 where
  pub name : String
  pub claim_name : Option String

pub record Pod : Type 0 where
  pub name : String
  pub namespace : String
  pub labels : StringMap
  pub annotations : StringMap
  pub volumes : List PodVolume
  pub scheduler_name : String

-- A time stamp is in seconds since the zero time of Go.
pub record Pvc : Type 0 where
  pub name : String
  pub namespace : String
  pub uid : String
  pub labels : StringMap
  pub annotations : StringMap
  pub volume_name : String
  pub storage_class_name : Option String
  pub creation_timestamp : ℕ

-- A persistent volume: the driver of its CSI source, if it has one.
pub record Pv : Type 0 where
  pub name : String
  pub csi_driver : Option String

-- `persistent_volume_name` is a pointer: it is nil for an attachment with an inline volume.
pub record VolumeAttachment : Type 0 where
  pub name : String
  pub attacher : String
  pub node_name : String
  pub persistent_volume_name : Option String

pub record StorageClass : Type 0 where
  pub name : String
  pub uid : String
  pub provisioner : String
  pub annotations : StringMap
  pub parameters : StringMap
  pub creation_timestamp : ℕ

-- A byte is a number below 256.
abbrev pub Bytes : Type 0
Bytes = List ℕ

pub record Secret : Type 0 where
  pub key : ObjectKey
  pub labels : StringMap
  pub contents : Option (Dict Bytes)

pub record OwnerReference : Type 0 where
  pub api_version : String
  pub kind : String
  pub name : String
  pub uid : String

-- The `int32` of a port is its bit pattern.
pub record ServicePort : Type 0 where
  pub name : String
  pub port : ℕ
  pub protocol : String
  pub target_port : ℕ

pub record Service : Type 0 where
  pub name : String
  pub namespace : String
  pub labels : StringMap
  pub owner_references : List OwnerReference
  pub type : String
  pub cluster_ip : String
  pub ports : List ServicePort

pub record EndpointPort : Type 0 where
  pub name : String
  pub port : ℕ
  pub protocol : String

-- The IP of each address, and the ports.
pub record EndpointSubset : Type 0 where
  pub addresses : List String
  pub ports : List EndpointPort

pub record Endpoints : Type 0 where
  pub name : String
  pub namespace : String
  pub labels : StringMap
  pub subsets : List EndpointSubset

-- A StorageOS namespace.
pub record Namespace : Type 0 where
  pub id : String
  pub name : String
  pub version : String

pub data ApiHealth : Type 0 where
  online offline other : ApiHealth

-- The addresses of a node's services.
pub record NodeSpec : Type 0 where
  pub io_endpoint : String
  pub supervisor_endpoint : String
  pub gossip_endpoint : String
  pub clustering_endpoint : String

-- The bytes of a node's storage.
pub record CapacityStats : Type 0 where
  pub total : ℕ
  pub free : ℕ
  pub available : ℕ

-- A node as the StorageOS API lists it.
pub record ApiNode : Type 0 where
  pub id : String
  pub name : String
  pub version : String
  pub labels : StringMap
  pub created_at : ℕ
  pub endpoints : NodeSpec
  pub capacity : CapacityStats
  pub health : ApiHealth

-- A volume as the StorageOS API lists it; `healthy` is what its method `IsHealthy` returns.
pub record Volume : Type 0 where
  pub id : String
  pub name : String
  pub namespace_id : String
  pub version : String
  pub labels : StringMap
  pub service_endpoint : Option String
  pub healthy : Bool

pub data FailureModeIntent : Type 0 where
  unset hard soft always_on : FailureModeIntent
