-- ===== src/World/Env.antt =====
-- What the other systems answer: any function of the calls made so far. So an answer may depend on
-- all that was written before. Nothing else is assumed of them here.
use api_manager.Base.{ℕ, String, List}
use api_manager.World.Objects.{
  ObjectKey, Pod, Pvc, Pv, VolumeAttachment, StorageClass, Bytes, Secret, Service, Endpoints,
  Namespace, ApiNode, Volume,
}
use api_manager.World.Errors.{ApiFailure}
use api_manager.World.Calls.{Call}
use api_manager.World.Setup.{Setup}

-- The calls so far, the latest first.
abbrev pub History : Type 0
History = List Call

pub data Reply (E A : Type 0) : Type 0 where
  done : A → Reply E A
  failed : E → Reply E A

-- A failure of the Kubernetes API is the reason of its status.
abbrev pub KubeReply : Type 0 → Type 0
KubeReply = Reply String

abbrev pub ApiReply : Type 0 → Type 0
ApiReply = Reply ApiFailure

pub record Env : Type 0 where
  pub node_exists : History → ObjectKey → KubeReply Unit
  pub pvc_at : History → ObjectKey → KubeReply Pvc
  pub pv_at : History → ObjectKey → KubeReply Pv
  pub storage_class_at : History → ObjectKey → KubeReply StorageClass
  pub secret_at : History → ObjectKey → KubeReply Secret
  pub service_at : History → ObjectKey → KubeReply Service
  pub endpoints_at : History → ObjectKey → KubeReply Endpoints
  pub pods_on : History → String → KubeReply (List Pod)
  pub attachments_on : History → String → KubeReply (List VolumeAttachment)
  pub storage_classes : History → KubeReply (List StorageClass)
  -- a write to Kubernetes; the object that comes back, where the code reads it
  pub kube_write : History → Call → KubeReply Unit
  pub secret_created : History → Secret → KubeReply Secret
  pub service_updated : History → Service → KubeReply Service
  pub namespaces : History → ApiReply (List Namespace)
  pub nodes : History → ApiReply (List ApiNode)
  pub volumes_in : History → String → ApiReply (List Volume)
  pub volume_at : History → String → String → ApiReply Volume
  pub api_write : History → Call → ApiReply Unit
  -- the header "Authorization" of the response
  pub token_refreshed : History → ApiReply String
  pub authenticated : History → String → String → ApiReply String
  pub random : History → ℕ → Reply String Bytes
  pub uuid : History → String
  pub file_at : History → String → Reply String String
  pub set_up : History → Setup → Reply String Unit
