-- ===== src/Labels.antt =====
-- internal/pkg/storageos/labels.go: the reserved labels.
pub mod Laws
use text.Mathlib.Text.{starts_with}
use api_manager.Base.{String, Bool, true, false, ◌||◌, ◌==◌, if◌then◌else◌}

abbrev pub reserved_label_prefix : String
reserved_label_prefix = "storageos.com/"

abbrev pub reserved_label_compute_only : String
reserved_label_compute_only = "storageos.com/computeonly"

abbrev pub reserved_label_replicas : String
reserved_label_replicas = "storageos.com/replicas"

abbrev pub reserved_label_no_cache : String
reserved_label_no_cache = "storageos.com/nocache"

abbrev pub reserved_label_no_compress : String
reserved_label_no_compress = "storageos.com/nocompress"

abbrev pub reserved_label_failure_mode : String
reserved_label_failure_mode = "storageos.com/failure-mode"

abbrev pub reserved_label_encryption : String
reserved_label_encryption = "storageos.com/encryption"

abbrev pub reserved_label_fencing : String
reserved_label_fencing = "storageos.com/fenced"

abbrev pub reserved_label_k8s_pvc_namespace : String
reserved_label_k8s_pvc_namespace = "csi.storage.k8s.io/pvc/namespace"

abbrev pub reserved_label_k8s_pvc_name : String
reserved_label_k8s_pvc_name = "csi.storage.k8s.io/pvc/name"

abbrev pub reserved_label_k8s_pv_name : String
reserved_label_k8s_pv_name = "csi.storage.k8s.io/pv/name"

unfoldable pub is_reserved_label : String → Bool
is_reserved_label key =
    if starts_with key reserved_label_prefix
    then true
    else if key == reserved_label_k8s_pvc_namespace
        || key == reserved_label_k8s_pvc_name
        || key == reserved_label_k8s_pv_name
    then true
    else false
