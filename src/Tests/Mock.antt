-- ===== src/Tests/Mock.antt =====
-- The client in memory, with one volume.
use api_manager.Base.{
  some, String, ◌≡◌, ◌↔◌, refl, true, all, [], ◌∷◌, is_empty, String-discrete, none,
}
use api_manager.Base.Dict.{Dict}
use api_manager.Storageos.Mock.{MockObject, MockClient, new_mock_client, find}
use api_manager.Storageos.Mock.Objects.{mock_ensure_volume_labels, key_of}
use api_manager.Storageos.Mock.Agreement.{Succeeds, mock_ensure_volume_labels_iff, is_number}
use api_manager.Storageos.SharedVolume.{SharedVolume}
use api_manager.Storageos.VolumeLabels.{ensure_volume_labels, volume_labels_from, nothing_desired}
use api_manager.World.Errors.{ok}
use api_manager.Tests.World.{healthy_cluster}

abbrev blank_volume : SharedVolume
blank_volume = record {
  id = "";
  service_name = "";
  pvc_name = "";
  namespace = "";
  internal_endpoint = "";
  external_endpoint = "";
}

abbrev memory_volume : MockObject
memory_volume = record {
  id = "id";
  name = "pv-1";
  namespace = "app";
  labels = none;
  healthy = true;
}

abbrev memory : MockClient
memory = record (new_mock_client (λ p. blank_volume)) {
  volumes = (key_of memory_volume, memory_volume) ∷ [];
}

abbrev memory_labels : Dict String
memory_labels = ("storageos.com/replicas", "two") ∷ ("tier", "db") ∷ []

mock_ensure_volume_labels_iff_example :
    ((is_empty (volume_labels_from nothing_desired memory_labels).errors ≡ true) ↔ (
      ((mock_ensure_volume_labels (key_of memory_volume) memory_labels memory).0 ≡ ok tt)
      × (all (λ (k, v). is_number k v) memory_labels ≡ true)))
    × Succeeds
        (((mock_ensure_volume_labels (key_of memory_volume) memory_labels memory).0 ≡ ok tt)
          × (all (λ (k, v). is_number k v) memory_labels ≡ true))
        (ensure_volume_labels healthy_cluster (key_of memory_volume) (some memory_labels))
unfolding find String-discrete
mock_ensure_volume_labels_iff_example =
    mock_ensure_volume_labels_iff healthy_cluster (key_of memory_volume) memory_labels memory
      memory_volume refl refl
