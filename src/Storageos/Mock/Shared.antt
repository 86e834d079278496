-- ===== src/Storageos/Mock/Shared.antt =====
-- The shared volumes of internal/pkg/storageos/mock_client.go.
use api_manager.Base.{String, none, some, List, ◌==◌, ◌<>◌, not, map, eqb, if◌then◌else◌}
use api_manager.Base.Dict.{lookup, insert, only}
use api_manager.Storageos.SharedVolume.{SharedVolume}
use api_manager.World.Errors.{ok, err, message}
use api_manager.Storageos.Mock.{MockClient, Mocked, Pointer, unless, found_or}

abbrev pub volume_name : (id namespace : String) → String
volume_name id namespace = namespace <> "/" <> id

unfoldable pub mock_list_shared_volumes : Mocked (List Pointer)
mock_list_shared_volumes c = unless c.errors.shared_vols c (ok (map (λ (k, p). p) c.sharedvols), c)

abbrev written : (Pointer → SharedVolume) → Pointer → SharedVolume → Pointer → SharedVolume
written heap p v q = if eqb p q then v else heap q

unfoldable pub mock_set_external_endpoint : (id namespace endpoint : String) → Mocked Unit
unfolding lookup
mock_set_external_endpoint id namespace endpoint c =
    unless c.errors.set_endpoint c (elim (lookup (volume_name id namespace) c.sharedvols) [
      | none ↦ (err (message "volume not found"), c)
      | some p ↦ (
        ok tt,
        record c { heap = written c.heap p (record (c.heap p) { external_endpoint = endpoint }) },
      )
    ])

unfoldable pub get_shared : (id namespace : String) → Mocked Pointer
unfolding lookup
get_shared id namespace c =
    unless c.errors.shared_vol c
      (found_or (message "volume not found") (lookup (volume_name id namespace) c.sharedvols), c)

-- `Set`, which keeps the pointer.
unfoldable pub set_shared : Pointer → MockClient → MockClient
unfolding insert
set_shared p c = record c {
  sharedvols = insert (volume_name (c.heap p).id (c.heap p).namespace) p c.sharedvols;
}

unfoldable pub delete_shared : (id namespace : String) → MockClient → MockClient
delete_shared id namespace c = record c {
  sharedvols = only (λ k. not (k == volume_name id namespace)) c.sharedvols;
}
