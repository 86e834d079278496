-- ===== src/Storageos/Mock/Objects.antt =====
-- The namespaces, nodes and volumes of internal/pkg/storageos/mock_client.go.
use api_manager.Base.{
  ℕ, suc, String, Bool, true, false, none, some, List, [], not, map, if◌then◌else◌, String-discrete,
}
use api_manager.Base.Dict.{Dict}
use api_manager.Storageos.Index.{same_key}
use api_manager.Storageos.Node.{NodeHealth, node_health_online, node_health_offline}
use api_manager.World.Errors.{
  ok, err, error_or_nil, node_not_found, namespace_not_found, volume_not_found,
}
use api_manager.World.Objects.{ObjectKey}
use api_manager.Storageos.Mock.{
  MockObject, MockClient, Keyed, Mocked, find, remove, put, unless, found_or, exists, kept_labels,
  accepted_of_node, accepted_of_volume,
}

abbrev counted_at : (ObjectKey → ℕ) → ObjectKey → ObjectKey → ℕ
counted_at f k j = if same_key k j then suc (f j) else f j

abbrev pub key_of : MockObject → ObjectKey
key_of o = record { namespace = o.namespace; name = o.name }

unfoldable pub mock_list_namespaces : Mocked (List MockObject)
mock_list_namespaces c = unless c.errors.list_namespaces c (ok (map (λ (k, o). o) c.namespaces), c)

unfoldable pub add_namespace : ObjectKey → MockClient → MockClient
add_namespace key c = record c {
  namespaces =
      put key (record { id = ""; name = key.name; namespace = ""; labels = none; healthy = false })
        c.namespaces;
}

unfoldable pub namespace_exists : ObjectKey → MockClient → Bool
unfolding find
namespace_exists key c = exists (find key c.namespaces)

unfoldable pub mock_delete_namespace : ObjectKey → Mocked Unit
unfolding find remove String-discrete
mock_delete_namespace key c =
    let d = record c { delete_namespace_calls = counted_at c.delete_namespace_calls key } in
    unless d.errors.delete_namespace d (
      if not (exists (find key d.namespaces))
      then (err namespace_not_found, d)
      else (ok tt, record d { namespaces = remove key d.namespaces }))

unfoldable pub mock_node_objects : Mocked (Keyed MockObject)
mock_node_objects c = unless c.errors.node_objects c (ok c.nodes, c)

abbrev listed_node : MockObject → String × NodeHealth
listed_node o = (o.name, if not o.healthy then node_health_offline else node_health_online)

-- The name and the health of each node.
unfoldable pub mock_list_nodes : Mocked (List (String × NodeHealth))
mock_list_nodes c = unless c.errors.list_nodes c (ok (map (λ (k, o). listed_node o) c.nodes), c)

unfoldable pub add_node : MockObject → MockClient → MockClient
add_node o c = record c { nodes = put (key_of o) o c.nodes }

unfoldable pub node_exists : ObjectKey → MockClient → Bool
unfolding find
node_exists key c = exists (find key c.nodes)

unfoldable pub mock_delete_node : ObjectKey → Mocked Unit
unfolding find remove String-discrete
mock_delete_node key c =
    let d = record c { delete_node_calls = counted_at c.delete_node_calls key } in
    unless d.errors.delete_node d (
      if not (exists (find key d.nodes))
      then (err node_not_found, d)
      else (ok tt, record d { nodes = remove key d.nodes }))

unfoldable pub mock_ensure_node_labels : ObjectKey → Dict String → Mocked Unit
unfolding kept_labels
mock_ensure_node_labels key labels c =
    let (new, errors) = kept_labels accepted_of_node ([], []) labels in
    unless c.errors.ensure_node_labels c (error_or_nil errors, record c { node_labels = new })

unfoldable pub get_node_labels : ObjectKey → Mocked (Dict String)
get_node_labels key c = unless c.errors.get_node_labels c (ok c.node_labels, c)

unfoldable pub add_volume : MockObject → MockClient → MockClient
add_volume o c = record c { volumes = put (key_of o) o c.volumes }

abbrev with_health : ObjectKey → Bool → Keyed MockObject → Bool × Keyed MockObject
with_health key healthy m = elim (find key m) [
  | none ↦ (false, m)
  | some o ↦ (true, put key (record o { healthy = healthy }) m)
]

unfoldable pub update_node_health : ObjectKey → (healthy : Bool) → MockClient → Bool × MockClient
unfolding find
update_node_health key healthy c =
    let (updated, nodes) = with_health key healthy c.nodes in (updated, record c { nodes = nodes })

unfoldable pub update_volume_health : ObjectKey → (healthy : Bool) → MockClient → Bool × MockClient
unfolding find
update_volume_health key healthy c =
    let (updated, volumes) = with_health key healthy c.volumes in
    (updated, record c { volumes = volumes })

unfoldable pub mock_get_volume : ObjectKey → Mocked MockObject
unfolding find
mock_get_volume key c =
    unless c.errors.get_volume c (found_or volume_not_found (find key c.volumes), c)

-- The error is that of `ListNodes`.
unfoldable pub mock_volume_objects : Mocked (Keyed MockObject)
mock_volume_objects c = unless c.errors.list_nodes c (ok c.volumes, c)

unfoldable pub mock_ensure_volume_labels : ObjectKey → Dict String → Mocked Unit
unfolding kept_labels find
mock_ensure_volume_labels key labels c =
    let (new, errors) = kept_labels accepted_of_volume ([], []) labels in
    unless c.errors.ensure_volume_labels c (elim (find key c.volumes) [
      | none ↦ (err volume_not_found, c)
      | some o ↦ (
        error_or_nil errors,
        record c {
          volumes =
              put key
                (record {
                  id = o.id;
                  name = o.name;
                  namespace = o.namespace;
                  labels = some new;
                  healthy = false;
                })
                c.volumes;
        },
      )
    ])
