-- ===== src/NodeLabel/Stale.antt =====
-- Which nodes the resync of controllers/node-label finds, over what StorageOS lists.
use mathlib.Core.Path.{subst}
use api_manager.NodeLabel.{
  Env, deep_equal, pure, ◌>>=◌, ApiNode, List, node_objects, K8sNode, stale_nodes,
}
use api_manager.NodeLabel.Reconcile.{IsStale, In-diff_iff}
use api_manager.Storageos.Index.Laws.{indexed_complete, indexed_sound, DistinctKeys}
use api_manager.Base.{some, ap, false, ◌↔◌, ◌≡◌, In}
use api_manager.World.Monad.{◌>>=◌, pure, ask_api}
use api_manager.Storageos.Node.{node_objects, node_key}
use api_manager.Storageos.Index.{indexed}
use api_manager.World.Env.{done, History}
use api_manager.World.Ending.{NoError, NoFault, Ending}

-- A node of StorageOS with the name and with other labels.
abbrev pub Differs : List ApiNode → K8sNode → Type 0
Differs nodes o =
    (n : ApiNode) × In n nodes × (n.name ≡ o.name) × (deep_equal o.labels n.labels ≡ false)

IsStale-Differs :
    (nodes : List ApiNode) (o : K8sNode)
    → DistinctKeys node_key nodes
    → IsStale (indexed node_key nodes) o ↔ Differs nodes o
IsStale-Differs nodes o d = (forth, back)
  where
    forth : IsStale (indexed node_key nodes) o → Differs nodes o
    forth (n, at, differ) =
        let (i, same) =
          indexed_sound node_key nodes (record { namespace = ""; name = o.name }) n at in
        (n, i, ap (λ k. k.name) same, differ)

    back : Differs nodes o → IsStale (indexed node_key nodes) o
    back (n, i, same, differ) = (
      n,
      subst (λ name. indexed node_key nodes (record { namespace = ""; name = name }) ≡ some n) same
          (indexed_complete node_key nodes n d i),
      differ,
    )

-- If StorageOS lists its nodes, no two of one name, then the resync returns, and a Kubernetes node
-- is among those to be labelled again exactly when it is among the given ones and StorageOS lists a
-- node of its name with other labels.
pub stale_nodes_iff :
    (env : Env) (h : History) (nodes : List ApiNode)
    → env.nodes h ≡ done nodes
    → DistinctKeys node_key nodes
    → (objects : List K8sNode) (o : K8sNode)
    → Ending NoFault NoError
        (λ r. In o r ↔ (In o objects × Differs nodes o))
        (stale_nodes env objects h).0
unfolding stale_nodes node_objects ◌>>=◌ ask_api pure
stale_nodes_iff env h nodes e d objects o = rw e (
    let i = In-diff_iff (indexed node_key nodes) objects o in
    let s = IsStale-Differs nodes o d in
    (λ p. ((i.0 p).0, s.0 (i.0 p).1), λ (p, q). i.1 (p, s.1 q)))
