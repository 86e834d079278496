-- ===== src/Tests/Polling.antt =====
-- Polls of the sample nodes over a small cache, and the resyncs of labels.
use api_manager.Storageos.Namespace
use api_manager.Tests.World.{healthy_cluster, cluster, sample_api_node, sample_node, sample_pvc}
use api_manager.Cache.{Store}
use api_manager.Cache.Remembered.{
  IsCache, Memory, fresh, remember, misses, news, cache_miss-refines,
}
use api_manager.Cache.Observed.{after}
use api_manager.Fencer.Poller.{poll_nodes, get_object, Object}
use api_manager.Fencer.Poller.Observed.{node_cr_key, polled-get_object}
use api_manager.NodeLabel.{K8sNode, stale_nodes}
use api_manager.NodeLabel.Stale.{Differs, stale_nodes_iff}
use api_manager.PvcLabel.{stale_claims}
use api_manager.PvcLabel.Stale.{HasStaleNamesake, stale_claims-Ensures}
use api_manager.World.Ending.{NoError, NoFault, Ending}
use api_manager.Base.{
  none, map, ◌↔◌, inr, inl, All, ==_refl, In, refl, some, Bool-cases, not, false, if◌then◌else◌,
  arith, Bool, true, [], ◌∷◌, ◌≡◌, ap, String-discrete, List, ℕ,
}
use api_manager.Storageos.Node.{
  node_to_cr, node_health_offline, node_health_online, Node, NodeHealth,
}
use api_manager.World.Trace.{Ensures}
use api_manager.World.Errors.{ok}
use api_manager.World.Calls.{IsRead}
use api_manager.World.Env.{done}
use api_manager.World.Monad.{ask_api, ◌>>=◌}
use api_manager.Storageos.Volume.{get_volumes, volume_objects}
use api_manager.Storageos.Index.{indexed}

abbrev sample_expiry : ℕ
sample_expiry = 100

-- A cache whose state is the memory itself.
abbrev sample_store : Store (Memory Node) Node
sample_store = record {
  empty = λ k. none;
  get = λ now k s. fresh sample_expiry now (s k);
  set = λ now k a s. remember k now a s;
}

sample_laws : IsCache sample_store sample_expiry
sample_laws = record {
  get-empty = λ t k. refl;
  get-set = λ t t' k a s le.
      ap (λ b. fresh sample_expiry t' (if b then some (t, a) else s k)) (==_refl k);
  get-set_other =
      λ t t' k j a s n. ap (λ b. fresh sample_expiry t' (if b then some (t, a) else s j)) n;
}

abbrev is_down : NodeHealth → Bool
is_down node_health_offline = true
is_down _ = false

-- Nodes that agree on whether they are offline.
abbrev same_health : Node → Node → Bool
same_health a b = if is_down a.health then is_down b.health else not (is_down b.health)

same_health_refl : (n : Node) → same_health n n ≡ true
same_health_refl n = elim (Bool-cases (is_down n.health)) [ inl e ↦ rw e refl | inr e ↦ rw e refl ]

abbrev online_node : Node
online_node = record sample_node { health = node_health_online }

abbrev sample_observations : List (ℕ × Node)
sample_observations =
    (1, online_node)
    ∷ (6, online_node)
    ∷ (11, sample_node)
    ∷ (16, sample_node)
    ∷ (200, sample_node)
    ∷ []

cache_miss-refines_example :
    misses sample_store same_health node_cr_key sample_observations sample_store.empty
    ≡ news sample_expiry same_health node_cr_key sample_observations (λ k. none)
cache_miss-refines_example =
    cache_miss-refines sample_store same_health node_cr_key sample_expiry sample_laws
      sample_observations
      (omega arith, (omega arith, (omega arith, (omega arith, (omega arith, tt)))))

misses_test :
    news sample_expiry same_health node_cr_key sample_observations (λ k. none)
    ≡ true ∷ false ∷ true ∷ false ∷ true ∷ []
unfolding String-discrete
misses_test = refl

polled-get_object_example :
    Ending NoFault NoError
      (λ sent.
        All
          (λ n.
            (x : Node) × (get_object sample_store done 7
                (after sample_store same_health node_cr_key 7 sent (λ k. none))
                n.name
              ≡ ok (Object.node x))
            × (same_health x n ≡ true))
          (map node_to_cr (sample_api_node ∷ []))
        × (sent ≡ map node_to_cr (sample_api_node ∷ [])))
      (poll_nodes healthy_cluster []).0
unfolding cluster
polled-get_object_example =
    polled-get_object sample_store same_health sample_expiry sample_laws same_health_refl done
      (λ n. refl) healthy_cluster [] (sample_api_node ∷ []) 7 (λ k. none) refl (tt, tt)

abbrev relabelled_node : K8sNode
relabelled_node = record { name = "node-1"; labels = none; annotations = none }

stale_nodes_iff_example :
    Ending NoFault NoError
      (λ r. In relabelled_node r ↔ (
        In relabelled_node (relabelled_node ∷ []) × Differs (sample_api_node ∷ []) relabelled_node))
      (stale_nodes healthy_cluster (relabelled_node ∷ []) []).0
unfolding cluster
stale_nodes_iff_example =
    stale_nodes_iff healthy_cluster [] (sample_api_node ∷ []) refl (tt, tt) (relabelled_node ∷ [])
      relabelled_node

-- The sample claim is labelled otherwise than its volume, and is not found.
stale_claims_test : (stale_claims healthy_cluster (sample_pvc ∷ []) []).0 ≡ ok []
unfolding stale_claims cluster ◌>>=◌ volume_objects get_volumes Namespace.list_namespaces ask_api
    indexed
stale_claims_test = refl

stale_claims-Ensures_example :
    Ensures IsRead
      (All (HasStaleNamesake healthy_cluster))
      (stale_claims healthy_cluster (sample_pvc ∷ []))
stale_claims-Ensures_example = stale_claims-Ensures healthy_cluster (sample_pvc ∷ [])
