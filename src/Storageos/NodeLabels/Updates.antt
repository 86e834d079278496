-- ===== src/Storageos/NodeLabels/Updates.antt =====
-- The changes that internal/pkg/storageos/node_labels.go makes to a node.
use api_manager.World.Calls
use api_manager.Storageos.NodeLabels.{
  M, apply_labels, unchanged, Error, get_node_by_key, ok, reserved_label_compute_only, noting,
  is_reserved_label, ObjectKey, String, Env, Bool, get, DesiredNode, no_node_labels,
  node_labels_from, ensure_compute_only, ensure_unreserved_node_labels, ensure_node_labels,
  current_compute_only, is_node_not_found, same_bool,
}
use api_manager.World.Calls.{IsRead, Call}
use api_manager.Base.{refl, ◌∙◌, arith, List, none, ap, true, ◌≢◌, some, false, ◌≡◌}
use api_manager.Go.Maps.{entries, StringMap, get}
use api_manager.World.Trace.{
  OkHas-self, Ensures-handle, Ensures-ask_api, Ensures-weaken, any_result, Ensures-pure, Ensures-if,
  Ensures-lift, Ensures-bind, Ensures,
}
use api_manager.World.Objects.{ApiNode}
use api_manager.Storageos.VolumeLabels.{noting}
use api_manager.Storageos.Node.Lookup.{get_node_by_key-NodeIsListed, NodeIsListed}
use api_manager.Storageos.NodeLabels.Collect.{node_labels_from_reserved}
use api_manager.Base.Dict.{lookup-nil}

same_bool-false : (a b : Bool) → same_bool a b ≡ false → a ≢ b
same_bool-false true b e = ground arith
same_bool-false false b e = ground arith

module _ (env : Env) (key : ObjectKey) where
  -- The calls that applying the collected labels may make.
  abbrev pub NodeLabelCall : DesiredNode → Call → Type 0
  NodeLabelCall d (Calls.set_compute_only id enabled version) =
      (node : ApiNode) × NodeIsListed env key node
      × (id ≡ node.id)
      × (version ≡ node.version)
      × (enabled ≡ d.compute_only)
      × ((current : Bool) × (current_compute_only (get node.labels reserved_label_compute_only)
            ≡ ok current)
          × (current ≢ enabled))
  NodeLabelCall d (Calls.update_node id labels version) =
      (node : ApiNode) × NodeIsListed env key node
      × (id ≡ node.id)
      × (version ≡ node.version)
      × (labels ≡ some d.unreserved)
      × (unchanged node.labels (apply_labels (some d.unreserved) node.labels) ≡ false)
  NodeLabelCall d c = IsRead c

  module _ (d : DesiredNode) where
    read-NodeLabelCall : (c : Call) → IsRead c → NodeLabelCall d c
    read-NodeLabelCall (Calls.set_compute_only id enabled version) r = absurd (cc)
    read-NodeLabelCall (Calls.update_node id labels version) r = absurd (cc)
    read-NodeLabelCall _ r = r

    found : Ensures (NodeLabelCall d) (NodeIsListed env key) (get_node_by_key env key)
    found = Ensures-weaken read-NodeLabelCall (λ v l. l) (get_node_by_key-NodeIsListed env key)

    ensure_compute_only-Ensures :
        Ensures (NodeLabelCall d) (λ _. Unit) (ensure_compute_only env key d.compute_only)
    unfolding ensure_compute_only
    ensure_compute_only-Ensures = Ensures-bind found (λ node l.
        Ensures-bind
          {R = λ b. current_compute_only (get node.labels reserved_label_compute_only) ≡ ok b}
          (Ensures-lift _ (OkHas-self _))
          (λ b e.
            Ensures-if (same_bool b d.compute_only) _ _ (λ _. Ensures-pure _ tt)
              (λ differ.
                Ensures-ask_api _ _
                  (node, l, refl, refl, refl, (b, e, same_bool-false b d.compute_only differ))
                  (λ h a x. tt))))

    ensure_unreserved-Ensures :
        Ensures
          (NodeLabelCall d)
          (λ _. Unit)
          (ensure_unreserved_node_labels env key (some d.unreserved))
    unfolding ensure_unreserved_node_labels
    ensure_unreserved-Ensures = Ensures-bind found (λ node l.
        Ensures-if (unchanged node.labels (apply_labels (some d.unreserved) node.labels)) _ _
          (λ _. Ensures-pure _ tt)
          (λ differ. Ensures-ask_api _ _ (node, l, refl, refl, refl, differ) (λ h a x. tt)))

    noting-Ensures :
        (errors : List Error) (m : M Unit)
        → Ensures (NodeLabelCall d) (λ _. Unit) m
        → Ensures (NodeLabelCall d) (λ _. Unit) (noting is_node_not_found errors m)
    unfolding noting
    noting-Ensures errors m k = Ensures-handle k (λ a _. Ensures-pure _ tt) (λ e. Ensures-pure _ tt)

  -- Applying the labels of a node makes no change but these two, each to a listed node of the key's
  -- name, at the version that was read: it sets the collected compute-only value where the node's
  -- label says the other; and it updates the labels where those of the node are not in step.
  pub ensure_node_labels-Ensures :
      (labels : StringMap)
      → Ensures
          (NodeLabelCall (node_labels_from no_node_labels (entries labels)))
          (λ _. Unit)
          (ensure_node_labels env key labels)
  unfolding ensure_node_labels
  ensure_node_labels-Ensures labels =
      Ensures-bind (noting-Ensures d _ _ (ensure_compute_only-Ensures d)) (λ e _.
        Ensures-bind (noting-Ensures d _ _ (ensure_unreserved-Ensures d))
          (λ e' _. Ensures-lift _ (any_result _)))
    where
      d : DesiredNode
      d = node_labels_from no_node_labels (entries labels)

-- An update of a node carries no reserved label.
abbrev SendsNoReserved : Call → Type 0
SendsNoReserved (Calls.update_node id labels version) =
    (k : String) → is_reserved_label k ≡ true → get labels k ≡ none
SendsNoReserved c = Unit

-- Whatever reserved labels a node has, an update of its labels that `EnsureNodeLabels` sends
-- carries none of them: they are compared, and then not sent.
ensure_node_labels_reserved :
    (env : Env) (key : ObjectKey) (labels : StringMap)
    → Ensures SendsNoReserved (λ _. Unit {0}) (ensure_node_labels env key labels)
unfolding get
ensure_node_labels_reserved env key labels =
    Ensures-weaken sent (λ _ _. tt) (ensure_node_labels-Ensures env key labels)
  where
    sent :
        (c : Call)
        → NodeLabelCall env key (node_labels_from no_node_labels (entries labels)) c
        → SendsNoReserved c
    sent (Calls.update_node id _ version) (node, l, i, v, e, differ) = λ k r.
        ap (λ m. get m k) e
        ∙ node_labels_from_reserved no_node_labels (entries labels) k r
        ∙ lookup-nil k
    sent _ c = tt
