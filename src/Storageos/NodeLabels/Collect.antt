-- ===== src/Storageos/NodeLabels/Collect.antt =====
-- What `EnsureNodeLabels` of internal/pkg/storageos/node_labels.go collects from the labels of a
-- node. Each result is stated by lookups, since Go visits a map in no fixed order.
use mathlib.Core.Option.{or_else}
use api_manager.Storageos.NodeLabels.{
  reserved_label_compute_only, Option, not, String, Dict, Bool, List, number,
  reserved_label_unknown, reserved_label_invalid, wrapped, is_reserved_label, parse_bool,
  DesiredNode, node_labels_from, node_label, no_node_labels,
}
use api_manager.Labels.Laws.{
  replicas-ne-compute_only, failure_mode-ne-compute_only, compute_only-ne-no_cache,
  compute_only-ne-no_compress, compute_only_is_reserved,
}
use api_manager.Base.Dict.{lookup-insert, insert, NodupKeys, lookup}
use api_manager.Base.{
  refl, is_none, arith, all, ◌==◌, ◌∷◌, none, [], ◌&&◌, if◌then◌else◌, true, some, ◌||◌, ◌++◌,
  false, ◌≡◌, is_empty,
}
use api_manager.Go.Strconv.{NumError}

compute_only-node_label :
    (d : DesiredNode) (k v : String)
    → (node_label d k v).compute_only
      ≡ (if k == reserved_label_compute_only then (parse_bool v).value else d.compute_only)
unfolding node_label
compute_only-node_label d k v = ground (
  arith, compute_only_is_reserved, replicas-ne-compute_only, failure_mode-ne-compute_only,
  compute_only-ne-no_cache, compute_only-ne-no_compress,
)

unreserved-node_label :
    (d : DesiredNode) (k v : String)
    → (node_label d k v).unreserved
      ≡ (if is_reserved_label k then d.unreserved else insert k v d.unreserved)
unfolding node_label
unreserved-node_label d k v = ground arith

abbrev compute_only_or : Bool → Option String → Bool
compute_only_or b none = b
compute_only_or b (some v) = (parse_bool v).value

compute_only-node_labels_from :
    (d : DesiredNode) (labels : Dict String)
    → NodupKeys labels
    → (node_labels_from d labels).compute_only
      ≡ compute_only_or d.compute_only (lookup reserved_label_compute_only labels)
unfolding node_labels_from lookup
compute_only-node_labels_from d [] u = refl
compute_only-node_labels_from d ((k, v) ∷ rest) (fresh, u) =
    ground (
      arith,
      compute_only-node_label d k v,
      compute_only-node_labels_from (node_label d k v) rest u,
    )

unreserved-node_labels_from :
    (d : DesiredNode) (labels : Dict String) (j : String)
    → NodupKeys labels
    → lookup j (node_labels_from d labels).unreserved ≡ (
        if is_reserved_label j
        then lookup j d.unreserved
        else or_else (lookup j labels) (lookup j d.unreserved))
unfolding node_labels_from lookup or_else
unreserved-node_labels_from d [] j u = ground arith
unreserved-node_labels_from d ((k, v) ∷ rest) j (fresh, u) = ground (
  arith,
  unreserved-node_label d k v,
  lookup-insert k j v d.unreserved,
  unreserved-node_labels_from (node_label d k v) rest j u,
)

-- No reserved label is ever collected, whatever was collected before.
pub node_labels_from_reserved :
    (d : DesiredNode) (labels : Dict String) (j : String)
    → is_reserved_label j ≡ true
    → lookup j (node_labels_from d labels).unreserved ≡ lookup j d.unreserved
unfolding node_labels_from
node_labels_from_reserved d [] j r = refl
node_labels_from_reserved d ((k, v) ∷ rest) j r = ground (
  arith,
  unreserved-node_label d k v,
  lookup-insert k j v d.unreserved,
  node_labels_from_reserved (node_label d k v) rest j r,
)

-- The label is one that can be applied to a node: it is not reserved, or it says whether the node
-- is compute-only.
unfoldable pub is_node_applicable : String → String → Bool
is_node_applicable k v =
    not (is_reserved_label k) || (k == reserved_label_compute_only && is_none (parse_bool v).error)

is_empty-snoc : {A : Type 0} (l : List A) (a : A) → is_empty (l ++ a ∷ []) ≡ false
is_empty-snoc [] a = refl
is_empty-snoc (x ∷ l) a = refl

errors-node_label :
    (d : DesiredNode) (k v : String)
    → is_empty (node_label d k v).errors ≡ (is_empty d.errors && is_node_applicable k v)
unfolding node_label is_node_applicable
errors-node_label d k v = ground (
  arith,
  replicas-ne-compute_only,
  failure_mode-ne-compute_only,
  compute_only-ne-no_cache,
  compute_only-ne-no_compress,
  is_empty-snoc d.errors (wrapped k reserved_label_invalid),
  is_empty-snoc d.errors (wrapped k reserved_label_unknown),
  is_empty-snoc d.errors (wrapped k (number NumError.syntax)),
  is_empty-snoc d.errors (wrapped k (number NumError.range)),
)

errors-node_labels_from :
    (d : DesiredNode) (labels : Dict String)
    → is_empty (node_labels_from d labels).errors
      ≡ (is_empty d.errors && all (λ (k, v). is_node_applicable k v) labels)
unfolding node_labels_from
errors-node_labels_from d [] = ground arith
errors-node_labels_from d ((k, v) ∷ rest) =
    ground (arith, errors-node_label d k v, errors-node_labels_from (node_label d k v) rest)

-- What is to be applied to the node.
pub record NodeCollected (labels : Dict String) (d : DesiredNode) : Type 0 where
  pub compute_only :
      d.compute_only ≡ compute_only_or false (lookup reserved_label_compute_only labels)
  pub unreserved :
      (k : String) → lookup k d.unreserved ≡ (if is_reserved_label k then none else lookup k labels)
  pub errors : is_empty d.errors ≡ all (λ (k, v). is_node_applicable k v) labels

-- From labels with no key twice, the loop collects what the compute-only label reads as (false
-- where it is missing), and all unreserved labels with no others; and there is an error exactly
-- when some label cannot be applied to a node.
pub node_labels_from-NodeCollected :
    (labels : Dict String)
    → NodupKeys labels
    → NodeCollected labels (node_labels_from no_node_labels labels)
unfolding or_else lookup
node_labels_from-NodeCollected labels u = record {
  compute_only = compute_only-node_labels_from no_node_labels labels u;
  unreserved = λ k. kept k;
  errors = errors-node_labels_from no_node_labels labels;
}
  where
    kept :
        (k : String)
        → lookup k (node_labels_from no_node_labels labels).unreserved
          ≡ (if is_reserved_label k then none else lookup k labels)
    kept k = ground (arith, unreserved-node_labels_from no_node_labels labels k u)
