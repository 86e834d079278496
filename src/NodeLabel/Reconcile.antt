-- ===== src/NodeLabel/Reconcile.antt =====
-- Which nodes controllers/node-label reconciles.
use mathlib.Core.Path.{subst}
use api_manager.NodeLabel.{
  node_delete_predicate, ApiNode, Result, ok, is_storageos_node, deep_equal, List, Dict, Option,
  String, ObjectKey, K8sNode, diff, update, is_true,
}
use api_manager.Base.{
  ap, sym, refl, [], not, inr, arith, Bool, inl, Bool-cases, ◌⊎◌, ◌≢◌, if◌then◌else◌, none, ◌∷◌,
  false, ◌↔◌, some, In, true, ◌≡◌,
}
use api_manager.Predicate.{generic, updated, created, deleted, Event, processes}

-- StorageOS knows the node, with other labels.
abbrev pub IsStale : (ObjectKey → Option ApiNode) → K8sNode → Type 0
IsStale nodes object =
    (node : ApiNode) × (nodes (record { namespace = ""; name = object.name }) ≡ some node)
    × (deep_equal object.labels node.labels ≡ false)

In-skip :
    {o x : K8sNode} (nodes : ObjectKey → Option ApiNode) (l : List K8sNode)
    → (IsStale nodes x → ⊥)
    → In o (diff nodes l) ↔ (In o l × IsStale nodes o)
    → In o (diff nodes l) ↔ (In o (x ∷ l) × IsStale nodes o)
In-skip {o} {x} nodes l not_stale i = (λ p. (In.there (i.0 p).0, (i.0 p).1), back)
  where
    back : In o (x ∷ l) × IsStale nodes o → In o (diff nodes l)
    back (In.here e, s) = absurd (not_stale (subst (IsStale nodes) e s))
    back (In.there p, s) = i.1 (p, s)

In-take :
    {o x : K8sNode} (nodes : ObjectKey → Option ApiNode) (l : List K8sNode)
    → IsStale nodes x
    → In o (diff nodes l) ↔ (In o l × IsStale nodes o)
    → In o (x ∷ diff nodes l) ↔ (In o (x ∷ l) × IsStale nodes o)
In-take {o} {x} nodes l stale i = (forth, back)
  where
    forth : In o (x ∷ diff nodes l) → In o (x ∷ l) × IsStale nodes o
    forth (In.here e) = (In.here e, subst (IsStale nodes) (sym e) stale)
    forth (In.there p) = (In.there (i.0 p).0, (i.0 p).1)

    back : In o (x ∷ l) × IsStale nodes o → In o (x ∷ diff nodes l)
    back (In.here e, s) = In.here e
    back (In.there p, s) = In.there (i.1 (p, s))

-- A node is among those to be labelled again exactly when it is among the given ones, and StorageOS
-- knows it with other labels.
pub In-diff_iff :
    (nodes : ObjectKey → Option ApiNode) (objects : List K8sNode) (o : K8sNode)
    → In o (diff nodes objects) ↔ (In o objects × IsStale nodes o)
unfolding diff
In-diff_iff nodes [] o = (λ i. elim i [ ], λ p. elim p.0 [ ])
In-diff_iff nodes (x ∷ l) o =
    go (nodes (record { namespace = ""; name = x.name })) refl (In-diff_iff nodes l o)
  where
    go :
        (r : Option ApiNode)
        → nodes (record { namespace = ""; name = x.name }) ≡ r
        → In o (diff nodes l) ↔ (In o l × IsStale nodes o)
        → In o (elim r [
          | none ↦ diff nodes l
          | some node ↦ if deep_equal x.labels node.labels then diff nodes l else x ∷ diff nodes l
        ])
          ↔ (In o (x ∷ l) × IsStale nodes o)
    go none e i = In-skip nodes l (λ s. cc) i
    go (some node) e i = elim (Bool-cases (deep_equal x.labels node.labels)) [
      | inl same ↦ rw same (In-skip nodes l (λ s. ground arith) i)
      | inr differ ↦ rw differ (In-take nodes l (node, e, differ) i)
    ]

-- An update of a node starts a reconcile exactly when the new node carries the annotation of the
-- driver, and the old one did not or had other labels.
pub update_iff :
    (unmarshal : String → Option (Dict String)) (object_old object_new : K8sNode)
    → (update unmarshal object_old object_new ≡ true) ↔ (
        (is_storageos_node unmarshal object_new.annotations ≡ ok true)
        × ((is_storageos_node unmarshal object_old.annotations ≢ ok true)
            ⊎ (deep_equal object_old.labels object_new.labels ≡ false)))
unfolding update
update_iff unmarshal object_old object_new =
    go (is_storageos_node unmarshal object_new.annotations)
      (is_storageos_node unmarshal object_old.annotations)
  where
    go :
        (a b : Result Bool)
        → ((if not (is_true a)
              then false
              else if not (is_true b)
              then true
              else not (deep_equal object_old.labels object_new.labels))
            ≡ true)
          ↔ ((a ≡ ok true)
              × ((b ≢ ok true) ⊎ (deep_equal object_old.labels object_new.labels ≡ false)))
    go a b = ground arith

-- The node-delete controller reconciles exactly the deletions of nodes with the annotation of the
-- driver.
pub processes-node_delete_predicate_iff :
    (unmarshal : String → Option (Dict String)) (e : Event K8sNode)
    → (processes (node_delete_predicate unmarshal) e ≡ true)
      ↔ ((o : K8sNode) × (e ≡ deleted o) × (is_storageos_node unmarshal o.annotations ≡ ok true))
unfolding processes
processes-node_delete_predicate_iff unmarshal (created o) =
    (λ p. absurd (cc), λ (x, at, s). absurd (cc))
processes-node_delete_predicate_iff unmarshal (updated a b) =
    (λ p. absurd (cc), λ (x, at, s). absurd (cc))
processes-node_delete_predicate_iff unmarshal (generic o) =
    (λ p. absurd (cc), λ (x, at, s). absurd (cc))
processes-node_delete_predicate_iff unmarshal (deleted o) = (
  λ p. (o, refl, ok_true (is_storageos_node unmarshal o.annotations) p),
  λ (x, at, s). back x at s,
)
  where
    ok_true : (r : Result Bool) → is_true r ≡ true → r ≡ ok true
    ok_true r p = ground arith

    deleted_same : (x : K8sNode) → ◌≡◌ {A = Event K8sNode} (deleted o) (deleted x) → o ≡ x
    deleted_same x at = cc

    back :
        (x : K8sNode)
        → ◌≡◌ {A = Event K8sNode} (deleted o) (deleted x)
        → is_storageos_node unmarshal x.annotations ≡ ok true
        → is_true (is_storageos_node unmarshal o.annotations) ≡ true
    back x at s =
        subst (λ y. is_true (is_storageos_node unmarshal y.annotations) ≡ true)
          (sym (deleted_same x at)) (ap is_true s)
