-- ===== src/Predicate.antt =====
-- internal/pkg/predicate/ignore.go: which events of an object start a reconcile. All are ignored
-- but those for which a controller sets a function.
use api_manager.Base.{Bool, false, Option, none, some}

-- An event of an object of type `O`.
pub data Event (O : Type 0) : Type 0 where
  created : O → Event O
  updated : (object_old object_new : O) → Event O
  deleted : O → Event O
  generic : O → Event O

pub record IgnoreFuncs (O : Type 0) : Type 0 where
  pub create_func : Option (O → Bool)
  pub update_func : Option (O → O → Bool)
  pub delete_func : Option (O → Bool)
  pub generic_func : Option (O → Bool)

abbrev pub ignore_all : {O : Type 0} → IgnoreFuncs O
ignore_all = record {
  create_func = none;
  update_func = none;
  delete_func = none;
  generic_func = none;
}

abbrev applied : {O : Type 0} → Option (O → Bool) → O → Bool
applied none o = false
applied (some f) o = f o

abbrev applied_to_both : {O : Type 0} → Option (O → O → Bool) → O → O → Bool
applied_to_both none a b = false
applied_to_both (some f) a b = f a b

-- The methods `Create`, `Update`, `Delete` and `Generic`: whether the event is processed.
unfoldable pub processes : {O : Type 0} → IgnoreFuncs O → Event O → Bool
processes p (created o) = applied p.create_func o
processes p (updated a b) = applied_to_both p.update_func a b
processes p (deleted o) = applied p.delete_func o
processes p (generic o) = applied p.generic_func o
