-- ===== src/World/Errors.antt =====
-- Errors, and the three ways in which a call ends.
use api_manager.Base.{
  refl, true, ◌≡◌, String-discrete, some, none, ℕ, String, Bool, false, Option, List, [], ◌∷◌, ◌==◌,
}
use api_manager.Go.Strconv.{NumError, Parsed}

-- A failed call of the StorageOS API: the status of its response, if there was a response.
pub record ApiFailure : Type 0 where
  pub status : Option ℕ
  pub message : String

pub data Error : Type 0 where
  -- an error of the Kubernetes API, with the reason of its status
  kube : (reason : String) → Error
  -- `api.MapAPIError(err, resp)`
  api : ApiFailure → Error
  number : NumError → Error
  wrapped : String → Error → Error
  message : String → Error
  -- a `*multierror.Error` with one error, and with one more at its end
  multi_one : Error → Error
  multi : Error → Error → Error
  node_not_found node_in_use node_has_lock : Error
  namespace_not_found namespace_in_use : Error
  volume_not_found not_shared not_kubernetes : Error
  reserved_label_unknown reserved_label_invalid reserved_label_fixed : Error
  node_not_cached node_type_assertion : Error
  cross_namespace no_key_in_secret : Error
  unsupported_kind : Error
  no_auth_token not_initialized : Error

-- `apierrors.IsNotFound`
abbrev pub is_not_found : Error → Bool
is_not_found (kube reason) = reason == "NotFound"
is_not_found _ = false

-- Faults of the Go runtime that end the process.
pub data Fault : Type 0 where
  nil_dereference nil_map_write index_out_of_range : Fault

pub data Result {ℓ} (A : Type ℓ) : Type ℓ where
  ok : A → Result A
  err : Error → Result A
  panic : Fault → Result A

-- `multierror.Append` to a list of errors, and `ErrorOrNil`.
append_from : Error → List Error → Error
append_from e [] = e
append_from e (f ∷ es) = append_from (multi e f) es

unfoldable pub error_or_nil : List Error → Result (Unit {0})
unfolding append_from
error_or_nil [] = ok tt
error_or_nil (e ∷ es) = err (append_from (multi_one e) es)

-- `v, err := strconv.Parse…(s); if err != nil { return err }`
abbrev pub parsed_result : {A : Type 0} → Parsed A → Result A
parsed_result r = elim r.error [ none ↦ ok r.value | some e ↦ err (number e) ]

pub not_found : is_not_found (kube "NotFound") ≡ true
unfolding String-discrete
not_found = refl
