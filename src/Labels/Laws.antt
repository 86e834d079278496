-- ===== src/Labels/Laws.antt =====
-- Which of the labels of internal/pkg/storageos/labels.go are reserved.
use text.Mathlib.TextEquality.{eq_iff}
use api_manager.Base.{◌≢◌, ◌≡◌, refl, true}
use api_manager.Labels.{
  reserved_label_no_compress, reserved_label_no_cache, is_reserved_label,
  reserved_label_compute_only, reserved_label_replicas, reserved_label_failure_mode,
}

pub compute_only_is_reserved : is_reserved_label reserved_label_compute_only ≡ true
unfolding is_reserved_label
compute_only_is_reserved = refl

pub replicas_is_reserved : is_reserved_label reserved_label_replicas ≡ true
unfolding is_reserved_label
replicas_is_reserved = refl

pub failure_mode_is_reserved : is_reserved_label reserved_label_failure_mode ≡ true
unfolding is_reserved_label
failure_mode_is_reserved = refl

pub replicas-ne-compute_only : reserved_label_replicas ≢ reserved_label_compute_only
replicas-ne-compute_only e = cc ((eq_iff reserved_label_replicas reserved_label_compute_only).1 e)

pub replicas-ne-no_cache : reserved_label_replicas ≢ reserved_label_no_cache
replicas-ne-no_cache e = cc ((eq_iff reserved_label_replicas reserved_label_no_cache).1 e)

pub replicas-ne-no_compress : reserved_label_replicas ≢ reserved_label_no_compress
replicas-ne-no_compress e = cc ((eq_iff reserved_label_replicas reserved_label_no_compress).1 e)

pub replicas-ne-failure_mode : reserved_label_replicas ≢ reserved_label_failure_mode
replicas-ne-failure_mode e = cc ((eq_iff reserved_label_replicas reserved_label_failure_mode).1 e)

pub failure_mode-ne-compute_only : reserved_label_failure_mode ≢ reserved_label_compute_only
failure_mode-ne-compute_only e =
    cc ((eq_iff reserved_label_failure_mode reserved_label_compute_only).1 e)

pub failure_mode-ne-no_cache : reserved_label_failure_mode ≢ reserved_label_no_cache
failure_mode-ne-no_cache e = cc ((eq_iff reserved_label_failure_mode reserved_label_no_cache).1 e)

pub failure_mode-ne-no_compress : reserved_label_failure_mode ≢ reserved_label_no_compress
failure_mode-ne-no_compress e =
    cc ((eq_iff reserved_label_failure_mode reserved_label_no_compress).1 e)

pub compute_only-ne-no_cache : reserved_label_compute_only ≢ reserved_label_no_cache
compute_only-ne-no_cache e = cc ((eq_iff reserved_label_compute_only reserved_label_no_cache).1 e)

pub compute_only-ne-no_compress : reserved_label_compute_only ≢ reserved_label_no_compress
compute_only-ne-no_compress e =
    cc ((eq_iff reserved_label_compute_only reserved_label_no_compress).1 e)
