-- ===== src/Tests/Mutation.antt =====
-- The web hooks at the sample pod and claim, and keys over a sample cipher.
use api_manager.World.Calls
use api_manager.Provisioner
use api_manager.Go.Maps.{get}
use api_manager.Tests.World.{cluster, healthy_cluster, sample_pod, sample_pvc}
use api_manager.Crypto.{Primitives, encrypt, decrypt}
use api_manager.Crypto.RoundTrip.{AreBlockCiphers, FillsBuffers, encrypt-decrypt}
use api_manager.PvcMutator.Keys.{ensure_keys}
use api_manager.PvcMutator.Keys.Secrets.{IsStored, KeyCall, ensure_keys-Ensures}
use api_manager.PvcMutator.Encryption.{new_key_setter, namespace_secret_key_ref}
use api_manager.PvcMutator.Encryption.Namespaces.{MutationCall}
use api_manager.PodMutator.{managed_volumes, opted_out, new_pod_scheduler_setter, mutate_pod}
use api_manager.PodMutator.Scheduling.{IsScheduled}
use api_manager.Base.{
  any, ◌&&◌, ◌!=◌, if◌then◌else◌, is_none, not, Bool, String, zero, arith, ◌∷◌, suc, ◌≡◌, some, [],
  replicate, length, none, eqb, refl, ℕ,
}
use api_manager.World.Trace.{Ensures}
use api_manager.World.Objects.{PodVolume, Pvc, Pod, Bytes, ObjectKey}
use api_manager.World.Calls.{IsRead}
use api_manager.World.Env.{History, Env, Reply, done}
use api_manager.World.Errors.{ok}
use api_manager.World.Ending.{NoError, NoFault, Ends}
use api_manager.Admission.{patch, handle_request, Request}
use api_manager.Provisioner.{
  is_provisioned_storage_class, pvc_storage_class_name, storage_class_for_pvc, is_provisioned_pvc,
  is_provisioned_volume, is_storageos_volume,
}
use api_manager.Main.Hooks.{handle_pod-Ensures, Answers}
use api_manager.Main.{pvc_mutators, pod_mutators, default_labels}
use api_manager.PodMutator.Decided.{mutate_pod-Ends, AreDecided}
use api_manager.Main.Claims.{handle_pvc-Ensures, IsMutated}
use api_manager.World.Monad.{ask_kube, ◌>>=◌, pure, handle}
use api_manager.PvcMutator.Keys.Created.{ensure_keys_creates, ns_secret, vol_secret, Works}
use api_manager.World.Run.{Runs}

-- A cipher that leaves a text as it is.
abbrev sample_primitives : Primitives
sample_primitives = record {
  accepts_key = λ key. eqb (length key) 32;
  cbc_encrypt = λ key iv text. text;
  cbc_decrypt = λ key iv text. text;
  hkdf = λ secret salt. done secret;
  hmac_sha256 = λ key text. key;
  hex_encode = λ b. "07";
  hex_decode = λ s. some (replicate 32 7);
}

sample_laws : AreBlockCiphers sample_primitives
sample_laws = record {
  inverse = λ key iv text a f w. refl;
  keeps_length = λ key iv text a f w. refl;
}

length-replicate : (n : ℕ) → length {A = ℕ} (replicate n 7) ≡ n
length-replicate zero = refl
length-replicate (suc n) = omega (arith, length-replicate n)

sample_fills : FillsBuffers healthy_cluster
unfolding cluster
sample_fills h n b e = go (replicate n 7) e (length-replicate n)
  where
    go : (c : Bytes) → ◌≡◌ {A = Reply String Bytes} (done c) (done b) → length c ≡ n → length b ≡ n
    go c e l = ground arith

encrypt-decrypt_example :
    (ciphertext : Bytes) × (encrypt sample_primitives healthy_cluster
        (replicate 64 1)
        (replicate 32 2)
        []
      ≡ (ok ciphertext, Calls.random_bytes 16 ∷ []))
    × (decrypt sample_primitives ciphertext (replicate 32 2) ≡ ok (replicate 64 1))
unfolding cluster
encrypt-decrypt_example =
    encrypt-decrypt sample_primitives sample_laws healthy_cluster sample_fills (replicate 64 1)
      (replicate 32 2) (replicate 16 7) [] refl refl refl

abbrev volume_ref : ObjectKey
volume_ref = record { namespace = "app"; name = "volume-key" }

ensure_keys-Ensures_example :
    Ensures
      (KeyCall sample_primitives sample_laws healthy_cluster sample_fills
        (namespace_secret_key_ref "app")
        volume_ref
        none
        none)
      (λ _.
        IsStored sample_primitives healthy_cluster (namespace_secret_key_ref "app") none volume_ref)
      (ensure_keys sample_primitives healthy_cluster
        (namespace_secret_key_ref "app")
        volume_ref
        none
        none)
ensure_keys-Ensures_example =
    ensure_keys-Ensures sample_primitives sample_laws healthy_cluster sample_fills
      (namespace_secret_key_ref "app") volume_ref none none

abbrev pod_request : Request
pod_request = record { namespace = "app"; raw = "{pod}" }

abbrev decode_pod : Request → Reply String Pod
decode_pod req = done sample_pod

abbrev marshal_pod : Pod → Reply String String
marshal_pod pod = done pod.scheduler_name

handle_pod_test :
    (handle_request decode_pod marshal_pod
      (pod_mutators healthy_cluster "storageos-scheduler")
      pod_request
      []).0
    ≡ ok (patch "{pod}" "storageos-scheduler")
unfolding handle_request cluster handle mutate_pod opted_out get managed_volumes is_storageos_volume
    is_provisioned_volume ◌>>=◌ ask_kube is_provisioned_pvc storage_class_for_pvc
    pvc_storage_class_name Provisioner.storage_class is_provisioned_storage_class
handle_pod_test = refl

handle_pod-Ensures_example :
    Ensures IsRead
      (Answers decode_pod marshal_pod
        (IsScheduled healthy_cluster (new_pod_scheduler_setter "storageos-scheduler") "app")
        pod_request)
      (handle_request decode_pod marshal_pod
        (pod_mutators healthy_cluster "storageos-scheduler")
        pod_request)
handle_pod-Ensures_example =
    handle_pod-Ensures healthy_cluster "storageos-scheduler" decode_pod marshal_pod pod_request

abbrev decode_pvc : Request → Reply String Pvc
decode_pvc req = done sample_pvc

abbrev marshal_pvc : Pvc → Reply String String
marshal_pvc claim = done claim.name

handle_pvc-Ensures_example :
    Ensures
      (MutationCall sample_primitives sample_laws healthy_cluster sample_fills
        (new_key_setter default_labels)
        "app")
      (Answers decode_pvc marshal_pvc
        (IsMutated sample_primitives sample_laws healthy_cluster sample_fills decode_pvc marshal_pvc
          pod_request)
        pod_request)
      (handle_request decode_pvc marshal_pvc
        (pvc_mutators sample_primitives healthy_cluster)
        pod_request)
handle_pvc-Ensures_example =
    handle_pvc-Ensures sample_primitives sample_laws healthy_cluster sample_fills decode_pvc
      marshal_pvc pod_request

abbrev has_claim : PodVolume → Bool
has_claim vol = not (is_none vol.claim_name)

sample_decided : AreDecided healthy_cluster "app" has_claim sample_pod.volumes
unfolding cluster is_storageos_volume pure is_provisioned_volume ◌>>=◌ ask_kube is_provisioned_pvc
    storage_class_for_pvc pvc_storage_class_name Provisioner.storage_class
    is_provisioned_storage_class
sample_decided = (record { ending = λ h. refl }, (record { ending = λ h. refl }, tt))

mutate_pod-Ends_example :
    Ends NoFault NoError
      (λ r. r ≡ (
        if "storageos-scheduler" != ""
          && not (opted_out (new_pod_scheduler_setter "storageos-scheduler") sample_pod)
          && any has_claim sample_pod.volumes
        then record sample_pod { scheduler_name = "storageos-scheduler" }
        else sample_pod))
      (mutate_pod healthy_cluster (new_pod_scheduler_setter "storageos-scheduler") sample_pod "app")
mutate_pod-Ends_example =
    mutate_pod-Ends healthy_cluster "app" has_claim (new_pod_scheduler_setter "storageos-scheduler")
      sample_pod sample_decided

-- Random bytes that are not the same at each call.
abbrev varying : History → ℕ → Bytes
varying h n = replicate n (length h)

abbrev varying_cluster : Env
varying_cluster = record healthy_cluster { random = λ h n. done (varying h n) }

abbrev varying_primitives : Primitives
varying_primitives = record sample_primitives { hex_decode = λ s. some (replicate 32 2) }

sample_works :
    Works varying_primitives varying_cluster varying
      (replicate 32 2)
      (namespace_secret_key_ref "app")
      volume_ref
      none
      none
      []
unfolding cluster
sample_works = record {
  fills = λ h n. refl;
  created = λ h s. refl;
  nonempty = refl;
  decodes = refl;
  derives = refl;
  accepts = refl;
  blocks = refl;
}

ensure_keys_creates_example :
    Runs
      (ensure_keys varying_primitives varying_cluster
        (namespace_secret_key_ref "app")
        volume_ref
        none
        none)
      []
      (ok tt)
      (Calls.create_secret (
          vol_secret varying_primitives varying_cluster varying
            (replicate 32 2)
            (namespace_secret_key_ref "app")
            volume_ref
            none
            none
            [])
        ∷ Calls.random_bytes 16
        ∷ Calls.random_bytes 64
        ∷ Calls.random_bytes 32
        ∷ Calls.create_secret (
            ns_secret varying_primitives varying_cluster varying
              (replicate 32 2)
              (namespace_secret_key_ref "app")
              volume_ref
              none
              none
              [])
        ∷ Calls.random_bytes 32
        ∷ Calls.kube_get Calls.secret (namespace_secret_key_ref "app")
        ∷ Calls.kube_get Calls.secret volume_ref
        ∷ [])
unfolding cluster
ensure_keys_creates_example =
    ensure_keys_creates varying_primitives varying_cluster varying (replicate 32 2)
      (namespace_secret_key_ref "app") volume_ref none none [] sample_works refl refl
