-- ===== src/SharedVolumes/Rounds.antt =====
-- The rounds of internal/controllers/sharedvolume/controller.go go on after every error.

use api_manager.Storageos.SharedVolume.{SharedVolume, Splitter}
use api_manager.SharedVolumes.{
  ok, throw, Env, String, if◌then◌else◌, History, handle, pure, M, ℕ, Bool, ◌>>=◌, Poller,
  VolumeCache, stored, set_endpoint, reconcile_volume, reconcile_volumes, reconcile_round,
}
use api_manager.World.Monad.{resume, ◌>>=◌, pure, handle}
use api_manager.Base.{refl, [], ◌∷◌, ◌≢◌, Option, List, false, true}
use api_manager.World.Errors.{panic, err, Result, Error}

-- The function never ends with an error.
pub record NeverFails {A : Type 0} (m : M A) : Type 0 where
  pub never : (h : History) (e : Error) → (m h).0 ≢ err e

NeverFails-pure : {A : Type 0} (a : A) → NeverFails (pure a)
unfolding pure
NeverFails-pure a = record { never = λ h e p. cc }

NeverFails-if :
    {A : Type 0} (b : Bool) {m n : M A}
    → NeverFails m
    → NeverFails n
    → NeverFails (if b then m else n)
NeverFails-if true k l = k
NeverFails-if false k l = l

module _ {A B : Type 0} where
  NeverFails-handle :
      (m : M A) {f : A → M B} {g : Error → M B}
      → ((a : A) → NeverFails (f a))
      → ((e : Error) → NeverFails (g e))
      → NeverFails (handle m f g)
  unfolding handle
  NeverFails-handle m {f} {g} kf kg = record { never = λ h. go (m h).0 (m h).1 }
    where
      go : (r : Result A) (h' : History) (e : Error) → (resume r f g h').0 ≢ err e
      go (ok a) h' e p = (kf a).never h' e p
      go (err x) h' e p = (kg x).never h' e p
      go (panic x) h' e p = cc

  NeverFails-bind :
      {m : M A} {f : A → M B} → NeverFails m → ((a : A) → NeverFails (f a)) → NeverFails (m >>= f)
  unfolding ◌>>=◌ handle
  NeverFails-bind {m} {f} k kf = record { never = λ h. go (m h).0 (m h).1 (k.never h) }
    where
      go :
          (r : Result A) (h' : History)
          → ((e : Error) → r ≢ err e)
          → (e : Error) → (resume r f throw h').0 ≢ err e
      go (ok a) h' n e p = (kf a).never h' e p
      go (err x) h' n e p = absurd (n x refl)
      go (panic x) h' n e p = cc

module _ (split_host_port : Splitter) (print : ℕ → String) (poll : Poller)
    (expired : History → String → Bool) (env : Env) where
  set_endpoint-NeverFails :
      (vol : SharedVolume) (to : String)
      → NeverFails (set_endpoint split_host_port print poll env vol to)
  unfolding set_endpoint
  set_endpoint-NeverFails vol to =
      NeverFails-if _ (NeverFails-handle _ (λ _. NeverFails-pure _) (λ _. NeverFails-pure _))
        (NeverFails-pure _)

  reconcile_volume-NeverFails :
      (cached : Option SharedVolume) (vol : SharedVolume)
      → NeverFails (reconcile_volume split_host_port print poll env cached vol)
  unfolding reconcile_volume
  reconcile_volume-NeverFails cached vol = NeverFails-if _ (NeverFails-pure _) (
      NeverFails-handle _
        (λ claim. NeverFails-handle _ (set_endpoint-NeverFails vol) (λ _. NeverFails-pure _))
        (λ _. NeverFails-pure _))

  reconcile_volumes-NeverFails :
      (cache : VolumeCache) (vols : List SharedVolume)
      → NeverFails (reconcile_volumes split_host_port print poll expired env cache vols)
  unfolding reconcile_volumes
  reconcile_volumes-NeverFails cache [] = NeverFails-pure cache
  reconcile_volumes-NeverFails cache (vol ∷ rest) =
      NeverFails-bind (record { never = λ h. (reconcile_volume-NeverFails _ vol).never h })
        (λ w. reconcile_volumes-NeverFails (stored cache vol.id w) rest)

  -- A round over the shared volumes never ends with an error, whatever fails in it: not the
  -- listing, and no call for a single volume.
  pub reconcile_round-NeverFails :
      (cache : VolumeCache)
      → NeverFails (reconcile_round split_host_port print poll expired env cache)
  unfolding reconcile_round
  reconcile_round-NeverFails cache =
      NeverFails-handle _ (reconcile_volumes-NeverFails cache) (λ x. record { never = λ h e p. cc })
