-- ===== src/Fencer/Coverage.antt =====
-- That podPVCs of controllers/fencer/fencer.go leaves out no StorageOS claim of a pod.
use mathlib.Core.Path.{subst}
use api_manager.Fencer.{
  Volume, volume_keys, done, failed, ◌++◌, String, Env, List, Pod, Pvc, PodVolume, Claims,
  provisioner_of, is_static_pvc, is_storageos_pvc, pod_volume, pod_volumes, pod_pvcs, driver_name,
  cluster_key, error_or_nil, get, pvc_provisioner_annotation_key, ◌==◌,
}
use api_manager.World.Trace.{
  Ensures, Ensures-pure, Ensures-if, Ensures-bind, Ensures-weaken, Ensures-lift, Ensures-answered,
  OkHas,
}
use api_manager.World.Errors.{Error}
use api_manager.World.Calls.{IsRead}
use api_manager.Base.{
  ◌!=◌, all, true, In-right, In-left, if◌then◌else◌, Bool, some_injective, ◌∙◌, ap, sym, ◌⊎◌, arith,
  inl, inr, refl, ◌≢◌, some, false, [], none, ◌∷◌, Option, ◌≡◌, In,
}
use api_manager.World.Env.{History}
use api_manager.World.Objects.{Pv}
use api_manager.Fencer.PodClaims.{VolumesFor}

-- The claim is not one of StorageOS: it is annotated with another driver; or it has no such
-- annotation, and its volume was not found or belongs to another driver.
abbrev pub IsForeign : Env → Pvc → Type 0
IsForeign env pvc =
    ((p : String) × (get pvc.annotations pvc_provisioner_annotation_key ≡ some p)
      × (p ≢ driver_name))
    ⊎ ((get pvc.annotations pvc_provisioner_annotation_key ≡ none)
        × ((h : History) × (((reason : String) × (env.pv_at h (cluster_key pvc.volume_name)
                  ≡ failed reason))
              ⊎ ((pv : Pv) × (env.pv_at h (cluster_key pvc.volume_name) ≡ done pv)
                  × (pv.csi_driver ≢ some driver_name)))))

-- If the volume of the pod has a claim, then it was found in the pod's namespace, and it is among
-- these or not one of StorageOS.
abbrev pub IsCovered : Env → (namespace : String) → List Pvc → PodVolume → Type 0
IsCovered env ns pvcs vol =
    (name : String)
    → vol.claim_name ≡ some name
    → name ≢ ""
    → (pvc : Pvc) × ((h : History) × (env.pvc_at h (record { namespace = ns; name = name })
          ≡ done pvc))
      × (In pvc pvcs ⊎ IsForeign env pvc)

snoc_nonempty : (l : List Error) (e : Error) → l ++ e ∷ [] ≢ []
snoc_nonempty [] e p = cc
snoc_nonempty (x ∷ l) e p = cc

module _ (env : Env) (ns : String) where
  is_static_pvc-Foreign :
      (pvc : Pvc)
      → get pvc.annotations pvc_provisioner_annotation_key ≡ none
      → Ensures IsRead (λ b. b ≡ false → IsForeign env pvc) (is_static_pvc env pvc)
  unfolding is_static_pvc
  is_static_pvc-Foreign pvc e =
      Ensures-answered _ _ _ _ refl
        (λ h pv found. Ensures-pure _ (λ f. inr (e, (h, inr (pv, found, ground arith)))))
        (λ h reason missing. Ensures-pure _ (λ f. inr (e, (h, inl (reason, missing)))))

  is_storageos_pvc-Foreign :
      (pvc : Pvc) (o : Option String)
      → provisioner_of env pvc ≡ o
      → Ensures IsRead (λ b. b ≡ false → IsForeign env pvc) (is_storageos_pvc env pvc o)
  unfolding is_storageos_pvc
  is_storageos_pvc-Foreign pvc (some p) e = Ensures-pure _ (λ f. inl (p, e, ground arith))
  is_storageos_pvc-Foreign pvc none e = is_static_pvc-Foreign pvc e

  -- What a part of the loop does: it forgets no claim, and if it leaves no error then there was none
  -- before, and these volumes are covered.
  record Covers (s : Claims) (vols : List PodVolume) (s' : Claims) : Type 0 where
    keeps : (pvc : Pvc) → In pvc s.pvcs → In pvc s'.pvcs
    clean : s'.errors ≡ [] → s.errors ≡ []
    covers : s'.errors ≡ [] → (vol : PodVolume) → In vol vols → IsCovered env ns s'.pvcs vol

  pod_volume-Covers :
      (s : Claims) (vol : PodVolume)
      → Ensures IsRead (Covers s (vol ∷ [])) (pod_volume env ns s vol.claim_name)
  unfolding pod_volume
  pod_volume-Covers s vol = covered vol.claim_name refl
    where
      -- Nothing is done for a volume without the name of a claim.
      passed_over :
          ((name : String) → vol.claim_name ≡ some name → name ≡ "") → Covers s (vol ∷ []) s
      passed_over none_named = record {
        keeps = λ pvc i. i;
        clean = λ e. e;
        covers = λ e w i. elim i [
          | In.here p ↦
              λ name c n. absurd (n (none_named name (sym (ap (λ v. v.claim_name) p) ∙ c)))
          | In.there k ↦ elim k [ ]
        ];
      }

      failed_with : (e : Error) → Covers s (vol ∷ []) (record s { errors = s.errors ++ e ∷ [] })
      failed_with e = record {
        keeps = λ pvc i. i;
        clean = λ q. absurd (snoc_nonempty s.errors e q);
        covers = λ q. absurd (snoc_nonempty s.errors e q);
      }

      at_claim :
          (claim : String) (pvc : Pvc) (h : History) (pvcs : List Pvc)
          → vol.claim_name ≡ some claim
          → env.pvc_at h (record { namespace = ns; name = claim }) ≡ done pvc
          → In pvc pvcs ⊎ IsForeign env pvc
          → (w : PodVolume) → In w (vol ∷ [])
          → IsCovered env ns pvcs w
      at_claim claim pvc h pvcs named at place w (In.there i) name c n = elim i [ ]
      at_claim claim pvc h pvcs named at place w (In.here p) name c n =
          let same : claim ≡ name =
            some_injective (sym named ∙ sym (ap (λ v. v.claim_name) p) ∙ c) in
          (
            pvc,
            (h, subst (λ m. env.pvc_at h (record { namespace = ns; name = m }) ≡ done pvc) same at),
            place,
          )

      found :
          (claim : String) (pvc : Pvc) (h : History)
          → vol.claim_name ≡ some claim
          → env.pvc_at h (record { namespace = ns; name = claim }) ≡ done pvc
          → (b : Bool) → (b ≡ false → IsForeign env pvc)
          → Covers s (vol ∷ []) (if b then record s { pvcs = s.pvcs ++ pvc ∷ [] } else s)
      found claim pvc h named at true f = record {
        keeps = λ q i. In-left (pvc ∷ []) i;
        clean = λ e. e;
        covers = λ e. at_claim claim pvc h _ named at (inl (In-right s.pvcs (In.here refl)));
      }
      found claim pvc h named at false f = record {
        keeps = λ q i. i;
        clean = λ e. e;
        covers = λ e. at_claim claim pvc h _ named at (inr (f refl));
      }

      covered :
          (o : Option String)
          → vol.claim_name ≡ o
          → Ensures IsRead (Covers s (vol ∷ [])) (pod_volume env ns s o)
      covered none e = Ensures-pure s (passed_over (λ name c. cc))
      covered (some claim) e =
          Ensures-if (claim == "") _ _
            (λ blank. Ensures-pure s (passed_over (λ name c. ground (arith, blank, c, e))))
            (λ named.
              Ensures-answered _ _ _ _ refl
                (λ h pvc at.
                  Ensures-bind (is_storageos_pvc-Foreign pvc _ refl)
                    (λ b f. Ensures-pure _ (found claim pvc h e at b f)))
                (λ h reason missing. Ensures-pure _ (failed_with _)))

  pod_volumes-Covers :
      (s : Claims) (vols : List PodVolume)
      → Ensures IsRead (Covers s vols) (pod_volumes env ns s vols)
  unfolding pod_volumes
  pod_volumes-Covers s [] =
      Ensures-pure s (record { keeps = λ pvc i. i; clean = λ e. e; covers = λ e vol i. elim i [ ] })
  pod_volumes-Covers s (vol ∷ rest) =
      Ensures-bind (pod_volume-Covers s vol) (λ s' k.
        Ensures-weaken (λ c r. r) (λ s'' l. chained s' s'' k l) (pod_volumes-Covers s' rest))
    where
      chained :
          (s' s'' : Claims)
          → Covers s (vol ∷ []) s'
          → Covers s' rest s''
          → Covers s (vol ∷ rest) s''
      chained s' s'' k l = record {
        keeps = λ pvc i. l.keeps pvc (k.keeps pvc i);
        clean = λ e. k.clean (l.clean e);
        covers = λ e w i. go e w i;
      }
        where
          widened :
              (pvc : Pvc) → In pvc s'.pvcs ⊎ IsForeign env pvc → In pvc s''.pvcs ⊎ IsForeign env pvc
          widened pvc (inl i) = inl (l.keeps pvc i)
          widened pvc (inr f) = inr f

          go : s''.errors ≡ [] → (w : PodVolume) → In w (vol ∷ rest) → IsCovered env ns s''.pvcs w
          go e w (In.here p) name c n =
              let (pvc, at, where_) = k.covers (l.clean e) w (In.here p) name c n in
              (pvc, at, widened pvc where_)
          go e w (In.there i) name c n = l.covers e w i name c n

-- Every volume of the pod is covered by the claims that `podPVCs` returns.
abbrev pub AreCovered : Env → Pod → List Pvc → Type 0
AreCovered env pod pvcs =
    (vol : PodVolume) → In vol pod.volumes → IsCovered env pod.namespace pvcs vol

pub pod_pvcs-Covered :
    (env : Env) (pod : Pod) → Ensures IsRead (AreCovered env pod) (pod_pvcs env pod)
unfolding pod_pvcs
pod_pvcs-Covered env pod = Ensures-bind (pod_volumes-Covers env pod.namespace _ pod.volumes) (λ s k.
    Ensures-bind {R = λ _. s.errors ≡ []} (Ensures-lift _ (no_error s.errors))
      (λ _ e. Ensures-pure _ (k.covers e)))
  where
    no_error : (l : List Error) → OkHas (λ _. l ≡ []) (error_or_nil l)
    no_error [] = refl
    no_error (e ∷ l) = tt

-- The claim's volume was found by its name, and is healthy.
abbrev pub HasHealthyVolume : List Volume → Pvc → Type 0
HasHealthyVolume volumes pvc =
    (v : Volume) × In v volumes × (v.name ≡ pvc.volume_name) × (v.healthy ≡ true)

-- Each claim that is bound has one of the volumes, if there is one for each key.
pub healthy_volumes :
    (pvcs : List Pvc) (volumes : List Volume)
    → VolumesFor (volume_keys pvcs) volumes
    → all (λ v. v.healthy) volumes ≡ true
    → (pvc : Pvc) → In pvc pvcs
    → pvc.volume_name ≢ ""
    → HasHealthyVolume volumes pvc
unfolding volume_keys
healthy_volumes [] volumes f healthy pvc i n = elim i [ ]
healthy_volumes (p ∷ rest) volumes f healthy pvc i n =
    go (p.volume_name != "") refl volumes f healthy i
      (λ vs g fine k. healthy_volumes rest vs g fine pvc k n)
  where
    later :
        {v : Volume} {vs : List Volume} → HasHealthyVolume vs pvc → HasHealthyVolume (v ∷ vs) pvc
    later (w, k, named, fine) = (w, In.there k, named, fine)

    go :
        (b : Bool)
        → (p.volume_name != "") ≡ b
        → (vs : List Volume)
        → VolumesFor
            (if b
              then record { namespace = p.namespace; name = p.volume_name } ∷ volume_keys rest
              else volume_keys rest)
            vs
        → all (λ v. v.healthy) vs ≡ true
        → In pvc (p ∷ rest)
        → ((vs : List Volume)
            → VolumesFor (volume_keys rest) vs
            → all (λ v. v.healthy) vs ≡ true
            → In pvc rest
            → HasHealthyVolume vs pvc)
        → HasHealthyVolume vs pvc
    go true e [] g fine k others = absurd g
    go true e (v ∷ vs) (named, g) fine (In.here q) others =
        (v, In.here refl, named ∙ sym (ap (λ x. x.volume_name) q), ground arith)
    go true e (v ∷ vs) (named, g) fine (In.there k) others = later (others vs g (ground arith) k)
    go false e vs g fine (In.here q) others = absurd (n (ap (λ x. x.volume_name) q ∙ ground arith))
    go false e vs g fine (In.there k) others = others vs g fine k
