-- ===== src/KeyMaterial/Restore/Order.antt =====
-- The order of the attempts of `restore_key_material` (src/key_material.rs): the policy `any-one`.
use aws_kms_demo.Base.{
  Str, Bytes, txt, Result, ok, err, panic, Option, none, some, List, [], ◌∷◌, ◌++◌, ◌≡◌, refl,
}
use aws_kms_demo.Endpoint.{Endpoint}
use aws_kms_demo.Config.Types.{ParentSettings, KmsKeySettings}
use aws_kms_demo.Kms.{KmsDataKeyClient}
use aws_kms_demo.KeyMaterial.{Enclave, RecoveryObjectReference}
use aws_kms_demo.KeyMaterial.Restore.{restore_attempt, reference_for, after_attempt, restore_loop}

-- How the attempts may end.
pub data Ending : Type 0 where
  restored_by : KmsKeySettings → Ending
  nobody : Ending
  crashed : Str → Ending

module _ {W : Type 0} (tee : Enclave W) (endpoint : Endpoint) (client : KmsDataKeyClient)
    (s : ParentSettings) (references : List RecoveryObjectReference) (expected : Bytes) where
  -- Key after key: one with no object in the manifest is passed over, one whose attempt fails leads
  -- on to the next, and the first attempt that succeeds ends the search.
  pub data Tries : List KmsKeySettings → W → Ending → W → Type 0 where
    exhausted : {w : W} → Tries [] w nobody w
    absent :
        {key : KmsKeySettings} {keys : List KmsKeySettings} {w w' : W} {e : Ending}
        → reference_for key references ≡ none
        → Tries keys w e w'
        → Tries (key ∷ keys) w e w'
    failed :
        {key : KmsKeySettings} {keys : List KmsKeySettings} {w v w' : W} {e : Ending}
        {reference : RecoveryObjectReference} {why : Str}
        → reference_for key references ≡ some reference
        → restore_attempt tee endpoint client s key reference expected w ≡ (err why, v)
        → Tries keys v e w'
        → Tries (key ∷ keys) w e w'
    restored :
        {key : KmsKeySettings} {keys : List KmsKeySettings} {w w' : W} {u : Unit {0}}
        {reference : RecoveryObjectReference}
        → reference_for key references ≡ some reference
        → restore_attempt tee endpoint client s key reference expected w ≡ (ok u, w')
        → Tries (key ∷ keys) w (restored_by key) w'
    panicked :
        {key : KmsKeySettings} {keys : List KmsKeySettings} {w w' : W} {why : Str}
        {reference : RecoveryObjectReference}
        → reference_for key references ≡ some reference
        → restore_attempt tee endpoint client s key reference expected w ≡ (panic why, w')
        → Tries (key ∷ keys) w (crashed why) w'

  -- What the loop returns at each ending.
  abbrev pub Reports : Ending → W → Result KmsKeySettings × W → Type 0
  Reports (restored_by key) w' r = r ≡ (ok key, w')
  Reports nobody w' r = (message : Str) × (r ≡ (err message, w'))
  Reports (crashed why) w' r = r ≡ (panic why, w')

  abbrev Outcome : List KmsKeySettings → List Str → W → Type 0
  Outcome keys failures w =
      (e : Ending) × (w' : W) × Tries keys w e w'
      × Reports e w' (restore_loop tee endpoint client s references expected keys failures w)

  -- The loop of restore_key_material takes the keys in their order: a key without an object in the
  -- manifest or with a failed attempt is passed over, in the world that its attempt left, the
  -- first key whose attempt succeeds is returned, a panic of an attempt ends the loop, and the
  -- loop returns an error exactly at the end of the list.
  pub restore_loop_tries :
      (keys : List KmsKeySettings) (failures : List Str) (w : W) → Outcome keys failures w
  unfolding restore_loop
  restore_loop_tries [] failures w = (nobody, w, exhausted, (_, refl))
  restore_loop_tries (key ∷ keys) failures w =
      go (restore_loop_tries keys) (reference_for key references) refl
    where
      try :
          ((fs : List Str) (v : W) → Outcome keys fs v)
          → (reference : RecoveryObjectReference) → reference_for key references ≡ some reference
          → (r : Result (Unit {0}) × W)
          → restore_attempt tee endpoint client s key reference expected w ≡ r
          → Outcome (key ∷ keys) failures w
      try later reference found (ok u, w') e =
          (restored_by key, w', restored found e, rw (found, restore_loop, e, after_attempt))
      try later reference found (panic m, w') e =
          (crashed m, w', panicked found e, rw (found, restore_loop, e, after_attempt))
      try later reference found (err m, v) e =
          let (end, w', tries, reports) =
            later (failures ++ (key.key_arn ++ (txt ": " ++ m)) ∷ []) v in
          (end, w', failed found e tries, rw (found, restore_loop, e, after_attempt) reports)

      go :
          ((fs : List Str) (v : W) → Outcome keys fs v)
          → (o : Option RecoveryObjectReference) → reference_for key references ≡ o
          → Outcome (key ∷ keys) failures w
      go later none missing =
          let (end, w', tries, reports) =
            later (failures ++ (key.key_arn ++ txt ": no recovery object in manifest") ∷ []) w in
          (end, w', absent missing tries, rw (missing, restore_loop) reports)
      go later (some reference) found =
          try later reference found (restore_attempt tee endpoint client s key reference expected w)
            refl
