-- ===== src/KeyMaterial/Restore/Recovery.antt =====
-- What the loop of `restore_key_material` has found (src/key_material.rs).
use mathlib.Core.List.{Memᴰ}
use aws_kms_demo.Base.{
  Str, ◌∙◌, ok_or-eq-ok, Option, Bytes, txt, ok, some, ok_or, List, [], ◌++◌, ◌≡◌, refl, ap, subst,
}
use aws_kms_demo.Effects.{bind_elim, lift_elim}
use aws_kms_demo.Endpoint.{Endpoint}
use aws_kms_demo.Arn.{sha256_hex}
use aws_kms_demo.Config.Types.{ParentSettings, KmsKeySettings}
use aws_kms_demo.Client.{client_load_object}
use aws_kms_demo.Kms.{KmsDataKeyClient}
use aws_kms_demo.KeyMaterial.{
  Enclave, KeyManifest, RecoveryObjectReference, RecoveryPackage, verify_sha256,
}
use aws_kms_demo.KeyMaterial.Checks.{verify_sha256_iff}
use aws_kms_demo.KeyMaterial.Restore.{restore_attempt, reference_for, restore_loop}
use aws_kms_demo.KeyMaterial.Restore.Order.{
  Tries, exhausted, absent, failed, restored, panicked, Ending, restored_by, nobody, crashed,
  restore_loop_tries, Reports,
}
use aws_kms_demo.KeyMaterial.Restore.Opening.{Opens, restore_from_package-Opens}

module _ {W : Type 0} (tee : Enclave W) (endpoint : Endpoint) (client : KmsDataKeyClient)
    (s : ParentSettings) where
  -- A body that the broker gave for a key in the bucket of the settings.
  pub record WasLoaded (name : Str) (body : Bytes) : Type 0 where
    pub before : W
    pub after : W
    pub load : client_load_object tee.net endpoint s.s3_bucket name before ≡ (ok (some body), after)

  pub found-WasLoaded :
      (name message : Str) (found : Option Bytes) (body : Bytes) (w v : W)
      → client_load_object tee.net endpoint s.s3_bucket name w ≡ (ok found, v)
      → ok_or found message ≡ ok body
      → WasLoaded name body
  found-WasLoaded name message found body w v load present = record {
    before = w;
    after = v;
    load = load ∙ ap (λ o. (ok o, v)) (ok_or-eq-ok found message present);
  }

  -- The attempt that succeeded, with the object that it opened.
  pub record Recovered (m : KeyManifest) (public_key : Bytes) (key : KmsKeySettings) : Type 0 where
    pub listed : Memᴰ key s.kms_keys
    pub reference : RecoveryObjectReference
    pub chosen : reference_for key m.recovery_objects ≡ some reference
    pub body : Bytes
    pub loaded : WasLoaded reference.object_key body
    pub intact : sha256_hex tee.crypto.sha256 body ≡ reference.sha256
    pub recovery : RecoveryPackage
    pub parsed : tee.packages.from_slice body ≡ ok recovery
    pub opens : Opens tee endpoint client s key recovery public_key

  attempt_recovers :
      (m : KeyManifest) (public_key : Bytes) (key : KmsKeySettings)
      (reference : RecoveryObjectReference) (w w' : W) (u : Unit {0})
      → Memᴰ key s.kms_keys
      → reference_for key m.recovery_objects ≡ some reference
      → restore_attempt tee endpoint client s key reference public_key w ≡ (ok u, w')
      → Recovered m public_key key
  unfolding restore_attempt
  attempt_recovers m public_key key reference w w' u listed chosen h =
      bind_elim (client_load_object tee.net endpoint s.s3_bucket reference.object_key) _ w w' h
        λ found v loading k₁.
          lift_elim (ok_or found (txt "recovery object is missing: " ++ reference.object_key)) _ v
            w' k₁
            λ body present k₂.
              lift_elim (verify_sha256 tee.crypto (txt "recovery object") body reference.sha256) _ v
                w' k₂
                λ _ h₃ k₃. lift_elim (tee.packages.from_slice body) _ v w' k₃ λ recovery h₄ k₄.
                  record {
                    listed = listed;
                    reference = reference;
                    chosen = chosen;
                    body = body;
                    loaded = found-WasLoaded _ _ found body w v loading present;
                    intact = (verify_sha256_iff tee.crypto _ body reference.sha256).0 h₃;
                    recovery = recovery;
                    parsed = h₄;
                    opens =
                        restore_from_package-Opens tee endpoint client s key recovery public_key v
                          w' u k₄;
                  }

  -- A search that ends with a key has recovered by it.
  tries-Recovered :
      (m : KeyManifest) (public_key : Bytes) (key : KmsKeySettings) {keys : List KmsKeySettings}
      {w w' : W} {e : Ending}
      → e ≡ restored_by key
      → ((k : KmsKeySettings) → Memᴰ k keys → Memᴰ k s.kms_keys)
      → Tries tee endpoint client s m.recovery_objects public_key keys w e w'
      → Recovered m public_key key
  tries-Recovered m public_key key same inside exhausted = cc
  tries-Recovered m public_key key same inside (panicked found e) = cc
  tries-Recovered m public_key key same inside (absent missing later) =
      tries-Recovered m public_key key same (λ k mem. inside k (Memᴰ.tail mem)) later
  tries-Recovered m public_key key same inside (failed found e later) =
      tries-Recovered m public_key key same (λ k mem. inside k (Memᴰ.tail mem)) later
  tries-Recovered m public_key key same inside
        (restored {key = k} {w} {w'} {u} {reference} found e) =
      let is_key : k ≡ key = cc in
      subst (Recovered m public_key) is_key
        (attempt_recovers m public_key k reference w w' u (inside k (Memᴰ.head refl)) found e)

  pub winner-Recovered :
      (m : KeyManifest) (public_key : Bytes) (key : KmsKeySettings) (w v : W)
      → restore_loop tee endpoint client s m.recovery_objects public_key s.kms_keys [] w
        ≡ (ok key, v)
      → Recovered m public_key key
  winner-Recovered m public_key key w v won =
      let (end, w', tries, reports) =
        restore_loop_tries tee endpoint client s m.recovery_objects public_key s.kms_keys [] w in
      tries-Recovered m public_key key (ending_of end w' reports) (λ k mem. mem) tries
    where
      ending_of :
          (end : Ending) (w' : W)
          → Reports tee endpoint client s m.recovery_objects public_key end w'
              (restore_loop tee endpoint client s m.recovery_objects public_key s.kms_keys [] w)
          → end ≡ restored_by key
      ending_of (restored_by k) w' r = cc
      ending_of nobody w' (message, r) = cc
      ending_of (crashed why) w' r = cc
