-- ===== src/KeyMaterial/Initialize/Sealing.antt =====
-- What the loop of `initialize_key_material` has done for each KMS key (src/key_material.rs).
use aws_kms_demo.Base.{Str, Bytes, ok, ok-injective, List, [], ◌∷◌, ◌≡◌, refl, ap, subst}
use aws_kms_demo.Effects.{M, ◌>>=◌, bind_elim, lift_elim, guard_elim}
use aws_kms_demo.Endpoint.{Endpoint}
use aws_kms_demo.Arn.{sha256_hex, kms_key_storage_id, kms_key_display_id}
use aws_kms_demo.Config.Types.{ParentSettings, KmsKeySettings}
use aws_kms_demo.Kms.{KmsDataKeyClient, generate_data_key}
use aws_kms_demo.KeyMaterial.{Enclave, RecoveryObjectReference, RecoveryPackage, object_key, differ}
use aws_kms_demo.KeyMaterial.Restore.{restore_from_package}
use aws_kms_demo.KeyMaterial.Restore.Opening.{Opens, restore_from_package-Opens}
use aws_kms_demo.KeyMaterial.Initialize.{
  relative_key, unexpected_key, save_and_verify, seal, initialize_key, initialize_keys,
}
use aws_kms_demo.KeyMaterial.Initialize.Upload.{Uploaded, save_and_verify-Uploaded}

module _ {W : Type 0} (tee : Enclave W) (endpoint : Endpoint) (client : KmsDataKeyClient)
    (s : ParentSettings) where
  -- The reference of one KMS key: its object holds a package, was saved and read back, and the
  -- private key in it could be recovered with that KMS key.
  pub record Sealed (public_key : Bytes) (key : KmsKeySettings) (r : RecoveryObjectReference)
      : Type 0 where
    pub arn : r.kms_key_arn ≡ key.key_arn
    pub recovery : RecoveryPackage
    pub body : Bytes
    pub printed : tee.packages.to_vec recovery ≡ ok body
    pub hash : r.sha256 ≡ sha256_hex tee.crypto.sha256 body
    pub uploaded : Uploaded tee endpoint client s r.object_key body r.sha256
    pub opens : Opens tee endpoint client s key recovery public_key

  abbrev reference_to : KmsKeySettings → Bytes → Str → Str → RecoveryObjectReference
  reference_to key body storage_id display_id = record {
    kms_key_arn = key.key_arn;
    object_key =
        object_key s.s3_prefix
          (relative_key storage_id display_id (sha256_hex tee.crypto.sha256 body));
    sha256 = sha256_hex tee.crypto.sha256 body;
  }

  -- The end of a round, from the upload on.
  abbrev upload_and_open :
      Bytes
      → KmsKeySettings
      → RecoveryPackage
      → Bytes
      → RecoveryObjectReference
      → M W RecoveryObjectReference
  upload_and_open public_key key recovery body made =
      save_and_verify tee endpoint client s made.object_key body made.sha256 >>= λ _.
      restore_from_package tee endpoint client s key recovery public_key >>= λ _. λ v. (ok made, v)

  upload_and_open-Sealed :
      (public_key : Bytes) (key : KmsKeySettings) (recovery : RecoveryPackage) (body : Bytes)
      (storage_id display_id : Str) (r : RecoveryObjectReference) (w w' : W)
      → tee.packages.to_vec recovery ≡ ok body
      → upload_and_open public_key key recovery body (reference_to key body storage_id display_id) w
        ≡ (ok r, w')
      → Sealed public_key key r
  upload_and_open-Sealed public_key key recovery body storage_id display_id r w w' printed h =
      let made = reference_to key body storage_id display_id in
      bind_elim (save_and_verify tee endpoint client s made.object_key body made.sha256) _ w w' h
        λ u v uploading k₁.
          bind_elim (restore_from_package tee endpoint client s key recovery public_key) _ v w' k₁
            λ u' v' opening last.
              subst (Sealed public_key key) (ok-injective made r (ap (λ x. x.0) last)) (record {
                arn = refl;
                recovery = recovery;
                body = body;
                printed = printed;
                hash = refl;
                uploaded = save_and_verify-Uploaded tee endpoint client s _ body _ w v u uploading;
                opens =
                    restore_from_package-Opens tee endpoint client s key recovery public_key v v' u'
                      opening;
              })

  initialize_key-Sealed :
      (private_key public_key : Bytes) (key : KmsKeySettings) (r : RecoveryObjectReference)
      (w w' : W)
      → initialize_key tee endpoint client s private_key public_key key w ≡ (ok r, w')
      → Sealed public_key key r
  unfolding initialize_key
  initialize_key-Sealed private_key public_key key r w w' h =
      bind_elim (generate_data_key tee.kms tee.net client s key) _ w w' h λ generated w₁ _ k₁.
        guard_elim (differ generated.kms_key_id key.key_arn)
          (unexpected_key generated.kms_key_id key.key_arn) _ w₁ w' k₁
          λ _ k₂.
            bind_elim (seal tee endpoint client s generated private_key) _ w₁ w' k₂
              λ recovery w₂ _ k₃.
                lift_elim (tee.packages.to_vec recovery) _ w₂ w' k₃ λ body printed k₄.
                  lift_elim (kms_key_storage_id tee.crypto.sha256 key.key_arn) _ w₂ w' k₄
                    λ storage_id _ k₅.
                      lift_elim (kms_key_display_id key.key_arn) _ w₂ w' k₅ λ display_id _ k₆.
                        upload_and_open-Sealed public_key key recovery body storage_id display_id r
                          w₂ w' printed k₆

  -- One sealed reference for each key, in the order of the keys.
  pub data AllSealed (public_key : Bytes)
      : List KmsKeySettings → List RecoveryObjectReference → Type 0 where
    none_left : AllSealed public_key [] []
    one_more :
        {key : KmsKeySettings} {keys : List KmsKeySettings} {r : RecoveryObjectReference}
        {rs : List RecoveryObjectReference}
        → Sealed public_key key r
        → AllSealed public_key keys rs
        → AllSealed public_key (key ∷ keys) (r ∷ rs)

  pub initialize_keys-AllSealed :
      (private_key public_key : Bytes) (keys : List KmsKeySettings)
      (rs : List RecoveryObjectReference) (w w' : W)
      → initialize_keys tee endpoint client s private_key public_key keys w ≡ (ok rs, w')
      → AllSealed public_key keys rs
  unfolding initialize_keys
  initialize_keys-AllSealed private_key public_key [] rs w w' h =
      subst (AllSealed public_key []) (ok-injective [] rs (ap (λ x. x.0) h)) none_left
  initialize_keys-AllSealed private_key public_key (key ∷ keys) rs w w' h =
      bind_elim (initialize_key tee endpoint client s private_key public_key key) _ w w' h
        λ r w₁ first k₁.
          bind_elim (initialize_keys tee endpoint client s private_key public_key keys) _ w₁ w' k₁
            λ rest w₂ later last.
              subst (AllSealed public_key (key ∷ keys))
                (ok-injective (r ∷ rest) rs (ap (λ x. x.0) last))
                (one_more (initialize_key-Sealed private_key public_key key r w w₁ first)
                  (initialize_keys-AllSealed private_key public_key keys rest w₁ w₂ later))
