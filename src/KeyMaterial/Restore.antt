-- ===== src/KeyMaterial/Restore.antt =====
-- `restore_key_material` and `restore_from_package` (src/key_material.rs).
pub mod Order
pub mod Opening
pub mod Recovery
pub mod Sound
pub mod Again
use aws_kms_demo.Base.{
  ℕ, Str, Bytes, txt, Result, ok, err, panic, Option, none, some, Bool, true, false, not, ◌==◌,
  list_eq, find, ok_or, List, [], ◌∷◌, ◌++◌, if◌then◌else◌,
}
use aws_kms_demo.Text.{join}
use aws_kms_demo.Text.Number.{to_string}
use aws_kms_demo.Effects.{M, ◌>>=◌, ◌>>◌, pure, lift, raise, guard}
use aws_kms_demo.Endpoint.{Endpoint}
use aws_kms_demo.Config.Types.{ParentSettings, KmsKeySettings}
use aws_kms_demo.Client.{client_load_object}
use aws_kms_demo.Crypto.{
  decode_base64, decode_fixed_base64, decrypt_private_key, validate_data_key_len, fixed_bytes,
  aes_gcm_nonce_length, ed25519_private_key_length,
}
use aws_kms_demo.Kms.{KmsDataKeyClient, decrypt_data_key}
use aws_kms_demo.KeyMaterial.{
  Enclave, KeyManifest, RecoveryObjectReference, RecoveryPackage, RestoredKeyPair, object_key,
  manifest_file_name, validate_manifest, verify_sha256, validate_public_document,
  key_material_version, differ,
}

-- `manifest.recovery_objects.iter().find(…)`
abbrev pub reference_for :
    KmsKeySettings → List RecoveryObjectReference → Option RecoveryObjectReference
reference_for key = find (λ reference. list_eq reference.kms_key_arn key.key_arn)

abbrev pub no_manifest : ParentSettings → Str
no_manifest s =
    txt "key manifest does not exist at s3://"
    ++ (s.s3_bucket
        ++ (txt "/"
            ++ (object_key s.s3_prefix manifest_file_name
                ++ txt "; refusing to generate a replacement")))

module _ {W : Type 0} (tee : Enclave W) (endpoint : Endpoint) (client : KmsDataKeyClient)
    (s : ParentSettings) where
  unfoldable pub restore_from_package : KmsKeySettings → RecoveryPackage → Bytes → M W (Unit {0})
  restore_from_package key recovery expected_public_key = do
    guard (not (recovery.version == key_material_version))
        (txt "unsupported recovery package version " ++ to_string recovery.version)
    encrypted_data_key ← lift (
        decode_base64 tee.crypto (txt "encrypted_data_key_base64")
          recovery.encrypted_data_key_base64)
    encrypted_private_key ← lift (
        decode_base64 tee.crypto (txt "encrypted_private_key_base64")
          recovery.encrypted_private_key_base64)
    nonce ← lift (
        decode_fixed_base64 tee.crypto aes_gcm_nonce_length (txt "private_key_nonce_base64")
          recovery.private_key_nonce_base64)
    plaintext_data_key ← decrypt_data_key tee.kms tee.net client s key encrypted_data_key
    lift (validate_data_key_len plaintext_data_key)
    decrypted ← lift (decrypt_private_key tee.crypto plaintext_data_key nonce encrypted_private_key)
    private_key ← lift (fixed_bytes ed25519_private_key_length (txt "private key") decrypted)
    guard (differ (tee.crypto.public_key private_key) expected_public_key)
        (txt "restored private key does not match the stored public key")
    pure tt

  -- The `async` block of one attempt.
  unfoldable pub restore_attempt : KmsKeySettings → RecoveryObjectReference → Bytes → M W (Unit {0})
  restore_attempt key reference expected_public_key = do
    found ← client_load_object tee.net endpoint s.s3_bucket reference.object_key
    body ← lift (ok_or found (txt "recovery object is missing: " ++ reference.object_key))
    lift (verify_sha256 tee.crypto (txt "recovery object") body reference.sha256)
    recovery ← lift (tee.packages.from_slice body)
    restore_from_package key recovery expected_public_key

  -- What the loop does with an attempt's result: return, go on with one more failure, or panic.
  unfoldable pub after_attempt :
      KmsKeySettings
      → List Str
      → (List Str → M W KmsKeySettings)
      → Result (Unit {0}) × W
      → Result KmsKeySettings × W
  after_attempt key failures next (ok _, w) = (ok key, w)
  after_attempt key failures next (err e, w) =
      next (failures ++ (key.key_arn ++ (txt ": " ++ e)) ∷ []) w
  after_attempt key failures next (panic e, w) = (panic e, w)

  -- The loop over the keys, up to the one that restored the private key.
  unfoldable pub restore_loop :
      List RecoveryObjectReference → Bytes → List KmsKeySettings → List Str → M W KmsKeySettings
  unfolding after_attempt
  restore_loop references expected [] failures = raise (
      txt "none of the configured KMS keys could restore the private key: "
      ++ join (txt "; ") failures)
  restore_loop references expected (key ∷ keys) failures =
      let next = restore_loop references expected keys in
      elim (reference_for key references) [
        | none ↦ next (failures ++ (key.key_arn ++ txt ": no recovery object in manifest") ∷ [])
        | some reference ↦
            λ w. after_attempt key failures next (restore_attempt key reference expected w)
      ]

  unfoldable pub restore_key_material : M W RestoredKeyPair
  restore_key_material = do
    found ←
        client_load_object tee.net endpoint s.s3_bucket (object_key s.s3_prefix manifest_file_name)
    manifest_body ← lift (ok_or found (no_manifest s))
    manifest ← lift (tee.manifests.from_slice manifest_body)
    lift (validate_manifest manifest)
    public ← client_load_object tee.net endpoint s.s3_bucket manifest.public_key.object_key
    public_body ←
        lift (ok_or public (txt "public key object is missing: " ++ manifest.public_key.object_key))
    lift (verify_sha256 tee.crypto (txt "public key object") public_body manifest.public_key.sha256)
    document ← lift (tee.public_documents.from_slice public_body)
    expected_public_key ← lift (validate_public_document tee.crypto document manifest)
    key ← restore_loop manifest.recovery_objects expected_public_key s.kms_keys []
    pure (record {
      public_key = expected_public_key;
      fingerprint = manifest.key_fingerprint;
      kms_key_arn = key.key_arn;
    })
