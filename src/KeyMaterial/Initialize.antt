-- ===== src/KeyMaterial/Initialize.antt =====
-- `initialize_key_material` (src/key_material.rs).
pub mod Upload
pub mod Sealing
pub mod Commit
pub mod Restorable
use aws_kms_demo.Base.{
  ℕ, Str, Bytes, txt, Result, ok, err, panic, Option, none, some, Bool, true, false, not, list_eq,
  ok_or, List, [], ◌∷◌, ◌++◌,
}
use aws_kms_demo.Effects.{M, ◌>>=◌, ◌>>◌, pure, lift, raise, guard}
use aws_kms_demo.Endpoint.{Endpoint}
use aws_kms_demo.Arn.{sha256_hex, kms_key_storage_id, kms_key_display_id}
use aws_kms_demo.Config.{is_some}
use aws_kms_demo.Config.Types.{ParentSettings, KmsKeySettings}
use aws_kms_demo.Client.{client_load_object, client_save_object_if_absent}
use aws_kms_demo.Crypto.{
  Crypto, encrypt_private_key, validate_data_key_len, aes_gcm_nonce_length,
  ed25519_private_key_length,
}
use aws_kms_demo.Kms.{KmsDataKeyClient, generate_data_key}
use aws_kms_demo.Kms.Nitro.{GeneratedDataKey}
use aws_kms_demo.KeyMaterial.{
  Enclave, KeyManifest, ObjectReference, RecoveryObjectReference, RecoveryPackage,
  PublicKeyDocument, RestoredKeyPair, object_key, manifest_file_name, verify_sha256,
  key_material_version, private_key_algorithm, private_key_encryption, differ,
}
use aws_kms_demo.KeyMaterial.Restore.{restore_from_package}

-- `encrypted_private_key_by_kms-key-…` below the directory of its KMS key.
unfoldable pub relative_key : Str → Str → Str → Str
relative_key storage_id display_id package_hash =
    txt "kms-key-"
    ++ (storage_id
        ++ (txt "/encrypted_private_key_by_kms-key-"
            ++ (display_id ++ (txt "_sha256-" ++ (package_hash ++ txt ".json")))))

unfoldable pub public_key_name : Str → Str
public_key_name fingerprint = txt "public_key_sha256-" ++ (fingerprint ++ txt ".json")

abbrev pub unexpected_key : Str → Str → Str
unexpected_key given expected =
    txt "KMS GenerateDataKey returned unexpected key ID "
    ++ (given ++ (txt "; expected " ++ expected))

abbrev pub manifest_exists : Str → Str → Str
manifest_exists bucket key =
    txt "key manifest already exists at s3://"
    ++ (bucket ++ (txt "/" ++ (key ++ txt "; refusing to generate or overwrite key material")))

abbrev pub document_of : Crypto → Bytes → PublicKeyDocument
document_of c public_key = record {
  version = key_material_version;
  algorithm = private_key_algorithm;
  public_key_base64 = c.encode public_key;
  fingerprint_sha256 = sha256_hex c.sha256 public_key;
}

unfoldable pub manifest_of : Str → ObjectReference → List RecoveryObjectReference → KeyManifest
manifest_of fingerprint public_key references = record {
  version = key_material_version;
  recovery_policy = txt "any-one";
  key_fingerprint = fingerprint;
  private_key_algorithm = private_key_algorithm;
  private_key_encryption = private_key_encryption;
  public_key = public_key;
  recovery_objects = references;
}

module _ {W : Type 0} (tee : Enclave W) (endpoint : Endpoint) (client : KmsDataKeyClient)
    (s : ParentSettings) where
  unfoldable pub verify_uploaded_object : Str → Str → Str → M W (Unit {0})
  verify_uploaded_object bucket key expected_hash = do
    found ← client_load_object tee.net endpoint bucket key
    body ← lift (ok_or found (txt "uploaded object disappeared before verification: " ++ key))
    lift (verify_sha256 tee.crypto (txt "uploaded object") body expected_hash)

  -- A save followed by the check of what was saved.
  unfoldable pub save_and_verify : Str → Bytes → Str → M W (Unit {0})
  save_and_verify key body hash = do
    client_save_object_if_absent tee.net endpoint s.s3_bucket key body
    verify_uploaded_object s.s3_bucket key hash

  -- The package that wraps the private key under one data key.
  unfoldable pub seal : GeneratedDataKey → Bytes → M W RecoveryPackage
  seal generated private_key = do
    lift (validate_data_key_len generated.plaintext_data_key)
    nonce ← tee.random_bytes aes_gcm_nonce_length
    encrypted ← lift (encrypt_private_key tee.crypto generated.plaintext_data_key nonce private_key)
    pure (record {
      version = key_material_version;
      encrypted_data_key_base64 = tee.crypto.encode generated.encrypted_data_key;
      private_key_nonce_base64 = tee.crypto.encode nonce;
      encrypted_private_key_base64 = tee.crypto.encode encrypted;
    })

  -- One round of the loop over the keys.
  unfoldable pub initialize_key : Bytes → Bytes → KmsKeySettings → M W RecoveryObjectReference
  initialize_key private_key public_key key = do
    generated ← generate_data_key tee.kms tee.net client s key
    guard (differ generated.kms_key_id key.key_arn)
        (unexpected_key generated.kms_key_id key.key_arn)
    recovery ← seal generated private_key
    body ← lift (tee.packages.to_vec recovery)
    let hash = sha256_hex tee.crypto.sha256 body
    storage_id ← lift (kms_key_storage_id tee.crypto.sha256 key.key_arn)
    display_id ← lift (kms_key_display_id key.key_arn)
    let name = object_key s.s3_prefix (relative_key storage_id display_id hash)
    save_and_verify name body hash
    restore_from_package tee endpoint client s key recovery public_key
    pure (record { kms_key_arn = key.key_arn; object_key = name; sha256 = hash })

  unfoldable pub initialize_keys :
      Bytes → Bytes → List KmsKeySettings → M W (List RecoveryObjectReference)
  initialize_keys private_key public_key [] = pure []
  initialize_keys private_key public_key (key ∷ keys) = do
    reference ← initialize_key private_key public_key key
    references ← initialize_keys private_key public_key keys
    pure (reference ∷ references)

  unfoldable pub initialize_key_material : M W RestoredKeyPair
  initialize_key_material = do
    let manifest_key = object_key s.s3_prefix manifest_file_name
    existing ← client_load_object tee.net endpoint s.s3_bucket manifest_key
    guard (is_some existing) (manifest_exists s.s3_bucket manifest_key)
    private_key ← tee.random_bytes ed25519_private_key_length
    let public_key = tee.crypto.public_key private_key
    let fingerprint = sha256_hex tee.crypto.sha256 public_key
    public_body ← lift (tee.public_documents.to_vec (document_of tee.crypto public_key))
    let public_hash = sha256_hex tee.crypto.sha256 public_body
    let public_object_key = object_key s.s3_prefix (public_key_name fingerprint)
    references ← initialize_keys private_key public_key s.kms_keys
    save_and_verify public_object_key public_body public_hash
    manifest_body ← lift (
        tee.manifests.to_vec (
          manifest_of fingerprint (record { object_key = public_object_key; sha256 = public_hash })
            references))
    client_save_object_if_absent tee.net endpoint s.s3_bucket manifest_key manifest_body
    pure (record { public_key = public_key; fingerprint = fingerprint; kms_key_arn = [] })
