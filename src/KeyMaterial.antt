-- ===== src/KeyMaterial.antt =====
-- The documents in S3 and their checks (src/key_material.rs).
pub mod Restore
pub mod Initialize
pub mod Checks
pub mod Lifecycle
use aws_kms_demo.Base.{
  ℕ, Str, Bytes, txt, Result, ok, err, ◌>>=◌, ◌>>◌, reject_if, Option, none, some, Bool, true,
  false, not, ◌||◌, ◌==◌, list_eq, List, ◌++◌, length, if◌then◌else◌,
}
use aws_kms_demo.Text.Number.{to_string}
use aws_kms_demo.Arn.{sha256_hex}
use aws_kms_demo.Config.Types.{ParentSettings, KmsKeySettings}
use aws_kms_demo.Crypto.{Crypto, decode_fixed_base64}
use aws_kms_demo.Frame.{Codec}
use aws_kms_demo.Effects.{M}
use aws_kms_demo.Client.{Network}
use aws_kms_demo.Kms.{KmsServices}

pub record ObjectReference : Type 0 where
  pub object_key : Str
  pub sha256 : Str

pub record RecoveryObjectReference : Type 0 where
  pub kms_key_arn : Str
  pub object_key : Str
  pub sha256 : Str

pub record KeyManifest : Type 0 where
  pub version : ℕ
  pub recovery_policy : Str
  pub key_fingerprint : Str
  pub private_key_algorithm : Str
  pub private_key_encryption : Str
  pub public_key : ObjectReference
  pub recovery_objects : List RecoveryObjectReference

pub record PublicKeyDocument : Type 0 where
  pub version : ℕ
  pub algorithm : Str
  pub public_key_base64 : Str
  pub fingerprint_sha256 : Str

pub record RecoveryPackage : Type 0 where
  pub version : ℕ
  pub encrypted_data_key_base64 : Str
  pub private_key_nonce_base64 : Str
  pub encrypted_private_key_base64 : Str

pub record RestoredKeyPair : Type 0 where
  pub public_key : Bytes
  pub fingerprint : Str
  pub kms_key_arn : Str

-- What the enclave's program uses from outside: the network to the broker, KMS, the primitives, the
-- JSON of the three documents (`to_vec_pretty`), and random bytes.
pub record Enclave (W : Type 0) : Type 0 where
  pub net : Network W
  pub kms : KmsServices W
  pub crypto : Crypto
  pub manifests : Codec KeyManifest
  pub public_documents : Codec PublicKeyDocument
  pub packages : Codec RecoveryPackage
  pub random_bytes : ℕ → M W Bytes

abbrev pub key_material_version : ℕ
key_material_version = 2

abbrev pub private_key_algorithm : Str
private_key_algorithm = txt "ED25519"

abbrev pub private_key_encryption : Str
private_key_encryption = txt "AES-GCM"

abbrev pub manifest_file_name : Str
manifest_file_name = txt "key_manifest.json"

unfoldable pub object_key : Str → Str → Str
object_key prefix relative = prefix ++ (txt "/" ++ relative)

-- `a != b` on texts.
abbrev pub differ : Str → Str → Bool
differ a b = not (list_eq a b)

unfoldable pub validate_manifest : KeyManifest → Result (Unit {0})
validate_manifest m = do
  reject_if (not (m.version == key_material_version))
      (txt "unsupported key manifest version " ++ to_string m.version)
  reject_if (differ m.recovery_policy (txt "any-one"))
      (txt "unsupported recovery policy " ++ m.recovery_policy)
  reject_if
      (differ m.private_key_algorithm private_key_algorithm
        || differ m.private_key_encryption private_key_encryption)
      (txt "unsupported private key algorithm or encryption in manifest")
  reject_if (not (length m.recovery_objects == 2))
      (txt "key manifest must contain exactly two recovery objects")
  ok tt

module _ (c : Crypto) where
  unfoldable pub verify_sha256 : Str → Bytes → Str → Result (Unit {0})
  verify_sha256 name body expected =
      if differ (sha256_hex c.sha256 body) expected
      then err (
          name
          ++ (txt " SHA-256 mismatch: expected "
              ++ (expected ++ (txt ", got " ++ sha256_hex c.sha256 body))))
      else ok tt

  unfoldable pub validate_public_document : PublicKeyDocument → KeyManifest → Result Bytes
  validate_public_document document manifest = do
    reject_if
        (not (document.version == key_material_version)
          || differ document.algorithm private_key_algorithm)
        (txt "unsupported public key document")
    public_key ← decode_fixed_base64 c 32 (txt "public_key_base64") document.public_key_base64
    reject_if
        (differ (sha256_hex c.sha256 public_key) document.fingerprint_sha256
          || differ (sha256_hex c.sha256 public_key) manifest.key_fingerprint)
        (txt "public key fingerprint does not match the manifest")
    ok public_key
