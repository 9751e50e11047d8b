-- ===== src/Tests/Fixtures.antt =====
-- The inputs and the small worlds that the tests share.
use aws_kms_demo.Base.{
  ℕ, zero, suc, refl, ◌<◌, All, arith, Str, Bytes, txt, none, some, list_eq, [], ◌∷◌, if◌then◌else◌,
}
use aws_kms_demo.Arn.Naming.{IsDigest}
use aws_kms_demo.Config.{Environment}
use aws_kms_demo.Config.Types.{init_key, KmsKeySettings, ParentSettings, primary, backup, serve}
use aws_kms_demo.Text.Number.{pos}

unfoldable pub main_arn : Str
main_arn = txt "arn:aws:kms:eu-west-1:111:key/0a1b2c3d4e"

unfoldable pub spare_arn : Str
spare_arn = txt "arn:aws:kms:eu-west-1:222:key/9f8e7d6c5b"

-- An environment with the variables that are required, and the size of the data key in bytes.
abbrev pub sized_environment : Environment
sized_environment name =
    if list_eq name (txt "KMS_PRIMARY_KEY_ARN")
    then some main_arn
    else if list_eq name (txt "KMS_BACKUP_KEY_ARN")
    then some spare_arn
    else if list_eq name (txt "S3_BUCKET")
    then some (txt "vault")
    else if list_eq name (txt "KMS_NUMBER_OF_BYTES")
    then some (txt "32")
    else none

abbrev pub main_key : KmsKeySettings
main_key = record { slot = primary; key_arn = main_arn; region = txt "eu-west-1" }

abbrev pub spare_key : KmsKeySettings
spare_key = record { slot = backup; key_arn = spare_arn; region = txt "eu-west-1" }

abbrev pub sized_settings : ParentSettings
sized_settings = record {
  kms_keys = main_key ∷ spare_key ∷ [];
  s3_bucket = txt "vault";
  s3_prefix = txt "kms-keypair";
  startup_mode = serve;
  key_spec = some (txt "AES_256");
  number_of_bytes = some (pos 32);
  encryption_context = none;
  grant_tokens = [];
  dry_run = none;
}

unfoldable pub zeros : ℕ → Bytes
zeros zero = []
zeros (suc n) = 0 ∷ zeros n

zeros-All : (n : ℕ) → All (λ b. b < 256) (zeros n)
unfolding zeros
zeros-All zero = tt
zeros-All (suc n) = (omega arith, zeros-All n)

-- A digest of 32 zero bytes.
unfoldable pub zero_digest : Bytes → Bytes
unfolding zeros
zero_digest bytes = zeros 32

pub zero_digest-IsDigest : IsDigest zero_digest
unfolding zero_digest zeros
zero_digest-IsDigest = record { size = λ b. refl; are_bytes = λ b. zeros-All 32 }

-- The same prefix and bucket, for a broker that may write.
abbrev pub init_settings : ParentSettings
init_settings = record {
  kms_keys = main_key ∷ spare_key ∷ [];
  s3_bucket = txt "vault";
  s3_prefix = txt "keys";
  startup_mode = init_key;
  key_spec = none;
  number_of_bytes = none;
  encryption_context = none;
  grant_tokens = [];
  dry_run = none;
}
