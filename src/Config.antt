-- ===== src/Config.antt =====
-- `ParentSettings::from_env` and `kms_request_settings` (src/lib.rs).
pub mod Types
pub mod Parse
pub mod Prefix
pub mod Loaded
pub mod Context
pub mod Secrets
use aws_kms_demo.Base.{
  ℕ, Str, txt, Bool, true, false, not, ◌&&◌, Option, none, some, List, [], ◌∷◌, ◌++◌, if◌then◌else◌,
  Result, ok, err, ◌>>=◌, ◌>>◌, ok_or, traverse, reject_if,
}
use aws_kms_demo.Text.{is_empty, trim}
use aws_kms_demo.Text.Number.{ℤ}
use aws_kms_demo.Arn.{kms_region_from_arn}
use aws_kms_demo.Config.Types.{
  KmsSlot, primary, backup, KmsKeySettings, ParentSettings, serve, Settings,
}
use aws_kms_demo.Config.Parse.{
  parse_key_spec, parse_number_of_bytes, parse_csv, parse_encryption_context, parse_bool,
  parse_startup_mode, normalize_s3_prefix,
}

abbrev pub default_s3_prefix : Str
default_s3_prefix = txt "kms-keypair"

-- `env::var(name).ok()`: none also where the value is not valid Unicode.
abbrev pub Environment : Type 0
Environment = Str → Option Str

-- `.or_else`, `.is_some` and `.unwrap_or_default` of an option.
abbrev pub or_else {ℓ} : {A : Type ℓ} → Option A → Option A → Option A
or_else none o = o
or_else (some a) o = some a

abbrev pub is_some {ℓ} : {A : Type ℓ} → Option A → Bool
is_some none = false
is_some (some a) = true

abbrev pub unwrap_or {ℓ} : {A : Type ℓ} → Option A → A → A
unwrap_or none d = d
unwrap_or (some a) d = a

abbrev pub csv_or_empty : Option Str → List Str
csv_or_empty none = []
csv_or_empty (some value) = parse_csv value

-- A variable that is blank counts as not set.
abbrev nonblank : Option Str → Option Str
nonblank none = none
nonblank (some value) = if not (is_empty (trim value)) then some value else none

unfoldable pub from_arn : KmsSlot → Str → Result KmsKeySettings
from_arn slot key_arn = do
  region ← kms_region_from_arn key_arn
  ok (record { slot = slot; key_arn = key_arn; region = region })

module _ (env : Environment) where
  unfoldable pub optional_env : Str → Option Str
  optional_env name = nonblank (env name)

  unfoldable pub required_env : Str → Result Str
  required_env name = ok_or (optional_env name) (txt "missing " ++ name)

  unfoldable pub from_env : Result ParentSettings
  from_env = do
    let key_spec = or_else (optional_env (txt "KMS_KEY_SPEC")) (optional_env (txt "KEY_SPEC"))
    number_of_bytes ← traverse parse_number_of_bytes (optional_env (txt "KMS_NUMBER_OF_BYTES"))
    reject_if (is_some key_spec && is_some number_of_bytes)
        (txt "set only one of KMS_KEY_SPEC or KMS_NUMBER_OF_BYTES")
    primary_key_arn ← required_env (txt "KMS_PRIMARY_KEY_ARN")
    backup_key_arn ← required_env (txt "KMS_BACKUP_KEY_ARN")
    primary_key ← from_arn primary primary_key_arn
    backup_key ← from_arn backup backup_key_arn
    s3_bucket ← required_env (txt "S3_BUCKET")
    s3_prefix ← normalize_s3_prefix (unwrap_or (optional_env (txt "S3_PREFIX")) default_s3_prefix)
    startup_mode ← traverse parse_startup_mode (optional_env (txt "DECRYPT_SERVER_TEE_MODE"))
    encryption_context ←
        traverse parse_encryption_context (optional_env (txt "KMS_ENCRYPTION_CONTEXT"))
    dry_run ← traverse (parse_bool (txt "KMS_DRY_RUN")) (optional_env (txt "KMS_DRY_RUN"))
    ok (record {
      kms_keys = primary_key ∷ backup_key ∷ [];
      s3_bucket = s3_bucket;
      s3_prefix = s3_prefix;
      startup_mode = unwrap_or startup_mode serve;
      key_spec = or_else key_spec (some (txt "AES_256"));
      number_of_bytes = number_of_bytes;
      encryption_context = encryption_context;
      grant_tokens = csv_or_empty (optional_env (txt "KMS_GRANT_TOKENS"));
      dry_run = dry_run;
    })

unfoldable pub kms_request_settings : ParentSettings → Str → Result Settings
kms_request_settings s key_arn = do
  key_spec ← traverse parse_key_spec s.key_spec
  ok (record {
    kms_key_id = key_arn;
    key_spec = key_spec;
    number_of_bytes = s.number_of_bytes;
    encryption_context = s.encryption_context;
    grant_tokens = s.grant_tokens;
    dry_run = s.dry_run;
  })
