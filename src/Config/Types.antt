-- ===== src/Config/Types.antt =====
-- The configuration types of src/lib.rs.
use aws_kms_demo.Base.{ℕ, Str, txt, Bool, true, false, Option, List}
use aws_kms_demo.Text.Number.{ℤ}

pub data StartupMode : Type 0 where
  serve init_key : StartupMode

pub data KmsSlot : Type 0 where
  primary backup : KmsSlot

abbrev pub slot_eq : KmsSlot → KmsSlot → Bool
slot_eq primary primary = true
slot_eq backup backup = true
slot_eq _ _ = false

unfoldable pub label : KmsSlot → Str
label primary = txt "primary"
label backup = txt "backup"

pub record KmsKeySettings : Type 0 where
  pub slot : KmsSlot
  pub key_arn : Str
  pub region : Str

-- A `HashMap<String, String>`, by its bindings.
abbrev pub StrMap : Type 0
StrMap = List (Str × Str)

pub record ParentSettings : Type 0 where
  pub kms_keys : List KmsKeySettings
  pub s3_bucket : Str
  pub s3_prefix : Str
  pub startup_mode : StartupMode
  pub key_spec : Option Str
  pub number_of_bytes : Option ℤ
  pub encryption_context : Option StrMap
  pub grant_tokens : List Str
  pub dry_run : Option Bool

pub record AwsCredentials : Type 0 where
  pub region : Str
  pub access_key_id : Str
  pub secret_access_key : Str
  pub session_token : Option Str
  pub expires_at_epoch_seconds : Option ℕ

-- The `DataKeySpec` values of the KMS crate that the program uses.
pub data DataKeySpec : Type 0 where
  aes128 aes256 : DataKeySpec

-- One KMS request's settings.
pub record Settings : Type 0 where
  pub kms_key_id : Str
  pub key_spec : Option DataKeySpec
  pub number_of_bytes : Option ℤ
  pub encryption_context : Option StrMap
  pub grant_tokens : List Str
  pub dry_run : Option Bool

pub data BrokerRequest : Type 0 where
  get_settings : BrokerRequest
  get_aws_credentials : KmsSlot → BrokerRequest
  load_object : Str → Str → BrokerRequest
  save_object_if_absent : Str → Str → List ℕ → BrokerRequest

pub data BrokerResponse : Type 0 where
  settings : ParentSettings → BrokerResponse
  aws_credentials : AwsCredentials → BrokerResponse
  object : Option (List ℕ) → BrokerResponse
  saved : BrokerResponse
  error : Str → BrokerResponse
