-- ===== src/Kms.antt =====
-- Data keys from KMS: `KmsDataKeyClient` and the SDK calls (src/key_material.rs). The Nitro client
-- is in the child `Nitro`.
pub mod Nitro
use aws_kms_demo.Base.{
  ℕ, Str, Bytes, txt, Result, ok, err, Option, none, some, Bool, true, false, list_eq, List, [],
  ◌∷◌, ◌++◌, if◌then◌else◌, ok_or, traverse,
}
use aws_kms_demo.Base
use aws_kms_demo.Text.Number.{ℤ, parse_u32}
use aws_kms_demo.Effects.{M, ◌>>=◌, ◌>>◌, pure, lift, raise}
use aws_kms_demo.Endpoint.{Endpoint}
use aws_kms_demo.Config.{Environment, optional_env, unwrap_or, kms_request_settings}
use aws_kms_demo.Config.Types.{
  ParentSettings, KmsKeySettings, AwsCredentials, Settings, DataKeySpec, StrMap,
}
use aws_kms_demo.Config.Parse.{parse_bool}
use aws_kms_demo.Client.{Network, request_broker_credentials}
use aws_kms_demo.Kms.Nitro.{GeneratedDataKey, Shim, nitro_generate_data_key, nitro_decrypt_data_key}

-- `local_kms_client`: an SDK client with the broker's credentials.
pub record KmsClient : Type 0 where
  pub region : Str
  pub access_key_id : Str
  pub secret_access_key : Str
  pub session_token : Option Str

unfoldable pub local_kms_client : AwsCredentials → KmsClient
local_kms_client c = record {
  region = c.region;
  access_key_id = c.access_key_id;
  secret_access_key = c.secret_access_key;
  session_token = c.session_token;
}

-- The SDK's request builders, with what has been set.
pub record GenerateRequest : Type 0 where
  pub key_id : Str
  pub key_spec : Option DataKeySpec
  pub number_of_bytes : Option ℤ
  pub encryption_context : Option StrMap
  pub grant_tokens : List Str
  pub dry_run : Option Bool

pub record DecryptRequest : Type 0 where
  pub ciphertext_blob : Bytes
  pub key_id : Str
  pub encryption_context : Option StrMap
  pub grant_tokens : List Str
  pub dry_run : Option Bool

pub record GenerateOutput : Type 0 where
  pub plaintext : Option Bytes
  pub ciphertext_blob : Option Bytes
  pub key_id : Option Str

-- `send` of the SDK's two requests, and the Nitro functions.
pub record KmsServices (W : Type 0) : Type 0 where
  pub generate_data_key : KmsClient → GenerateRequest → M W GenerateOutput
  pub decrypt : KmsClient → DecryptRequest → M W (Option Bytes)
  pub shim : Shim W

-- Each field is set where the settings have it.
unfoldable pub generate_request : Settings → GenerateRequest
generate_request s = record {
  key_id = s.kms_key_id;
  key_spec = s.key_spec;
  number_of_bytes = s.number_of_bytes;
  encryption_context = s.encryption_context;
  grant_tokens = s.grant_tokens;
  dry_run = s.dry_run;
}

unfoldable pub decrypt_request : Settings → Bytes → DecryptRequest
decrypt_request s encrypted_data_key = record {
  ciphertext_blob = encrypted_data_key;
  key_id = s.kms_key_id;
  encryption_context = s.encryption_context;
  grant_tokens = s.grant_tokens;
  dry_run = s.dry_run;
}

-- `Local` or `Nitro`; the latter exists in builds with the feature nitro-enclave.
pub data KmsDataKeyClient : Type 0 where
  local : Endpoint → KmsDataKeyClient
  nitro : ℕ → ℕ → Endpoint → KmsDataKeyClient

abbrev pub broker_endpoint : KmsDataKeyClient → Endpoint
broker_endpoint (local endpoint) = endpoint
broker_endpoint (nitro parent_cid proxy_port endpoint) = endpoint

abbrev pub default_nitro_kms_proxy_port : ℕ
default_nitro_kms_proxy_port = 8000

abbrev pub default_parent_cid : ℕ
default_parent_cid = 3

-- The `match` on KMS_MODE.
legacy_mode : Option Str → Result Bool
legacy_mode none = ok false
legacy_mode (some mode) =
    if list_eq mode (txt "nitro")
    then ok true
    else if list_eq mode (txt "local-aws")
    then ok false
    else err (txt "unsupported legacy KMS_MODE '" ++ (mode ++ txt "', expected local-aws or nitro"))

in_enclave : Option Str → Option Str → Result Bool
unfolding legacy_mode
in_enclave (some value) mode = parse_bool (txt "RUNNING_IN_ENCLAVE") value
in_enclave none mode = legacy_mode mode

-- `.map(parse::<u32>).transpose().map_err(…)`
parse_port : Str → Str → Result ℕ
parse_port message value = ok_or (parse_u32 value) message

module _ (env : Environment) (nitro_enclave_feature : Bool) where
  nitro_client : Endpoint → Result KmsDataKeyClient
  unfolding parse_port
  nitro_client endpoint =
      Base.◌>>=◌
        (traverse (parse_port (txt "NITRO_PARENT_CID must be a u32"))
          (optional_env env (txt "NITRO_PARENT_CID")))
        λ parent_cid.
          Base.◌>>=◌
            (traverse (parse_port (txt "NITRO_KMS_PROXY_PORT must be a u32"))
              (optional_env env (txt "NITRO_KMS_PROXY_PORT")))
            λ proxy_port. ok (
              nitro (unwrap_or parent_cid default_parent_cid)
                (unwrap_or proxy_port default_nitro_kms_proxy_port) endpoint)

  -- `KmsDataKeyClient::from_env`
  unfoldable pub kms_client_from_env : Endpoint → Result KmsDataKeyClient
  unfolding in_enclave nitro_client
  kms_client_from_env endpoint =
      Base.◌>>=◌
        (in_enclave (optional_env env (txt "RUNNING_IN_ENCLAVE"))
          (optional_env env (txt "KMS_MODE")))
        λ running_in_enclave.
          if running_in_enclave
          then if nitro_enclave_feature
            then nitro_client endpoint
            else err (
                txt
                  "RUNNING_IN_ENCLAVE=true requires building decrypt-server-tee with --features nitro-enclave")
          else ok (local endpoint)

module _ {W : Type 0} (kms : KmsServices W) where
  unfoldable pub call_generate_data_key : KmsClient → Settings → M W GeneratedDataKey
  unfolding generate_request
  call_generate_data_key client s = do
    output ← kms.generate_data_key client (generate_request s)
    plaintext ← lift (
        ok_or output.plaintext
          (txt "KMS GenerateDataKey response did not include plaintext data key"))
    ciphertext ← lift (
        ok_or output.ciphertext_blob
          (txt "KMS GenerateDataKey response did not include encrypted data key"))
    pure (record {
      plaintext_data_key = plaintext;
      encrypted_data_key = ciphertext;
      kms_key_id = unwrap_or output.key_id s.kms_key_id;
    })

  unfoldable pub call_decrypt_data_key : KmsClient → Settings → Bytes → M W Bytes
  unfolding decrypt_request
  call_decrypt_data_key client s encrypted_data_key = do
    plaintext ← kms.decrypt client (decrypt_request s encrypted_data_key)
    lift (ok_or plaintext (txt "KMS Decrypt response did not include plaintext data key"))

  -- The second `match self` of the two methods, with the credentials that the broker gave.
  generate_with :
      KmsDataKeyClient → ParentSettings → KmsKeySettings → AwsCredentials → M W GeneratedDataKey
  generate_with (local endpoint) s key credentials = do
    request ← lift (kms_request_settings s key.key_arn)
    call_generate_data_key (local_kms_client credentials) request
  generate_with (nitro parent_cid proxy_port endpoint) s key credentials =
      nitro_generate_data_key kms.shim parent_cid proxy_port s credentials key.key_arn

  decrypt_with :
      KmsDataKeyClient → ParentSettings → KmsKeySettings → Bytes → AwsCredentials → M W Bytes
  decrypt_with (local endpoint) s key encrypted_data_key credentials = do
    request ← lift (kms_request_settings s key.key_arn)
    call_decrypt_data_key (local_kms_client credentials) request encrypted_data_key
  decrypt_with (nitro parent_cid proxy_port endpoint) s key encrypted_data_key credentials =
      nitro_decrypt_data_key kms.shim parent_cid proxy_port s credentials encrypted_data_key

  module _ (net : Network W) (client : KmsDataKeyClient) (s : ParentSettings) where
    unfoldable pub generate_data_key : KmsKeySettings → M W GeneratedDataKey
    unfolding generate_with
    generate_data_key key = do
      credentials ← request_broker_credentials net (broker_endpoint client) key.slot
      generate_with client s key credentials

    unfoldable pub decrypt_data_key : KmsKeySettings → Bytes → M W Bytes
    unfolding decrypt_with
    decrypt_data_key key encrypted_data_key = do
      credentials ← request_broker_credentials net (broker_endpoint client) key.slot
      decrypt_with client s key encrypted_data_key credentials
