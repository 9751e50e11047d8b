-- ===== src/Broker.antt =====
-- The broker on the parent instance: `serve_enclave_broker` and its helpers (src/lib.rs).
pub mod Target
pub mod Access
pub mod History
pub mod Answers
pub mod Providers
pub mod Untouched
pub mod Loop
pub mod Main
use aws_kms_demo.Base.{
  ℕ, ◌/◌, ◌^◌, Str, Bytes, txt, Result, ok, err, panic, Option, none, some, Bool, true, false, not,
  ◌&&◌, ◌||◌, ◌==◌, list_eq, find, ok_or, List, [], ◌∷◌, ◌++◌, if◌then◌else◌,
}
use aws_kms_demo.Text.{starts_with, to_ascii_uppercase}
use aws_kms_demo.Text.Number.{ℤ, pos, negsuc, to_string}
use aws_kms_demo.Effects.{M, ◌>>=◌, ◌>>◌, pure, lift, raise, guard, and_then}
use aws_kms_demo.Config.{Environment, optional_env, is_some}
use aws_kms_demo.Config.Types.{
  ParentSettings, KmsSlot, primary, backup, slot_eq, label, AwsCredentials, StartupMode, serve,
  init_key, BrokerRequest, get_settings, get_aws_credentials, load_object, save_object_if_absent,
  BrokerResponse, settings, aws_credentials, object, saved, error,
}
use aws_kms_demo.Frame.{Codec, Writer, Reader, write_json_frame, read_json_frame}
use aws_kms_demo.S3.{S3Client, load_s3_object, save_s3_object_if_absent}

-- `aws_credential_types::Credentials`; the expiry in nanoseconds from the Unix epoch.
pub record SdkCredentials : Type 0 where
  pub access_key_id : Str
  pub secret_access_key : Str
  pub session_token : Option Str
  pub expiry : Option ℤ

-- `SharedCredentialsProvider`: the SDK's default chain, or fixed credentials.
pub data CredentialsProvider : Type 0 where
  default_chain : CredentialsProvider
  explicit : SdkCredentials → CredentialsProvider

-- What the broker uses of the SDK and of the runtime.
pub record Host (W : Type 0) : Type 0 where
  pub s3 : S3Client W
  pub provide_credentials : CredentialsProvider → M W SdkCredentials
  pub build_runtime : M W (Unit {0})

abbrev pub Providers : Type 0
Providers = List (KmsSlot × Option CredentialsProvider)

-- The `match` of `explicit_kms_credentials_provider`.
explicit_of : Str → Str → Option Str → Option Str → Option Str → Result (Option CredentialsProvider)
explicit_of access_name secret_name token none none = ok none
explicit_of access_name secret_name token (some access) (some secret) = ok (
    some (
      explicit (record {
        access_key_id = access;
        secret_access_key = secret;
        session_token = token;
        expiry = none;
      })))
explicit_of access_name secret_name token _ _ =
    err (txt "set both " ++ (access_name ++ (txt " and " ++ (secret_name ++ txt ", or neither"))))

unfoldable pub explicit_kms_credentials_provider :
    Environment → Str → Result (Option CredentialsProvider)
unfolding explicit_of
explicit_kms_credentials_provider env prefix =
    explicit_of (prefix ++ txt "_ACCESS_KEY_ID") (prefix ++ txt "_SECRET_ACCESS_KEY")
      (optional_env env (prefix ++ txt "_SESSION_TOKEN"))
      (optional_env env (prefix ++ txt "_ACCESS_KEY_ID"))
      (optional_env env (prefix ++ txt "_SECRET_ACCESS_KEY"))

no_provider : KmsSlot → Str
no_provider slot =
    txt "no credentials provider configured for "
    ++ (label slot
        ++ (txt " KMS; set KMS_"
            ++ (to_ascii_uppercase (label slot)
                ++ (txt "_ACCESS_KEY_ID and KMS_"
                    ++ (to_ascii_uppercase (label slot) ++ txt "_SECRET_ACCESS_KEY")))))

provider_of : Option (KmsSlot × Option CredentialsProvider) → Option CredentialsProvider
provider_of none = none
provider_of (some (_, provider)) = provider

unfoldable pub find_credentials_provider : Providers → KmsSlot → Result CredentialsProvider
unfolding provider_of no_provider
find_credentials_provider providers slot =
    ok_or
      (provider_of
        (find (λ (entry : KmsSlot × Option CredentialsProvider). slot_eq entry.0 slot) providers))
      (no_provider slot)

rejected : Str → Str → Str → Str → Str
rejected bucket key allowed_bucket allowed_prefix =
    txt "enclave-broker rejected s3://"
    ++ (bucket
        ++ (txt "/"
            ++ (key
                ++ (txt "; only objects below s3://"
                    ++ (allowed_bucket ++ (txt "/" ++ (allowed_prefix ++ txt "/ are allowed")))))))

unfoldable pub validate_s3_target : Str → Str → Str → Str → Result (Unit {0})
unfolding rejected
validate_s3_target bucket key allowed_bucket allowed_prefix =
    if not (list_eq bucket allowed_bucket) || not (starts_with key (allowed_prefix ++ txt "/"))
    then err (rejected bucket key allowed_bucket allowed_prefix)
    else ok tt

-- `expiry.duration_since(UNIX_EPOCH).ok().map(|d| d.as_secs())`
unfoldable pub epoch_seconds : Option ℤ → Option ℕ
epoch_seconds none = none
epoch_seconds (some (pos nanos)) = some (nanos / 10 ^ 9)
epoch_seconds (some (negsuc nanos)) = none

unfoldable pub credentials_of : Str → SdkCredentials → AwsCredentials
unfolding epoch_seconds
credentials_of region c = record {
  region = region;
  access_key_id = c.access_key_id;
  secret_access_key = c.secret_access_key;
  session_token = c.session_token;
  expires_at_epoch_seconds = epoch_seconds c.expiry;
}

-- `peer_cid:?`
debug_cid : Option ℕ → Str
debug_cid none = txt "None"
debug_cid (some cid) = txt "Some(" ++ (to_string cid ++ txt ")")

unfoldable pub foreign_message : Option ℕ → Str
unfolding debug_cid
foreign_message peer = txt "request from vsock CID " ++ (debug_cid peer ++ txt " was rejected")

-- `allowed.is_some() && peer != allowed`
unfoldable pub is_foreign : Option ℕ → Option ℕ → Bool
is_foreign none peer = false
is_foreign (some cid) none = true
is_foreign (some cid) (some other) = not (other == cid)

abbrev is_init_key : StartupMode → Bool
is_init_key init_key = true
is_init_key serve = false

module _ {W : Type 0} (host : Host W) (providers : Providers) (s : ParentSettings) where
  -- The branches of `match request` inside `block_on`.
  unfoldable pub credentials_request : KmsSlot → M W BrokerResponse
  credentials_request slot = do
    provider ← lift (find_credentials_provider providers slot)
    credentials ← host.provide_credentials provider
    key ← lift (
        ok_or (find (λ key. slot_eq key.slot slot) s.kms_keys)
          (txt "KMS credential slot has no key settings"))
    pure (aws_credentials (credentials_of key.region credentials))

  unfoldable pub load_request : Str → Str → M W BrokerResponse
  load_request bucket key = do
    lift (validate_s3_target bucket key s.s3_bucket s.s3_prefix)
    body ← load_s3_object host.s3 bucket key
    pure (object body)

  unfoldable pub save_request : Str → Str → Bytes → M W BrokerResponse
  save_request bucket key body = do
    guard (not (is_init_key s.startup_mode))
        (txt "enclave-broker rejects S3 writes outside init-key mode")
    lift (validate_s3_target bucket key s.s3_bucket s.s3_prefix)
    save_s3_object_if_absent host.s3 bucket key body
    pure saved

  unfoldable pub dispatch : BrokerRequest → M W BrokerResponse
  unfolding credentials_request load_request save_request
  dispatch get_settings = pure (settings s)
  dispatch (get_aws_credentials slot) = credentials_request slot
  dispatch (load_object bucket key) = load_request bucket key
  dispatch (save_object_if_absent bucket key body) = save_request bucket key body

  -- `unwrap_or_else(|error| BrokerResponse::Error { … })`
  unfoldable pub or_error : Result BrokerResponse × W → Result BrokerResponse × W
  or_error (ok response, w) = (ok response, w)
  or_error (err message, w) = (ok (error message), w)
  or_error (panic message, w) = (panic message, w)

  -- A request that is not `GetSettings` runs on a runtime of its own.
  unfoldable pub run_request : BrokerRequest → M W BrokerResponse
  unfolding or_error
  run_request request w = or_error ((host.build_runtime >> dispatch request) w)

  unfoldable pub answer_request : BrokerRequest → M W BrokerResponse
  answer_request get_settings = pure (settings s)
  answer_request request = run_request request

  -- The `match` on the frame that was read, up to the response.
  unfoldable pub respond : Option ℕ → Option ℕ → Result BrokerRequest → M W BrokerResponse
  unfolding is_foreign foreign_message
  respond allowed peer (err message) = pure (error message)
  respond allowed peer (panic message) = lift (panic message)
  respond allowed peer (ok request) =
      if is_foreign allowed peer
      then pure (error (foreign_message peer))
      else answer_request request

  -- The body of the thread of one connection; a failure to write the response is dropped.
  unfoldable pub serve_connection :
      Codec BrokerRequest
      → Codec BrokerResponse
      → Reader W
      → Writer W
      → Option ℕ
      → Option ℕ
      → M W (Unit {0})
  serve_connection requests responses reader writer allowed peer w =
      let (request, w₁) = read_json_frame requests reader w in
      and_then (respond allowed peer request w₁)
        (λ response w₂. (ok tt, (write_json_frame responses writer response w₂).1))
