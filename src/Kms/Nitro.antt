-- ===== src/Kms/Nitro.antt =====
-- `NitroKmsClient` (src/nitro_kms.rs) over the C functions of native/nitro_kms_shim.c.
pub mod Options
use aws_kms_demo.Base.{
  ℕ, Str, Bytes, txt, Result, ok, err, panic, Option, none, some, Bool, true, false, not, ◌==◌, any,
  list_eq, List, [], ◌∷◌, ◌++◌, if◌then◌else◌, traverse,
}
use aws_kms_demo.Base
use aws_kms_demo.Text.{is_empty}
use aws_kms_demo.Text.Number.{ℤ, pos, negsuc}
use aws_kms_demo.Effects.{M, ◌>>=◌, ◌>>◌, pure, lift, raise, guard}
use aws_kms_demo.Config.{is_some, unwrap_or}
use aws_kms_demo.Config.Types.{ParentSettings, AwsCredentials, StrMap}
use aws_kms_demo.Config.Parse.{is_pos}

pub record GeneratedDataKey : Type 0 where
  pub plaintext_data_key : Bytes
  pub encrypted_data_key : Bytes
  pub kms_key_id : Str

-- A `NativeBuffer`: none where its pointer is null.
abbrev pub NativeBuffer : Type 0
NativeBuffer = Option Bytes

-- What a call leaves: `rc` is 0 with the buffers, or another number with the error buffer's text.
pub data NativeReply (A : Type 0) : Type 0 where
  success : A → NativeReply A
  failure : Str → NativeReply A

-- The strings handed to both C functions, each without a NUL byte.
pub record NativeAccess : Type 0 where
  pub region : Str
  pub parent_cid : ℕ
  pub proxy_port : ℕ
  pub access_key_id : Str
  pub secret_access_key : Str
  pub session_token : Str

pub record Shim (W : Type 0) : Type 0 where
  pub nkms_generate_data_key :
      NativeAccess → Str → ℕ → W → NativeReply (NativeBuffer × NativeBuffer) × W
  pub nkms_decrypt_data_key : NativeAccess → Bytes → Option Str → W → NativeReply NativeBuffer × W
  pub context_to_string : StrMap → Result Str

abbrev has_tokens : List Str → Bool
has_tokens [] = false
has_tokens (t ∷ ts) = true

abbrev is_true : Option Bool → Bool
is_true (some true) = true
is_true _ = false

unfoldable pub validate_common_options : ParentSettings → Result (Unit {0})
validate_common_options s =
    if has_tokens s.grant_tokens
    then err (txt "KMS_GRANT_TOKENS is not supported by the Nitro C SDK high-level data-key API")
    else if is_true s.dry_run
    then err (txt "KMS_DRY_RUN=true is not supported when RUNNING_IN_ENCLAVE=true")
    else ok tt

no_context : Str
no_context =
    txt
      "KMS_ENCRYPTION_CONTEXT is not supported for GenerateDataKey by the Nitro C SDK high-level API"

unsupported_size : Result ℕ
unsupported_size = err (txt "Nitro KMS data key must be AES_128/AES_256 or 16/32 bytes")

-- The `match` on the key spec and the number of bytes.
unfoldable pub key_bits : Option Str → Option ℤ → Result ℕ
unfolding unsupported_size
key_bits (some spec) none =
    if list_eq spec (txt "AES_128")
    then ok 128
    else if list_eq spec (txt "AES_256")
    then ok 256
    else unsupported_size
key_bits none (some n) =
    if is_pos 16 n then ok 128 else if is_pos 32 n then ok 256 else unsupported_size
key_bits _ _ = unsupported_size

unfoldable pub data_key_bits : ParentSettings → Result ℕ
unfolding key_bits
data_key_bits s = key_bits s.key_spec s.number_of_bytes

-- `CString::new` refuses a text with a NUL byte.
unfoldable pub c_string : Str → Str → Result Str
c_string name value =
    if any (λ c. c == 0) value then err (name ++ txt " contains a NUL byte") else ok value

unfoldable pub native_error : Str → Str
native_error message = if is_empty message then txt "Nitro KMS C SDK call failed" else message

unfoldable pub take_native_buffer : NativeBuffer → Bytes
take_native_buffer none = []
take_native_buffer (some bytes) = bytes

module _ {W : Type 0} (shim : Shim W) (parent_cid proxy_port : ℕ) where
  unfoldable pub native_access : AwsCredentials → Result NativeAccess
  native_access c = Base.◌>>=◌ (c_string (txt "AWS region") c.region) λ region.
      Base.◌>>=◌ (c_string (txt "AWS access key ID") c.access_key_id) λ access_key_id.
        Base.◌>>=◌ (c_string (txt "AWS secret access key") c.secret_access_key) λ secret_access_key.
          Base.◌>>=◌ (c_string (txt "AWS session token") (unwrap_or c.session_token [])) λ token.
            ok (record {
              region = region;
              parent_cid = parent_cid;
              proxy_port = proxy_port;
              access_key_id = access_key_id;
              secret_access_key = secret_access_key;
              session_token = token;
            })

  generated : Str → NativeReply (NativeBuffer × NativeBuffer) × W → Result GeneratedDataKey × W
  generated key_id (failure message, w) = (err (native_error message), w)
  generated key_id (success (plaintext, ciphertext), w) = (
    ok (record {
      plaintext_data_key = take_native_buffer plaintext;
      encrypted_data_key = take_native_buffer ciphertext;
      kms_key_id = key_id;
    }),
    w,
  )

  -- `NitroKmsClient::generate_data_key`
  unfoldable pub nitro_generate_data_key :
      ParentSettings → AwsCredentials → Str → M W GeneratedDataKey
  unfolding generated no_context
  nitro_generate_data_key s credentials key_id = do
    lift (validate_common_options s)
    guard (is_some s.encryption_context) no_context
    bits ← lift (data_key_bits s)
    access ← lift (native_access credentials)
    key ← lift (c_string (txt "KMS key ID") key_id)
    λ w. generated key_id (shim.nkms_generate_data_key access key bits w)

  decrypted : NativeReply NativeBuffer × W → Result Bytes × W
  decrypted (failure message, w) = (err (native_error message), w)
  decrypted (success plaintext, w) = (ok (take_native_buffer plaintext), w)

  -- `NitroKmsClient::decrypt_data_key`
  unfoldable pub nitro_decrypt_data_key : ParentSettings → AwsCredentials → Bytes → M W Bytes
  unfolding decrypted
  nitro_decrypt_data_key s credentials encrypted_data_key = do
    lift (validate_common_options s)
    access ← lift (native_access credentials)
    json ← lift (traverse shim.context_to_string s.encryption_context)
    context ← lift (traverse (c_string (txt "KMS encryption context")) json)
    λ w. decrypted (shim.nkms_decrypt_data_key access encrypted_data_key context w)
