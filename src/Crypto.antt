-- ===== src/Crypto.antt =====
-- Wrapping the private key (src/lib.rs): AES-GCM under a data key of 16 or 32 bytes, and the checks
-- on lengths. The primitives are those of the crates aes_gcm, base64, ed25519_dalek and sha2.
pub mod Wrapping
use aws_kms_demo.Base.{
  ℕ, Str, Bytes, txt, Result, ok, err, ◌>>=◌, length, ◌==◌, ◌++◌, if◌then◌else◌,
}
use aws_kms_demo.Text.Number.{to_string}
use aws_kms_demo.Frame.{Codec}

abbrev pub ed25519_private_key_length : ℕ
ed25519_private_key_length = 32

abbrev pub aes_gcm_nonce_length : ℕ
aes_gcm_nonce_length = 12

pub data Cipher : Type 0 where
  aes128_gcm aes256_gcm : Cipher

-- `encrypt` and `decrypt` take the key, the nonce and the text, and include `new_from_slice`;
-- `public_key` is `SigningKey::from_bytes(…).verifying_key().to_bytes()`.
pub record Crypto : Type 0 where
  pub sha256 : Bytes → Bytes
  pub encode : Bytes → Str
  pub decode : Str → Result Bytes
  pub encrypt : Cipher → Bytes → Bytes → Bytes → Result Bytes
  pub decrypt : Cipher → Bytes → Bytes → Bytes → Result Bytes
  pub public_key : Bytes → Bytes

unsupported_length : ℕ → Str → Str
unsupported_length n hint =
    txt "unsupported plaintext data key length " ++ (to_string n ++ (txt "; " ++ hint))

unfoldable pub validate_data_key_len : Bytes → Result (Unit {0})
unfolding unsupported_length
validate_data_key_len data_key =
    if length data_key == 16
    then ok tt
    else if length data_key == 32
    then ok tt
    else err (
        unsupported_length (length data_key)
          (txt "use KMS_KEY_SPEC=AES_128/AES_256 or KMS_NUMBER_OF_BYTES=16/32"))

unfoldable pub fixed_bytes : ℕ → Str → Bytes → Result Bytes
fixed_bytes n name bytes =
    if length bytes == n
    then ok bytes
    else err (
        name
        ++ (txt " must be " ++ (to_string n ++ (txt " bytes, got " ++ to_string (length bytes)))))

module _ (c : Crypto) where
  unfoldable pub encrypt_private_key : Bytes → Bytes → Bytes → Result Bytes
  unfolding unsupported_length
  encrypt_private_key data_key nonce private_key =
      if length data_key == 16
      then c.encrypt aes128_gcm data_key nonce private_key
      else if length data_key == 32
      then c.encrypt aes256_gcm data_key nonce private_key
      else err (unsupported_length (length data_key) (txt "expected 16 or 32 bytes"))

  unfoldable pub decrypt_private_key : Bytes → Bytes → Bytes → Result Bytes
  unfolding unsupported_length
  decrypt_private_key data_key nonce encrypted_private_key =
      if length data_key == 16
      then c.decrypt aes128_gcm data_key nonce encrypted_private_key
      else if length data_key == 32
      then c.decrypt aes256_gcm data_key nonce encrypted_private_key
      else err (unsupported_length (length data_key) (txt "expected 16 or 32 bytes"))

  -- The error text of base64 stands behind the name.
  unfoldable pub decode_base64 : Str → Str → Result Bytes
  decode_base64 name value = elim (c.decode value) [
    | ok bytes ↦ ok bytes
    | err e ↦ err (name ++ (txt " is not valid base64: " ++ e))
    | other ↦ other
  ]

  unfoldable pub decode_fixed_base64 : ℕ → Str → Str → Result Bytes
  unfolding fixed_bytes
  decode_fixed_base64 n name value = do bytes ← decode_base64 name value; fixed_bytes n name bytes
