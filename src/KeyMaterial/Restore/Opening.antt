-- ===== src/KeyMaterial/Restore/Opening.antt =====
-- What a successful `restore_from_package` guarantees (src/key_material.rs).
use aws_kms_demo.Base.{
  Bytes, txt, ok, false, not, ◌==◌, ==_iff, arith, ◌++◌, ◌≡◌, ◌⊎◌, sym, ap, ◌∙◌, length,
}
use aws_kms_demo.Text.Number.{to_string}
use aws_kms_demo.Effects.{bind_elim, lift_elim, guard_elim}
use aws_kms_demo.Endpoint.{Endpoint}
use aws_kms_demo.Config.Types.{ParentSettings, KmsKeySettings}
use aws_kms_demo.Crypto.{
  decode_base64, decode_fixed_base64, decrypt_private_key, validate_data_key_len, fixed_bytes,
  aes_gcm_nonce_length, ed25519_private_key_length,
}
use aws_kms_demo.Crypto.Wrapping.{fixed_bytes_iff, validate_data_key_len_iff}
use aws_kms_demo.Kms.{KmsDataKeyClient, decrypt_data_key}
use aws_kms_demo.KeyMaterial.Checks.{differ-false}
use aws_kms_demo.KeyMaterial.{Enclave, RecoveryPackage, differ, key_material_version}
use aws_kms_demo.KeyMaterial.Restore.{restore_from_package}

module _ {W : Type 0} (tee : Enclave W) (endpoint : Endpoint) (client : KmsDataKeyClient)
    (s : ParentSettings) where
  -- What the texts of a package decode to, and the data key that KMS gave for one of them.
  pub record IsUnwrapped (key : KmsKeySettings) (p : RecoveryPackage)
      (data_key nonce sealed : Bytes) : Type 0 where
    pub blob : Bytes
    pub blob_text :
        decode_base64 tee.crypto (txt "encrypted_data_key_base64") p.encrypted_data_key_base64
        ≡ ok blob
    pub sealed_text :
        decode_base64 tee.crypto (txt "encrypted_private_key_base64") p.encrypted_private_key_base64
        ≡ ok sealed
    pub nonce_text :
        decode_fixed_base64 tee.crypto aes_gcm_nonce_length
          (txt "private_key_nonce_base64")
          p.private_key_nonce_base64
        ≡ ok nonce
    pub before : W
    pub after : W
    pub unwrap : decrypt_data_key tee.kms tee.net client s key blob before ≡ (ok data_key, after)

  -- The private key in a package: unwrapped by the data key that KMS gave back, 32 bytes long, and
  -- with the expected public key.
  pub record Opens (key : KmsKeySettings) (p : RecoveryPackage) (public_key : Bytes) : Type 0 where
    pub version : p.version ≡ 2
    pub data_key : Bytes
    pub nonce : Bytes
    pub sealed : Bytes
    pub unwrapped : IsUnwrapped key p data_key nonce sealed
    pub data_key_size : (length data_key ≡ 16) ⊎ (length data_key ≡ 32)
    pub private_key : Bytes
    pub opened : decrypt_private_key tee.crypto data_key nonce sealed ≡ ok private_key
    pub size : length private_key ≡ 32
    pub matches : tee.crypto.public_key private_key ≡ public_key

  opening :
      (key : KmsKeySettings) (p : RecoveryPackage)
      (expected data_key nonce sealed decrypted private_key : Bytes) {u : Unit {0}}
      → not (p.version == 2) ≡ false
      → IsUnwrapped key p data_key nonce sealed
      → validate_data_key_len data_key ≡ ok u
      → decrypt_private_key tee.crypto data_key nonce sealed ≡ ok decrypted
      → fixed_bytes 32 (txt "private key") decrypted ≡ ok private_key
      → differ (tee.crypto.public_key private_key) expected ≡ false
      → Opens key p expected
  opening key p expected data_key nonce sealed decrypted private_key h₁ source h₆ h₇ h₈ h₉ =
      let (size, same) = (fixed_bytes_iff 32 (txt "private key") decrypted private_key).0 h₈ in
      record {
        version = ground (arith, ==_iff p.version 2);
        data_key = data_key;
        nonce = nonce;
        sealed = sealed;
        unwrapped = source;
        data_key_size = (validate_data_key_len_iff data_key).0 h₆;
        private_key = private_key;
        opened = h₇ ∙ ap (λ b. ok b) same;
        size = ap length (sym same) ∙ size;
        matches = differ-false _ _ h₉;
      }

  pub restore_from_package-Opens :
      (key : KmsKeySettings) (p : RecoveryPackage) (expected : Bytes) (w w' : W) (u : Unit {0})
      → restore_from_package tee endpoint client s key p expected w ≡ (ok u, w')
      → Opens key p expected
  unfolding restore_from_package
  restore_from_package-Opens key p expected w w' u h =
      guard_elim (not (p.version == key_material_version))
        (txt "unsupported recovery package version " ++ to_string p.version) _ w w' h
        λ h₁ k₁.
          lift_elim
            (decode_base64 tee.crypto (txt "encrypted_data_key_base64") p.encrypted_data_key_base64)
            _ w w' k₁
            λ blob h₂ k₂.
              lift_elim
                (decode_base64 tee.crypto (txt "encrypted_private_key_base64")
                  p.encrypted_private_key_base64)
                _ w w' k₂
                λ sealed h₃ k₃.
                  lift_elim
                    (decode_fixed_base64 tee.crypto aes_gcm_nonce_length
                      (txt "private_key_nonce_base64") p.private_key_nonce_base64)
                    _ w w' k₃
                    λ nonce h₄ k₄.
                      bind_elim (decrypt_data_key tee.kms tee.net client s key blob) _ w w' k₄
                        λ data_key v h₅ k₅.
                          lift_elim (validate_data_key_len data_key) _ v w' k₅ λ _ h₆ k₆.
                            lift_elim (decrypt_private_key tee.crypto data_key nonce sealed) _ v w'
                              k₆
                              λ decrypted h₇ k₇.
                                lift_elim
                                  (fixed_bytes ed25519_private_key_length (txt "private key")
                                    decrypted)
                                  _ v w' k₇
                                  λ private_key h₈ k₈.
                                    guard_elim (differ (tee.crypto.public_key private_key) expected)
                                      (txt
                                        "restored private key does not match the stored public key")
                                      _ v w' k₈
                                      λ h₉ _.
                                        opening key p expected data_key nonce sealed decrypted
                                          private_key h₁
                                          (record {
                                            blob = blob;
                                            blob_text = h₂;
                                            sealed_text = h₃;
                                            nonce_text = h₄;
                                            before = w;
                                            after = v;
                                            unwrap = h₅;
                                          })
                                          h₆ h₇ h₈ h₉
