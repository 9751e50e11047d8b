-- ===== src/Crypto/Wrapping.antt =====
-- Wrapping and unwrapping under one data key (src/lib.rs), over primitives that invert each other.
use aws_kms_demo.Base.{
  ℕ, Str, Bytes, ok, length, ◌==◌, ◌≡◌, ◌↔◌, ◌⊎◌, inl, inr, refl, arith, Bool-cases,
}
use aws_kms_demo.Crypto.{
  Crypto, Cipher, encrypt_private_key, decrypt_private_key, validate_data_key_len, fixed_bytes,
  decode_base64, decode_fixed_base64,
}

-- What the code relies on in the crates.
pub record IsInverse (c : Crypto) : Type 0 where
  pub decode-encode : (bytes : Bytes) → c.decode (c.encode bytes) ≡ ok bytes
  pub decrypt-encrypt :
      (a : Cipher) (key nonce text sealed : Bytes)
      → c.encrypt a key nonce text ≡ ok sealed
      → c.decrypt a key nonce sealed ≡ ok text

pub validate_data_key_len_iff :
    (key : Bytes) → (validate_data_key_len key ≡ ok tt) ↔ ((length key ≡ 16) ⊎ (length key ≡ 32))
unfolding validate_data_key_len
validate_data_key_len_iff key = ground arith

pub fixed_bytes_iff :
    (n : ℕ) (name : Str) (bytes out : Bytes)
    → (fixed_bytes n name bytes ≡ ok out) ↔ ((length bytes ≡ n) × (bytes ≡ out))
unfolding fixed_bytes
fixed_bytes_iff n name bytes out = ground arith

module _ (c : Crypto) (inverse : IsInverse c) where
  -- Where each cipher decrypts what it encrypts under the same key and nonce, what
  -- encrypt_private_key returns under a data key and nonce is turned back into the private key by
  -- decrypt_private_key under the same, with either cipher.
  pub decrypt-encrypt_private_key :
      (key nonce private_key sealed : Bytes)
      → encrypt_private_key c key nonce private_key ≡ ok sealed
      → decrypt_private_key c key nonce sealed ≡ ok private_key
  unfolding encrypt_private_key decrypt_private_key
  decrypt-encrypt_private_key key nonce private_key sealed h =
      elim (Bool-cases (length key == 16)) [
        | inl short ↦
            rw short (inverse.decrypt-encrypt _ key nonce private_key sealed (rw short at h))
        | inr other ↦ elim (Bool-cases (length key == 32)) [
          | inl long ↦
              rw (other, long)
                (inverse.decrypt-encrypt _ key nonce private_key sealed (rw (other, long) at h))
          | inr neither ↦ cc (rw (other, neither) at h)
        ]
      ]

  -- A key of any other length is refused by both.
  pub encrypt_private_key-eq-ok :
      (key nonce private_key sealed : Bytes)
      → encrypt_private_key c key nonce private_key ≡ ok sealed
      → (length key ≡ 16) ⊎ (length key ≡ 32)
  unfolding encrypt_private_key
  encrypt_private_key-eq-ok key nonce private_key sealed h = ground arith

  pub decode_base64-encode :
      (name : Str) (bytes : Bytes) → decode_base64 c name (c.encode bytes) ≡ ok bytes
  unfolding decode_base64
  decode_base64-encode name bytes = rw (inverse.decode-encode bytes, decode_base64)

  pub decode_fixed_base64-encode :
      (n : ℕ) (name : Str) (bytes : Bytes)
      → length bytes ≡ n
      → decode_fixed_base64 c n name (c.encode bytes) ≡ ok bytes
  unfolding decode_fixed_base64
  decode_fixed_base64-encode n name bytes h =
      rw (decode_base64-encode name bytes) ((fixed_bytes_iff n name bytes bytes).1 (h, refl))
