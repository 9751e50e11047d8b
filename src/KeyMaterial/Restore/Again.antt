-- ===== src/KeyMaterial/Restore/Again.antt =====
-- A private key that was sealed can be restored again (src/key_material.rs).
use mathlib.Core.List.{Memᴰ}
use aws_kms_demo.Base.{
  ◌⊎◌, inl, inr, Str, Bytes, txt, ok, err, Option, none, some, false, not, ◌==◌, list_eq_iff, List,
  [], ◌∷◌, ◌++◌, ◌≡◌, refl, sym, ap, All,
}
use aws_kms_demo.Text.Number.{to_string}
use aws_kms_demo.Effects.{M}
use aws_kms_demo.Effects.Succeeds.{Succeeds, bind-Succeeds, lift-Succeeds, guard-Succeeds}
use aws_kms_demo.Endpoint.{Endpoint}
use aws_kms_demo.Arn.{sha256_hex}
use aws_kms_demo.Config.Types.{ParentSettings, KmsKeySettings}
use aws_kms_demo.Client.{client_load_object}
use aws_kms_demo.Crypto.{
  decode_base64, decode_fixed_base64, decrypt_private_key, validate_data_key_len, fixed_bytes,
  aes_gcm_nonce_length, ed25519_private_key_length,
}
use aws_kms_demo.Crypto.Wrapping.{fixed_bytes_iff, validate_data_key_len_iff}
use aws_kms_demo.Kms.{KmsDataKeyClient, decrypt_data_key}
use aws_kms_demo.KeyMaterial.{
  Enclave, RecoveryObjectReference, RecoveryPackage, differ, key_material_version, verify_sha256,
}
use aws_kms_demo.KeyMaterial.Checks.{verify_sha256_iff}
use aws_kms_demo.KeyMaterial.Restore.{
  reference_for, restore_from_package, restore_attempt, after_attempt, restore_loop,
}
use aws_kms_demo.KeyMaterial.Restore.Opening.{Opens}

differ-of_eq : {a b : Str} → a ≡ b → differ a b ≡ false
differ-of_eq {a} {b} e = ap not ((list_eq_iff a b).1 e)

-- A key in a list, with the keys before it.
pub data Among (key : KmsKeySettings) : List KmsKeySettings → List KmsKeySettings → Type 0 where
  first : {later : List KmsKeySettings} → Among key [] (key ∷ later)
  behind :
      {k : KmsKeySettings} {earlier keys : List KmsKeySettings}
      → Among key earlier keys
      → Among key (k ∷ earlier) (k ∷ keys)

module _ {W : Type 0} (tee : Enclave W) (endpoint : Endpoint) (client : KmsDataKeyClient)
    (s : ParentSettings) (Fit : W → Type 0) where
  -- In fit worlds the broker serves that body under the key.
  abbrev pub Serves : Str → Bytes → Type 0
  Serves key body =
      (w : W)
      → Fit w
      → Succeeds Fit (client_load_object tee.net endpoint s.s3_bucket key) w (some body)

  -- In fit worlds KMS gives back the data key that it once gave for a blob.
  abbrev pub DecryptsAgain : KmsKeySettings → Type 0
  DecryptsAgain key =
      (blob data_key : Bytes) (before after : W)
      → decrypt_data_key tee.kms tee.net client s key blob before ≡ (ok data_key, after)
      → (w : W) → Fit w
      → Succeeds Fit (decrypt_data_key tee.kms tee.net client s key blob) w data_key

  -- A package that was opened once opens again.
  restore_from_package-Succeeds :
      (key : KmsKeySettings) (p : RecoveryPackage) (public_key : Bytes) (w : W)
      → DecryptsAgain key
      → Opens tee endpoint client s key p public_key
      → Fit w
      → Succeeds Fit (restore_from_package tee endpoint client s key p public_key) w tt
  unfolding restore_from_package
  restore_from_package-Succeeds key p public_key w again o fit =
      guard-Succeeds Fit (not (p.version == key_material_version))
        (txt "unsupported recovery package version " ++ to_string p.version) _ w tt (rw o.version)
        (lift-Succeeds Fit
          (decode_base64 tee.crypto (txt "encrypted_data_key_base64") p.encrypted_data_key_base64) _
          w o.unwrapped.blob tt o.unwrapped.blob_text
          (lift-Succeeds Fit
            (decode_base64 tee.crypto (txt "encrypted_private_key_base64")
              p.encrypted_private_key_base64)
            _ w o.sealed tt o.unwrapped.sealed_text
            (lift-Succeeds Fit
              (decode_fixed_base64 tee.crypto aes_gcm_nonce_length (txt "private_key_nonce_base64")
                p.private_key_nonce_base64)
              _ w o.nonce tt o.unwrapped.nonce_text
              (bind-Succeeds Fit (decrypt_data_key tee.kms tee.net client s key o.unwrapped.blob) _
                w o.data_key tt
                (again o.unwrapped.blob o.data_key o.unwrapped.before o.unwrapped.after
                  o.unwrapped.unwrap w fit)
                (λ v fit'.
                  lift-Succeeds Fit (validate_data_key_len o.data_key) _ v tt tt
                    ((validate_data_key_len_iff o.data_key).1 o.data_key_size)
                    (lift-Succeeds Fit (decrypt_private_key tee.crypto o.data_key o.nonce o.sealed)
                      _ v o.private_key tt o.opened
                      (lift-Succeeds Fit
                        (fixed_bytes ed25519_private_key_length (txt "private key") o.private_key) _
                        v o.private_key tt
                        ((fixed_bytes_iff 32 (txt "private key") o.private_key o.private_key).1
                          (o.size, refl))
                        (guard-Succeeds Fit
                          (differ (tee.crypto.public_key o.private_key) public_key)
                          (txt "restored private key does not match the stored public key") _ v tt
                          (differ-of_eq o.matches) (v, refl, fit')))))))))

  pub restore_attempt-Succeeds :
      (key : KmsKeySettings) (r : RecoveryObjectReference) (p : RecoveryPackage)
      (public_key body : Bytes)
      → DecryptsAgain key
      → Serves r.object_key body
      → r.sha256 ≡ sha256_hex tee.crypto.sha256 body
      → tee.packages.from_slice body ≡ ok p
      → Opens tee endpoint client s key p public_key
      → (w : W) → Fit w
      → Succeeds Fit (restore_attempt tee endpoint client s key r public_key) w tt
  unfolding restore_attempt
  restore_attempt-Succeeds key r p public_key body again serves hash parsed opens w fit =
      bind-Succeeds Fit (client_load_object tee.net endpoint s.s3_bucket r.object_key) _ w
        (some body) tt (serves w fit)
        (λ v fit'.
          lift-Succeeds Fit (verify_sha256 tee.crypto (txt "recovery object") body r.sha256) _ v tt
            tt ((verify_sha256_iff tee.crypto (txt "recovery object") body r.sha256).1 (sym hash))
            (lift-Succeeds Fit (tee.packages.from_slice body) _ v p tt parsed
              (restore_from_package-Succeeds key p public_key v again opens fit')))

  -- The attempt with this key ends with Ok or Err, if the manifest has an object for it.
  abbrev pub Returns : List RecoveryObjectReference → Bytes → KmsKeySettings → Type 0
  Returns references public_key key =
      (r : RecoveryObjectReference)
      → reference_for key references ≡ some r
      → (w : W) → Fit w
      → (v : W) × Fit v
        × ((restore_attempt tee endpoint client s key r public_key w ≡ (ok tt, v))
            ⊎ ((e : Str) × (restore_attempt tee endpoint client s key r public_key w ≡ (err e, v))))

  module _ (references : List RecoveryObjectReference) (public_key : Bytes) where
    abbrev pub loop : List KmsKeySettings → List Str → M W KmsKeySettings
    loop keys failures = restore_loop tee endpoint client s references public_key keys failures

    -- The loop succeeds with one of the given keys.
    abbrev pub Recovers : List KmsKeySettings → List KmsKeySettings → List Str → W → Type 0
    Recovers winners keys failures w =
        (winner : KmsKeySettings) × Memᴰ winner winners × Succeeds Fit (loop keys failures) w winner

    -- One round over a key whose attempt returns.
    loop_round :
        (k : KmsKeySettings) (winners keys : List KmsKeySettings) (failures : List Str) (w : W)
        → Returns references public_key k
        → ((failures : List Str) (v : W) → Fit v → Recovers winners keys failures v)
        → Fit w
        → Recovers (k ∷ winners) (k ∷ keys) failures w
    unfolding restore_loop
    loop_round k winners keys failures w returns rest fit = go (reference_for k references) refl
      where
        go :
            (o : Option RecoveryObjectReference)
            → reference_for k references ≡ o
            → Recovers (k ∷ winners) (k ∷ keys) failures w
        go none e =
            let (winner, mem, (v, e', fit')) =
              rest (failures ++ (k.key_arn ++ txt ": no recovery object in manifest") ∷ []) w fit in
            (winner, Memᴰ.tail mem, (v, rw (e, restore_loop) e', fit'))
        go (some r) e =
            let (u, fit₁, end) = returns r e w fit in
            elim end [
              | inl done ↦ (k, Memᴰ.head refl, (u, rw (e, restore_loop, done, after_attempt), fit₁))
              | inr (m, failed) ↦
                  let (winner, mem, (v, e', fit')) =
                    rest (failures ++ (k.key_arn ++ (txt ": " ++ m)) ∷ []) u fit₁ in
                  (winner, Memᴰ.tail mem, (v, rw (e, restore_loop, failed, after_attempt) e', fit'))
            ]

    -- The loop succeeds with the key that works, or with one before it.
    pub restore_loop-Recovers :
        (key : KmsKeySettings) (r : RecoveryObjectReference)
        → reference_for key references ≡ some r
        → ((w : W)
            → Fit w
            → Succeeds Fit (restore_attempt tee endpoint client s key r public_key) w tt)
        → {earlier keys : List KmsKeySettings} → Among key earlier keys
        → All (Returns references public_key) earlier
        → (failures : List Str) (w : W) → Fit w
        → Recovers (earlier ++ key ∷ []) keys failures w
    unfolding restore_loop
    restore_loop-Recovers key r found attempt first returns failures w fit =
        let (v, e, fit') = attempt w fit in
        (key, Memᴰ.head refl, (v, rw (found, restore_loop, e, after_attempt), fit'))
    restore_loop-Recovers key r found attempt (behind {k} {earlier} {keys} place) (here, rest)
          failures w fit =
        loop_round k (earlier ++ key ∷ []) keys failures w here
          (restore_loop-Recovers key r found attempt place rest) fit
