-- ===== src/KeyMaterial/Checks.antt =====
-- `validate_manifest`, `verify_sha256` and `validate_public_document` (src/key_material.rs).
use aws_kms_demo.Base.{
  Str, Bytes, txt, ok, >>=-eq-ok, ok-injective, reject_if, reject_if-eq-ok, true, false, not, ◌||◌,
  ◌==◌, list_eq, list_eq_iff, length, ◌≡◌, ◌↔◌, ◌++◌, sym, ap, ◌∙◌, subst, arith,
}
use aws_kms_demo.Arn.{sha256_hex}
use aws_kms_demo.Crypto.{Crypto, decode_fixed_base64, decode_base64}
use aws_kms_demo.Crypto.Wrapping.{fixed_bytes_iff}
use aws_kms_demo.Text.Number.{to_string}
use aws_kms_demo.KeyMaterial.{
  KeyManifest, PublicKeyDocument, validate_manifest, verify_sha256, validate_public_document,
  differ,
}

pub record IsSupported (m : KeyManifest) : Type 0 where
  pub version : m.version ≡ 2
  pub policy : m.recovery_policy ≡ txt "any-one"
  pub algorithm : m.private_key_algorithm ≡ txt "ED25519"
  pub encryption : m.private_key_encryption ≡ txt "AES-GCM"
  pub two_objects : length m.recovery_objects ≡ 2

pub differ-false : (a b : Str) → differ a b ≡ false → a ≡ b
differ-false a b h = ground (arith, list_eq_iff a b)

manifest_sound : (m : KeyManifest) → validate_manifest m ≡ ok tt → IsSupported m
unfolding validate_manifest
manifest_sound m h =
    let version =
      reject_if (not (m.version == 2))
        (txt "unsupported key manifest version " ++ to_string m.version) in
    let (_, h₁, k₁) = >>=-eq-ok version _ h in
    let policy =
      reject_if (differ m.recovery_policy (txt "any-one"))
        (txt "unsupported recovery policy " ++ m.recovery_policy) in
    let (_, h₂, k₂) = >>=-eq-ok policy _ k₁ in
    let kinds =
      differ m.private_key_algorithm (txt "ED25519")
      || differ m.private_key_encryption (txt "AES-GCM") in
    let (_, h₃, k₃) =
      >>=-eq-ok
        (reject_if kinds (txt "unsupported private key algorithm or encryption in manifest")) _
        k₂ in
    let (_, h₄, _) =
      >>=-eq-ok
        (reject_if (not (length m.recovery_objects == 2))
          (txt "key manifest must contain exactly two recovery objects"))
        _ k₃ in
    let right_version : not (m.version == 2) ≡ false = reject_if-eq-ok _ _ h₁ in
    let right_kinds : kinds ≡ false = reject_if-eq-ok _ _ h₃ in
    let right_number : not (length m.recovery_objects == 2) ≡ false = reject_if-eq-ok _ _ h₄ in
    record {
      version = ground arith;
      policy = differ-false _ _ (reject_if-eq-ok _ _ h₂);
      algorithm = differ-false _ _ (ground arith);
      encryption = differ-false _ _ (ground arith);
      two_objects = ground arith;
    }

manifest_complete : (m : KeyManifest) → IsSupported m → validate_manifest m ≡ ok tt
unfolding validate_manifest
manifest_complete m v =
    let right_version : (m.version == 2) ≡ true = ground arith in
    let right_number : (length m.recovery_objects == 2) ≡ true = ground arith in
    let policy : list_eq m.recovery_policy (txt "any-one") ≡ true = (list_eq_iff _ _).1 v.policy in
    let algorithm : list_eq m.private_key_algorithm (txt "ED25519") ≡ true =
      (list_eq_iff _ _).1 v.algorithm in
    let encryption : list_eq m.private_key_encryption (txt "AES-GCM") ≡ true =
      (list_eq_iff _ _).1 v.encryption in
    rw (right_version, policy, algorithm, encryption, right_number)

-- validate_manifest accepts a manifest exactly when it has version 2, the policy any-one, the
-- algorithm ED25519, the encryption AES-GCM and two recovery objects.
pub validate_manifest_iff : (m : KeyManifest) → (validate_manifest m ≡ ok tt) ↔ IsSupported m
validate_manifest_iff m = (manifest_sound m, manifest_complete m)

module _ (c : Crypto) where
  pub verify_sha256_iff :
      (name : Str) (body : Bytes) (expected : Str)
      → (verify_sha256 c name body expected ≡ ok tt) ↔ (sha256_hex c.sha256 body ≡ expected)
  unfolding verify_sha256
  verify_sha256_iff name body expected = (
    λ h. ground (arith, list_eq_iff (sha256_hex c.sha256 body) expected),
    λ h. rw ((list_eq_iff (sha256_hex c.sha256 body) expected).1 h),
  )

  pub record IsPublicKey (d : PublicKeyDocument) (m : KeyManifest) (key : Bytes) : Type 0 where
    pub version : d.version ≡ 2
    pub algorithm : d.algorithm ≡ txt "ED25519"
    pub decoded : decode_base64 c (txt "public_key_base64") d.public_key_base64 ≡ ok key
    pub size : length key ≡ 32
    pub document_fingerprint : sha256_hex c.sha256 key ≡ d.fingerprint_sha256
    pub manifest_fingerprint : sha256_hex c.sha256 key ≡ m.key_fingerprint

  -- A public key that validate_public_document returns comes from a document of version 2 and
  -- algorithm ED25519, is what its base64 text decodes to, has 32 bytes, and has the fingerprint
  -- that both the document and the manifest state.
  pub validate_public_document_sound :
      (d : PublicKeyDocument) (m : KeyManifest) (key : Bytes)
      → validate_public_document c d m ≡ ok key
      → IsPublicKey d m key
  unfolding validate_public_document decode_fixed_base64
  validate_public_document_sound d m key h =
      let kind = not (d.version == 2) || differ d.algorithm (txt "ED25519") in
      let (_, h₁, k₁) = >>=-eq-ok (reject_if kind (txt "unsupported public key document")) _ h in
      let (key', h₂, k₂) =
        >>=-eq-ok (decode_fixed_base64 c 32 (txt "public_key_base64") d.public_key_base64) _ k₁ in
      let (bytes, h₃, k₃) =
        >>=-eq-ok (decode_base64 c (txt "public_key_base64") d.public_key_base64) _ h₂ in
      let hash = sha256_hex c.sha256 key' in
      let prints = differ hash d.fingerprint_sha256 || differ hash m.key_fingerprint in
      let (_, h₄, k₄) =
        >>=-eq-ok (reject_if prints (txt "public key fingerprint does not match the manifest")) _
          k₂ in
      let right_kind : kind ≡ false = reject_if-eq-ok _ _ h₁ in
      let right_prints : prints ≡ false = reject_if-eq-ok _ _ h₄ in
      let (size, same) = (fixed_bytes_iff 32 (txt "public_key_base64") bytes key').0 k₃ in
      subst (IsPublicKey d m) (ok-injective key' key k₄) (record {
        version = ground arith;
        algorithm = differ-false _ _ (ground arith);
        decoded = h₃ ∙ ap (λ b. ok b) same;
        size = ap length (sym same) ∙ size;
        document_fingerprint = differ-false _ _ (ground arith);
        manifest_fingerprint = differ-false _ _ (ground arith);
      })
