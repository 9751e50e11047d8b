-- ===== src/KeyMaterial/Initialize/Restorable.antt =====
-- What `initialize_key_material` writes is what `restore_key_material` accepts
-- (src/key_material.rs).
use mathlib.Core.List.{Memᴰ}
use aws_kms_demo.Base.{
  All, suc, Str, Bytes, txt, ok, some, Bool-cases, true, false, list_eq, list_eq_iff, list_eq_refl,
  List, [], ◌∷◌, ◌≡◌, ◌≢◌, inl, inr, refl, sym, ap, ◌∙◌, length,
}
use aws_kms_demo.Endpoint.{Endpoint}
use aws_kms_demo.Arn.{sha256_hex}
use aws_kms_demo.Config.Types.{ParentSettings, KmsKeySettings}
use aws_kms_demo.Crypto.Wrapping.{IsInverse, decode_fixed_base64-encode}
use aws_kms_demo.Kms.{KmsDataKeyClient}
use aws_kms_demo.KeyMaterial.{
  Enclave, KeyManifest, ObjectReference, RecoveryObjectReference, validate_manifest,
  validate_public_document,
}
use aws_kms_demo.KeyMaterial.Checks.{IsSupported, validate_manifest_iff}
use aws_kms_demo.KeyMaterial.Restore.{reference_for}
use aws_kms_demo.KeyMaterial.Restore.Again.{Among, first, behind}
use aws_kms_demo.KeyMaterial.Initialize.{document_of, manifest_of}
use aws_kms_demo.KeyMaterial.Initialize.Sealing.{AllSealed, none_left, one_more, Sealed}

module _ {W : Type 0} (tee : Enclave W) (endpoint : Endpoint) (client : KmsDataKeyClient)
    (s : ParentSettings) (public_key : Bytes) where
  AllSealed-length :
      {keys : List KmsKeySettings} {references : List RecoveryObjectReference}
      → AllSealed tee endpoint client s public_key keys references
      → length references ≡ length keys
  AllSealed-length none_left = refl
  AllSealed-length (one_more here later) = ap (λ n. suc n) (AllSealed-length later)

  found_here :
      (key : KmsKeySettings) (r : RecoveryObjectReference) (rs : List RecoveryObjectReference)
      → list_eq r.kms_key_arn key.key_arn ≡ true
      → reference_for key (r ∷ rs) ≡ some r
  found_here key r rs e = ap (λ b. elim b [ true ↦ some r | false ↦ reference_for key rs ]) e

  found_later :
      (key : KmsKeySettings) (r : RecoveryObjectReference) (rs : List RecoveryObjectReference)
      → list_eq r.kms_key_arn key.key_arn ≡ false
      → reference_for key (r ∷ rs) ≡ reference_for key rs
  found_later key r rs e = ap (λ b. elim b [ true ↦ some r | false ↦ reference_for key rs ]) e

  -- The search of `restore_key_material` finds a sealed object for a key that has one.
  pub IsFound : KmsKeySettings → List RecoveryObjectReference → Type 0
  IsFound key references =
      (r : RecoveryObjectReference) × (other : KmsKeySettings) × (reference_for key references
        ≡ some r)
      × (other.key_arn ≡ key.key_arn)
      × Sealed tee endpoint client s public_key other r

  -- The reference that was made for a key at its place, and its sealed object.
  abbrev pub sealed_for :
      {key : KmsKeySettings} {earlier keys : List KmsKeySettings}
      {references : List RecoveryObjectReference}
      → Among key earlier keys
      → AllSealed tee endpoint client s public_key keys references
      → (r : RecoveryObjectReference) × Sealed tee endpoint client s public_key key r
  sealed_for first (one_more {r} here later) = (r, here)
  sealed_for (behind place) (one_more here later) = sealed_for place later

  -- It is the one that the search finds, where no key before has the same ARN.
  pub sealed_for-found :
      (key : KmsKeySettings) {earlier keys : List KmsKeySettings}
      {references : List RecoveryObjectReference} (place : Among key earlier keys)
      (sealed : AllSealed tee endpoint client s public_key keys references)
      → All (λ k. k.key_arn ≢ key.key_arn) earlier
      → reference_for key references ≡ some (sealed_for place sealed).0
  sealed_for-found key first (one_more {r} here later) apart =
      found_here key r _ ((list_eq_iff _ _).1 here.arn)
  sealed_for-found key (behind {k} place) (one_more {r} here later) (other, apart) =
      elim (Bool-cases (list_eq r.kms_key_arn key.key_arn)) [
        | inl same ↦ absurd (other (sym here.arn ∙ (list_eq_iff _ _).0 same))
        | inr different ↦ found_later key r _ different ∙ sealed_for-found key place later apart
      ]

  AllSealed-IsFound :
      {keys : List KmsKeySettings} {references : List RecoveryObjectReference}
      (key : KmsKeySettings)
      → Memᴰ key keys
      → AllSealed tee endpoint client s public_key keys references
      → IsFound key references
  unfolding IsFound
  AllSealed-IsFound key mem none_left = elim mem [ ]
  AllSealed-IsFound key (Memᴰ.head e) (one_more {key = k} {r = r} here later) =
      let same : list_eq r.kms_key_arn key.key_arn ≡ true =
        (list_eq_iff _ _).1 (here.arn ∙ ap (λ x. x.key_arn) (sym e)) in
      (r, k, found_here key r _ same, ap (λ x. x.key_arn) (sym e), here)
  AllSealed-IsFound key (Memᴰ.tail m) (one_more {key = k} {r = r} here later) =
      elim (Bool-cases (list_eq r.kms_key_arn key.key_arn)) [
        | inl same ↦ (r, k, found_here key r _ same, sym here.arn ∙ (list_eq_iff _ _).0 same, here)
        | inr different ↦
            let (found, other, search, arn, sealed) = AllSealed-IsFound key m later in
            (found, other, found_later key r _ different ∙ search, arn, sealed)
      ]

  All-of_members :
      {P : KmsKeySettings → Type 0} (keys : List KmsKeySettings)
      → ((key : KmsKeySettings) → Memᴰ key keys → P key)
      → All P keys
  All-of_members [] h = tt
  All-of_members (key ∷ keys) h =
      (h key (Memᴰ.head refl), All-of_members keys (λ k mem. h k (Memᴰ.tail mem)))

  manifest_of-IsSupported :
      (fingerprint : Str) (o : ObjectReference) (references : List RecoveryObjectReference)
      → length references ≡ 2
      → IsSupported (manifest_of fingerprint o references)
  unfolding manifest_of
  manifest_of-IsSupported fingerprint o references two = record {
    version = refl;
    policy = refl;
    algorithm = refl;
    encryption = refl;
    two_objects = two;
  }

  document_accepted :
      (o : ObjectReference) (references : List RecoveryObjectReference)
      → IsInverse tee.crypto
      → length public_key ≡ 32
      → validate_public_document tee.crypto
          (document_of tee.crypto public_key)
          (manifest_of (sha256_hex tee.crypto.sha256 public_key) o references)
        ≡ ok public_key
  unfolding validate_public_document manifest_of
  document_accepted o references inverse size = rw (
    list_eq_refl (txt "ED25519"),
    decode_fixed_base64-encode tee.crypto inverse 32 (txt "public_key_base64") public_key size,
    list_eq_refl (sha256_hex tee.crypto.sha256 public_key),
  )

  pub record IsRestorable (m : KeyManifest) : Type 0 where
    pub accepted : validate_manifest m ≡ ok tt
    pub document :
        validate_public_document tee.crypto (document_of tee.crypto public_key) m ≡ ok public_key
    pub found : All (λ key. IsFound key m.recovery_objects) s.kms_keys

  -- Where base64 decodes what it encodes, the public key has 32 bytes, two KMS keys are configured
  -- and each has a sealed object in the references, the manifest that initialize_key_material
  -- builds of them passes validate_manifest, the document that it writes passes
  -- validate_public_document with that manifest and gives back the public key, and the search of
  -- restore_key_material finds for every configured KMS key the sealed object of a key with the
  -- same ARN.
  pub AllSealed-IsRestorable :
      (o : ObjectReference) (references : List RecoveryObjectReference)
      → IsInverse tee.crypto
      → length public_key ≡ 32
      → length s.kms_keys ≡ 2
      → AllSealed tee endpoint client s public_key s.kms_keys references
      → IsRestorable (manifest_of (sha256_hex tee.crypto.sha256 public_key) o references)
  unfolding manifest_of
  AllSealed-IsRestorable o references inverse size two sealed = record {
    accepted =
        (validate_manifest_iff _).1
          (manifest_of-IsSupported _ o references (AllSealed-length sealed ∙ two));
    document = document_accepted o references inverse size;
    found = All-of_members s.kms_keys (λ key mem. AllSealed-IsFound key mem sealed);
  }
