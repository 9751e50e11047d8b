-- ===== src/KeyMaterial/Lifecycle.antt =====
-- What `initialize_key_material` has committed `restore_key_material` restores (src/key_material.rs).
use mathlib.Core.List.{Memᴰ}
use aws_kms_demo.Base.{
  ◌≢◌, Bytes, txt, ok, some, length, List, [], ◌∷◌, ◌++◌, ◌≡◌, refl, sym, ap, ◌∙◌, All,
}
use aws_kms_demo.Effects.Succeeds.{Succeeds, run-Succeeds, lift-Succeeds}
use aws_kms_demo.Endpoint.{Endpoint}
use aws_kms_demo.Config.Types.{ParentSettings, KmsKeySettings}
use aws_kms_demo.Client.{client_load_object}
use aws_kms_demo.Crypto.Wrapping.{IsInverse}
use aws_kms_demo.Frame.RoundTrip.{IsFaithful}
use aws_kms_demo.Kms.{KmsDataKeyClient}
use aws_kms_demo.KeyMaterial.{
  Enclave, RecoveryObjectReference, RestoredKeyPair, object_key, manifest_file_name,
  validate_manifest, verify_sha256, validate_public_document,
}
use aws_kms_demo.KeyMaterial.Checks.{verify_sha256_iff}
use aws_kms_demo.KeyMaterial.Initialize.{document_of, manifest_of}
use aws_kms_demo.KeyMaterial.Initialize.Sealing.{AllSealed}
use aws_kms_demo.KeyMaterial.Initialize.Commit.{IsCommitted}
use aws_kms_demo.KeyMaterial.Initialize.Restorable.{
  AllSealed-IsRestorable, sealed_for, sealed_for-found,
}
use aws_kms_demo.KeyMaterial.Restore.{restore_loop, restore_key_material}
use aws_kms_demo.KeyMaterial.Restore.Again.{
  Among, Serves, DecryptsAgain, Returns, Recovers, restore_attempt-Succeeds, restore_loop-Recovers,
}

module _ {W : Type 0} (tee : Enclave W) (endpoint : Endpoint) (client : KmsDataKeyClient)
    (s : ParentSettings) (Fit : W → Type 0) where
  -- The documents that the commit left are served, and the codecs read back what they write.
  pub record IsKept {w w' : W} {p : RestoredKeyPair}
      (done : IsCommitted tee endpoint client s w w' p) : Type 0 where
    pub inverse : IsInverse tee.crypto
    pub manifests_faithful : IsFaithful tee.manifests
    pub documents_faithful : IsFaithful tee.public_documents
    pub packages_faithful : IsFaithful tee.packages
    pub manifest_served :
        Serves tee endpoint client s Fit (object_key s.s3_prefix manifest_file_name) done.manifest
    pub document_served :
        Serves tee endpoint client s Fit done.public_object.object_key done.document

  -- A configured KMS key works again: the package that the commit saved for it is served, and the
  -- key gives back the data key that it gave before. No key before it has the same ARN, and the
  -- attempts with those return: with Ok or with Err.
  pub record IsAvailable {public_key : Bytes} {references : List RecoveryObjectReference}
      (sealed : AllSealed tee endpoint client s public_key s.kms_keys references)
      (key : KmsKeySettings) (earlier : List KmsKeySettings) : Type 0 where
    pub place : Among key earlier s.kms_keys
    pub distinct : All (λ k. k.key_arn ≢ key.key_arn) earlier
    pub return : All (Returns tee endpoint client s Fit references public_key) earlier
    pub served :
        Serves tee endpoint client s Fit
          (sealed_for tee endpoint client s public_key place sealed).0.object_key
          (sealed_for tee endpoint client s public_key place sealed).1.body
    pub decrypts : DecryptsAgain tee endpoint client s Fit key

  module _ (packages_faithful : IsFaithful tee.packages) (public_key : Bytes)
      (references : List RecoveryObjectReference)
      (sealed : AllSealed tee endpoint client s public_key s.kms_keys references)
      (key : KmsKeySettings) (earlier : List KmsKeySettings)
      (a : IsAvailable sealed key earlier) where
    loop-Recovers :
        (w : W)
        → Fit w
        → Recovers tee endpoint client s Fit references public_key
            (earlier ++ key ∷ [])
            s.kms_keys
            []
            w
    loop-Recovers w fit =
        let (r, x) = sealed_for tee endpoint client s public_key a.place sealed in
        restore_loop-Recovers tee endpoint client s Fit references public_key key r
          (sealed_for-found tee endpoint client s public_key key a.place sealed a.distinct)
          (restore_attempt-Succeeds tee endpoint client s Fit key r x.recovery public_key x.body
            a.decrypts a.served x.hash (packages_faithful x.recovery x.body x.printed) x.opens)
          a.place a.return [] w fit

  abbrev pub restored_by : RestoredKeyPair → KmsKeySettings → RestoredKeyPair
  restored_by p key = record {
    public_key = p.public_key;
    fingerprint = p.fingerprint;
    kms_key_arn = key.key_arn;
  }

  -- Let initialize_key_material have committed a key pair with a public key of 32 bytes, for two
  -- configured KMS keys. Where the committed manifest and public key document are served again,
  -- base64 and the codecs read back what they write, and one configured KMS key has the package
  -- that was committed for it served and gives back the data key that it gave for a blob before,
  -- while no key before it has its ARN and the attempts with those return, with Ok or with Err,
  -- restore_key_material succeeds: it returns the committed public key and fingerprint, and the
  -- ARN of that KMS key or of one before it.
  pub restore_key_material-Succeeds :
      {w w' : W} {p : RestoredKeyPair} (done : IsCommitted tee endpoint client s w w' p)
      (key : KmsKeySettings) (earlier : List KmsKeySettings)
      → IsKept done
      → length p.public_key ≡ 32
      → length s.kms_keys ≡ 2
      → IsAvailable done.sealed key earlier
      → (v : W) → Fit v
      → (winner : KmsKeySettings) × Memᴰ winner (earlier ++ key ∷ [])
        × Succeeds Fit (restore_key_material tee endpoint client s) v (restored_by p winner)
  unfolding restore_key_material manifest_of
  restore_key_material-Succeeds {p} done key earlier kept size two available v fit =
      let o = done.public_object in
      let m = manifest_of p.fingerprint o done.references in
      let restorable =
        AllSealed-IsRestorable tee endpoint client s p.public_key o done.references kept.inverse
          size two done.sealed in
      let accepted : validate_manifest m ≡ ok tt =
        ap (λ f. validate_manifest (manifest_of f o done.references)) done.fingerprint
        ∙ restorable.accepted in
      let valid : validate_public_document tee.crypto (document_of tee.crypto p.public_key) m
          ≡ ok p.public_key =
        ap
          (λ f.
            validate_public_document tee.crypto (document_of tee.crypto p.public_key)
              (manifest_of f o done.references))
          done.fingerprint
        ∙ restorable.document in
      let (v₁, loaded, fit₁) = kept.manifest_served v fit in
      let (v₂, published, fit₂) = kept.document_served v₁ fit₁ in
      let (winner, mem, (v₃, ran, fit₃)) =
        loop-Recovers kept.packages_faithful p.public_key done.references done.sealed key earlier
          available v₂ fit₂ in
      let result = restored_by p winner in
      (
        winner,
        mem,
        run-Succeeds Fit
            (client_load_object tee.net endpoint s.s3_bucket
              (object_key s.s3_prefix manifest_file_name))
            _ v v₁ (some done.manifest) result loaded
            (lift-Succeeds Fit (tee.manifests.from_slice done.manifest) _ v₁ m result
              (kept.manifests_faithful m done.manifest done.manifest_printed)
              (lift-Succeeds Fit (validate_manifest m) _ v₁ tt result accepted (
                run-Succeeds Fit (client_load_object tee.net endpoint s.s3_bucket o.object_key) _ v₁
                  v₂ (some done.document) result published
                  (lift-Succeeds Fit
                    (verify_sha256 tee.crypto (txt "public key object") done.document o.sha256) _ v₂
                    tt result
                    ((verify_sha256_iff tee.crypto (txt "public key object") done.document
                        o.sha256).1
                      (sym done.public_hash))
                    (lift-Succeeds Fit (tee.public_documents.from_slice done.document) _ v₂
                      (document_of tee.crypto p.public_key) result
                      (kept.documents_faithful (document_of tee.crypto p.public_key) done.document
                        done.document_printed)
                      (lift-Succeeds Fit
                        (validate_public_document tee.crypto (document_of tee.crypto p.public_key)
                          m)
                        _ v₂ p.public_key result valid
                        (run-Succeeds Fit
                          (restore_loop tee endpoint client s done.references p.public_key
                            s.kms_keys [])
                          _ v₂ v₃ winner result ran (v₃, refl, fit₃)))))))),
      )
