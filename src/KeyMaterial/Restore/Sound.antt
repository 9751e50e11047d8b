-- ===== src/KeyMaterial/Restore/Sound.antt =====
-- What a successful `restore_key_material` guarantees (src/key_material.rs).
use aws_kms_demo.Base.{Bytes, txt, Result, ok, ok_or, ok-injective, [], ◌++◌, ◌≡◌, refl, ap, subst}
use aws_kms_demo.Effects.{M, ◌>>=◌, lift, pure, bind_elim, lift_elim}
use aws_kms_demo.Endpoint.{Endpoint}
use aws_kms_demo.Arn.{sha256_hex}
use aws_kms_demo.Config.Types.{ParentSettings, KmsKeySettings}
use aws_kms_demo.Client.{client_load_object}
use aws_kms_demo.Kms.{KmsDataKeyClient}
use aws_kms_demo.KeyMaterial.{
  Enclave, KeyManifest, PublicKeyDocument, RestoredKeyPair, object_key, manifest_file_name,
  validate_manifest, verify_sha256, validate_public_document,
}
use aws_kms_demo.KeyMaterial.Checks.{
  IsPublicKey, IsSupported, validate_manifest_iff, verify_sha256_iff,
  validate_public_document_sound,
}
use aws_kms_demo.KeyMaterial.Restore.{no_manifest, restore_loop, restore_key_material}
use aws_kms_demo.KeyMaterial.Restore.Recovery.{
  WasLoaded, found-WasLoaded, Recovered, winner-Recovered,
}

module _ {W : Type 0} (tee : Enclave W) (endpoint : Endpoint) (client : KmsDataKeyClient)
    (s : ParentSettings) where
  -- The manifest that was loaded.
  pub record IsManifest (m : KeyManifest) : Type 0 where
    pub body : Bytes
    pub loaded : WasLoaded tee endpoint client s (object_key s.s3_prefix manifest_file_name) body
    pub parsed : tee.manifests.from_slice body ≡ ok m
    pub supported : IsSupported m

  -- The public key in the object that the manifest names.
  pub record IsPublished (m : KeyManifest) (public_key : Bytes) : Type 0 where
    pub body : Bytes
    pub loaded : WasLoaded tee endpoint client s m.public_key.object_key body
    pub intact : sha256_hex tee.crypto.sha256 body ≡ m.public_key.sha256
    pub document : PublicKeyDocument
    pub parsed : tee.public_documents.from_slice body ≡ ok document
    pub valid : IsPublicKey tee.crypto document m public_key

  -- A restored key pair is one whose private key, found in an intact object that the manifest lists
  -- for a configured KMS key, has 32 bytes and the published public key.
  pub record IsRestored (p : RestoredKeyPair) : Type 0 where
    pub manifest : KeyManifest
    pub is_manifest : IsManifest manifest
    pub fingerprint : p.fingerprint ≡ manifest.key_fingerprint
    pub published : IsPublished manifest p.public_key
    pub key : KmsKeySettings
    pub by : p.kms_key_arn ≡ key.key_arn
    pub recovered : Recovered tee endpoint client s manifest p.public_key key

  loop_end-IsRestored :
      (manifest : KeyManifest) (public_key : Bytes) (key : KmsKeySettings) (w v w' : W)
      (p : RestoredKeyPair)
      → IsManifest manifest
      → IsPublished manifest public_key
      → restore_loop tee endpoint client s manifest.recovery_objects public_key s.kms_keys [] w
        ≡ (ok key, v)
      → ◌≡◌ {A = Result RestoredKeyPair × W}
          (
            ok (record {
              public_key = public_key;
              fingerprint = manifest.key_fingerprint;
              kms_key_arn = key.key_arn;
            }),
            v,
          )
          (ok p, w')
      → IsRestored p
  loop_end-IsRestored manifest public_key key w v w' p is_manifest published won last =
      subst IsRestored (ok-injective _ p (ap (λ r. r.0) last)) (record {
        manifest = manifest;
        is_manifest = is_manifest;
        fingerprint = refl;
        published = published;
        key = key;
        by = refl;
        recovered = winner-Recovered tee endpoint client s manifest public_key key w v won;
      })

  -- The end of `restore_key_material`, from the load of the public key on.
  abbrev restore_with : KeyManifest → M W RestoredKeyPair
  restore_with manifest =
      client_load_object tee.net endpoint s.s3_bucket manifest.public_key.object_key >>= λ public.
      lift (ok_or public (txt "public key object is missing: " ++ manifest.public_key.object_key))
      >>= λ public_body.
          lift (
            verify_sha256 tee.crypto (txt "public key object") public_body
              manifest.public_key.sha256)
          >>= λ _. lift (tee.public_documents.from_slice public_body) >>= λ document.
              lift (validate_public_document tee.crypto document manifest) >>= λ public_key.
              restore_loop tee endpoint client s manifest.recovery_objects public_key s.kms_keys []
              >>= λ key. pure (record {
                public_key = public_key;
                fingerprint = manifest.key_fingerprint;
                kms_key_arn = key.key_arn;
              })

  restore_with-IsRestored :
      (manifest : KeyManifest) (w w' : W) (p : RestoredKeyPair)
      → IsManifest manifest
      → restore_with manifest w ≡ (ok p, w')
      → IsRestored p
  restore_with-IsRestored manifest w w' p is_manifest h =
      bind_elim (client_load_object tee.net endpoint s.s3_bucket manifest.public_key.object_key) _ w
        w' h
        λ public v loading k₁.
          lift_elim
            (ok_or public (txt "public key object is missing: " ++ manifest.public_key.object_key))
            _ v w' k₁
            λ body present k₂.
              lift_elim
                (verify_sha256 tee.crypto (txt "public key object") body manifest.public_key.sha256)
                _ v w' k₂
                λ _ intact k₃.
                  lift_elim (tee.public_documents.from_slice body) _ v w' k₃ λ document parsed k₄.
                    lift_elim (validate_public_document tee.crypto document manifest) _ v w' k₄
                      λ public_key valid k₅.
                        bind_elim
                          (restore_loop tee endpoint client s manifest.recovery_objects public_key
                            s.kms_keys [])
                          _ v w' k₅
                          λ key v₂ won last.
                            loop_end-IsRestored manifest public_key key v v₂ w' p is_manifest
                              (record {
                                body = body;
                                loaded =
                                    found-WasLoaded tee endpoint client s _ _ public body w v
                                      loading present;
                                intact =
                                    (verify_sha256_iff tee.crypto (txt "public key object") body
                                        manifest.public_key.sha256).0
                                      intact;
                                document = document;
                                parsed = parsed;
                                valid =
                                    validate_public_document_sound tee.crypto document manifest
                                      public_key valid;
                              })
                              won last

  -- Where restore_key_material returns a key pair, a body that the broker gave for the manifest's
  -- key parses as a manifest of the supported form, whose fingerprint is the pair's; a body that
  -- the broker gave for the public key object of that manifest has the stated hash and holds the
  -- pair's public key, with 32 bytes and that fingerprint; and for a configured KMS key with the
  -- ARN that the pair names, a body that the broker gave for the object that the manifest lists
  -- has the stated hash and parses as a recovery package, whose private key, opened with a data
  -- key of 16 or 32 bytes that KMS gave back for the package's own encrypted data key, has 32
  -- bytes and the pair's public key.
  pub restore_key_material-IsRestored :
      (w w' : W) (p : RestoredKeyPair)
      → restore_key_material tee endpoint client s w ≡ (ok p, w')
      → IsRestored p
  unfolding restore_key_material
  restore_key_material-IsRestored w w' p h =
      bind_elim
        (client_load_object tee.net endpoint s.s3_bucket
          (object_key s.s3_prefix manifest_file_name))
        _ w w' h
        λ found v loading k₁. lift_elim (ok_or found (no_manifest s)) _ v w' k₁ λ body present k₂.
          lift_elim (tee.manifests.from_slice body) _ v w' k₂ λ manifest parsed k₃.
            lift_elim (validate_manifest manifest) _ v w' k₃ λ _ supported k₄.
              restore_with-IsRestored manifest v w' p
                (record {
                  body = body;
                  loaded = found-WasLoaded tee endpoint client s _ _ found body w v loading present;
                  parsed = parsed;
                  supported = (validate_manifest_iff manifest).0 supported;
                })
                k₄
