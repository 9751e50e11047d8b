-- ===== src/KeyMaterial/Initialize/Commit.antt =====
-- What a successful `initialize_key_material` has done (src/key_material.rs).
use aws_kms_demo.Base.{
  Result, Str, Bytes, ok, Option, none, some, false, ok-injective, List, [], ◌≡◌, refl, ap, ◌∙◌,
  subst,
}
use aws_kms_demo.Effects.{M, lift, ◌>>=◌, bind_elim, lift_elim, guard_elim}
use aws_kms_demo.Endpoint.{Endpoint}
use aws_kms_demo.Arn.{sha256_hex}
use aws_kms_demo.Config.{is_some}
use aws_kms_demo.Config.Types.{ParentSettings}
use aws_kms_demo.Client.{client_load_object, client_save_object_if_absent}
use aws_kms_demo.Crypto.{ed25519_private_key_length}
use aws_kms_demo.Kms.{KmsDataKeyClient}
use aws_kms_demo.KeyMaterial.{
  Enclave, ObjectReference, RecoveryObjectReference, RestoredKeyPair, object_key,
  manifest_file_name,
}
use aws_kms_demo.KeyMaterial.Initialize.{
  public_key_name, manifest_exists, document_of, save_and_verify, initialize_keys, manifest_of,
  initialize_key_material,
}
use aws_kms_demo.KeyMaterial.Initialize.Upload.{Uploaded, save_and_verify-Uploaded}
use aws_kms_demo.KeyMaterial.Initialize.Sealing.{AllSealed, initialize_keys-AllSealed}

module _ {W : Type 0} (tee : Enclave W) (endpoint : Endpoint) (client : KmsDataKeyClient)
    (s : ParentSettings) where
  -- What was done, in this order: no manifest was there, a private key was drawn, each configured
  -- KMS key got a sealed object, the public key was saved and read back, and the save of the
  -- manifest that lists them was the last step.
  pub record IsCommitted (w w' : W) (p : RestoredKeyPair) : Type 0 where
    pub start : W
    pub no_manifest :
        client_load_object tee.net endpoint s.s3_bucket
          (object_key s.s3_prefix manifest_file_name)
          w
        ≡ (ok none, start)
    pub private_key : Bytes
    pub drawn : W
    pub draw : tee.random_bytes ed25519_private_key_length start ≡ (ok private_key, drawn)
    pub public_key : p.public_key ≡ tee.crypto.public_key private_key
    pub fingerprint : p.fingerprint ≡ sha256_hex tee.crypto.sha256 p.public_key
    pub references : List RecoveryObjectReference
    pub sealed : AllSealed tee endpoint client s p.public_key s.kms_keys references
    pub document : Bytes
    pub document_printed :
        tee.public_documents.to_vec (document_of tee.crypto p.public_key) ≡ ok document
    pub public_object : ObjectReference
    pub public_hash : public_object.sha256 ≡ sha256_hex tee.crypto.sha256 document
    pub published :
        Uploaded tee endpoint client s public_object.object_key document public_object.sha256
    pub manifest : Bytes
    pub manifest_printed :
        tee.manifests.to_vec (manifest_of p.fingerprint public_object references) ≡ ok manifest
    pub almost : W
    pub commit :
        client_save_object_if_absent tee.net endpoint s.s3_bucket
          (object_key s.s3_prefix manifest_file_name)
          manifest
          almost
        ≡ (ok tt, w')

  is_none : (found : Option Bytes) → is_some found ≡ false → found ≡ none
  is_none none h = refl
  is_none (some b) h = cc

  committed_pair : Bytes → RestoredKeyPair
  committed_pair public_key = record {
    public_key = public_key;
    fingerprint = sha256_hex tee.crypto.sha256 public_key;
    kms_key_arn = [];
  }

  public_object_of : Bytes → Bytes → ObjectReference
  public_object_of public_key public_body = record {
    object_key = object_key s.s3_prefix (public_key_name (sha256_hex tee.crypto.sha256 public_key));
    sha256 = sha256_hex tee.crypto.sha256 public_body;
  }

  -- The key of the manifest.
  abbrev manifest_key : Str
  manifest_key = object_key s.s3_prefix manifest_file_name

  -- The public key document's object, and the manifest's body.
  abbrev publish : Bytes → Bytes → M W (Unit {0})
  publish public_key document =
      let o = public_object_of public_key document in
      save_and_verify tee endpoint client s o.object_key document o.sha256

  abbrev print_manifest : Bytes → Bytes → List RecoveryObjectReference → Result Bytes
  print_manifest public_key document references = tee.manifests.to_vec (
      manifest_of (sha256_hex tee.crypto.sha256 public_key) (public_object_of public_key document)
        references)

  -- What follows the loop over the keys.
  abbrev finish : Bytes → Bytes → List RecoveryObjectReference → M W RestoredKeyPair
  finish public_key document references = publish public_key document >>= λ _.
      lift (print_manifest public_key document references) >>= λ manifest.
      client_save_object_if_absent tee.net endpoint s.s3_bucket manifest_key manifest >>= λ _.
      λ v. (ok (committed_pair public_key), v)

  -- What the parts up to the loop leave for the proof.
  record IsStarted (w : W) (public_key document : Bytes) (references : List RecoveryObjectReference)
      : Type 0 where
    pub start : W
    pub no_manifest :
        client_load_object tee.net endpoint s.s3_bucket manifest_key w ≡ (ok none, start)
    pub private_key : Bytes
    pub drawn : W
    pub draw : tee.random_bytes ed25519_private_key_length start ≡ (ok private_key, drawn)
    pub belongs : public_key ≡ tee.crypto.public_key private_key
    pub document_printed :
        tee.public_documents.to_vec (document_of tee.crypto public_key) ≡ ok document
    pub sealed : AllSealed tee endpoint client s public_key s.kms_keys references

  finish-IsCommitted :
      (w v w' : W) (public_key document : Bytes) (references : List RecoveryObjectReference)
      (p : RestoredKeyPair)
      → IsStarted w public_key document references
      → finish public_key document references v ≡ (ok p, w')
      → IsCommitted w w' p
  unfolding committed_pair public_object_of
  finish-IsCommitted w v w' public_key document references p started h =
      bind_elim (publish public_key document) _ v w' h λ u w₃ publishing k₁.
        lift_elim (print_manifest public_key document references) _ w₃ w' k₁ λ manifest printed k₂.
          bind_elim
            (client_save_object_if_absent tee.net endpoint s.s3_bucket manifest_key manifest) _ w₃
            w' k₂
            λ u' w₄ commit last.
              subst (IsCommitted w w') (ok-injective _ p (ap (λ x. x.0) last)) (record {
                start = started.start;
                no_manifest = started.no_manifest;
                private_key = started.private_key;
                drawn = started.drawn;
                draw = started.draw;
                public_key = started.belongs;
                fingerprint = refl;
                references = references;
                sealed = started.sealed;
                document = document;
                document_printed = started.document_printed;
                public_object = public_object_of public_key document;
                public_hash = refl;
                published =
                    save_and_verify-Uploaded tee endpoint client s _ document _ v w₃ u publishing;
                manifest = manifest;
                manifest_printed = printed;
                almost = w₃;
                commit = commit ∙ ap (λ z. (ok tt, z)) (ap (λ x. x.1) last);
              })

  -- Where initialize_key_material returns a key pair, no manifest was found before anything else;
  -- the pair's public key belongs to the private key then drawn at random, and its fingerprint is
  -- the public key's; every configured KMS key, in order, has a package that was saved, read back
  -- with its hash, and opened again to a private key with that public key; the public key document
  -- was saved and read back with its hash; and the last step was the save of the manifest that
  -- lists them all.
  pub initialize_key_material-IsCommitted :
      (w w' : W) (p : RestoredKeyPair)
      → initialize_key_material tee endpoint client s w ≡ (ok p, w')
      → IsCommitted w w' p
  unfolding initialize_key_material committed_pair public_object_of
  initialize_key_material-IsCommitted w w' p h =
      bind_elim (client_load_object tee.net endpoint s.s3_bucket manifest_key) _ w w' h
        λ existing w₀ loading k₁.
          guard_elim (is_some existing) (manifest_exists s.s3_bucket manifest_key) _ w₀ w' k₁
            λ absent k₂.
              bind_elim (tee.random_bytes ed25519_private_key_length) _ w₀ w' k₂
                λ private_key w₁ draw k₃.
                  let public_key = tee.crypto.public_key private_key in
                  lift_elim (tee.public_documents.to_vec (document_of tee.crypto public_key)) _ w₁
                    w' k₃
                    λ document printed k₄.
                      bind_elim
                        (initialize_keys tee endpoint client s private_key public_key s.kms_keys) _
                        w₁ w' k₄
                        λ references w₂ sealing k₅.
                          finish-IsCommitted w w₂ w' public_key document references p
                            (record {
                              start = w₀;
                              no_manifest =
                                  loading ∙ ap (λ r. (ok r, w₀)) (is_none existing absent);
                              private_key = private_key;
                              drawn = w₁;
                              draw = draw;
                              belongs = refl;
                              document_printed = printed;
                              sealed =
                                  initialize_keys-AllSealed tee endpoint client s private_key
                                    public_key s.kms_keys references w₁ w₂ sealing;
                            })
                            k₅
