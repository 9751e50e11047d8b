-- ===== src/Tests/Echo.antt =====
-- An enclave whose broker has what initialisation commits, once that has begun.
use aws_kms_demo.Base.{
  ℕ, ◌==◌, ==_iff, ◌&&◌, Str, Bytes, txt, Result, ok, err, none, some, Bool, true, false, list_eq,
  list_eq_iff, if◌then◌else◌, List, [], ◌∷◌, ◌≡◌, refl, ap, arith,
}
use aws_kms_demo.Config.Types.{
  BrokerRequest, get_settings, get_aws_credentials, load_object, save_object_if_absent,
  BrokerResponse, aws_credentials, object, saved,
}
use aws_kms_demo.Frame.{Codec, to_be_bytes}
use aws_kms_demo.Frame.RoundTrip.{IsFaithful}
use aws_kms_demo.Client.{Network}
use aws_kms_demo.Kms.Nitro.{Shim, failure}
use aws_kms_demo.KeyMaterial.{
  Enclave, KeyManifest, RecoveryObjectReference, RecoveryPackage, PublicKeyDocument,
}
use aws_kms_demo.KeyMaterial.Initialize.{document_of, manifest_of}
use aws_kms_demo.Tests.Fixtures.{main_arn, zeros}
use aws_kms_demo.Tests.Machine.{
  some_credentials, plain_crypto, key_bytes, the_package, the_manifest,
}
use aws_kms_demo.Tests.Sockets.{still_os}

-- Before initialisation, from its start on, and once the main KMS key is lost.
pub data Stage : Type 0 where
  early : Stage
  begun : Stage
  lost : Stage

abbrev pub is_lost : Stage → Bool
is_lost early = false
is_lost begun = false
is_lost lost = true

-- The request that was sent last, and the stage.
abbrev pub Echo : Type 0
Echo = Bytes × Stage

abbrev reply : Bytes → Stage → Bytes
reply sent early = 2 ∷ []
reply sent begun = sent
reply sent lost = sent

abbrev kind_of : BrokerRequest → Bytes
kind_of get_settings = 4 ∷ []
kind_of (get_aws_credentials slot) = 3 ∷ []
kind_of (load_object b k) = 1 ∷ []
kind_of (save_object_if_absent b k body) = 0 ∷ []

abbrev answer_of : Bytes → Result BrokerResponse
answer_of [] = err (txt "no response")
answer_of (kind ∷ rest) =
    if kind == 0
    then ok saved
    else if kind == 1
    then ok (object (some []))
    else if kind == 2
    then ok (object none)
    else ok (aws_credentials some_credentials)

-- Before initialisation has begun every answer is that there is no object.
abbrev pub echo_network : Network Echo
echo_network = record {
  os = still_os;
  target_os_linux = true;
  writer = λ stream. record {
    write_all = λ bytes (sent, stage). (ok tt, (bytes, stage));
    flush = λ x. (ok tt, x);
  };
  reader = λ stream. record {
    read_exact =
        λ n (sent, stage). (ok (if n == 4 then to_be_bytes 1 else reply sent stage), (sent, stage));
  };
  requests = record { to_vec = λ r. ok (kind_of r); from_slice = λ b. err (txt "not read") };
  responses = record { to_vec = λ r. ok []; from_slice = answer_of };
  debug = λ r. txt "response";
}

-- The codecs write one value, and read it.
abbrev is_the_package : RecoveryPackage → Bool
is_the_package p =
    p.version == 2
    && (list_eq p.encrypted_data_key_base64 the_package.encrypted_data_key_base64
        && (list_eq p.private_key_nonce_base64 the_package.private_key_nonce_base64
            && list_eq p.encrypted_private_key_base64 the_package.encrypted_private_key_base64))

abbrev packages : Codec RecoveryPackage
packages = record {
  to_vec = λ p. if is_the_package p then ok [] else err (txt "not written");
  from_slice = λ b. ok the_package;
}

package_of :
    (version : ℕ) (a b c : Str)
    → version ≡ 2
    → a ≡ the_package.encrypted_data_key_base64
    → b ≡ the_package.private_key_nonce_base64
    → c ≡ the_package.encrypted_private_key_base64
    → ◌≡◌ {A = RecoveryPackage} the_package (record {
      version = version;
      encrypted_data_key_base64 = a;
      private_key_nonce_base64 = b;
      encrypted_private_key_base64 = c;
    })
package_of version a b c e e₁ e₂ e₃ = rw (e, e₁, e₂, e₃)

pub packages-IsFaithful : IsFaithful packages
packages-IsFaithful p bytes h =
    ap (λ x. ok x)
      (package_of p.version p.encrypted_data_key_base64 p.private_key_nonce_base64
        p.encrypted_private_key_base64 (ground (arith, ==_iff p.version 2))
        (ground
          (arith, list_eq_iff p.encrypted_data_key_base64 the_package.encrypted_data_key_base64))
        (ground
          (arith, list_eq_iff p.private_key_nonce_base64 the_package.private_key_nonce_base64))
        (ground (
          arith,
          list_eq_iff p.encrypted_private_key_base64 the_package.encrypted_private_key_base64,
        )))

abbrev the_document : PublicKeyDocument
the_document = document_of plain_crypto key_bytes

abbrev is_the_document : PublicKeyDocument → Bool
is_the_document d =
    d.version == 2
    && (list_eq d.algorithm the_document.algorithm
        && (list_eq d.public_key_base64 the_document.public_key_base64
            && list_eq d.fingerprint_sha256 the_document.fingerprint_sha256))

abbrev documents : Codec PublicKeyDocument
documents = record {
  to_vec = λ d. if is_the_document d then ok [] else err (txt "not written");
  from_slice = λ b. ok the_document;
}

document_as :
    (version : ℕ) (a b c : Str)
    → version ≡ 2
    → a ≡ the_document.algorithm
    → b ≡ the_document.public_key_base64
    → c ≡ the_document.fingerprint_sha256
    → ◌≡◌ {A = PublicKeyDocument} the_document
        (record { version = version; algorithm = a; public_key_base64 = b; fingerprint_sha256 = c })
document_as version a b c e e₁ e₂ e₃ = rw (e, e₁, e₂, e₃)

pub documents-IsFaithful : IsFaithful documents
documents-IsFaithful d bytes h =
    ap (λ x. ok x)
      (document_as d.version d.algorithm d.public_key_base64 d.fingerprint_sha256
        (ground (arith, ==_iff d.version 2))
        (ground (arith, list_eq_iff d.algorithm the_document.algorithm))
        (ground (arith, list_eq_iff d.public_key_base64 the_document.public_key_base64))
        (ground (arith, list_eq_iff d.fingerprint_sha256 the_document.fingerprint_sha256)))

abbrev is_reference : RecoveryObjectReference → RecoveryObjectReference → Bool
is_reference r other =
    list_eq r.kms_key_arn other.kms_key_arn
    && (list_eq r.object_key other.object_key && list_eq r.sha256 other.sha256)

reference_as :
    (a b c : Str) (other : RecoveryObjectReference)
    → a ≡ other.kms_key_arn
    → b ≡ other.object_key
    → c ≡ other.sha256
    → ◌≡◌ {A = RecoveryObjectReference}
        (record { kms_key_arn = a; object_key = b; sha256 = c })
        other
reference_as a b c other e e₁ e₂ = rw (e, e₁, e₂)

is_reference-eq : (r other : RecoveryObjectReference) → is_reference r other ≡ true → r ≡ other
is_reference-eq r other h =
    reference_as r.kms_key_arn r.object_key r.sha256 other
      (ground (arith, list_eq_iff r.kms_key_arn other.kms_key_arn))
      (ground (arith, list_eq_iff r.object_key other.object_key))
      (ground (arith, list_eq_iff r.sha256 other.sha256))

abbrev are_references : List RecoveryObjectReference → List RecoveryObjectReference → Bool
are_references [] [] = true
are_references (r ∷ rs) (other ∷ others) = is_reference r other && are_references rs others
are_references _ _ = false

are_references-eq :
    (rs others : List RecoveryObjectReference) → are_references rs others ≡ true → rs ≡ others
are_references-eq [] [] h = refl
are_references-eq [] (other ∷ others) h = cc
are_references-eq (r ∷ rs) [] h = cc
are_references-eq (r ∷ rs) (other ∷ others) h =
    let here : is_reference r other ≡ true = ground arith in
    let there : are_references rs others ≡ true = ground arith in
    rw (is_reference-eq r other here, are_references-eq rs others there)

abbrev is_the_manifest : KeyManifest → Bool
is_the_manifest m =
    m.version == 2
    && (list_eq m.recovery_policy the_manifest.recovery_policy
        && (list_eq m.key_fingerprint the_manifest.key_fingerprint
            && (list_eq m.private_key_algorithm the_manifest.private_key_algorithm
                && (list_eq m.private_key_encryption the_manifest.private_key_encryption
                    && (list_eq m.public_key.object_key the_manifest.public_key.object_key
                        && (list_eq m.public_key.sha256 the_manifest.public_key.sha256
                            && are_references m.recovery_objects the_manifest.recovery_objects))))))

abbrev manifests : Codec KeyManifest
manifests = record {
  to_vec = λ m. if is_the_manifest m then ok [] else err (txt "not written");
  from_slice = λ b. ok the_manifest;
}

manifest_as :
    (version : ℕ) (policy fingerprint algorithm encryption o hash : Str)
    (references : List RecoveryObjectReference)
    → version ≡ 2
    → policy ≡ the_manifest.recovery_policy
    → fingerprint ≡ the_manifest.key_fingerprint
    → algorithm ≡ the_manifest.private_key_algorithm
    → encryption ≡ the_manifest.private_key_encryption
    → o ≡ the_manifest.public_key.object_key
    → hash ≡ the_manifest.public_key.sha256
    → references ≡ the_manifest.recovery_objects
    → ◌≡◌ {A = KeyManifest} the_manifest (record {
      version = version;
      recovery_policy = policy;
      key_fingerprint = fingerprint;
      private_key_algorithm = algorithm;
      private_key_encryption = encryption;
      public_key = record { object_key = o; sha256 = hash };
      recovery_objects = references;
    })
unfolding manifest_of
manifest_as version policy fingerprint algorithm encryption o hash references e e₁ e₂ e₃ e₄ e₅ e₆
      e₇ =
    rw (e, e₁, e₂, e₃, e₄, e₅, e₆, e₇)

pub manifests-IsFaithful : IsFaithful manifests
manifests-IsFaithful m bytes h =
    ap (λ x. ok x)
      (manifest_as m.version m.recovery_policy m.key_fingerprint m.private_key_algorithm
        m.private_key_encryption m.public_key.object_key m.public_key.sha256 m.recovery_objects
        (ground (arith, ==_iff m.version 2))
        (ground (arith, list_eq_iff m.recovery_policy the_manifest.recovery_policy))
        (ground (arith, list_eq_iff m.key_fingerprint the_manifest.key_fingerprint))
        (ground (arith, list_eq_iff m.private_key_algorithm the_manifest.private_key_algorithm))
        (ground (arith, list_eq_iff m.private_key_encryption the_manifest.private_key_encryption))
        (ground (arith, list_eq_iff m.public_key.object_key the_manifest.public_key.object_key))
        (ground (arith, list_eq_iff m.public_key.sha256 the_manifest.public_key.sha256))
        (are_references-eq m.recovery_objects the_manifest.recovery_objects (ground arith)))

abbrev echo_shim : Shim Echo
echo_shim = record {
  nkms_generate_data_key = λ access key bits x. (failure [], x);
  nkms_decrypt_data_key = λ access blob context x. (failure [], x);
  context_to_string = λ m. ok [];
}

-- Drawing random bytes begins the initialisation.
abbrev pub echo_enclave : Enclave Echo
echo_enclave = record {
  net = echo_network;
  kms = record {
    generate_data_key = λ client request x. (
      ok (record { plaintext = some key_bytes; ciphertext_blob = some key_bytes; key_id = none }),
      x,
    );
    decrypt = λ client request (sent, stage). (
      if is_lost stage && list_eq request.key_id main_arn
          then err (txt "disabled")
          else ok (some key_bytes),
      (sent, stage),
    );
    shim = echo_shim;
  };
  crypto = plain_crypto;
  manifests = manifests;
  public_documents = documents;
  packages = packages;
  random_bytes = λ n (sent, stage). (ok (zeros n), (sent, begun));
}
