-- ===== src/Tests/Lifecycle.antt =====
-- Initialisation and restoration of one key pair.
use mathlib.Core.List.{Memᴰ}
use aws_kms_demo.Base.{
  ap, subst, ◌≢◌, Option, some, err, true, false, Str, Bytes, txt, ok, true, false, inr, length,
  List, [], ◌∷◌, ◌≡◌, refl, list_eq,
}
use aws_kms_demo.Effects.Succeeds.{Succeeds}
use aws_kms_demo.Arn.{sha256_hex}
use aws_kms_demo.Config.Types.{KmsKeySettings}
use aws_kms_demo.Crypto.{decode_base64, decode_fixed_base64, decrypt_private_key}
use aws_kms_demo.Kms.{decrypt_data_key}
use aws_kms_demo.KeyMaterial.{RecoveryObjectReference, RestoredKeyPair}
use aws_kms_demo.KeyMaterial.Initialize.{manifest_of}
use aws_kms_demo.KeyMaterial.Initialize.Sealing.{Sealed, none_left, one_more}
use aws_kms_demo.KeyMaterial.Initialize.Commit.{IsCommitted}
use aws_kms_demo.KeyMaterial.Restore.{restore_key_material, restore_attempt}
use aws_kms_demo.KeyMaterial.Restore.Opening.{Opens}
use aws_kms_demo.KeyMaterial.Restore.Again.{Returns, first, behind}
use aws_kms_demo.KeyMaterial.Lifecycle.{IsKept, IsAvailable, restore_key_material-Succeeds}
use aws_kms_demo.Tests.Fixtures.{main_key, spare_key, main_arn, spare_arn, zero_digest, zeros}
use aws_kms_demo.Tests.Machine.{
  broker_address, key_settings, local_client, plain_crypto-IsInverse, key_bytes, the_package,
  the_fingerprint,
}
use aws_kms_demo.Tests.Echo.{
  early, begun, lost, echo_network, echo_enclave, packages-IsFaithful, documents-IsFaithful,
  manifests-IsFaithful,
}
use aws_kms_demo.Tests.Runs.{
  load_none, save_any, decrypt_main, decrypt_spare, Fit, serves, decrypts, uploaded, main_fails,
}

abbrev nonce_bytes : Bytes
nonce_bytes = 0 ∷ 0 ∷ 0 ∷ 0 ∷ 0 ∷ 0 ∷ 0 ∷ 0 ∷ 0 ∷ 0 ∷ 0 ∷ 0 ∷ []

opens :
    (key : KmsKeySettings)
    → decrypt_data_key echo_enclave.kms echo_network local_client key_settings key key_bytes
        ([], begun)
      ≡ (ok key_bytes, (3 ∷ [], begun))
    → Opens echo_enclave broker_address local_client key_settings key the_package key_bytes
unfolding decode_base64 decode_fixed_base64 decrypt_private_key key_bytes
opens key unwraps = record {
  version = refl;
  data_key = key_bytes;
  nonce = nonce_bytes;
  sealed = key_bytes;
  unwrapped = record {
    blob = key_bytes;
    blob_text = refl;
    sealed_text = refl;
    nonce_text = refl;
    before = ([], begun);
    after = (3 ∷ [], begun);
    unwrap = unwraps;
  };
  data_key_size = inr refl;
  private_key = key_bytes;
  opened = refl;
  size = refl;
  matches = refl;
}

sealed :
    (key : KmsKeySettings) (name : Str)
    → decrypt_data_key echo_enclave.kms echo_network local_client key_settings key key_bytes
        ([], begun)
      ≡ (ok key_bytes, (3 ∷ [], begun))
    → Sealed echo_enclave broker_address local_client key_settings key_bytes key
        (record { kms_key_arn = key.key_arn; object_key = name; sha256 = the_fingerprint })
unfolding the_fingerprint list_eq key_bytes
sealed key name unwraps = record {
  arn = refl;
  recovery = the_package;
  body = [];
  printed = refl;
  hash = refl;
  uploaded = uploaded name;
  opens = opens key unwraps;
}

abbrev the_pair : RestoredKeyPair
the_pair = record { public_key = key_bytes; fingerprint = the_fingerprint; kms_key_arn = [] }

abbrev the_references : List RecoveryObjectReference
the_references =
    record { kms_key_arn = main_key.key_arn; object_key = txt "a"; sha256 = the_fingerprint }
    ∷ record { kms_key_arn = spare_key.key_arn; object_key = txt "b"; sha256 = the_fingerprint }
    ∷ []

done :
    IsCommitted echo_enclave broker_address local_client key_settings
      ([], early)
      (0 ∷ [], begun)
      the_pair
unfolding the_fingerprint sha256_hex zero_digest list_eq key_bytes manifest_of txt main_arn
    spare_arn
done = record {
  start = (1 ∷ [], early);
  no_manifest = load_none (txt "vault") _ [];
  private_key = key_bytes;
  drawn = (1 ∷ [], begun);
  draw = refl;
  public_key = refl;
  fingerprint = refl;
  references = the_references;
  sealed =
      one_more (sealed main_key (txt "a") (decrypt_main key_bytes []))
        (one_more (sealed spare_key (txt "b") (decrypt_spare key_bytes [])) none_left);
  document = [];
  document_printed = refl;
  public_object = record { object_key = txt "p"; sha256 = the_fingerprint };
  public_hash = refl;
  published = uploaded (txt "p");
  manifest = [];
  manifest_printed = refl;
  almost = ([], begun);
  commit = save_any (txt "vault") _ [] [];
}

kept : IsKept echo_enclave broker_address local_client key_settings Fit done
unfolding done
kept = record {
  inverse = plain_crypto-IsInverse;
  manifests_faithful = manifests-IsFaithful;
  documents_faithful = documents-IsFaithful;
  packages_faithful = packages-IsFaithful;
  manifest_served = serves _;
  document_served = serves _;
}

some_injective :
    {a b : RecoveryObjectReference}
    → ◌≡◌ {A = Option RecoveryObjectReference} (some a) (some b)
    → a ≡ b
some_injective h = cc

arns_apart : main_key.key_arn ≢ spare_key.key_arn
unfolding list_eq main_arn spare_arn txt
arns_apart = λ e. let h : true ≡ false = ap (list_eq main_arn) e in cc

-- The attempt with the main key returns, with an error.
main-Returns :
    Returns echo_enclave broker_address local_client key_settings Fit done.references key_bytes
      main_key
unfolding done list_eq main_arn txt
main-Returns r found (sent, lost) fit = (
  (3 ∷ [], lost),
  refl,
  inr (
    txt "disabled",
    subst
        (λ x.
          restore_attempt echo_enclave broker_address local_client key_settings main_key x key_bytes
            (sent, lost)
          ≡ (err (txt "disabled"), (3 ∷ [], lost)))
        (some_injective found) (main_fails sent (txt "a")),
  ),
)
main-Returns r found (sent, begun) fit = cc
main-Returns r found (sent, early) fit = cc

available :
    IsAvailable echo_enclave broker_address local_client key_settings Fit done.sealed spare_key
      (main_key ∷ [])
unfolding done list_eq main_arn spare_arn txt sealed
available = record {
  place = behind first;
  distinct = (arns_apart, tt);
  return = (main-Returns, tt);
  served = serves _;
  decrypts = decrypts;
}

key_bytes-length : length key_bytes ≡ 32
unfolding key_bytes zeros
key_bytes-length = refl

restore_key_material-Succeeds_example :
    (winner : KmsKeySettings) × Memᴰ winner (main_key ∷ spare_key ∷ [])
    × Succeeds Fit
        (restore_key_material echo_enclave broker_address local_client key_settings)
        ([], lost)
        (record {
          public_key = key_bytes;
          fingerprint = the_fingerprint;
          kms_key_arn = winner.key_arn;
        })
restore_key_material-Succeeds_example =
    restore_key_material-Succeeds echo_enclave broker_address local_client key_settings Fit done
      spare_key (main_key ∷ []) kept key_bytes-length refl available ([], lost) refl
