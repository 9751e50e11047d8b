-- ===== src/Tests/Machine.antt =====
-- An enclave whose broker is a tape of response frames, with simple stand-ins for the crates.
use aws_kms_demo.Tests.Sockets.{still_os}
use aws_kms_demo.Base.{
  true, Str, Bytes, txt, Result, ok, err, none, some, ◌≡◌, refl, if◌then◌else◌, ◌==◌, [], ◌∷◌, ◌++◌,
}
use aws_kms_demo.Endpoint.{Endpoint, vsock}
use aws_kms_demo.Arn.{sha256_hex}
use aws_kms_demo.Config.Types.{
  ParentSettings, AwsCredentials, init_key, BrokerResponse, aws_credentials, object, saved,
}
use aws_kms_demo.Frame.{Writer}
use aws_kms_demo.Frame.RoundTrip.{frame, slice_reader}
use aws_kms_demo.Crypto.{Crypto}
use aws_kms_demo.Crypto.Wrapping.{IsInverse}
use aws_kms_demo.Client.{Network}
use aws_kms_demo.Kms.{KmsServices, KmsDataKeyClient, local}
use aws_kms_demo.Kms.Nitro.{Shim, failure}
use aws_kms_demo.KeyMaterial.{Enclave, KeyManifest, RecoveryPackage}
use aws_kms_demo.KeyMaterial.Initialize.{document_of, manifest_of}
use aws_kms_demo.Tests.Fixtures.{zeros, zero_digest, main_key, spare_key, main_arn, spare_arn}

-- The world is the input stream of the enclave's connections.
abbrev deaf : Writer Bytes
deaf = record { write_all = λ bytes w. (ok tt, w); flush = λ w. (ok tt, w) }

abbrev pub some_credentials : AwsCredentials
some_credentials = record {
  region = txt "eu-west-1";
  access_key_id = txt "id";
  secret_access_key = txt "secret";
  session_token = none;
  expires_at_epoch_seconds = none;
}

-- The first byte names the response.
abbrev response_of : Bytes → Result BrokerResponse
response_of [] = err (txt "no response")
response_of (kind ∷ body) =
    if kind == 0
    then ok saved
    else if kind == 1
    then ok (object (some body))
    else if kind == 2
    then ok (object none)
    else ok (aws_credentials some_credentials)

abbrev pub tape_network : Network Bytes
tape_network = record {
  os = still_os;
  target_os_linux = true;
  writer = λ stream. deaf;
  reader = λ stream. slice_reader;
  requests = record { to_vec = λ r. ok []; from_slice = λ b. err (txt "not read") };
  responses = record { to_vec = λ r. ok []; from_slice = response_of };
  debug = λ r. txt "response";
}

-- Base64 is left out, and encryption is.
abbrev pub plain_crypto : Crypto
plain_crypto = record {
  sha256 = zero_digest;
  encode = λ b. b;
  decode = λ s. ok s;
  encrypt = λ c key nonce text. ok text;
  decrypt = λ c key nonce text. ok text;
  public_key = λ private_key. private_key;
}

pub plain_crypto-IsInverse : IsInverse plain_crypto
plain_crypto-IsInverse = record {
  decode-encode = λ b. refl;
  decrypt-encrypt = λ a key nonce text sealed h. go text sealed h;
}
  where
    go : (text sealed : Bytes) → ok text ≡ ok sealed → ok sealed ≡ ok text
    go text sealed h = cc

abbrev pub idle_shim : Shim Bytes
idle_shim = record {
  nkms_generate_data_key = λ access key bits w. (failure [], w);
  nkms_decrypt_data_key = λ access blob context w. (failure [], w);
  context_to_string = λ m. ok [];
}

unfoldable pub key_bytes : Bytes
unfolding zeros
key_bytes = zeros 32

abbrev pub willing_services : KmsServices Bytes
willing_services = record {
  generate_data_key = λ client request w. (
    ok (record { plaintext = some key_bytes; ciphertext_blob = some key_bytes; key_id = none }),
    w,
  );
  decrypt = λ client request w. (ok (some key_bytes), w);
  shim = idle_shim;
}

unfoldable pub the_fingerprint : Str
the_fingerprint = sha256_hex zero_digest []

abbrev pub the_package : RecoveryPackage
the_package = record {
  version = 2;
  encrypted_data_key_base64 = key_bytes;
  private_key_nonce_base64 = 0 ∷ 0 ∷ 0 ∷ 0 ∷ 0 ∷ 0 ∷ 0 ∷ 0 ∷ 0 ∷ 0 ∷ 0 ∷ 0 ∷ [];
  encrypted_private_key_base64 = key_bytes;
}

abbrev pub the_manifest : KeyManifest
the_manifest =
    manifest_of the_fingerprint (record { object_key = txt "p"; sha256 = the_fingerprint })
      (record { kms_key_arn = main_arn; object_key = txt "a"; sha256 = the_fingerprint }
        ∷ record { kms_key_arn = spare_arn; object_key = txt "b"; sha256 = the_fingerprint }
        ∷ [])

abbrev pub tape_enclave : Enclave Bytes
tape_enclave = record {
  net = tape_network;
  kms = willing_services;
  crypto = plain_crypto;
  manifests = record { to_vec = λ m. ok []; from_slice = λ b. ok the_manifest };
  public_documents = record {
    to_vec = λ d. ok [];
    from_slice = λ b. ok (document_of plain_crypto key_bytes);
  };
  packages = record { to_vec = λ p. ok []; from_slice = λ b. ok the_package };
  random_bytes = λ n w. (ok (zeros n), w);
}

abbrev pub broker_address : Endpoint
broker_address = vsock 3 5005

abbrev pub local_client : KmsDataKeyClient
local_client = local broker_address

abbrev pub key_settings : ParentSettings
key_settings = record {
  kms_keys = main_key ∷ spare_key ∷ [];
  s3_bucket = txt "vault";
  s3_prefix = txt "keys";
  startup_mode = init_key;
  key_spec = some (txt "AES_256");
  number_of_bytes = none;
  encryption_context = none;
  grant_tokens = [];
  dry_run = none;
}

-- No manifest; for each KMS key credentials, a save, the object that was saved, and credentials;
-- then the public key saved and read back, and the manifest saved.
abbrev key_tape : Bytes
key_tape = frame (3 ∷ []) ++ (frame (0 ∷ []) ++ (frame (1 ∷ []) ++ frame (3 ∷ [])))

abbrev pub init_tape : Bytes
init_tape =
    frame (2 ∷ [])
    ++ (key_tape ++ (key_tape ++ (frame (0 ∷ []) ++ (frame (1 ∷ []) ++ frame (0 ∷ [])))))
