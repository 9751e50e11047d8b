-- ===== src/Tests/Runs.antt =====
-- What the enclave gets over a network that echoes, and what theorems take of that.
use aws_kms_demo.Base.{
  Str, Bytes, txt, ok, err, ok-injective, ◌++◌, sym, ap, ◌∙◌, some, none, [], ◌∷◌, ◌≡◌, refl,
  list_eq,
}
use aws_kms_demo.Arn.{sha256_hex}
use aws_kms_demo.Client.{client_load_object, client_save_object_if_absent}
use aws_kms_demo.Kms.{decrypt_data_key}
use aws_kms_demo.KeyMaterial.Initialize.Upload.{Uploaded}
use aws_kms_demo.KeyMaterial.Restore.{restore_attempt}
use aws_kms_demo.KeyMaterial.Restore.Again.{Serves, DecryptsAgain}
use aws_kms_demo.Tests.Fixtures.{main_key, spare_key, zero_digest}
use aws_kms_demo.Tests.Machine.{
  broker_address, key_settings, local_client, key_bytes, the_fingerprint,
}
use aws_kms_demo.Tests.Echo.{Echo, early, begun, lost, echo_network, echo_enclave}

pub load_any :
    (bucket key : Str) (sent : Bytes)
    → client_load_object echo_network broker_address bucket key (sent, begun)
      ≡ (ok (some []), (1 ∷ [], begun))
unfolding aws_kms_demo.Sockets.connect_endpoint aws_kms_demo.Sockets.Linux.connect_vsock
    aws_kms_demo.Client.client_load_object aws_kms_demo.Client.request_broker
    aws_kms_demo.Frame.write_json_frame aws_kms_demo.Frame.read_json_frame
    aws_kms_demo.Frame.to_be_bytes aws_kms_demo.Frame.from_be_bytes
    aws_kms_demo.Sockets.close_stream
load_any bucket key sent = refl

pub load_none :
    (bucket key : Str) (sent : Bytes)
    → client_load_object echo_network broker_address bucket key (sent, early)
      ≡ (ok none, (1 ∷ [], early))
unfolding aws_kms_demo.Sockets.connect_endpoint aws_kms_demo.Sockets.Linux.connect_vsock
    aws_kms_demo.Client.client_load_object aws_kms_demo.Client.request_broker
    aws_kms_demo.Frame.write_json_frame aws_kms_demo.Frame.read_json_frame
    aws_kms_demo.Frame.to_be_bytes aws_kms_demo.Frame.from_be_bytes
    aws_kms_demo.Sockets.close_stream
load_none bucket key sent = refl

pub save_any :
    (bucket key : Str) (body sent : Bytes)
    → client_save_object_if_absent echo_network broker_address bucket key body (sent, begun)
      ≡ (ok tt, (0 ∷ [], begun))
unfolding aws_kms_demo.Sockets.connect_endpoint aws_kms_demo.Sockets.Linux.connect_vsock
    aws_kms_demo.Client.request_broker aws_kms_demo.Frame.write_json_frame
    aws_kms_demo.Frame.read_json_frame aws_kms_demo.Frame.to_be_bytes
    aws_kms_demo.Frame.from_be_bytes aws_kms_demo.Client.client_save_object_if_absent
    aws_kms_demo.Sockets.close_stream
save_any bucket key body sent = refl

pub decrypt_main :
    (blob sent : Bytes)
    → decrypt_data_key echo_enclave.kms echo_network local_client key_settings main_key blob
        (sent, begun)
      ≡ (ok key_bytes, (3 ∷ [], begun))
unfolding aws_kms_demo.Sockets.connect_endpoint aws_kms_demo.Sockets.Linux.connect_vsock
    aws_kms_demo.Client.request_broker aws_kms_demo.Frame.write_json_frame
    aws_kms_demo.Frame.read_json_frame aws_kms_demo.Frame.to_be_bytes
    aws_kms_demo.Frame.from_be_bytes aws_kms_demo.Client.request_broker_credentials list_eq txt
    aws_kms_demo.Config.kms_request_settings aws_kms_demo.Config.Parse.parse_key_spec
    aws_kms_demo.Kms.call_decrypt_data_key aws_kms_demo.Kms.decrypt_data_key
    aws_kms_demo.Sockets.close_stream
decrypt_main blob sent = refl

pub decrypt_spare :
    (blob sent : Bytes)
    → decrypt_data_key echo_enclave.kms echo_network local_client key_settings spare_key blob
        (sent, begun)
      ≡ (ok key_bytes, (3 ∷ [], begun))
unfolding aws_kms_demo.Sockets.connect_endpoint aws_kms_demo.Sockets.Linux.connect_vsock
    aws_kms_demo.Client.request_broker aws_kms_demo.Frame.write_json_frame
    aws_kms_demo.Frame.read_json_frame aws_kms_demo.Frame.to_be_bytes
    aws_kms_demo.Frame.from_be_bytes aws_kms_demo.Client.request_broker_credentials list_eq txt
    aws_kms_demo.Config.kms_request_settings aws_kms_demo.Config.Parse.parse_key_spec
    aws_kms_demo.Kms.call_decrypt_data_key aws_kms_demo.Kms.decrypt_data_key
    aws_kms_demo.Sockets.close_stream
decrypt_spare blob sent = refl

decrypt_spare_lost :
    (blob sent : Bytes)
    → decrypt_data_key echo_enclave.kms echo_network local_client key_settings spare_key blob
        (sent, lost)
      ≡ (ok key_bytes, (3 ∷ [], lost))
unfolding aws_kms_demo.Sockets.connect_endpoint aws_kms_demo.Sockets.Linux.connect_vsock
    aws_kms_demo.Client.request_broker aws_kms_demo.Frame.write_json_frame
    aws_kms_demo.Frame.read_json_frame aws_kms_demo.Frame.to_be_bytes
    aws_kms_demo.Frame.from_be_bytes aws_kms_demo.Client.request_broker_credentials list_eq txt
    aws_kms_demo.Config.kms_request_settings aws_kms_demo.Config.Parse.parse_key_spec
    aws_kms_demo.Kms.call_decrypt_data_key aws_kms_demo.Kms.decrypt_data_key
    aws_kms_demo.Sockets.close_stream aws_kms_demo.Tests.Fixtures.spare_arn
    aws_kms_demo.Tests.Fixtures.main_arn
decrypt_spare_lost blob sent = refl

-- The attempt with the main key fails once that is lost.
pub main_fails :
    (sent name : Str)
    → restore_attempt echo_enclave broker_address local_client key_settings main_key
        (record { kms_key_arn = main_key.key_arn; object_key = name; sha256 = the_fingerprint })
        key_bytes
        (sent, lost)
      ≡ (err (txt "disabled"), (3 ∷ [], lost))
unfolding aws_kms_demo.Sockets.connect_endpoint aws_kms_demo.Sockets.Linux.connect_vsock
    aws_kms_demo.Client.request_broker aws_kms_demo.Frame.write_json_frame
    aws_kms_demo.Frame.read_json_frame aws_kms_demo.Frame.to_be_bytes
    aws_kms_demo.Frame.from_be_bytes aws_kms_demo.Client.request_broker_credentials list_eq txt
    aws_kms_demo.Config.kms_request_settings aws_kms_demo.Config.Parse.parse_key_spec
    aws_kms_demo.Kms.call_decrypt_data_key aws_kms_demo.Kms.decrypt_data_key
    aws_kms_demo.Sockets.close_stream restore_attempt client_load_object
    aws_kms_demo.KeyMaterial.verify_sha256 sha256_hex zero_digest the_fingerprint
    aws_kms_demo.KeyMaterial.Restore.restore_from_package aws_kms_demo.Crypto.decode_base64
    aws_kms_demo.Crypto.decode_fixed_base64 aws_kms_demo.Tests.Fixtures.main_arn
main_fails sent name = refl

load_lost :
    (bucket key : Str) (sent : Bytes)
    → client_load_object echo_network broker_address bucket key (sent, lost)
      ≡ (ok (some []), (1 ∷ [], lost))
unfolding aws_kms_demo.Sockets.connect_endpoint aws_kms_demo.Sockets.Linux.connect_vsock
    aws_kms_demo.Client.client_load_object aws_kms_demo.Client.request_broker
    aws_kms_demo.Frame.write_json_frame aws_kms_demo.Frame.read_json_frame
    aws_kms_demo.Frame.to_be_bytes aws_kms_demo.Frame.from_be_bytes
    aws_kms_demo.Sockets.close_stream
load_lost bucket key sent = refl

abbrev pub Fit : Echo → Type 0
Fit x = x.1 ≡ lost

pub serves : (key : Str) → Serves echo_enclave broker_address local_client key_settings Fit key []
serves key (sent, lost) fit = ((1 ∷ [], lost), load_lost (txt "vault") key sent, refl)
serves key (sent, begun) fit = cc
serves key (sent, early) fit = cc

decrypt_early :
    (blob sent : Bytes)
    → (decrypt_data_key echo_enclave.kms echo_network local_client key_settings spare_key blob
        (sent, early)).0
      ≡ err (txt "unexpected enclave-broker response: " ++ txt "response")
unfolding aws_kms_demo.Sockets.connect_endpoint aws_kms_demo.Sockets.Linux.connect_vsock
    aws_kms_demo.Client.request_broker aws_kms_demo.Frame.write_json_frame
    aws_kms_demo.Frame.read_json_frame aws_kms_demo.Frame.to_be_bytes
    aws_kms_demo.Frame.from_be_bytes aws_kms_demo.Client.request_broker_credentials
    aws_kms_demo.Kms.decrypt_data_key aws_kms_demo.Sockets.close_stream
decrypt_early blob sent = refl

gives_key :
    (blob data_key : Bytes) (before after : Echo)
    → decrypt_data_key echo_enclave.kms echo_network local_client key_settings spare_key blob before
      ≡ (ok data_key, after)
    → key_bytes ≡ data_key
gives_key blob data_key (sent, begun) after once =
    ok-injective key_bytes data_key (ap (λ r. r.0) (sym (decrypt_spare blob sent) ∙ once))
gives_key blob data_key (sent, lost) after once =
    ok-injective key_bytes data_key (ap (λ r. r.0) (sym (decrypt_spare_lost blob sent) ∙ once))
gives_key blob data_key (sent, early) after once =
    let failed = sym (decrypt_early blob sent) ∙ ap (λ r. r.0) once in absurd (cc)

pub decrypts : DecryptsAgain echo_enclave broker_address local_client key_settings Fit spare_key
decrypts blob data_key before after once (sent, lost) fit = (
  (3 ∷ [], lost),
  decrypt_spare_lost blob sent
      ∙ ap (λ k. (ok k, (3 ∷ [], lost))) (gives_key blob data_key before after once),
  refl,
)
decrypts blob data_key before after once (sent, begun) fit = cc
decrypts blob data_key before after once (sent, early) fit = cc

pub uploaded :
    (key : Str)
    → Uploaded echo_enclave broker_address local_client key_settings key [] the_fingerprint
unfolding the_fingerprint sha256_hex zero_digest
uploaded key = record {
  before = ([], begun);
  between = (0 ∷ [], begun);
  after = (1 ∷ [], begun);
  save = save_any (txt "vault") key [] [];
  loaded = [];
  load = load_any (txt "vault") key (0 ∷ []);
  intact = refl;
}
