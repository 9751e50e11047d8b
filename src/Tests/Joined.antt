-- ===== src/Tests/Joined.antt =====
-- The enclave and the broker together, on a store in memory.
use aws_kms_demo.Base.{ℕ, ap, Result, true, Bytes, txt, ok, some, none, [], ◌∷◌, ◌≡◌, refl, arith}
use aws_kms_demo.Config.Types.{init_key, save_object_if_absent, saved}
use aws_kms_demo.Text.Number.{pos}
use aws_kms_demo.Crypto.{Crypto}
use aws_kms_demo.S3.Store.{Contents}
use aws_kms_demo.Broker.Target.{IsBelow}
use aws_kms_demo.Sockets.Linux.{file}
use aws_kms_demo.Sockets.{connect_endpoint}
use aws_kms_demo.Client.{
  request_broker, closing, fail_on_error, client_load_object, client_save_object_if_absent,
}
use aws_kms_demo.Kms.Nitro.{Shim, failure}
use aws_kms_demo.Kms.{KmsServices}
use aws_kms_demo.KeyMaterial.{Enclave, RestoredKeyPair, object_key}
use aws_kms_demo.KeyMaterial.Initialize.{document_of, initialize_key_material}
use aws_kms_demo.Loopback.{Wire, network}
use aws_kms_demo.Loopback.Request.{answers, IsAnswered, request_broker-IsAnswered}
use aws_kms_demo.Loopback.Answer.{Fits, request_broker-answers}
use aws_kms_demo.Loopback.Storage.{client_save-holds, client_load-exact}
use aws_kms_demo.Loopback.Publish.{IsPublished, initialize_key_material-IsPublished}
use aws_kms_demo.Tests.Fixtures.{zeros}
use aws_kms_demo.Tests.Machine.{
  broker_address, key_settings, key_bytes, the_fingerprint, tape_enclave, local_client,
}
use aws_kms_demo.Tests.Store.{empty_store}
use aws_kms_demo.Tests.Parent.{one_object}
use aws_kms_demo.Tests.Wire.{wire_peer, wire_peer-IsLawfulPeer}

save_run :
    client_save_object_if_absent
      (network wire_peer)
      broker_address
      (txt "vault")
      (txt "keys/a")
      (1 ∷ [])
      (empty_store, [], [])
    ≡ (ok tt, (one_object, [], []))
unfolding client_save_object_if_absent connect_endpoint aws_kms_demo.Sockets.Linux.connect_vsock
    request_broker network aws_kms_demo.Broker.serve_connection aws_kms_demo.Broker.respond
    aws_kms_demo.Broker.answer_request aws_kms_demo.Broker.run_request aws_kms_demo.Broker.dispatch
    aws_kms_demo.Broker.validate_s3_target aws_kms_demo.Base.list_eq txt
    aws_kms_demo.Text.starts_with aws_kms_demo.S3.save_s3_object_if_absent
    aws_kms_demo.Frame.write_json_frame aws_kms_demo.Frame.read_json_frame
    aws_kms_demo.Frame.to_be_bytes aws_kms_demo.Frame.from_be_bytes
    aws_kms_demo.Frame.RoundTrip.slice_read aws_kms_demo.Sockets.close_stream
save_run = refl

client_save-holds_example :
    (◌≡◌ key_settings.startup_mode init_key)
    × IsBelow (txt "vault") (txt "keys/a") (txt "vault") (txt "keys")
    × (one_object (txt "vault") (txt "keys/a") ≡ some (1 ∷ []))
client_save-holds_example =
    client_save-holds wire_peer (λ w. w) wire_peer-IsLawfulPeer broker_address (txt "vault")
      (txt "keys/a") (1 ∷ []) (empty_store, [], []) (one_object, [], []) save_run

load_run :
    client_load_object
      (network wire_peer)
      broker_address
      (txt "vault")
      (txt "keys/a")
      (one_object, [], [])
    ≡ (ok (some (1 ∷ [])), (one_object, [], []))
unfolding client_load_object connect_endpoint aws_kms_demo.Sockets.Linux.connect_vsock
    request_broker network aws_kms_demo.Broker.serve_connection aws_kms_demo.Broker.respond
    aws_kms_demo.Broker.answer_request aws_kms_demo.Broker.run_request aws_kms_demo.Broker.dispatch
    aws_kms_demo.Broker.validate_s3_target aws_kms_demo.Base.list_eq txt
    aws_kms_demo.Text.starts_with aws_kms_demo.S3.load_s3_object aws_kms_demo.Frame.write_json_frame
    aws_kms_demo.Frame.read_json_frame aws_kms_demo.Frame.to_be_bytes
    aws_kms_demo.Frame.from_be_bytes aws_kms_demo.Frame.RoundTrip.slice_read
    aws_kms_demo.Sockets.close_stream
load_run = refl

client_load-exact_example :
    IsBelow (txt "vault") (txt "keys/a") (txt "vault") (txt "keys")
    × (one_object (txt "vault") (txt "keys/a") ≡ some (1 ∷ []))
client_load-exact_example =
    client_load-exact wire_peer (λ w. w) wire_peer-IsLawfulPeer broker_address (txt "vault")
      (txt "keys/a") (1 ∷ []) (one_object, [], []) (one_object, [], []) load_run

connect_run :
    connect_endpoint wire_peer.os true broker_address (empty_store, [], [])
    ≡ (ok (file (pos 3)), (empty_store, [], []))
unfolding connect_endpoint aws_kms_demo.Sockets.Linux.connect_vsock
    aws_kms_demo.Sockets.close_stream
connect_run = refl

answer_run :
    answers wire_peer
      (save_object_if_absent (txt "vault") (txt "keys/a") (1 ∷ []))
      (empty_store, [], [])
    ≡ (ok saved, (one_object, [], []))
unfolding aws_kms_demo.Broker.respond aws_kms_demo.Broker.answer_request
    aws_kms_demo.Broker.run_request aws_kms_demo.Broker.dispatch
    aws_kms_demo.Broker.validate_s3_target aws_kms_demo.Base.list_eq txt
    aws_kms_demo.Text.starts_with aws_kms_demo.S3.save_s3_object_if_absent
answer_run = refl

request-Fits : Fits wire_peer.requests (save_object_if_absent (txt "vault") (txt "keys/a") (1 ∷ []))
unfolding txt
request-Fits = (_, refl, omega arith)

saved-Fits : Fits wire_peer.responses saved
saved-Fits = (_, refl, omega arith)

saved_answer_run :
    request_broker
      (network wire_peer)
      broker_address
      (save_object_if_absent (txt "vault") (txt "keys/a") (1 ∷ []))
      (empty_store, [], [])
    ≡ (ok saved, (one_object, [], []))
unfolding connect_endpoint aws_kms_demo.Sockets.Linux.connect_vsock request_broker network
    aws_kms_demo.Broker.serve_connection aws_kms_demo.Broker.respond
    aws_kms_demo.Broker.answer_request aws_kms_demo.Broker.run_request aws_kms_demo.Broker.dispatch
    aws_kms_demo.Broker.validate_s3_target aws_kms_demo.Base.list_eq txt
    aws_kms_demo.Text.starts_with aws_kms_demo.S3.save_s3_object_if_absent
    aws_kms_demo.Frame.write_json_frame aws_kms_demo.Frame.read_json_frame
    aws_kms_demo.Frame.to_be_bytes aws_kms_demo.Frame.from_be_bytes
    aws_kms_demo.Frame.RoundTrip.slice_read aws_kms_demo.Sockets.close_stream
saved_answer_run = refl

request_broker-IsAnswered_example :
    IsAnswered wire_peer wire_peer-IsLawfulPeer.host_untouched
      wire_peer-IsLawfulPeer.requests_faithful wire_peer-IsLawfulPeer.responses_faithful
      (λ w. w)
      wire_peer-IsLawfulPeer.sockets_fresh
      broker_address
      (save_object_if_absent (txt "vault") (txt "keys/a") (1 ∷ []))
      (empty_store, [], [])
      saved
      (one_object, [], [])
request_broker-IsAnswered_example =
    request_broker-IsAnswered wire_peer wire_peer-IsLawfulPeer.host_untouched
      wire_peer-IsLawfulPeer.requests_faithful wire_peer-IsLawfulPeer.responses_faithful (λ w. w)
      wire_peer-IsLawfulPeer.sockets_fresh broker_address
      (save_object_if_absent (txt "vault") (txt "keys/a") (1 ∷ [])) (empty_store, [], []) saved
      (one_object, [], []) saved_answer_run

request_broker-answers_example :
    request_broker
      (network wire_peer)
      broker_address
      (save_object_if_absent (txt "vault") (txt "keys/a") (1 ∷ []))
      (empty_store, [], [])
    ≡ closing
        (network wire_peer)
        broker_address
        (file (pos 3))
        (fail_on_error (network wire_peer) broker_address saved (one_object, [], []))
request_broker-answers_example =
    request_broker-answers wire_peer wire_peer-IsLawfulPeer.requests_faithful
      wire_peer-IsLawfulPeer.responses_faithful broker_address
      (save_object_if_absent (txt "vault") (txt "keys/a") (1 ∷ [])) saved (empty_store, [], [])
      empty_store one_object (file (pos 3)) connect_run request-Fits answer_run saved-Fits

abbrev wire_shim : Shim (Wire Contents)
wire_shim = record {
  nkms_generate_data_key = λ access key bits x. (failure [], x);
  nkms_decrypt_data_key = λ access blob context x. (failure [], x);
  context_to_string = λ m. ok [];
}

-- The enclave of the machine, on the wire.
abbrev wire_enclave : Enclave (Wire Contents)
wire_enclave = record {
  net = network wire_peer;
  kms = record {
    generate_data_key = λ client request x. (
      ok (record { plaintext = some key_bytes; ciphertext_blob = some key_bytes; key_id = none }),
      x,
    );
    decrypt = λ client request x. (ok (some key_bytes), x);
    shim = wire_shim;
  };
  crypto = tape_enclave.crypto;
  manifests = tape_enclave.manifests;
  public_documents = tape_enclave.public_documents;
  packages = tape_enclave.packages;
  random_bytes = λ n x. (ok (zeros n), x);
}

abbrev published : Result RestoredKeyPair × Wire Contents
published =
    initialize_key_material wire_enclave broker_address local_client key_settings
      (empty_store, [], [])

abbrev wire_pair : RestoredKeyPair
wire_pair = record { public_key = key_bytes; fingerprint = the_fingerprint; kms_key_arn = [] }

publish_run : published.0 ≡ ok wire_pair
unfolding aws_kms_demo.Sockets.connect_endpoint aws_kms_demo.Sockets.connect_vsock
    aws_kms_demo.Sockets.Linux.connect_vsock aws_kms_demo.Sockets.Linux.with_socket
    aws_kms_demo.Sockets.Linux.connect_socket aws_kms_demo.Sockets.Linux.checked
    aws_kms_demo.Sockets.Linux.fail_closing initialize_key_material
    aws_kms_demo.Client.client_load_object aws_kms_demo.Client.request_broker
    aws_kms_demo.Frame.write_json_frame aws_kms_demo.Frame.read_json_frame
    aws_kms_demo.Frame.RoundTrip.slice_read aws_kms_demo.Frame.to_be_bytes
    aws_kms_demo.Frame.from_be_bytes aws_kms_demo.KeyMaterial.Initialize.initialize_keys
    aws_kms_demo.KeyMaterial.Initialize.initialize_key aws_kms_demo.Kms.generate_data_key
    aws_kms_demo.Client.request_broker_credentials aws_kms_demo.Config.kms_request_settings
    aws_kms_demo.Config.Parse.parse_key_spec aws_kms_demo.Base.list_eq txt
    aws_kms_demo.Kms.call_generate_data_key aws_kms_demo.Tests.Fixtures.main_arn
    aws_kms_demo.Arn.hex aws_kms_demo.Arn.is_safe aws_kms_demo.Arn.kms_key_display_id
    aws_kms_demo.Arn.kms_key_storage_id aws_kms_demo.Arn.sha256_hex
    aws_kms_demo.Client.client_save_object_if_absent aws_kms_demo.Client.fail_on_error
    aws_kms_demo.Crypto.decode_base64 aws_kms_demo.Crypto.decode_fixed_base64
    aws_kms_demo.Crypto.decrypt_private_key aws_kms_demo.Crypto.encrypt_private_key
    aws_kms_demo.Crypto.fixed_bytes aws_kms_demo.Crypto.validate_data_key_len
    aws_kms_demo.Frame.too_long aws_kms_demo.KeyMaterial.Initialize.manifest_of
    aws_kms_demo.KeyMaterial.Initialize.public_key_name
    aws_kms_demo.KeyMaterial.Initialize.relative_key
    aws_kms_demo.KeyMaterial.Initialize.save_and_verify aws_kms_demo.KeyMaterial.Initialize.seal
    aws_kms_demo.KeyMaterial.Initialize.verify_uploaded_object
    aws_kms_demo.KeyMaterial.Restore.restore_from_package aws_kms_demo.KeyMaterial.object_key
    aws_kms_demo.KeyMaterial.verify_sha256 aws_kms_demo.Kms.Nitro.c_string
    aws_kms_demo.Kms.Nitro.data_key_bits aws_kms_demo.Kms.Nitro.key_bits
    aws_kms_demo.Kms.Nitro.native_access aws_kms_demo.Kms.Nitro.native_error
    aws_kms_demo.Kms.Nitro.nitro_decrypt_data_key aws_kms_demo.Kms.Nitro.nitro_generate_data_key
    aws_kms_demo.Kms.Nitro.take_native_buffer aws_kms_demo.Kms.Nitro.validate_common_options
    aws_kms_demo.Kms.call_decrypt_data_key aws_kms_demo.Kms.decrypt_data_key
    aws_kms_demo.Kms.decrypt_request aws_kms_demo.Kms.generate_request
    aws_kms_demo.Kms.local_kms_client aws_kms_demo.Text.Number.to_string
    aws_kms_demo.Text.Split.split_once_at aws_kms_demo.Text.as_bytes
    aws_kms_demo.Text.is_ascii_alphanumeric aws_kms_demo.Text.is_empty
    aws_kms_demo.Text.strip_prefix aws_kms_demo.Tests.Machine.key_bytes
    aws_kms_demo.Tests.Fixtures.zero_digest aws_kms_demo.Tests.Fixtures.spare_arn
    aws_kms_demo.Tests.Machine.the_fingerprint network aws_kms_demo.Loopback.enclave_read
    aws_kms_demo.Loopback.served aws_kms_demo.Broker.serve_connection aws_kms_demo.Broker.respond
    aws_kms_demo.Broker.is_foreign aws_kms_demo.Broker.answer_request
    aws_kms_demo.Broker.run_request aws_kms_demo.Broker.dispatch aws_kms_demo.Broker.or_error
    aws_kms_demo.Broker.validate_s3_target aws_kms_demo.Text.starts_with
    aws_kms_demo.S3.save_s3_object_if_absent aws_kms_demo.S3.load_s3_object
    aws_kms_demo.Client.expect_saved aws_kms_demo.Client.expect_object
    aws_kms_demo.Broker.find_credentials_provider aws_kms_demo.Broker.credentials_of
    aws_kms_demo.Sockets.close_stream
publish_run = refl

initialize_key_material-IsPublished_example :
    (◌≡◌ key_settings.startup_mode init_key)
    × IsBelow
        (txt "vault")
        (object_key (txt "keys") (txt "key_manifest.json"))
        (txt "vault")
        (txt "keys")
    × IsPublished wire_peer
        (λ w. w)
        wire_peer-IsLawfulPeer
        wire_enclave
        refl
        broker_address
        local_client
        key_settings
        wire_pair
        published.1.0
initialize_key_material-IsPublished_example =
    initialize_key_material-IsPublished wire_peer (λ w. w) wire_peer-IsLawfulPeer wire_enclave refl
      broker_address local_client key_settings (empty_store, [], []) published.1 wire_pair
      (ap (λ r. (r, published.1)) publish_run)
