-- ===== src/Tests/Keys.antt =====
-- Key material: initialisation and restoration against the tape.
use aws_kms_demo.Base.{Bytes, txt, ok, list_eq, ◌≡◌, ◌↔◌, ◌++◌, [], ◌∷◌, refl}
use aws_kms_demo.Frame.RoundTrip.{frame}
use aws_kms_demo.Arn.{sha256_hex}
use aws_kms_demo.Crypto.{encrypt_private_key, decrypt_private_key}
use aws_kms_demo.Crypto.Wrapping.{decrypt-encrypt_private_key}
use aws_kms_demo.KeyMaterial.{RestoredKeyPair, validate_manifest, validate_public_document}
use aws_kms_demo.KeyMaterial.Checks.{
  IsSupported, IsPublicKey, validate_manifest_iff, validate_public_document_sound,
}
use aws_kms_demo.KeyMaterial.Restore.Order.{Ending, Tries, Reports, restore_loop_tries}
use aws_kms_demo.KeyMaterial.Restore.{restore_loop, restore_key_material}
use aws_kms_demo.KeyMaterial.Restore.Sound.{IsRestored, restore_key_material-IsRestored}
use aws_kms_demo.KeyMaterial.Initialize.{document_of, manifest_of, initialize_key_material}
use aws_kms_demo.KeyMaterial.Initialize.Commit.{IsCommitted, initialize_key_material-IsCommitted}
use aws_kms_demo.Config.{Environment}
use aws_kms_demo.Kms.{KmsDataKeyClient, kms_client_from_env}
use aws_kms_demo.Tests.Fixtures.{main_arn, main_key, spare_arn, zero_digest}
use aws_kms_demo.Tests.Machine.{
  init_tape, tape_enclave, broker_address, local_client, key_settings, key_bytes, the_fingerprint,
  the_manifest, plain_crypto, plain_crypto-IsInverse,
}

-- The manifest, the public key, an object that is missing for the first KMS key, then the second
-- one's object and credentials.
abbrev restore_tape : Bytes
restore_tape =
    frame (1 ∷ []) ++ (frame (1 ∷ []) ++ (frame (2 ∷ []) ++ (frame (1 ∷ []) ++ frame (3 ∷ []))))

abbrev spare_pair : RestoredKeyPair
spare_pair = record {
  public_key = key_bytes;
  fingerprint = the_fingerprint;
  kms_key_arn = spare_arn;
}

restore_run :
    restore_key_material tape_enclave broker_address local_client key_settings restore_tape
    ≡ (ok spare_pair, [])
unfolding aws_kms_demo.Sockets.connect_endpoint aws_kms_demo.Sockets.Linux.connect_vsock
    restore_key_material aws_kms_demo.Client.client_load_object aws_kms_demo.Client.request_broker
    aws_kms_demo.Frame.write_json_frame aws_kms_demo.Frame.read_json_frame
    aws_kms_demo.Frame.RoundTrip.slice_read aws_kms_demo.Frame.to_be_bytes
    aws_kms_demo.Frame.from_be_bytes aws_kms_demo.KeyMaterial.validate_manifest
    aws_kms_demo.KeyMaterial.Initialize.manifest_of list_eq txt
    aws_kms_demo.KeyMaterial.verify_sha256 aws_kms_demo.Arn.sha256_hex
    aws_kms_demo.Tests.Fixtures.zero_digest the_fingerprint
    aws_kms_demo.KeyMaterial.validate_public_document aws_kms_demo.Crypto.decode_fixed_base64
    aws_kms_demo.Client.request_broker_credentials aws_kms_demo.Config.Parse.parse_key_spec
    aws_kms_demo.Config.kms_request_settings aws_kms_demo.Crypto.decode_base64
    aws_kms_demo.Crypto.decrypt_private_key aws_kms_demo.Crypto.validate_data_key_len
    aws_kms_demo.KeyMaterial.Restore.restore_attempt
    aws_kms_demo.KeyMaterial.Restore.restore_from_package
    aws_kms_demo.KeyMaterial.Restore.restore_loop aws_kms_demo.Kms.call_decrypt_data_key
    aws_kms_demo.Kms.decrypt_data_key key_bytes main_arn spare_arn aws_kms_demo.Sockets.close_stream
restore_run = refl

restore_key_material-IsRestored_example :
    IsRestored tape_enclave broker_address local_client key_settings spare_pair
restore_key_material-IsRestored_example =
    restore_key_material-IsRestored tape_enclave broker_address local_client key_settings
      restore_tape [] spare_pair restore_run

abbrev new_pair : RestoredKeyPair
new_pair = record { public_key = key_bytes; fingerprint = the_fingerprint; kms_key_arn = [] }

initialize_run :
    initialize_key_material tape_enclave broker_address local_client key_settings init_tape
    ≡ (ok new_pair, [])
unfolding aws_kms_demo.Sockets.connect_endpoint aws_kms_demo.Sockets.Linux.connect_vsock
    initialize_key_material aws_kms_demo.Client.client_load_object
    aws_kms_demo.Client.request_broker aws_kms_demo.Frame.write_json_frame
    aws_kms_demo.Frame.read_json_frame aws_kms_demo.Frame.RoundTrip.slice_read
    aws_kms_demo.Frame.to_be_bytes aws_kms_demo.Frame.from_be_bytes
    aws_kms_demo.KeyMaterial.Initialize.initialize_keys
    aws_kms_demo.KeyMaterial.Initialize.initialize_key aws_kms_demo.Kms.generate_data_key
    aws_kms_demo.Client.request_broker_credentials aws_kms_demo.Config.kms_request_settings
    aws_kms_demo.Config.Parse.parse_key_spec list_eq txt aws_kms_demo.Kms.call_generate_data_key
    aws_kms_demo.Tests.Fixtures.main_arn aws_kms_demo.Arn.kms_key_display_id
    aws_kms_demo.Arn.kms_key_storage_id sha256_hex aws_kms_demo.Client.client_save_object_if_absent
    aws_kms_demo.Crypto.decode_base64 aws_kms_demo.Crypto.decode_fixed_base64 decrypt_private_key
    encrypt_private_key aws_kms_demo.Crypto.validate_data_key_len
    aws_kms_demo.KeyMaterial.Initialize.save_and_verify aws_kms_demo.KeyMaterial.Initialize.seal
    aws_kms_demo.KeyMaterial.Initialize.verify_uploaded_object
    aws_kms_demo.KeyMaterial.Restore.restore_from_package aws_kms_demo.KeyMaterial.verify_sha256
    aws_kms_demo.Kms.call_decrypt_data_key aws_kms_demo.Kms.decrypt_data_key
    aws_kms_demo.Text.Split.split_once_at key_bytes zero_digest spare_arn the_fingerprint
    aws_kms_demo.Sockets.close_stream
initialize_run = refl

initialize_key_material-IsCommitted_example :
    IsCommitted tape_enclave broker_address local_client key_settings init_tape [] new_pair
initialize_key_material-IsCommitted_example =
    initialize_key_material-IsCommitted tape_enclave broker_address local_client key_settings
      init_tape [] new_pair initialize_run

validate_manifest_iff_example : (validate_manifest the_manifest ≡ ok tt) ↔ IsSupported the_manifest
validate_manifest_iff_example = validate_manifest_iff the_manifest

document_run :
    validate_public_document plain_crypto (document_of plain_crypto key_bytes) the_manifest
    ≡ ok key_bytes
unfolding validate_public_document list_eq txt aws_kms_demo.Crypto.decode_fixed_base64
    aws_kms_demo.Crypto.decode_base64 key_bytes sha256_hex zero_digest manifest_of the_fingerprint
document_run = refl

validate_public_document_sound_example :
    IsPublicKey plain_crypto (document_of plain_crypto key_bytes) the_manifest key_bytes
validate_public_document_sound_example =
    validate_public_document_sound plain_crypto (document_of plain_crypto key_bytes) the_manifest
      key_bytes document_run

restore_loop_tries_example :
    (e : Ending) × (w' : Bytes) × Tries tape_enclave broker_address local_client key_settings []
      key_bytes
      (main_key ∷ [])
      []
      e
      w'
    × Reports tape_enclave broker_address local_client key_settings [] key_bytes e w' (
        restore_loop tape_enclave broker_address local_client key_settings [] key_bytes
          (main_key ∷ [])
          []
          [])
restore_loop_tries_example =
    restore_loop_tries tape_enclave broker_address local_client key_settings [] key_bytes
      (main_key ∷ []) [] []

wrap_run : encrypt_private_key plain_crypto key_bytes [] (7 ∷ []) ≡ ok (7 ∷ [])
unfolding encrypt_private_key key_bytes
wrap_run = refl

decrypt-encrypt_private_key_example :
    decrypt_private_key plain_crypto key_bytes [] (7 ∷ []) ≡ ok (7 ∷ [])
decrypt-encrypt_private_key_example =
    decrypt-encrypt_private_key plain_crypto plain_crypto-IsInverse key_bytes [] (7 ∷ []) (7 ∷ [])
      wrap_run
