-- ===== src/Tests/Startup.antt =====
-- The start of the enclave's program.
use aws_kms_demo.Base.{none, false, txt, ok, list_eq, ◌≡◌, ◌↔◌, [], refl}
use aws_kms_demo.Frame.RoundTrip.{frame}
use aws_kms_demo.Arn.{sha256_hex}
use aws_kms_demo.Crypto.{encrypt_private_key, decrypt_private_key}
use aws_kms_demo.KeyMaterial.{RestoredKeyPair, validate_manifest, validate_public_document}
use aws_kms_demo.KeyMaterial.Restore.{restore_loop, restore_key_material}
use aws_kms_demo.KeyMaterial.Initialize.{document_of, manifest_of, initialize_key_material}
use aws_kms_demo.Config.{Environment}
use aws_kms_demo.Config.Types.{init_key}
use aws_kms_demo.Kms.{KmsDataKeyClient, kms_client_from_env}
use aws_kms_demo.Server.{validate_kms_configuration, run_decrypt_server_tee}
use aws_kms_demo.Server.Ready.{
  IsConfigured, validate_kms_configuration_iff, Started, run_decrypt_server_tee-Started,
}
use aws_kms_demo.Tests.Fixtures.{main_arn, spare_arn, zero_digest}
use aws_kms_demo.Tests.Machine.{tape_enclave, broker_address, key_settings, key_bytes}
use aws_kms_demo.Tests.Machine.{init_tape}

validate_kms_configuration_iff_example :
    (validate_kms_configuration key_settings ≡ ok tt) ↔ IsConfigured key_settings
validate_kms_configuration_iff_example = validate_kms_configuration_iff key_settings

abbrev no_environment : Environment
no_environment name = none

start_run :
    run_decrypt_server_tee tape_enclave false no_environment key_settings broker_address init_tape
    ≡ (ok tt, [])
unfolding aws_kms_demo.Sockets.connect_endpoint aws_kms_demo.Sockets.Linux.connect_vsock
    run_decrypt_server_tee validate_kms_configuration list_eq main_arn txt spare_arn
    aws_kms_demo.Arn.kms_account_from_arn aws_kms_demo.Arn.kms_region_from_arn
    aws_kms_demo.Text.Split.splitn aws_kms_demo.Text.starts_with aws_kms_demo.Text.Split.split
    kms_client_from_env aws_kms_demo.Config.optional_env aws_kms_demo.Server.run_mode
    initialize_key_material aws_kms_demo.Client.client_load_object
    aws_kms_demo.Client.request_broker aws_kms_demo.Frame.write_json_frame
    aws_kms_demo.Frame.read_json_frame aws_kms_demo.Frame.RoundTrip.slice_read
    aws_kms_demo.Frame.to_be_bytes aws_kms_demo.Frame.from_be_bytes
    aws_kms_demo.KeyMaterial.Initialize.initialize_keys
    aws_kms_demo.KeyMaterial.Initialize.initialize_key aws_kms_demo.Kms.generate_data_key
    aws_kms_demo.Client.request_broker_credentials aws_kms_demo.Config.kms_request_settings
    aws_kms_demo.Config.Parse.parse_key_spec aws_kms_demo.Kms.call_generate_data_key
    aws_kms_demo.KeyMaterial.Initialize.seal aws_kms_demo.Crypto.validate_data_key_len key_bytes
    encrypt_private_key aws_kms_demo.Arn.kms_key_display_id aws_kms_demo.Arn.kms_key_storage_id
    sha256_hex aws_kms_demo.Client.client_save_object_if_absent aws_kms_demo.Crypto.decode_base64
    aws_kms_demo.Crypto.decode_fixed_base64 decrypt_private_key
    aws_kms_demo.KeyMaterial.Initialize.save_and_verify
    aws_kms_demo.KeyMaterial.Initialize.verify_uploaded_object
    aws_kms_demo.KeyMaterial.Restore.restore_from_package aws_kms_demo.KeyMaterial.verify_sha256
    aws_kms_demo.Kms.call_decrypt_data_key aws_kms_demo.Kms.decrypt_data_key
    aws_kms_demo.Text.Split.split_once_at zero_digest aws_kms_demo.Sockets.close_stream
start_run = refl

run_decrypt_server_tee-Started_example :
    IsConfigured key_settings
    × ((client : KmsDataKeyClient) × (kms_client_from_env no_environment false broker_address
          ≡ ok client)
        × Started tape_enclave false broker_address key_settings init_key client init_tape [])
run_decrypt_server_tee-Started_example =
    run_decrypt_server_tee-Started tape_enclave false broker_address key_settings no_environment
      init_tape [] tt start_run
