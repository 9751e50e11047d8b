-- ===== src/Server.antt =====
-- `run_decrypt_server_tee` (src/key_material.rs) and `decrypt_server_tee_main` (src/bin_support.rs).
pub mod Ready
use aws_kms_demo.Base.{
  Str, txt, Result, ok, err, ◌>>=◌, ◌>>◌, reject_if, Option, none, some, Bool, list_eq, List, [],
  ◌∷◌, ◌++◌, if◌then◌else◌,
}
use aws_kms_demo.Base
use aws_kms_demo.Effects.{M, lift, pure}
use aws_kms_demo.Effects
use aws_kms_demo.Endpoint.{Endpoint, parse}
use aws_kms_demo.Arn.{kms_account_from_arn}
use aws_kms_demo.Config.{Environment, unwrap_or}
use aws_kms_demo.Config.Types.{ParentSettings, KmsKeySettings, StartupMode, serve, init_key}
use aws_kms_demo.Client.{request_broker_settings}
use aws_kms_demo.Process.{Process, load_environment}
use aws_kms_demo.Rpc.{Tonic, serve_enclave_rpc}
use aws_kms_demo.Kms.{KmsDataKeyClient, kms_client_from_env}
use aws_kms_demo.KeyMaterial.{Enclave, differ}
use aws_kms_demo.KeyMaterial.Restore.{restore_key_material}
use aws_kms_demo.KeyMaterial.Initialize.{initialize_key_material}

-- The checks on the two keys. A shared account is only warned of.
abbrev pub validate_pair : KmsKeySettings → KmsKeySettings → Result (Unit {0})
validate_pair first second = do
  reject_if (list_eq first.key_arn second.key_arn)
      (txt "primary and backup KMS key ARNs must be different")
  kms_account_from_arn first.key_arn
  kms_account_from_arn second.key_arn
  reject_if (differ first.region second.region) (
      txt
        "primary and backup KMS keys must be in the same region because the enclave uses one KMS vsock-proxy endpoint")
  ok tt

abbrev pub validate_keys : List KmsKeySettings → Result (Unit {0})
validate_keys (first ∷ second ∷ []) = validate_pair first second
validate_keys _ = err (txt "exactly two KMS keys are required")

unfoldable pub validate_kms_configuration : ParentSettings → Result (Unit {0})
validate_kms_configuration s = validate_keys s.kms_keys

module _ {W : Type 0} (tee : Enclave W) (nitro_enclave_feature : Bool) where
  -- The `match` on the mode; what it prints is left out.
  unfoldable pub run_mode :
      StartupMode → Endpoint → KmsDataKeyClient → ParentSettings → M W (Unit {0})
  run_mode init_key endpoint client s =
      Effects.◌>>=◌ (initialize_key_material tee endpoint client s) λ initialized. pure tt
  run_mode serve endpoint client s =
      Effects.◌>>=◌ (restore_key_material tee endpoint client s) λ restored. pure tt

  unfoldable pub run_decrypt_server_tee : Environment → ParentSettings → Endpoint → M W (Unit {0})
  run_decrypt_server_tee env s endpoint = Effects.◌>>=◌ (lift (validate_kms_configuration s)) λ _.
      Effects.◌>>=◌ (lift (kms_client_from_env env nitro_enclave_feature endpoint))
        λ client. run_mode s.startup_mode endpoint client s

  abbrev in_mode : StartupMode → ParentSettings → ParentSettings
  in_mode mode s = record {
    kms_keys = s.kms_keys;
    s3_bucket = s.s3_bucket;
    s3_prefix = s.s3_prefix;
    startup_mode = mode;
    key_spec = s.key_spec;
    number_of_bytes = s.number_of_bytes;
    encryption_context = s.encryption_context;
    grant_tokens = s.grant_tokens;
    dry_run = s.dry_run;
  }

  -- The `match` on the first argument of the command line.
  unfoldable pub with_command : Option Str → ParentSettings → Result ParentSettings
  with_command none s = ok s
  with_command (some command) s =
      if list_eq command (txt "init-key")
      then ok (in_mode init_key s)
      else if list_eq command (txt "serve")
      then ok (in_mode serve s)
      else err (
          txt "unknown decrypt-server-tee command '"
          ++ (command ++ txt "'; expected serve or init-key"))

  -- The variables are read after `load_environment`, which alone changes them.
  module _ (process : Process W) (tonic : Tonic W) where
    unfoldable pub serve_after : StartupMode → Environment → M W (Unit {0})
    serve_after init_key env = pure tt
    serve_after serve env =
        Effects.◌>>=◌
          (lift (
            parse (unwrap_or (env (txt "ENCLAVE_RPC_LISTEN_ENDPOINT")) (txt "tcp:127.0.0.1:7003"))))
          λ endpoint. serve_enclave_rpc tonic endpoint

    unfoldable pub main_with : Option Str → Environment → M W (Unit {0})
    unfolding serve_after
    main_with command env =
        Effects.◌>>=◌
          (lift
            (parse (unwrap_or (env (txt "ENCLAVE_BROKER_ENDPOINT")) (txt "tcp:127.0.0.1:7001"))))
          λ broker_endpoint.
            Effects.◌>>=◌ (request_broker_settings tee.net broker_endpoint) λ loaded.
              Effects.◌>>=◌ (lift (with_command command loaded)) λ s.
                Effects.◌>>=◌ (run_decrypt_server_tee env s broker_endpoint)
                  λ _. serve_after s.startup_mode env

    unfoldable pub decrypt_server_tee_main : Option Str → M W (Unit {0})
    unfolding main_with
    decrypt_server_tee_main command =
        Effects.◌>>=◌ (load_environment process) λ _ w. main_with command (process.vars w) w
