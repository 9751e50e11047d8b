-- ===== src/Tests/Parent.antt =====
-- The broker's answers, and histories of connections.
use aws_kms_demo.Base.{
  Str, txt, ok, Option, none, some, false, list_eq, list_eq_iff, ◌≡◌, [], ◌∷◌, refl, ok_or,
  if◌then◌else◌,
}
use aws_kms_demo.Config.{Environment, unwrap_or}
use aws_kms_demo.Config.Types.{
  primary, backup, save_object_if_absent, load_object, object, saved, BrokerRequest, BrokerResponse,
}
use aws_kms_demo.Frame.{Codec, Reader, Writer}
use aws_kms_demo.S3.Store.{Contents, update}
use aws_kms_demo.Broker.{
  respond, serve_connection, CredentialsProvider, explicit, default_chain, Providers,
  find_credentials_provider, explicit_kms_credentials_provider,
}
use aws_kms_demo.Broker.Target.{IsBelow}
use aws_kms_demo.Broker.Providers.{credentials_providers, credentials_providers-finds}
use aws_kms_demo.Broker.History.{IsStream, Served, idle, connection}
use aws_kms_demo.Tests.Fixtures.{init_settings}
use aws_kms_demo.Tests.Store.{empty_store, memory_host, memory_host-IsLawfulHost}

abbrev pub one_object : Contents
one_object = update empty_store (txt "vault") (txt "keys/a") (1 ∷ [])

load_run :
    respond memory_host [] init_settings none none
      (ok (load_object (txt "vault") (txt "keys/a")))
      one_object
    ≡ (ok (object (some (1 ∷ []))), one_object)
unfolding respond aws_kms_demo.Broker.answer_request aws_kms_demo.Broker.run_request
    aws_kms_demo.Broker.dispatch aws_kms_demo.Broker.validate_s3_target list_eq txt
    aws_kms_demo.Text.starts_with aws_kms_demo.S3.load_s3_object
load_run = refl

saved_run :
    respond memory_host [] init_settings none none
      (ok (save_object_if_absent (txt "vault") (txt "keys/a") (1 ∷ [])))
      empty_store
    ≡ (ok saved, one_object)
unfolding respond aws_kms_demo.Broker.answer_request aws_kms_demo.Broker.run_request
    aws_kms_demo.Broker.dispatch aws_kms_demo.Broker.validate_s3_target list_eq txt
    aws_kms_demo.Text.starts_with aws_kms_demo.S3.save_s3_object_if_absent
saved_run = refl

-- Requests to save one object, over a stream that holds nothing else.
abbrev pub saves : Codec BrokerRequest
saves = record {
  to_vec = λ r. ok [];
  from_slice = λ b. ok (save_object_if_absent (txt "vault") (txt "keys/b") (2 ∷ []));
}

abbrev pub answers : Codec BrokerResponse
answers = record { to_vec = λ r. ok []; from_slice = λ b. ok saved }

abbrev pub empty_reader : Reader Contents
empty_reader = record { read_exact = λ n w. (ok (0 ∷ 0 ∷ 0 ∷ 0 ∷ []), w) }

abbrev pub null_writer : Writer Contents
null_writer = record { write_all = λ b w. (ok tt, w); flush = λ w. (ok tt, w) }

pub quiet : IsStream (λ w. w) empty_reader null_writer
quiet = record { reads = λ n w. refl; writes = λ b w. refl; flushes = λ w. refl }

abbrev pub two_objects : Contents
two_objects = update one_object (txt "vault") (txt "keys/b") (2 ∷ [])

one_connection :
    Served memory_host
      (λ w. w)
      memory_host-IsLawfulHost
      []
      init_settings
      saves
      answers
      none
      one_object
      two_objects
unfolding serve_connection respond aws_kms_demo.Frame.read_json_frame
    aws_kms_demo.Frame.from_be_bytes aws_kms_demo.Broker.answer_request
    aws_kms_demo.Broker.run_request aws_kms_demo.Broker.dispatch
    aws_kms_demo.Broker.validate_s3_target list_eq txt aws_kms_demo.Text.starts_with
    aws_kms_demo.S3.save_s3_object_if_absent aws_kms_demo.Frame.write_json_frame
one_connection = connection {reader = empty_reader} {writer = null_writer} none quiet idle

one_object_run : one_object (txt "vault") (txt "keys/a") ≡ some (1 ∷ [])
unfolding list_eq txt
one_object_run = refl

other_bucket : list_eq (txt "other") (txt "vault") ≡ false
unfolding list_eq txt
other_bucket = refl

not_below : IsBelow (txt "other") (txt "keys/b") (txt "vault") (txt "keys") → ⊥
not_below (same, rest) = cc (other_bucket, (list_eq_iff (txt "other") (txt "vault")).1 same)

abbrev bare_environment : Environment
bare_environment name =
    if list_eq name (txt "KMS_BACKUP_ACCESS_KEY_ID")
    then some (txt "id")
    else if list_eq name (txt "KMS_BACKUP_SECRET_ACCESS_KEY")
    then some (txt "secret")
    else none

explicit_run :
    explicit_kms_credentials_provider bare_environment (txt "KMS_BACKUP")
    ≡ ok (
        some (
          explicit (record {
            access_key_id = txt "id";
            secret_access_key = txt "secret";
            session_token = none;
            expiry = none;
          })))
unfolding explicit_kms_credentials_provider aws_kms_demo.Config.optional_env list_eq txt
    aws_kms_demo.Text.is_empty aws_kms_demo.Text.trim
explicit_run = refl

abbrev bare_providers : Providers
bare_providers =
    (primary, some default_chain)
    ∷ (
      backup,
      some (
          explicit (record {
            access_key_id = txt "id";
            secret_access_key = txt "secret";
            session_token = none;
            expiry = none;
          })),
    )
    ∷ []

providers_run : credentials_providers bare_environment default_chain ≡ ok bare_providers
unfolding credentials_providers explicit_kms_credentials_provider aws_kms_demo.Config.optional_env
    list_eq txt aws_kms_demo.Text.is_empty aws_kms_demo.Text.trim
providers_run = refl

credentials_providers-finds_example :
    (first : Option CredentialsProvider) × (second : Option CredentialsProvider) × (message : Str)
    × (explicit_kms_credentials_provider bare_environment (txt "KMS_PRIMARY") ≡ ok first)
    × (explicit_kms_credentials_provider bare_environment (txt "KMS_BACKUP") ≡ ok second)
    × (find_credentials_provider bare_providers primary ≡ ok (unwrap_or first default_chain))
    × (find_credentials_provider bare_providers backup ≡ ok_or second message)
credentials_providers-finds_example =
    credentials_providers-finds bare_environment default_chain bare_providers providers_run
