-- ===== src/Tests/Parsing.antt =====
-- Configuration and names (src/lib.rs, src/key_material.rs).
use aws_kms_demo.Base.{
  ◌∷◌, ◌++◌, Str, txt, ok, err, none, some, list_eq, ◌≡◌, ◌≢◌, ◌↔◌, [], refl, Returns, All,
}
use aws_kms_demo.Endpoint.{vsock, parse}
use aws_kms_demo.Endpoint.Laws.{Denotes, parse_iff}
use aws_kms_demo.Arn.{
  kms_region_from_arn, kms_account_from_arn, kms_key_display_id, kms_key_storage_id,
}
use aws_kms_demo.Arn.Parts.{IsArn, kms_region_from_arn_iff, kms_account_from_arn_iff}
use aws_kms_demo.Arn.Naming.{kms_key_storage_id_sound, kms_key_storage_id-Returns, IsStorageId}
use aws_kms_demo.Config.{from_env, optional_env}
use aws_kms_demo.Config.Parse.{normalize_s3_prefix, parse_csv}
use aws_kms_demo.Config.Prefix.{IsPrefixNormal, IsSlash, normalize_s3_prefix_sound}
use aws_kms_demo.Config.Loaded.{IsLoaded, from_env-IsLoaded}
use aws_kms_demo.Broker.{validate_s3_target}
use aws_kms_demo.Broker.Target.{IsBelow, validate_s3_target_iff}
use aws_kms_demo.Text.Number.{ℤ, pos}
use aws_kms_demo.Kms.Nitro.{GeneratedDataKey, key_bits, nitro_generate_data_key}
use aws_kms_demo.Kms.Nitro.Options.{nitro_generate_data_key-number_of_bytes}
use aws_kms_demo.Tests.Machine.{idle_shim, some_credentials}
use aws_kms_demo.Config.Types.{StrMap}
use aws_kms_demo.Config.Parse.{parse_encryption_context}
use aws_kms_demo.Config.Context.{get, LastEntry, parse_encryption_context-get}
use aws_kms_demo.Text.Split.{split}
use aws_kms_demo.Config.Secrets.{debug_fields, debug_fields-redacts}
use aws_kms_demo.Config.Types.{AwsCredentials}
use aws_kms_demo.Tests.Fixtures.{
  main_arn, sized_environment, sized_settings, zero_digest, zero_digest-IsDigest,
}

parse_vsock_run : parse (txt "vsock:3:5005") ≡ ok (vsock 3 5005)
unfolding parse txt aws_kms_demo.Text.strip_prefix aws_kms_demo.Text.Split.split_once
    aws_kms_demo.Text.Number.parse_u32
parse_vsock_run = refl

region_run : kms_region_from_arn main_arn ≡ ok (txt "eu-west-1")
unfolding kms_region_from_arn main_arn txt aws_kms_demo.Text.Split.splitn list_eq
    aws_kms_demo.Text.is_empty aws_kms_demo.Text.starts_with
region_run = refl

display_run : kms_key_display_id main_arn ≡ ok (txt "1b2c3d4e")
unfolding kms_key_display_id main_arn txt aws_kms_demo.Text.Split.split_once_at
display_run = refl

from_env_run : from_env sized_environment ≡ ok sized_settings
unfolding from_env optional_env main_arn txt list_eq aws_kms_demo.Text.is_empty
    aws_kms_demo.Text.trim aws_kms_demo.Config.Parse.parse_number_of_bytes
    aws_kms_demo.Text.Number.parse_i32 aws_kms_demo.Config.required_env
    aws_kms_demo.Tests.Fixtures.spare_arn aws_kms_demo.Config.from_arn kms_region_from_arn
    aws_kms_demo.Text.Split.splitn aws_kms_demo.Text.starts_with
    aws_kms_demo.Config.Parse.normalize_s3_prefix aws_kms_demo.Config.Parse.is_slash
    aws_kms_demo.Config.Parse.has_parent aws_kms_demo.Text.Split.split
from_env_run = refl

parse_iff_example :
    (parse (txt "vsock:3:5005") ≡ ok (vsock 3 5005)) ↔ Denotes (txt "vsock:3:5005") (vsock 3 5005)
parse_iff_example = parse_iff (txt "vsock:3:5005") (vsock 3 5005)

kms_region_from_arn_iff_example : (kms_region_from_arn main_arn ≡ ok (txt "eu-west-1")) ↔ (
    (partition : Str) × (account : Str) × (id : Str) × IsArn main_arn partition
      (txt "eu-west-1")
      account
      id)
kms_region_from_arn_iff_example = kms_region_from_arn_iff main_arn (txt "eu-west-1")

kms_account_from_arn_iff_example : (kms_account_from_arn main_arn ≡ ok (txt "111")) ↔ (
    (partition : Str) × (region : Str) × (id : Str) × IsArn main_arn partition region
      (txt "111")
      id)
kms_account_from_arn_iff_example = kms_account_from_arn_iff main_arn (txt "111")

storage_run : kms_key_storage_id zero_digest main_arn ≡ ok (txt "1b2c3d4e-000000000000")
unfolding kms_key_storage_id kms_key_display_id main_arn zero_digest txt
    aws_kms_demo.Text.Split.split_once_at aws_kms_demo.Arn.sha256_hex
storage_run = refl

kms_key_storage_id_sound_example : IsStorageId main_arn (txt "1b2c3d4e-000000000000")
kms_key_storage_id_sound_example =
    kms_key_storage_id_sound zero_digest zero_digest-IsDigest main_arn (txt "1b2c3d4e-000000000000")
      storage_run

kms_key_storage_id-Returns_example : Returns (kms_key_storage_id zero_digest main_arn)
kms_key_storage_id-Returns_example =
    kms_key_storage_id-Returns zero_digest zero_digest-IsDigest main_arn

prefix_run : normalize_s3_prefix (txt "/keys/a/") ≡ ok (txt "keys/a")
unfolding normalize_s3_prefix txt aws_kms_demo.Text.is_empty aws_kms_demo.Text.trim_matches
    aws_kms_demo.Config.Parse.is_slash aws_kms_demo.Config.Parse.has_parent
    aws_kms_demo.Text.Split.split list_eq
prefix_run = refl

prefix_refused :
    normalize_s3_prefix (txt "keys/../a")
    ≡ err (txt "S3_PREFIX must not contain '..' path components")
unfolding normalize_s3_prefix txt aws_kms_demo.Text.is_empty aws_kms_demo.Text.trim_matches
    aws_kms_demo.Config.Parse.is_slash aws_kms_demo.Config.Parse.has_parent
    aws_kms_demo.Text.Split.split list_eq
prefix_refused = refl

normalize_s3_prefix_sound_example :
    IsPrefixNormal (txt "keys/a")
    × ((v : Str) × (w : Str) × (txt "/keys/a/" ≡ v ++ (txt "keys/a" ++ w))
        × All IsSlash v
        × All IsSlash w)
normalize_s3_prefix_sound_example =
    normalize_s3_prefix_sound (txt "/keys/a/") (txt "keys/a") prefix_run

from_env-IsLoaded_example : IsLoaded sized_settings
from_env-IsLoaded_example = from_env-IsLoaded sized_environment sized_settings from_env_run

validate_s3_target_iff_example :
    (validate_s3_target (txt "vault") (txt "keys/a") (txt "vault") (txt "keys") ≡ ok tt)
    ↔ IsBelow (txt "vault") (txt "keys/a") (txt "vault") (txt "keys")
validate_s3_target_iff_example =
    validate_s3_target_iff (txt "vault") (txt "keys/a") (txt "vault") (txt "keys")

bits_run : key_bits (some (txt "AES_256")) none ≡ ok 256
unfolding key_bits list_eq txt
bits_run = refl

abbrev no_key : GeneratedDataKey
no_key = record { plaintext_data_key = []; encrypted_data_key = []; kms_key_id = [] }

nitro_generate_data_key-number_of_bytes_example :
    nitro_generate_data_key idle_shim 3 8000 sized_settings some_credentials main_arn []
    ≢ (ok no_key, [])
nitro_generate_data_key-number_of_bytes_example =
    nitro_generate_data_key-number_of_bytes idle_shim 3 8000 sized_environment sized_settings
      (pos 32) some_credentials main_arn [] [] no_key from_env_run refl

abbrev context_text : Str
context_text = txt "a=1, b = 2,a=3"

abbrev context_map : StrMap
context_map = (txt "a", txt "3") ∷ (txt "b", txt "2") ∷ []

context_run : parse_encryption_context context_text ≡ ok context_map
unfolding parse_encryption_context parse_csv aws_kms_demo.Text.Split.split txt
    aws_kms_demo.Text.is_empty aws_kms_demo.Text.trim aws_kms_demo.Text.Split.split_once
    aws_kms_demo.Config.Parse.insert list_eq
context_run = refl

parse_encryption_context-get_example :
    (get (txt "a") context_map ≡ some (txt "3"))
    ↔ LastEntry (txt "a") (split b',' context_text) (txt "3")
parse_encryption_context-get_example =
    parse_encryption_context-get context_text (txt "a") (txt "3") context_map context_run

abbrev other_credentials : AwsCredentials
other_credentials = record {
  region = txt "eu-west-1";
  access_key_id = txt "other id";
  secret_access_key = txt "other secret";
  session_token = none;
  expires_at_epoch_seconds = none;
}

debug_fields-redacts_example : debug_fields some_credentials ≡ debug_fields other_credentials
debug_fields-redacts_example =
    debug_fields-redacts some_credentials other_credentials refl refl refl
