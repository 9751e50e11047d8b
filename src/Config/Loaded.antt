-- ===== src/Config/Loaded.antt =====
-- What a successful `ParentSettings::from_env` guarantees (src/lib.rs).
use aws_kms_demo.Base.{
  ℕ, Str, txt, true, false, ◌&&◌, Option, none, some, [], ◌∷◌, ◌++◌, ◌≡◌, ◌≢◌, refl, subst, ok,
  >>=-eq-ok, ok-injective, reject_if, reject_if-eq-ok, ok_or, traverse, arith, ◌⊎◌,
}
use aws_kms_demo.Text.Number.{ℤ, pos, negsuc, parse_i32}
use aws_kms_demo.Arn.{kms_region_from_arn}
use aws_kms_demo.Config.Types.{KmsSlot, primary, backup, KmsKeySettings, ParentSettings, serve}
use aws_kms_demo.Config.Parse.{
  normalize_s3_prefix, parse_number_of_bytes, parse_startup_mode, parse_encryption_context,
  parse_bool, is_pos,
}
use aws_kms_demo.Config.Prefix.{IsPrefixNormal, normalize_s3_prefix_sound}
use aws_kms_demo.Config.{
  Environment, optional_env, required_env, from_env, from_arn, or_else, is_some, unwrap_or,
  csv_or_empty, default_s3_prefix,
}

-- The settings of one key, as `from_arn` makes them.
pub record IsKey (slot : KmsSlot) (key : KmsKeySettings) : Type 0 where
  pub right_slot : key.slot ≡ slot
  pub right_region : kms_region_from_arn key.key_arn ≡ ok key.region

from_arn-IsKey :
    (slot : KmsSlot) (arn : Str) (key : KmsKeySettings)
    → from_arn slot arn ≡ ok key
    → IsKey slot key × (key.key_arn ≡ arn)
unfolding from_arn
from_arn-IsKey slot arn key h =
    let (region, found, h₁) = >>=-eq-ok (kms_region_from_arn arn) _ h in
    let made : record { slot = slot; key_arn = arn; region = region } ≡ key = cc in
    subst (λ k. IsKey slot k × (k.key_arn ≡ arn)) made
      (record { right_slot = refl; right_region = found }, refl)

abbrev SizeOk : Option ℤ → Type 0
SizeOk o = (n : ℤ) → o ≡ some n → (n ≡ pos 16) ⊎ (n ≡ pos 32)

-- A size is 16 or 32 bytes, and comes with the key spec AES_256.
abbrev pub IsSized : Option ℤ → Option Str → Type 0
IsSized none spec = Unit
IsSized (some n) spec = ((n ≡ pos 16) ⊎ (n ≡ pos 32)) × (spec ≡ some (txt "AES_256"))

size-IsSized :
    (o : Option ℤ) (spec : Option Str)
    → SizeOk o
    → (o ≢ none → spec ≡ some (txt "AES_256"))
    → IsSized o spec
size-IsSized none spec size default = tt
size-IsSized (some n) spec size default = (size n refl, default (λ e. cc))

pub record IsLoaded (s : ParentSettings) : Type 0 where
  pub main_key : KmsKeySettings
  pub spare_key : KmsKeySettings
  pub two_keys : s.kms_keys ≡ main_key ∷ spare_key ∷ []
  pub is_main : IsKey primary main_key
  pub is_spare : IsKey backup spare_key
  pub prefix : IsPrefixNormal s.s3_prefix
  pub sized : IsSized s.number_of_bytes s.key_spec

is_pos-eq : (n : ℕ) (z : ℤ) → is_pos n z ≡ true → z ≡ pos n
is_pos-eq n (pos m) h = ground arith
is_pos-eq n (negsuc m) h = cc

parse_number_of_bytes-eq-ok :
    (value : Str) (n : ℤ) → parse_number_of_bytes value ≡ ok n → (n ≡ pos 16) ⊎ (n ≡ pos 32)
unfolding parse_number_of_bytes
parse_number_of_bytes-eq-ok value n h =
    let (z, found, h₁) =
      >>=-eq-ok
        (ok_or (parse_i32 value)
          (txt "KMS_NUMBER_OF_BYTES must be an integer, got '" ++ (value ++ txt "'")))
        _ h in
    ground (arith, is_pos-eq 16 z, is_pos-eq 32 z)

sized : (o : Option Str) (b : Option ℤ) → traverse parse_number_of_bytes o ≡ ok b → SizeOk b
sized none b h n e = cc
sized (some value) b h n e =
    let (m, found, h₁) = >>=-eq-ok (parse_number_of_bytes value) _ h in
    parse_number_of_bytes-eq-ok value n (cc)

-- Where a size is given, no key spec was.
unless_both :
    (o : Option Str) (b : Option ℤ)
    → (is_some o && is_some b) ≡ false
    → b ≢ none
    → or_else o (some (txt "AES_256")) ≡ some (txt "AES_256")
unless_both none b h ne = refl
unless_both (some s) none h ne = absurd (ne refl)
unless_both (some s) (some n) h ne = cc

module _ (env : Environment) where
  spec : Option Str
  spec = or_else (optional_env env (txt "KMS_KEY_SPEC")) (optional_env env (txt "KEY_SPEC"))

  -- Settings that from_env returns have two KMS keys, the primary and then the backup, each with
  -- the region that its ARN states; a normal S3 prefix; a size of 16 or 32 bytes where there is a
  -- size; and where there is a size, the key spec AES_256 as well.
  pub from_env-IsLoaded : (s : ParentSettings) → from_env env ≡ ok s → IsLoaded s
  unfolding from_env spec
  from_env-IsLoaded s h =
      let (bytes, hb, h₁) =
        >>=-eq-ok (traverse parse_number_of_bytes (optional_env env (txt "KMS_NUMBER_OF_BYTES"))) _
          h in
      let (_, excl, h₂) =
        >>=-eq-ok
          (reject_if (is_some spec && is_some bytes)
            (txt "set only one of KMS_KEY_SPEC or KMS_NUMBER_OF_BYTES"))
          _ h₁ in
      let (arn1, _, h₃) = >>=-eq-ok (required_env env (txt "KMS_PRIMARY_KEY_ARN")) _ h₂ in
      let (arn2, _, h₄) = >>=-eq-ok (required_env env (txt "KMS_BACKUP_KEY_ARN")) _ h₃ in
      let (key1, hk1, h₅) = >>=-eq-ok (from_arn primary arn1) _ h₄ in
      let (key2, hk2, h₆) = >>=-eq-ok (from_arn backup arn2) _ h₅ in
      let (bucket, _, h₇) = >>=-eq-ok (required_env env (txt "S3_BUCKET")) _ h₆ in
      let (prefix, hp, h₈) =
        >>=-eq-ok
          (normalize_s3_prefix (unwrap_or (optional_env env (txt "S3_PREFIX")) default_s3_prefix)) _
          h₇ in
      let (mode, _, h₉) =
        >>=-eq-ok (traverse parse_startup_mode (optional_env env (txt "DECRYPT_SERVER_TEE_MODE"))) _
          h₈ in
      let (ctx, _, h₁₀) =
        >>=-eq-ok
          (traverse parse_encryption_context (optional_env env (txt "KMS_ENCRYPTION_CONTEXT"))) _
          h₉ in
      let (dry, _, h₁₁) =
        >>=-eq-ok (traverse (parse_bool (txt "KMS_DRY_RUN")) (optional_env env (txt "KMS_DRY_RUN")))
          _ h₁₀ in
      let made : record {
        kms_keys = key1 ∷ key2 ∷ [];
        s3_bucket = bucket;
        s3_prefix = prefix;
        startup_mode = unwrap_or mode serve;
        key_spec = or_else spec (some (txt "AES_256"));
        number_of_bytes = bytes;
        encryption_context = ctx;
        grant_tokens = csv_or_empty (optional_env env (txt "KMS_GRANT_TOKENS"));
        dry_run = dry;
      }
          ≡ s =
        ok-injective _ s h₁₁ in
      subst IsLoaded made (record {
        main_key = key1;
        spare_key = key2;
        two_keys = refl;
        is_main = (from_arn-IsKey primary arn1 key1 hk1).0;
        is_spare = (from_arn-IsKey backup arn2 key2 hk2).0;
        prefix = (normalize_s3_prefix_sound _ prefix hp).0;
        sized =
            size-IsSized bytes _ (sized _ bytes hb)
              (unless_both spec bytes (reject_if-eq-ok _ _ excl));
      })
