-- ===== src/Broker/Providers.antt =====
-- The credentials providers that `serve_enclave_broker` sets up (src/lib.rs).
use aws_kms_demo.Base.{
  Str, txt, Result, ok, ◌>>=◌, >>=-eq-ok, ok-injective, Option, some, ok_or, [], ◌∷◌, ◌≡◌, sym, ap,
}
use aws_kms_demo.Config.{Environment, unwrap_or}
use aws_kms_demo.Config.Types.{primary, backup}
use aws_kms_demo.Broker.{
  CredentialsProvider, Providers, explicit_kms_credentials_provider, find_credentials_provider,
  no_provider,
}

abbrev providers_of :
    CredentialsProvider → Option CredentialsProvider → Option CredentialsProvider → Providers
providers_of default_provider first second =
    (primary, some (unwrap_or first default_provider)) ∷ (backup, second) ∷ []

-- The default provider stands in for the primary KMS key only.
unfoldable pub credentials_providers : Environment → CredentialsProvider → Result Providers
credentials_providers env default_provider = do
  first ← explicit_kms_credentials_provider env (txt "KMS_PRIMARY")
  second ← explicit_kms_credentials_provider env (txt "KMS_BACKUP")
  ok (providers_of default_provider first second)

-- Where the providers are set up, the primary KMS key's credentials are its explicit ones or else
-- the default provider's, and the backup key's are its explicit ones or else an error: the default
-- provider never stands in for the backup key.
pub credentials_providers-finds :
    (env : Environment) (default_provider : CredentialsProvider) (providers : Providers)
    → credentials_providers env default_provider ≡ ok providers
    → (first : Option CredentialsProvider) × (second : Option CredentialsProvider) × (message : Str)
      × (explicit_kms_credentials_provider env (txt "KMS_PRIMARY") ≡ ok first)
      × (explicit_kms_credentials_provider env (txt "KMS_BACKUP") ≡ ok second)
      × (find_credentials_provider providers primary ≡ ok (unwrap_or first default_provider))
      × (find_credentials_provider providers backup ≡ ok_or second message)
unfolding credentials_providers find_credentials_provider
credentials_providers-finds env default_provider providers h =
    let (first, e, h₁) =
      >>=-eq-ok (explicit_kms_credentials_provider env (txt "KMS_PRIMARY")) _ h in
    let (second, e', h₂) =
      >>=-eq-ok (explicit_kms_credentials_provider env (txt "KMS_BACKUP")) _ h₁ in
    let made = ok-injective (providers_of default_provider first second) providers h₂ in
    (
      first,
      second,
      no_provider backup,
      e,
      e',
      ap (λ ps. find_credentials_provider ps primary) (sym made),
      ap (λ ps. find_credentials_provider ps backup) (sym made),
    )
