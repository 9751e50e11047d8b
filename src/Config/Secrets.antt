-- ===== src/Config/Secrets.antt =====
-- `Debug` of `AwsCredentials` (src/lib.rs): what `debug_struct` is given, field by field.
use aws_kms_demo.Base.{ℕ, Str, txt, Option, none, some, List, [], ◌∷◌, ◌≡◌, refl}
use aws_kms_demo.Config.{is_some}
use aws_kms_demo.Config.Types.{AwsCredentials}

-- The values that are handed to `field`, by their types.
pub data DebugValue : Type 0 where
  text : Str → DebugValue
  optional_text : Option Str → DebugValue
  optional_number : Option ℕ → DebugValue

-- `.as_ref().map(|_| "[REDACTED]")`
abbrev pub redacted : Option Str → Option Str
redacted none = none
redacted (some secret) = some (txt "[REDACTED]")

unfoldable pub debug_fields : AwsCredentials → List (Str × DebugValue)
debug_fields c =
    (txt "region", text c.region)
    ∷ (txt "access_key_id", text (txt "[REDACTED]"))
    ∷ (txt "secret_access_key", text (txt "[REDACTED]"))
    ∷ (txt "session_token", optional_text (redacted c.session_token))
    ∷ (txt "expires_at_epoch_seconds", optional_number c.expires_at_epoch_seconds)
    ∷ []

redacted_by_presence : (a b : Option Str) → is_some a ≡ is_some b → redacted a ≡ redacted b
redacted_by_presence none none h = refl
redacted_by_presence (some a) (some b) h = refl
redacted_by_presence none (some b) h = cc
redacted_by_presence (some a) none h = cc

-- Credentials that agree in the region, the expiry and whether there is a session token have the
-- same debug output, whatever their secrets are.
pub debug_fields-redacts :
    (a b : AwsCredentials)
    → a.region ≡ b.region
    → a.expires_at_epoch_seconds ≡ b.expires_at_epoch_seconds
    → is_some a.session_token ≡ is_some b.session_token
    → debug_fields a ≡ debug_fields b
unfolding debug_fields
debug_fields-redacts a b region expiry present =
    rw (region, expiry, redacted_by_presence a.session_token b.session_token present)

abbrev zeroized : (Str → Str) → Option Str → Option Str
zeroized zeroize none = none
zeroized zeroize (some secret) = some (zeroize secret)

-- What is left of credentials once `drop` has run, with `zeroize` of the crate of that name.
unfoldable pub drop_credentials : (Str → Str) → AwsCredentials → AwsCredentials
drop_credentials zeroize c = record {
  region = c.region;
  access_key_id = zeroize c.access_key_id;
  secret_access_key = zeroize c.secret_access_key;
  session_token = zeroized zeroize c.session_token;
  expires_at_epoch_seconds = c.expires_at_epoch_seconds;
}

zeroized_by_presence :
    (zeroize : Str → Str)
    → ((secret : Str) → zeroize secret ≡ [])
    → (a b : Option Str) → is_some a ≡ is_some b
    → zeroized zeroize a ≡ zeroized zeroize b
zeroized_by_presence zeroize wipes none none h = refl
zeroized_by_presence zeroize wipes (some a) (some b) h = rw (wipes a, wipes b)
zeroized_by_presence zeroize wipes none (some b) h = cc
zeroized_by_presence zeroize wipes (some a) none h = cc

-- Where `zeroize` leaves an empty text, what `drop` leaves of credentials depends on no secret.
pub drop_credentials-forgets :
    (zeroize : Str → Str)
    → ((secret : Str) → zeroize secret ≡ [])
    → (a b : AwsCredentials) → a.region ≡ b.region
    → a.expires_at_epoch_seconds ≡ b.expires_at_epoch_seconds
    → is_some a.session_token ≡ is_some b.session_token
    → drop_credentials zeroize a ≡ drop_credentials zeroize b
unfolding drop_credentials
drop_credentials-forgets zeroize wipes a b region expiry present = rw (
  region,
  expiry,
  wipes a.access_key_id,
  wipes b.access_key_id,
  wipes a.secret_access_key,
  wipes b.secret_access_key,
  zeroized_by_presence zeroize wipes a.session_token b.session_token present,
)
