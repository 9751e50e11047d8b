-- ===== src/Kms/Nitro/Options.antt =====
-- Which settings reach the Nitro SDK (src/nitro_kms.rs, with the settings of src/lib.rs).
use aws_kms_demo.Base.{
  ℕ, Str, txt, list_eq_iff, ok, Option, none, some, true, ◌≡◌, ◌≢◌, ◌⊎◌, ap, subst, arith,
}
use aws_kms_demo.Text.Number.{ℤ, pos, negsuc}
use aws_kms_demo.Effects.{lift, guard, >>=-eq-ok}
use aws_kms_demo.Config.{Environment, from_env, is_some}
use aws_kms_demo.Config.Types.{ParentSettings, AwsCredentials}
use aws_kms_demo.Config.Parse.{is_pos}
use aws_kms_demo.Config.Loaded.{IsSized, from_env-IsLoaded}
use aws_kms_demo.Kms.Nitro.{
  Shim, GeneratedDataKey, key_bits, data_key_bits, no_context, validate_common_options,
  nitro_generate_data_key,
}

pos-is_pos : (n : ℕ) (z : ℤ) → is_pos n z ≡ true → z ≡ pos n
pos-is_pos n (pos m) h = ground arith
pos-is_pos n (negsuc m) h = cc

-- The key spec or the number of bytes, and not both, give the size.
abbrev pub IsSize : Option Str → Option ℤ → ℕ → Type 0
IsSize (some spec) none bits =
    ((spec ≡ txt "AES_128") × (bits ≡ 128)) ⊎ ((spec ≡ txt "AES_256") × (bits ≡ 256))
IsSize none (some n) bits = ((n ≡ pos 16) × (bits ≡ 128)) ⊎ ((n ≡ pos 32) × (bits ≡ 256))
IsSize _ _ bits = ⊥

-- key_bits gives a size only for a key spec without a number of bytes, 128 for AES_128 and 256 for
-- AES_256, or for a number of bytes without a key spec, 128 for 16 and 256 for 32.
pub key_bits_sound :
    (spec : Option Str) (n : Option ℤ) (bits : ℕ) → key_bits spec n ≡ ok bits → IsSize spec n bits
unfolding key_bits
key_bits_sound (some spec) none bits h =
    ground (arith, list_eq_iff spec (txt "AES_128"), list_eq_iff spec (txt "AES_256"))
key_bits_sound none (some n) bits h = ground (arith, pos-is_pos 16 n, pos-is_pos 32 n)
key_bits_sound _ _ bits h = cc

key_bits_both : (spec : Str) (n : ℤ) (bits : ℕ) → key_bits (some spec) (some n) ≢ ok bits
unfolding key_bits
key_bits_both spec n bits h = cc

-- With KMS_NUMBER_OF_BYTES the loaded settings have a key spec as well, so no size is accepted.
pub data_key_bits-number_of_bytes :
    (env : Environment) (s : ParentSettings) (n : ℤ) (bits : ℕ)
    → from_env env ≡ ok s
    → s.number_of_bytes ≡ some n
    → data_key_bits s ≢ ok bits
unfolding data_key_bits
data_key_bits-number_of_bytes env s n bits loaded size h =
    let l = from_env-IsLoaded env s loaded in
    let spec = (subst (λ o. IsSized o s.key_spec) size l.sized).1 in
    key_bits_both (txt "AES_256") n bits (
      subst (λ o. key_bits o (some n) ≡ ok bits) spec
        (subst (λ o. key_bits s.key_spec o ≡ ok bits) size h))

-- With settings that from_env loaded and that state a number of bytes, generate_data_key of the
-- Nitro client never returns a data key.
pub nitro_generate_data_key-number_of_bytes :
    {W : Type 0} (shim : Shim W) (cid port : ℕ) (env : Environment) (s : ParentSettings) (n : ℤ)
    (credentials : AwsCredentials) (key_id : Str) (w w' : W) (key : GeneratedDataKey)
    → from_env env ≡ ok s
    → s.number_of_bytes ≡ some n
    → nitro_generate_data_key shim cid port s credentials key_id w ≢ (ok key, w')
unfolding nitro_generate_data_key
nitro_generate_data_key-number_of_bytes shim cid port env s n credentials key_id w w' key loaded
      size h =
    let (_, w₁, _, h₁) = >>=-eq-ok (lift (validate_common_options s)) _ w w' h in
    let (_, w₂, _, h₂) = >>=-eq-ok (guard (is_some s.encryption_context) no_context) _ w₁ w' h₁ in
    let (bits, w₃, found, _) = >>=-eq-ok (lift (data_key_bits s)) _ w₂ w' h₂ in
    data_key_bits-number_of_bytes env s n bits loaded size (ap (λ r. r.0) found)
