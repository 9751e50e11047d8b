-- ===== src/Server/Ready.antt =====
-- What a program that has started guarantees (src/key_material.rs, src/bin_support.rs).
use aws_kms_demo.Base.{
  Str, txt, ok, >>=-eq-ok, reject_if, reject_if-eq-ok, Bool, true, false, list_eq, list_eq_iff,
  List, [], ◌∷◌, ◌≡◌, ◌≢◌, ◌↔◌, refl, ap, ◌∙◌, arith,
}
use aws_kms_demo.Effects.{bind_elim, lift_elim}
use aws_kms_demo.Endpoint.{Endpoint}
use aws_kms_demo.Arn.{kms_account_from_arn}
use aws_kms_demo.Config.{Environment}
use aws_kms_demo.Config.Types.{ParentSettings, KmsKeySettings, StartupMode, serve, init_key}
use aws_kms_demo.Kms.{KmsDataKeyClient, kms_client_from_env}
use aws_kms_demo.KeyMaterial.{Enclave, RestoredKeyPair, differ}
use aws_kms_demo.KeyMaterial.Restore.{restore_key_material}
use aws_kms_demo.KeyMaterial.Restore.Sound.{IsRestored, restore_key_material-IsRestored}
use aws_kms_demo.KeyMaterial.Initialize.{initialize_key_material}
use aws_kms_demo.KeyMaterial.Initialize.Commit.{IsCommitted, initialize_key_material-IsCommitted}
use aws_kms_demo.Server.{
  validate_pair, validate_keys, validate_kms_configuration, run_mode, run_decrypt_server_tee,
}

-- Two keys with full ARNs that differ, in one region.
pub record ArePaired (first second : KmsKeySettings) : Type 0 where
  pub differ_by_arn : first.key_arn ≢ second.key_arn
  pub first_account : Str
  pub has_first_account : kms_account_from_arn first.key_arn ≡ ok first_account
  pub second_account : Str
  pub has_second_account : kms_account_from_arn second.key_arn ≡ ok second_account
  pub one_region : first.region ≡ second.region

abbrev pub IsConfigured : ParentSettings → Type 0
IsConfigured s =
    (first : KmsKeySettings) × (second : KmsKeySettings) × (s.kms_keys ≡ first ∷ second ∷ [])
    × ArePaired first second

pair_sound : (a b : KmsKeySettings) → validate_pair a b ≡ ok tt → ArePaired a b
pair_sound a b h =
    let (_, h₁, k₁) =
      >>=-eq-ok
        (reject_if (list_eq a.key_arn b.key_arn)
          (txt "primary and backup KMS key ARNs must be different"))
        _ h in
    let (x, h₂, k₂) = >>=-eq-ok (kms_account_from_arn a.key_arn) _ k₁ in
    let (y, h₃, k₃) = >>=-eq-ok (kms_account_from_arn b.key_arn) _ k₂ in
    let (_, h₄, _) = >>=-eq-ok (reject_if (differ a.region b.region) _) _ k₃ in
    let distinct : list_eq a.key_arn b.key_arn ≡ false = reject_if-eq-ok _ _ h₁ in
    let together : differ a.region b.region ≡ false = reject_if-eq-ok _ _ h₄ in
    record {
      differ_by_arn = λ e. cc (distinct, (list_eq_iff a.key_arn b.key_arn).1 e);
      first_account = x;
      has_first_account = h₂;
      second_account = y;
      has_second_account = h₃;
      one_region = ground (arith, list_eq_iff a.region b.region);
    }

pair_complete : (a b : KmsKeySettings) → ArePaired a b → validate_pair a b ≡ ok tt
pair_complete a b p =
    let distinct : list_eq a.key_arn b.key_arn ≡ false =
      ground (arith, list_eq_iff a.key_arn b.key_arn, p.differ_by_arn) in
    let together : list_eq a.region b.region ≡ true =
      (list_eq_iff a.region b.region).1 p.one_region in
    rw (distinct, p.has_first_account, p.has_second_account, together)

keys_sound :
    (keys : List KmsKeySettings)
    → validate_keys keys ≡ ok tt
    → (a : KmsKeySettings) × (b : KmsKeySettings) × (keys ≡ a ∷ b ∷ []) × ArePaired a b
keys_sound [] h = cc
keys_sound (a ∷ []) h = cc
keys_sound (a ∷ b ∷ []) h = (a, b, refl, pair_sound a b h)
keys_sound (a ∷ b ∷ c ∷ keys) h = cc

-- validate_kms_configuration accepts settings exactly when they have two KMS keys, with different
-- ARNs that each have an account, and with the same region.
pub validate_kms_configuration_iff :
    (s : ParentSettings) → (validate_kms_configuration s ≡ ok tt) ↔ IsConfigured s
unfolding validate_kms_configuration
validate_kms_configuration_iff s =
    (keys_sound s.kms_keys, λ (a, b, same, p). ap validate_keys same ∙ pair_complete a b p)

module _ {W : Type 0} (tee : Enclave W) (feature : Bool) (endpoint : Endpoint)
    (s : ParentSettings) where
  -- What has happened in each mode.
  abbrev pub Started : StartupMode → KmsDataKeyClient → W → W → Type 0
  Started init_key client w w' = (p : RestoredKeyPair) × IsCommitted tee endpoint client s w w' p
  Started serve client w w' = (p : RestoredKeyPair) × IsRestored tee endpoint client s p

  run_mode-Started :
      (mode : StartupMode) (client : KmsDataKeyClient) (w w' : W) (u : Unit {0})
      → run_mode tee feature mode endpoint client s w ≡ (ok u, w')
      → Started mode client w w'
  unfolding run_mode
  run_mode-Started init_key client w w' u h =
      bind_elim (initialize_key_material tee endpoint client s) _ w w' h λ p v e last. (
        p,
        initialize_key_material-IsCommitted tee endpoint client s w w' p
            (e ∙ ap (λ x. (ok p, x)) (ap (λ r. r.1) last)),
      )
  run_mode-Started serve client w w' u h =
      bind_elim (restore_key_material tee endpoint client s) _ w w' h
        λ p v e _. (p, restore_key_material-IsRestored tee endpoint client s w v p e)

  -- Where run_decrypt_server_tee succeeds, there are two KMS keys with full ARNs that differ and
  -- with one region, the KMS client is the one of the environment, and in init-key mode the key
  -- material has been committed from the world at the start to the one at the end, in serve mode a
  -- key pair has been restored, each in the sense of the theorems on initialize_key_material and
  -- restore_key_material.
  pub run_decrypt_server_tee-Started :
      (env : Environment) (w w' : W) (u : Unit {0})
      → run_decrypt_server_tee tee feature env s endpoint w ≡ (ok u, w')
      → IsConfigured s
        × ((client : KmsDataKeyClient) × (kms_client_from_env env feature endpoint ≡ ok client)
            × Started s.startup_mode client w w')
  unfolding run_decrypt_server_tee
  run_decrypt_server_tee-Started env w w' u h =
      lift_elim (validate_kms_configuration s) _ w w' h λ _ configured k₁.
        lift_elim (kms_client_from_env env feature endpoint) _ w w' k₁ λ client chosen k₂. (
          (validate_kms_configuration_iff s).0 configured,
          (client, chosen, run_mode-Started s.startup_mode client w w' u k₂),
        )
