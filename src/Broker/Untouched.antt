-- ===== src/Broker/Untouched.antt =====
-- What the broker's host leaves as it is, answering a request does too (src/lib.rs).
use aws_kms_demo.Base.{
  ℕ, Str, Bytes, txt, Result, ok, err, panic, Option, not, find, ok_or, Bool-cases, ◌≡◌, refl, ◌∙◌,
  inl, inr,
}
use aws_kms_demo.Effects.{M, Keeps, bind-Keeps, lift, guard, ◌>>◌, ◌>>=◌}
use aws_kms_demo.Config.Types.{
  ParentSettings, KmsSlot, slot_eq, BrokerRequest, get_settings, get_aws_credentials, load_object,
  save_object_if_absent, BrokerResponse,
}
use aws_kms_demo.S3.{load_s3_object, save_s3_object_if_absent}
use aws_kms_demo.S3.Untouched.{IsUntouched, load_s3_object-Keeps, save_s3_object_if_absent-Keeps}
use aws_kms_demo.Broker.{
  Host, Providers, CredentialsProvider, credentials_request, load_request, save_request, dispatch,
  or_error, run_request, answer_request, respond, is_foreign, is_init_key, validate_s3_target,
  find_credentials_provider,
}

pub record IsUntouchedHost {W C : Type 0} (host : Host W) (view : W → C) : Type 0 where
  pub s3_keeps : IsUntouched host.s3 view
  pub provides : (p : CredentialsProvider) → Keeps view (host.provide_credentials p)
  pub builds : Keeps view host.build_runtime

module _ {W C : Type 0} (host : Host W) (view : W → C) (U : IsUntouchedHost host view)
    (providers : Providers) (s : ParentSettings) where
  lift-bind-Keeps :
      {A : Type 0} (r : Result A) (f : A → M W BrokerResponse)
      → ((a : A) → Keeps view (f a))
      → Keeps view (lift r >>= f)
  lift-bind-Keeps r f later = bind-Keeps view (lift r) f (λ w. refl) later

  credentials_request-Keeps :
      (slot : KmsSlot) → Keeps view (credentials_request host providers s slot)
  unfolding credentials_request
  credentials_request-Keeps slot =
      lift-bind-Keeps (find_credentials_provider providers slot) _ (λ provider.
        bind-Keeps {B = BrokerResponse} view (host.provide_credentials provider) _
          (U.provides provider)
          (λ credentials.
            lift-bind-Keeps
              (ok_or (find (λ key. slot_eq key.slot slot) s.kms_keys)
                (txt "KMS credential slot has no key settings"))
              _ (λ key w. refl)))

  load_request-Keeps : (bucket key : Str) → Keeps view (load_request host providers s bucket key)
  unfolding load_request
  load_request-Keeps bucket key =
      lift-bind-Keeps (validate_s3_target bucket key s.s3_bucket s.s3_prefix) _ (λ target.
        bind-Keeps {B = BrokerResponse} view (load_s3_object host.s3 bucket key) _
          (load_s3_object-Keeps host.s3 view U.s3_keeps bucket key) (λ body w. refl))

  save_request-Keeps :
      (bucket key : Str) (body : Bytes) → Keeps view (save_request host providers s bucket key body)
  unfolding save_request
  save_request-Keeps bucket key body =
      bind-Keeps {B = BrokerResponse} view
        (guard (not (is_init_key s.startup_mode))
          (txt "enclave-broker rejects S3 writes outside init-key mode"))
        _ (λ w. refl)
        (λ mode.
          lift-bind-Keeps (validate_s3_target bucket key s.s3_bucket s.s3_prefix) _ (λ target.
            bind-Keeps {B = BrokerResponse} view (save_s3_object_if_absent host.s3 bucket key body)
              _ (save_s3_object_if_absent-Keeps host.s3 view U.s3_keeps bucket key body)
              (λ stored w. refl)))

  dispatch-Keeps : (request : BrokerRequest) → Keeps view (dispatch host providers s request)
  unfolding dispatch
  dispatch-Keeps get_settings w = refl
  dispatch-Keeps (get_aws_credentials slot) w = credentials_request-Keeps slot w
  dispatch-Keeps (load_object bucket key) w = load_request-Keeps bucket key w
  dispatch-Keeps (save_object_if_absent bucket key body) w = save_request-Keeps bucket key body w

  or_error-keeps : (r : Result BrokerResponse × W) → view (or_error host providers s r).1 ≡ view r.1
  unfolding or_error
  or_error-keeps (ok response, w) = refl
  or_error-keeps (err m, w) = refl
  or_error-keeps (panic m, w) = refl

  run_request-Keeps : (request : BrokerRequest) → Keeps view (run_request host providers s request)
  unfolding run_request
  run_request-Keeps request w =
      or_error-keeps ((host.build_runtime >> dispatch host providers s request) w)
      ∙ bind-Keeps view host.build_runtime (λ _. dispatch host providers s request) U.builds
          (λ started. dispatch-Keeps request) w

  answer_request-Keeps :
      (request : BrokerRequest) → Keeps view (answer_request host providers s request)
  unfolding answer_request
  answer_request-Keeps get_settings w = refl
  answer_request-Keeps (get_aws_credentials slot) w = run_request-Keeps (get_aws_credentials slot) w
  answer_request-Keeps (load_object bucket key) w = run_request-Keeps (load_object bucket key) w
  answer_request-Keeps (save_object_if_absent bucket key body) w =
      run_request-Keeps (save_object_if_absent bucket key body) w

  pub respond-Keeps :
      (allowed peer : Option ℕ) (frame : Result BrokerRequest)
      → Keeps view (respond host providers s allowed peer frame)
  unfolding respond
  respond-Keeps allowed peer (err m) w = refl
  respond-Keeps allowed peer (panic m) w = refl
  respond-Keeps allowed peer (ok request) w = elim (Bool-cases (is_foreign allowed peer)) [
    | inl foreign ↦ rw foreign
    | inr own ↦ rw own (answer_request-Keeps request w)
  ]
