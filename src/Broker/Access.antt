-- ===== src/Broker/Access.antt =====
-- What a connection can do to S3 (src/lib.rs): the guards of `serve_enclave_broker`.
use aws_kms_demo.Base.{
  ℕ, Str, Bytes, txt, Result, ok, err, panic, Option, none, some, false, not, ◌==◌, find, ok_or,
  ◌≡◌, ◌≢◌, refl, sym, subst, arith, reject_if, reject_if-eq-ok, Bool-cases, ◌⊎◌, inl, inr,
}
use aws_kms_demo.Effects.{and_then_holds, M, ◌>>◌, and_then}
use aws_kms_demo.Config.Types.{
  ParentSettings, KmsSlot, slot_eq, StartupMode, serve, init_key, BrokerRequest, get_settings,
  get_aws_credentials, load_object, save_object_if_absent, BrokerResponse, error,
}
use aws_kms_demo.S3.{load_s3_object, save_s3_object_if_absent}
use aws_kms_demo.S3.Store.{Contents, Written, IsConditionalStore}
use aws_kms_demo.S3.Conditional.{load_keeps, save_s3_object_if_absent-Written}
use aws_kms_demo.Broker.{
  Host, Providers, CredentialsProvider, credentials_request, load_request, save_request, dispatch,
  or_error, run_request, answer_request, respond, is_foreign, foreign_message, is_init_key,
  validate_s3_target, find_credentials_provider,
}
use aws_kms_demo.Broker.Target.{IsBelow, validate_s3_target_iff}

-- What the broker relies on: a lawful store, and that neither the credentials nor the runtime touch it.
pub record IsLawfulHost {W : Type 0} (host : Host W) (contents : W → Contents) : Type 0 where
  pub store : IsConditionalStore host.s3 contents
  pub provide_keeps :
      (p : CredentialsProvider) (w : W) → contents (host.provide_credentials p w).1 ≡ contents w
  pub runtime_keeps : (w : W) → contents (host.build_runtime w).1 ≡ contents w

-- The change that a request may make: none, or, in init-key mode, the creation of one absent object
-- below the prefix in the broker's bucket.
abbrev pub Confined : ParentSettings → Contents → Contents → Type 0
Confined s before after =
    (after ≡ before)
    ⊎ ((s.startup_mode ≡ init_key)
        × ((bucket : Str) × (key : Str) × (body : Bytes) × IsBelow bucket key s.s3_bucket
              s.s3_prefix
            × Written bucket key body before after))

pub is_init_key-eq : (mode : StartupMode) → not (is_init_key mode) ≡ false → mode ≡ init_key
is_init_key-eq serve h = cc
is_init_key-eq init_key h = refl

module _ {W : Type 0} (host : Host W) (contents : W → Contents) (L : IsLawfulHost host contents)
    (providers : Providers) (s : ParentSettings) where
  -- A property of the contents after a bind.
  contents_after :
      {A B : Type 0} (P : Contents → Type 0) (r : Result A × W) (f : A → M W B)
      → P (contents r.1)
      → ((a : A) → r.0 ≡ ok a → P (contents (f a r.1).1))
      → P (contents (and_then r f).1)
  contents_after P r f h k = and_then_holds (λ (v : W). P (contents v)) r f h k

  credentials_keeps :
      (slot : KmsSlot) (w : W)
      → contents (credentials_request host providers s slot w).1 ≡ contents w
  unfolding credentials_request
  credentials_keeps slot w =
      let same = λ (c : Contents). c ≡ contents w in
      contents_after same (find_credentials_provider providers slot, w) _ refl
        (λ p _. contents_after same (host.provide_credentials p w) _ (L.provide_keeps p w) (λ c _.
          contents_after same
            (
              ok_or (find (λ key. slot_eq key.slot slot) s.kms_keys)
                  (txt "KMS credential slot has no key settings"),
              (host.provide_credentials p w).1,
            )
            _ (L.provide_keeps p w) (λ _ _. L.provide_keeps p w)))

  load_request_keeps :
      (bucket key : Str) (w : W)
      → contents (load_request host providers s bucket key w).1 ≡ contents w
  unfolding load_request
  load_request_keeps bucket key w =
      let same = λ (c : Contents). c ≡ contents w in
      let kept = load_keeps host.s3 contents L.store bucket key w in
      contents_after same (validate_s3_target bucket key s.s3_bucket s.s3_prefix, w) _ refl
        (λ _ _. contents_after same (load_s3_object host.s3 bucket key w) _ kept (λ _ _. kept))

  save_request-Confined :
      (bucket key : Str) (body : Bytes) (w : W)
      → Confined s (contents w) (contents (save_request host providers s bucket key body w).1)
  unfolding save_request
  save_request-Confined bucket key body w =
      let allowed = Confined s (contents w) in
      let written = save_s3_object_if_absent-Written host.s3 contents L.store bucket key body w in
      contents_after allowed
        (
          reject_if (not (is_init_key s.startup_mode))
              (txt "enclave-broker rejects S3 writes outside init-key mode"),
          w,
        )
        _ (inl refl)
        (λ _ mode.
          contents_after allowed (validate_s3_target bucket key s.s3_bucket s.s3_prefix, w) _
            (inl refl)
            (λ _ target.
              let change : Confined s (contents w)
                  (contents (save_s3_object_if_absent host.s3 bucket key body w).1) =
                inr (
                  is_init_key-eq s.startup_mode (reject_if-eq-ok _ _ mode),
                  (
                    bucket,
                    key,
                    body,
                    (validate_s3_target_iff bucket key s.s3_bucket s.s3_prefix).0 target,
                    written,
                  ),
                ) in
              contents_after allowed (save_s3_object_if_absent host.s3 bucket key body w) _ change
                (λ _ _. change)))

  dispatch-Confined :
      (request : BrokerRequest) (w : W)
      → Confined s (contents w) (contents (dispatch host providers s request w).1)
  unfolding dispatch
  dispatch-Confined get_settings w = inl refl
  dispatch-Confined (get_aws_credentials slot) w = inl (credentials_keeps slot w)
  dispatch-Confined (load_object bucket key) w = inl (load_request_keeps bucket key w)
  dispatch-Confined (save_object_if_absent bucket key body) w =
      save_request-Confined bucket key body w

  or_error_same : (r : Result BrokerResponse × W) → (or_error host providers s r).1 ≡ r.1
  unfolding or_error
  or_error_same (ok a, w) = refl
  or_error_same (err e, w) = refl
  or_error_same (panic e, w) = refl

  run_request-Confined :
      (request : BrokerRequest) (w : W)
      → Confined s (contents w) (contents (run_request host providers s request w).1)
  unfolding run_request
  run_request-Confined request w =
      let allowed = Confined s (contents w) in
      subst (λ v. allowed (contents v))
        (sym (or_error_same ((host.build_runtime >> dispatch host providers s request) w)))
        (contents_after allowed (host.build_runtime w) _ (inl (L.runtime_keeps w)) (λ _ _.
          subst
            (λ c.
              Confined s c
                (contents (dispatch host providers s request (host.build_runtime w).1).1))
            (L.runtime_keeps w) (dispatch-Confined request (host.build_runtime w).1)))

  answer_request-Confined :
      (request : BrokerRequest) (w : W)
      → Confined s (contents w) (contents (answer_request host providers s request w).1)
  unfolding answer_request
  answer_request-Confined get_settings w = inl refl
  answer_request-Confined (get_aws_credentials slot) w =
      run_request-Confined (get_aws_credentials slot) w
  answer_request-Confined (load_object bucket key) w =
      run_request-Confined (load_object bucket key) w
  answer_request-Confined (save_object_if_absent bucket key body) w =
      run_request-Confined (save_object_if_absent bucket key body) w

  -- On a host whose store is conditional and whose credentials and runtime do not touch S3,
  -- whatever a connection sends and whoever the peer is, answering it leaves the contents of S3 as
  -- they were, or the broker is in init-key mode and the change is nothing but the creation of one
  -- absent object below the configured prefix in the configured bucket.
  pub respond-Confined :
      (allowed peer : Option ℕ) (frame : Result BrokerRequest) (w : W)
      → Confined s (contents w) (contents (respond host providers s allowed peer frame w).1)
  unfolding respond
  respond-Confined allowed peer (err m) w = inl refl
  respond-Confined allowed peer (panic m) w = inl refl
  respond-Confined allowed peer (ok request) w = elim (Bool-cases (is_foreign allowed peer)) [
    | inl foreign ↦ rw foreign (inl refl)
    | inr own ↦ rw own (answer_request-Confined request w)
  ]

  Confined-serve :
      (before after : Contents) → s.startup_mode ≡ serve → Confined s before after → after ≡ before
  Confined-serve before after h (inl same) = same
  Confined-serve before after h (inr (mode, _)) = absurd (cc)

  -- On a lawful host, a broker in serve mode leaves the contents of S3 as they were, whatever a
  -- connection sends and whoever the peer is.
  pub respond_serve_keeps :
      s.startup_mode ≡ serve
      → (allowed peer : Option ℕ) (frame : Result BrokerRequest) (w : W)
      → contents (respond host providers s allowed peer frame w).1 ≡ contents w
  respond_serve_keeps h allowed peer frame w =
      Confined-serve _ _ h (respond-Confined allowed peer frame w)

  -- Where a CID is required and the peer's is another one or unknown, every request is answered
  -- with the error that names the peer, and the world is not touched.
  pub respond_foreign :
      (cid : ℕ) (peer : Option ℕ) (request : BrokerRequest) (w : W)
      → peer ≢ some cid
      → respond host providers s (some cid) peer (ok request) w
        ≡ (ok (error (foreign_message peer)), w)
  unfolding respond
  respond_foreign cid none request w h = refl
  respond_foreign cid (some other) request w h =
      let differs : (other == cid) ≡ false = ground arith in rw differs
