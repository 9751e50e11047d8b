-- ===== src/Broker/Answers.antt =====
-- What the answers `Object` and `Saved` of the broker tell the enclave (src/lib.rs).
use aws_kms_demo.Base.{
  ℕ, Str, Bytes, txt, Result, ok, err, panic, Option, some, not, ◌≡◌, ◌≢◌, refl, sym, ap, ◌∙◌, inl,
  inr, Bool-cases, ok-injective,
}
use aws_kms_demo.Effects.{◌>>◌, bind_elim, lift_elim, guard_elim}
use aws_kms_demo.Config.Types.{
  ParentSettings, init_key, BrokerRequest, load_object, save_object_if_absent, BrokerResponse,
  object, saved, error,
}
use aws_kms_demo.S3.{load_s3_object, save_s3_object_if_absent}
use aws_kms_demo.S3.Store.{Contents}
use aws_kms_demo.S3.Conditional.{load_exact, save_s3_object_if_absent-holds}
use aws_kms_demo.Broker.{
  Host, Providers, dispatch, load_request, save_request, or_error, run_request, answer_request,
  respond, is_foreign, is_init_key, validate_s3_target,
}
use aws_kms_demo.Broker.Target.{IsBelow, validate_s3_target_iff}
use aws_kms_demo.Broker.Access.{IsLawfulHost, is_init_key-eq}

module _ {W : Type 0} (host : Host W) (contents : W → Contents) (L : IsLawfulHost host contents)
    (providers : Providers) (s : ParentSettings) where
  or_error-eq-ok :
      (r : Result BrokerResponse × W) (response : BrokerResponse) (w' : W)
      → ((m : Str) → response ≢ error m)
      → or_error host providers s r ≡ (ok response, w')
      → r ≡ (ok response, w')
  unfolding or_error
  or_error-eq-ok (ok a, v) response w' proper h = h
  or_error-eq-ok (err m, v) response w' proper h =
      absurd (proper m (sym (ok-injective (error m) response (ap (λ r. r.0) h))))
  or_error-eq-ok (panic m, v) response w' proper h = cc

  -- An answer other than an error comes from the dispatch, in the world that the runtime left.
  respond-dispatch :
      (allowed peer : Option ℕ) (request : BrokerRequest) (response : BrokerResponse) (w w' : W)
      → ((m : Str) → response ≢ error m)
      → answer_request host providers s request ≡ run_request host providers s request
      → respond host providers s allowed peer (ok request) w ≡ (ok response, w')
      → (v : W) × (contents v ≡ contents w)
        × (dispatch host providers s request v ≡ (ok response, w'))
  unfolding respond run_request
  respond-dispatch allowed peer request response w w' proper runs h =
      elim (Bool-cases (is_foreign allowed peer)) [
        | inl foreign ↦
            absurd (proper _ (sym (ok-injective _ response (ap (λ r. r.0) (rw foreign at h)))))
        | inr own ↦ ran (ap (λ f. f w) (sym runs) ∙ (rw own at h))
      ]
    where
      ran :
          run_request host providers s request w ≡ (ok response, w')
          → (v : W) × (contents v ≡ contents w)
            × (dispatch host providers s request v ≡ (ok response, w'))
      ran e =
          bind_elim host.build_runtime (λ _. dispatch host providers s request) w w'
            (or_error-eq-ok ((host.build_runtime >> dispatch host providers s request) w) response
              w' proper e)
            λ _ v started rest. (v, sym (ap (λ r. contents r.1) started) ∙ L.runtime_keeps w, rest)

  load_answer :
      (bucket key : Str) (body : Bytes) (v w' : W)
      → load_request host providers s bucket key v ≡ (ok (object (some body)), w')
      → IsBelow bucket key s.s3_bucket s.s3_prefix × (contents v bucket key ≡ some body)
  unfolding load_request
  load_answer bucket key body v w' h =
      lift_elim (validate_s3_target bucket key s.s3_bucket s.s3_prefix) _ v w' h λ _ target k₁.
        bind_elim (load_s3_object host.s3 bucket key) _ v w' k₁ λ found v₂ loading last.
          let same : found ≡ some body = object_body found body (ap (λ r. r.0) last) in
          (
            (validate_s3_target_iff bucket key s.s3_bucket s.s3_prefix).0 target,
            load_exact host.s3 contents L.store bucket key v body
                (ap (λ r. r.0) loading ∙ ap (λ o. ok o) same),
          )
    where
      object_body :
          (found : Option Bytes) (body : Bytes)
          → ◌≡◌ {A = Result BrokerResponse} (ok (object found)) (ok (object (some body)))
          → found ≡ some body
      object_body found body e = cc

  -- On a lawful host, where a request to load an object is answered with a body, the key is below
  -- the configured prefix in the configured bucket and S3 held exactly that body under it.
  pub respond_load_exact :
      (allowed peer : Option ℕ) (bucket key : Str) (body : Bytes) (w w' : W)
      → respond host providers s allowed peer (ok (load_object bucket key)) w
        ≡ (ok (object (some body)), w')
      → IsBelow bucket key s.s3_bucket s.s3_prefix × (contents w bucket key ≡ some body)
  unfolding answer_request dispatch
  respond_load_exact allowed peer bucket key body w w' h =
      let (v, kept, e) =
        respond-dispatch allowed peer (load_object bucket key) (object (some body)) w w' (λ m d. cc)
          refl h in
      let (below, held) = load_answer bucket key body v w' e in
      (below, ap (λ c. c bucket key) (sym kept) ∙ held)

  save_answer :
      (bucket key : Str) (body : Bytes) (v w' : W)
      → save_request host providers s bucket key body v ≡ (ok saved, w')
      → (s.startup_mode ≡ init_key)
        × IsBelow bucket key s.s3_bucket s.s3_prefix
        × (contents w' bucket key ≡ some body)
  unfolding save_request
  save_answer bucket key body v w' h =
      guard_elim (not (is_init_key s.startup_mode))
        (txt "enclave-broker rejects S3 writes outside init-key mode") _ v w' h
        λ mode k₁.
          lift_elim (validate_s3_target bucket key s.s3_bucket s.s3_prefix) _ v w' k₁ λ _ target k₂.
            bind_elim (save_s3_object_if_absent host.s3 bucket key body) _ v w' k₂
              λ _ v₂ saving last. (
                is_init_key-eq s.startup_mode mode,
                (validate_s3_target_iff bucket key s.s3_bucket s.s3_prefix).0 target,
                ap (λ x. contents x bucket key) (sym (ap (λ r. r.1) last))
                    ∙ (ap (λ r. contents r.1 bucket key) (sym saving)
                        ∙ save_s3_object_if_absent-holds host.s3 contents L.store bucket key body v
                            (ap (λ r. r.0) saving)),
              )

  -- On a lawful host, where a request to save an object is answered with Saved, the broker is in
  -- init-key mode, the key is below the configured prefix in the configured bucket, and S3 holds
  -- exactly that body under it.
  pub respond_saved_holds :
      (allowed peer : Option ℕ) (bucket key : Str) (body : Bytes) (w w' : W)
      → respond host providers s allowed peer (ok (save_object_if_absent bucket key body)) w
        ≡ (ok saved, w')
      → (s.startup_mode ≡ init_key)
        × IsBelow bucket key s.s3_bucket s.s3_prefix
        × (contents w' bucket key ≡ some body)
  unfolding answer_request dispatch
  respond_saved_holds allowed peer bucket key body w w' h =
      let (v, kept, e) =
        respond-dispatch allowed peer (save_object_if_absent bucket key body) saved w w' (λ m d. cc)
          refl h in
      save_answer bucket key body v w' e
