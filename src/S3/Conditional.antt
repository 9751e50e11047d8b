-- ===== src/S3/Conditional.antt =====
-- `save_s3_object_if_absent` (src/key_material.rs) over a store with conditional writes: it never
-- overwrites, and a reported success means that the store holds the body.
use aws_kms_demo.Base.{
  ℕ, zero, suc, ◌+◌, ◌*◌, Str, Bytes, Result, ok, err, panic, Option, none, some, true, ltb, ◌==◌,
  list_eq_iff, ◌≡◌, refl, sym, ap, ◌∙◌, subst, arith, if◌then◌else◌, Bool-cases, inl, inr,
}
use aws_kms_demo.Effects.{and_then}
use aws_kms_demo.S3.{
  S3Client, GetOutcome, got, no_such_key, get_dispatch_failure, get_failure, PutOutcome, put,
  put_service_error, put_dispatch_failure, put_failure, load_s3_object, save_attempts, save_round,
  save_s3_object_if_absent, resolve_conflict, is_body, sleep_before_s3_retry,
}
use aws_kms_demo.S3.Runs.{Run, settled, exhausted, retried, answer, load_s3_object_runs}
use aws_kms_demo.S3.Store.{
  Contents, update, update_self, Written, Written-trans, IsConditionalStore,
}

answer_body : (o : GetOutcome) (body : Bytes) → answer o ≡ ok (some body) → o ≡ got (ok body)
answer_body (got (ok b)) body h = cc
answer_body (got (err e)) body h = cc
answer_body (got (panic e)) body h = cc
answer_body no_such_key body h = cc
answer_body (get_dispatch_failure e) body h = cc
answer_body (get_failure e) body h = cc

module _ {W : Type 0} (s3 : S3Client W) (contents : W → Contents)
    (L : IsConditionalStore s3 contents) (bucket key : Str) where
  Run-keeps :
      {attempt : ℕ} {w w' : W} {o : GetOutcome}
      → Run s3 bucket key attempt w o w'
      → contents w' ≡ contents w
  Run-keeps {w} (settled e _) = sym (ap (λ r. contents r.1) e) ∙ L.get_keeps bucket key w
  Run-keeps {w} (exhausted e _) = sym (ap (λ r. contents r.1) e) ∙ L.get_keeps bucket key w
  Run-keeps {w} (retried {attempt} {v} e _ run) =
      Run-keeps run
      ∙ (L.sleep_keeps (250 * attempt) v
          ∙ (sym (ap (λ r. contents r.1) e) ∙ L.get_keeps bucket key w))

  Run-exact :
      {attempt : ℕ} {w w' : W} {o : GetOutcome} (body : Bytes)
      → Run s3 bucket key attempt w o w'
      → answer o ≡ ok (some body)
      → contents w' bucket key ≡ some body
  Run-exact {attempt} {w} body (settled {o} e f) a =
      ap (λ c. c bucket key) (Run-keeps {attempt = attempt} (settled e f))
      ∙ L.get_exact bucket key w body (ap (λ r. r.0) e ∙ answer_body o body a)
  Run-exact body (exhausted e _) a = cc
  Run-exact body (retried e _ run) a = Run-exact body run a

  -- A load changes nothing, and returns a body only where the store holds it.
  pub load_keeps : (w : W) → contents (load_s3_object s3 bucket key w).1 ≡ contents w
  load_keeps w =
      let (o, w', run, e) = load_s3_object_runs s3 bucket key w in
      ap (λ r. contents r.1) e ∙ Run-keeps run

  pub load_exact :
      (w : W) (body : Bytes)
      → (load_s3_object s3 bucket key w).0 ≡ ok (some body)
      → contents w bucket key ≡ some body
  load_exact w body h =
      let (o, w', run, e) = load_s3_object_runs s3 bucket key w in
      sym (ap (λ c. c bucket key) (Run-keeps run)) ∙ Run-exact body run (sym (ap (λ r. r.0) e) ∙ h)

  abbrev pub Saved : Bytes → W → Result (Unit {0}) × W → Type 0
  Saved body w r =
      Written bucket key body (contents w) (contents r.1)
      × (r.0 ≡ ok tt → contents r.1 bucket key ≡ some body)

  is_body_sound : (o : Option Bytes) (body : Bytes) → is_body o body ≡ true → o ≡ some body
  unfolding is_body
  is_body_sound none body h = cc
  is_body_sound (some b) body h = ground (arith, list_eq_iff b body)

  conclude-Saved :
      (body : Bytes) (message : Str) (w : W) (r : Result (Option Bytes) × W)
      → contents r.1 ≡ contents w
      → ((b : Bytes) → r.0 ≡ ok (some b) → contents w bucket key ≡ some b)
      → Saved body w
          (and_then r (λ found v. (if is_body found body then ok tt else err message, v)))
  conclude-Saved body message w (ok found, v) keeps exact = elim (Bool-cases (is_body found body)) [
    | inl same ↦ rw (same) (
      inl keeps,
      λ _.
          ap (λ c. c bucket key) keeps
          ∙ exact body (ap (λ o. ok o) (is_body_sound found body same)),
    )
    | inr other ↦ rw (other) (inl keeps, λ h. cc)
  ]
  conclude-Saved body message w (err m, v) keeps exact = (inl keeps, λ h. cc)
  conclude-Saved body message w (panic m, v) keeps exact = (inl keeps, λ h. cc)

  resolve_conflict-Saved :
      (body : Bytes) (w : W) → Saved body w (resolve_conflict s3 bucket key body w)
  unfolding resolve_conflict
  resolve_conflict-Saved body w =
      conclude-Saved body _ w (load_s3_object s3 bucket key w) (load_keeps w) (load_exact w)

  -- What a computation guarantees from a world with other contents before it.
  Saved-after :
      (body : Bytes) (w v : W) (r : Result (Unit {0}) × W)
      → Written bucket key body (contents w) (contents v)
      → Saved body v r
      → Saved body w r
  Saved-after body w v r first (second, sound) =
      (Written-trans bucket key body _ _ _ first second, sound)

  save_round-Saved :
      (body : Bytes) (attempt : ℕ) (again : W → Result (Unit {0}) × W) (w : W) (r : PutOutcome × W)
      → s3.put_object_if_none_match bucket key body w ≡ r
      → ((v : W) → Saved body v (again v))
      → Saved body w (save_round s3 bucket key body attempt again r)
  unfolding save_round sleep_before_s3_retry
  save_round-Saved body attempt again w (put, v) e later =
      let (absent, made) = L.put_created bucket key body w (ap (λ r. r.0) e) in
      let after : contents v ≡ update (contents w) bucket key body =
        sym (ap (λ r. contents r.1) e) ∙ made in
      (
        inr (absent, after),
        λ _. ap (λ c. c bucket key) after ∙ update_self (contents w) bucket key body,
      )
  save_round-Saved body attempt again w (put_service_error status code message, v) e later =
      let same : contents v ≡ contents w =
        sym (ap (λ r. contents r.1) e)
        ∙ L.put_refused bucket key body w status code message (ap (λ r. r.0) e) in
      elim (Bool-cases (status == 412)) [
        | inl conflicts ↦
            rw (conflicts) (Saved-after body w v _ (inl same) (resolve_conflict-Saved body v))
        | inr fails ↦ rw (fails) (inl same, λ h. cc)
      ]
  save_round-Saved body attempt again w (put_dispatch_failure m, v) e later =
      let first : Written bucket key body (contents w) (contents v) =
        subst (λ (r : PutOutcome × W). Written bucket key body (contents w) (contents r.1)) e
          (L.put_unclear bucket key body w) in
      elim (Bool-cases (ltb attempt 4)) [
        | inl early ↦ rw (early) (
            Saved-after body w v _ first (
              Saved-after body v (s3.sleep (250 * attempt) v) _
                (inl (L.sleep_keeps (250 * attempt) v)) (later (s3.sleep (250 * attempt) v))))
        | inr last ↦ rw (last) (first, λ h. cc)
      ]
  save_round-Saved body attempt again w (put_failure m, v) e later = (
    subst (λ (r : PutOutcome × W). Written bucket key body (contents w) (contents r.1)) e
        (L.put_unclear bucket key body w),
    λ h. cc,
  )

  save_attempts-Saved :
      (body : Bytes) (n attempt : ℕ) (w : W)
      → Saved body w (save_attempts s3 bucket key body n attempt w)
  unfolding save_attempts
  save_attempts-Saved body zero attempt w = (inl refl, λ h. cc)
  save_attempts-Saved body (suc n) attempt w =
      save_round-Saved body attempt (save_attempts s3 bucket key body n (attempt + 1)) w
        (s3.put_object_if_none_match bucket key body w) refl
        (λ v. save_attempts-Saved body n (attempt + 1) v)

  save_sound : (body : Bytes) (w : W) → Saved body w (save_s3_object_if_absent s3 bucket key body w)
  unfolding save_s3_object_if_absent
  save_sound body w = save_attempts-Saved body 4 1 w

  -- On a conditional store, save_s3_object_if_absent leaves the contents as they were or creates
  -- the one object with the whole body where it was absent, whatever connections fail and however
  -- it ends.
  pub save_s3_object_if_absent-Written :
      (body : Bytes) (w : W)
      → Written bucket key body
          (contents w)
          (contents (save_s3_object_if_absent s3 bucket key body w).1)
  save_s3_object_if_absent-Written body w = (save_sound body w).0

  -- On a conditional store, where save_s3_object_if_absent reports success the store holds the
  -- body under the key, be it written by this call, by an attempt whose connection failed, or
  -- before.
  pub save_s3_object_if_absent-holds :
      (body : Bytes) (w : W)
      → (save_s3_object_if_absent s3 bucket key body w).0 ≡ ok tt
      → contents (save_s3_object_if_absent s3 bucket key body w).1 bucket key ≡ some body
  save_s3_object_if_absent-holds body w = (save_sound body w).1
