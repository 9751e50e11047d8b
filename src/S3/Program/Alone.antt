-- ===== src/S3/Program/Alone.antt =====
-- A program alone on its client is the function of src/key_material.rs.
use aws_kms_demo.Base.{
  ℕ, zero, suc, ◌+◌, Str, Bytes, Result, ok, err, panic, Option, Bool-cases, ltb, ◌==◌,
  if◌then◌else◌, ◌≡◌, refl, ◌∙◌, ◌*◌, inl, inr,
}
use aws_kms_demo.Effects.{and_then}
use aws_kms_demo.S3.{
  S3Client, GetOutcome, got, no_such_key, get_dispatch_failure, get_failure, PutOutcome, put,
  put_service_error, put_dispatch_failure, put_failure, load_round, load_attempts, load_s3_object,
  resolve_conflict, save_round, save_attempts, save_s3_object_if_absent, sleep_before_s3_retry,
  conflict, is_body,
}
use aws_kms_demo.S3.Program.{
  Program, run, after_get, load_program, after_load, after_put, attempts_program, save_program,
}

module _ {W : Type 0} (s3 : S3Client W) (bucket key : Str) where
  abbrev Continues :
      (Result (Option Bytes) → Program) → Result (Option Bytes) × W → Result (Unit {0}) × W
  Continues done r = run s3 (done r.0) r.1

  run-after_get :
      (attempt : ℕ) (again : Program) (done : Result (Option Bytes) → Program)
      (next : W → Result (Option Bytes) × W) (o : GetOutcome) (v : W)
      → ((x : W) → run s3 again x ≡ Continues done (next x))
      → run s3 (after_get bucket key attempt again done o) v
        ≡ Continues done (load_round s3 bucket key attempt next (o, v))
  unfolding run after_get load_round sleep_before_s3_retry
  run-after_get attempt again done next (got (ok body)) v h = refl
  run-after_get attempt again done next (got (err e)) v h = refl
  run-after_get attempt again done next (got (panic e)) v h = refl
  run-after_get attempt again done next no_such_key v h = refl
  run-after_get attempt again done next (get_dispatch_failure e) v h =
      elim (Bool-cases (ltb attempt 4)) [
        | inl early ↦ rw early (h (s3.sleep (250 * attempt) v))
        | inr last ↦ rw last
      ]
  run-after_get attempt again done next (get_failure e) v h = refl

  run-load_program :
      (n attempt : ℕ) (done : Result (Option Bytes) → Program) (w : W)
      → run s3 (load_program bucket key n attempt done) w
        ≡ Continues done (load_attempts s3 bucket key n attempt w)
  unfolding run load_program load_attempts
  run-load_program zero attempt done w = refl
  run-load_program (suc n) attempt done w =
      run-after_get attempt (load_program bucket key n (attempt + 1) done) done
        (load_attempts s3 bucket key n (attempt + 1)) (s3.get_object bucket key w).0
        (s3.get_object bucket key w).1 (run-load_program n (attempt + 1) done)

  run-after_load :
      (body : Bytes) (r : Result (Option Bytes) × W)
      → run s3 (after_load bucket key body r.0) r.1
        ≡ and_then r
            (λ existing v. (if is_body existing body then ok tt else err (conflict bucket key), v))
  unfolding run after_load
  run-after_load body (ok existing, v) = refl
  run-after_load body (err e, v) = refl
  run-after_load body (panic e, v) = refl

  run-conflict :
      (body : Bytes) (v : W)
      → run s3 (load_program bucket key 4 1 (after_load bucket key body)) v
        ≡ resolve_conflict s3 bucket key body v
  unfolding resolve_conflict load_s3_object
  run-conflict body v =
      run-load_program 4 1 (after_load bucket key body) v
      ∙ run-after_load body (load_attempts s3 bucket key 4 1 v)

  run-after_put :
      (body : Bytes) (attempt : ℕ) (again : Program) (next : W → Result (Unit {0}) × W)
      (o : PutOutcome) (v : W)
      → ((x : W) → run s3 again x ≡ next x)
      → run s3 (after_put bucket key body attempt again o) v
        ≡ save_round s3 bucket key body attempt next (o, v)
  unfolding run after_put save_round sleep_before_s3_retry
  run-after_put body attempt again next put v h = refl
  run-after_put body attempt again next (put_service_error status code message) v h =
      elim (Bool-cases (status == 412)) [
        | inl conflicts ↦ rw conflicts (run-conflict body v)
        | inr other ↦ rw other
      ]
  run-after_put body attempt again next (put_dispatch_failure e) v h =
      elim (Bool-cases (ltb attempt 4)) [
        | inl early ↦ rw early (h (s3.sleep (250 * attempt) v))
        | inr last ↦ rw last
      ]
  run-after_put body attempt again next (put_failure e) v h = refl

  run-attempts_program :
      (body : Bytes) (n attempt : ℕ) (w : W)
      → run s3 (attempts_program bucket key body n attempt) w
        ≡ save_attempts s3 bucket key body n attempt w
  unfolding run attempts_program save_attempts
  run-attempts_program body zero attempt w = refl
  run-attempts_program body (suc n) attempt w =
      run-after_put body attempt (attempts_program bucket key body n (attempt + 1))
        (save_attempts s3 bucket key body n (attempt + 1))
        (s3.put_object_if_none_match bucket key body w).0
        (s3.put_object_if_none_match bucket key body w).1
        (run-attempts_program body n (attempt + 1))

  -- The program of requests that the interleaved threads run, run alone on any client, has the
  -- result and the effects of save_s3_object_if_absent.
  pub run-save_program :
      (body : Bytes) (w : W)
      → run s3 (save_program bucket key body) w ≡ save_s3_object_if_absent s3 bucket key body w
  unfolding save_program save_s3_object_if_absent
  run-save_program body w = run-attempts_program body 4 1 w
