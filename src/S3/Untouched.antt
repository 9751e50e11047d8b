-- ===== src/S3/Untouched.antt =====
-- What the S3 client leaves as it is, the operations over it do too (src/key_material.rs).
use aws_kms_demo.Base.{
  ℕ, zero, suc, ◌+◌, ◌*◌, ◌==◌, Str, Bytes, Result, ok, err, panic, Option, Bool-cases, ltb, ◌≡◌,
  refl, ◌∙◌, inl, inr,
}
use aws_kms_demo.Effects.{Keeps, bind-Keeps}
use aws_kms_demo.S3.{
  S3Client, GetOutcome, got, no_such_key, get_dispatch_failure, get_failure, PutOutcome, put,
  put_service_error, put_dispatch_failure, put_failure, load_round, load_attempts, load_s3_object,
  resolve_conflict, save_round, save_attempts, save_s3_object_if_absent, sleep_before_s3_retry,
}

-- The client's requests and pauses leave what the view shows.
pub record IsUntouched {W C : Type 0} (s3 : S3Client W) (view : W → C) : Type 0 where
  pub gets : (bucket key : Str) (w : W) → view (s3.get_object bucket key w).1 ≡ view w
  pub puts :
      (bucket key : Str) (body : Bytes) (w : W)
      → view (s3.put_object_if_none_match bucket key body w).1 ≡ view w
  pub sleeps : (n : ℕ) (w : W) → view (s3.sleep n w) ≡ view w

module _ {W C : Type 0} (s3 : S3Client W) (view : W → C) (U : IsUntouched s3 view)
    (bucket key : Str) where
  load_round-Keeps :
      (attempt : ℕ) (again : W → Result (Option Bytes) × W) (r : GetOutcome × W)
      → Keeps view again
      → view (load_round s3 bucket key attempt again r).1 ≡ view r.1
  unfolding load_round sleep_before_s3_retry
  load_round-Keeps attempt again (got (ok body), w) h = refl
  load_round-Keeps attempt again (got (err e), w) h = refl
  load_round-Keeps attempt again (got (panic e), w) h = refl
  load_round-Keeps attempt again (no_such_key, w) h = refl
  load_round-Keeps attempt again (get_dispatch_failure e, w) h = elim (Bool-cases (ltb attempt 4)) [
    | inl early ↦ rw early (h (s3.sleep (250 * attempt) w) ∙ U.sleeps (250 * attempt) w)
    | inr last ↦ rw last
  ]
  load_round-Keeps attempt again (get_failure e, w) h = refl

  load_attempts-Keeps : (n attempt : ℕ) → Keeps view (load_attempts s3 bucket key n attempt)
  unfolding load_attempts
  load_attempts-Keeps zero attempt w = refl
  load_attempts-Keeps (suc n) attempt w =
      load_round-Keeps attempt (load_attempts s3 bucket key n (attempt + 1))
        (s3.get_object bucket key w) (load_attempts-Keeps n (attempt + 1))
      ∙ U.gets bucket key w

  pub load_s3_object-Keeps : Keeps view (load_s3_object s3 bucket key)
  unfolding load_s3_object
  load_s3_object-Keeps = load_attempts-Keeps 4 1

  resolve_conflict-Keeps : (body : Bytes) → Keeps view (resolve_conflict s3 bucket key body)
  unfolding resolve_conflict
  resolve_conflict-Keeps body =
      bind-Keeps {B = Unit} view (load_s3_object s3 bucket key) _ load_s3_object-Keeps
        (λ existing w. refl)

  save_round-Keeps :
      (body : Bytes) (attempt : ℕ) (again : W → Result (Unit {0}) × W) (r : PutOutcome × W)
      → Keeps view again
      → view (save_round s3 bucket key body attempt again r).1 ≡ view r.1
  unfolding save_round sleep_before_s3_retry
  save_round-Keeps body attempt again (put, w) h = refl
  save_round-Keeps body attempt again (put_service_error status code message, w) h =
      elim (Bool-cases (status == 412)) [
        | inl conflicts ↦ rw conflicts (resolve_conflict-Keeps body w)
        | inr other ↦ rw other
      ]
  save_round-Keeps body attempt again (put_dispatch_failure e, w) h =
      elim (Bool-cases (ltb attempt 4)) [
        | inl early ↦ rw early (h (s3.sleep (250 * attempt) w) ∙ U.sleeps (250 * attempt) w)
        | inr last ↦ rw last
      ]
  save_round-Keeps body attempt again (put_failure e, w) h = refl

  save_attempts-Keeps :
      (body : Bytes) (n attempt : ℕ) → Keeps view (save_attempts s3 bucket key body n attempt)
  unfolding save_attempts
  save_attempts-Keeps body zero attempt w = refl
  save_attempts-Keeps body (suc n) attempt w =
      save_round-Keeps body attempt (save_attempts s3 bucket key body n (attempt + 1))
        (s3.put_object_if_none_match bucket key body w) (save_attempts-Keeps body n (attempt + 1))
      ∙ U.puts bucket key body w

  pub save_s3_object_if_absent-Keeps :
      (body : Bytes) → Keeps view (save_s3_object_if_absent s3 bucket key body)
  unfolding save_s3_object_if_absent
  save_s3_object_if_absent-Keeps body = save_attempts-Keeps body 4 1
