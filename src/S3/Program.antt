-- ===== src/S3/Program.antt =====
-- `save_s3_object_if_absent` (src/key_material.rs) by the requests that it sends, one after the
-- other, so that those of several threads can interleave.
pub mod Alone
use aws_kms_demo.Base.{
  ℕ, zero, suc, ◌+◌, ◌*◌, Str, Bytes, txt, Result, ok, err, panic, Option, none, some, Bool,
  Bool-cases, true, false, ltb, ◌==◌, if◌then◌else◌, ◌≡◌, refl, inl, inr,
}
use aws_kms_demo.Effects.{M, and_then}
use aws_kms_demo.S3.{
  S3Client, GetOutcome, got, no_such_key, get_dispatch_failure, get_failure, PutOutcome, put,
  put_service_error, put_dispatch_failure, put_failure, conflict, failed, service_text, is_body,
  s3_operation_max_attempts, load_round, load_attempts, load_s3_object, resolve_conflict,
  save_round, save_attempts, save_s3_object_if_absent, sleep_before_s3_retry,
}

-- A request with what follows each reply, a pause, or the result.
pub data Program : Type 0 where
  finished : Result (Unit {0}) → Program
  getting : Str → Str → (GetOutcome → Program) → Program
  putting : Str → Str → Bytes → (PutOutcome → Program) → Program
  sleeping : ℕ → Program → Program

module _ {W : Type 0} (s3 : S3Client W) where
  -- A program alone, on one client.
  unfoldable pub run : Program → M W (Unit {0})
  run (finished r) w = (r, w)
  run (getting bucket key next) w =
      run (next (s3.get_object bucket key w).0) (s3.get_object bucket key w).1
  run (putting bucket key body next) w =
      run (next (s3.put_object_if_none_match bucket key body w).0)
        (s3.put_object_if_none_match bucket key body w).1
  run (sleeping n next) w = run next (s3.sleep n w)

module _ (bucket key : Str) where
  -- `load_s3_object`, with what follows its result.
  unfoldable pub after_get : ℕ → Program → (Result (Option Bytes) → Program) → GetOutcome → Program
  after_get attempt again done (got (ok body)) = done (ok (some body))
  after_get attempt again done (got (err e)) = done (err e)
  after_get attempt again done (got (panic e)) = done (panic e)
  after_get attempt again done no_such_key = done (ok none)
  after_get attempt again done (get_dispatch_failure e) =
      if ltb attempt s3_operation_max_attempts then sleeping (250 * attempt) again else done (err e)
  after_get attempt again done (get_failure e) = done (err e)

  unfoldable pub load_program : ℕ → ℕ → (Result (Option Bytes) → Program) → Program
  unfolding after_get
  load_program zero attempt done = done (panic (txt "S3 GetObject retry loop always returns"))
  load_program (suc n) attempt done =
      getting bucket key (after_get attempt (load_program n (attempt + 1) done) done)

  unfoldable pub after_load : Bytes → Result (Option Bytes) → Program
  unfolding conflict is_body
  after_load body (ok existing) =
      finished (if is_body existing body then ok tt else err (conflict bucket key))
  after_load body (err e) = finished (err e)
  after_load body (panic e) = finished (panic e)

  unfoldable pub after_put : Bytes → ℕ → Program → PutOutcome → Program
  unfolding failed service_text load_program after_load
  after_put body attempt again put = finished (ok tt)
  after_put body attempt again (put_service_error status code message) =
      if status == 412
      then load_program s3_operation_max_attempts 1 (after_load body)
      else finished (err (failed bucket key (service_text status code message)))
  after_put body attempt again (put_dispatch_failure e) =
      if ltb attempt s3_operation_max_attempts
      then sleeping (250 * attempt) again
      else finished (err (failed bucket key e))
  after_put body attempt again (put_failure e) = finished (err (failed bucket key e))

  unfoldable pub attempts_program : Bytes → ℕ → ℕ → Program
  unfolding after_put
  attempts_program body zero attempt =
      finished (panic (txt "S3 PutObject retry loop always returns"))
  attempts_program body (suc n) attempt =
      putting bucket key body (after_put body attempt (attempts_program body n (attempt + 1)))

  unfoldable pub save_program : Bytes → Program
  unfolding attempts_program
  save_program body = attempts_program body s3_operation_max_attempts 1
