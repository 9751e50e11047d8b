-- ===== src/S3/Runs.antt =====
-- The retry loop of `load_s3_object` (src/key_material.rs) against the runs that it may make.
use aws_kms_demo.Base.{
  ℕ, zero, suc, ◌+◌, ◌*◌, ◌<◌, ◌≤◌, Str, Bytes, Result, ok, err, panic, Option, none, some, ltb,
  ◌≡◌, refl, arith, Bool-cases, inl, inr,
}
use aws_kms_demo.S3.{
  S3Client, GetOutcome, got, no_such_key, get_dispatch_failure, get_failure, load_attempts,
  load_s3_object, load_round, sleep_before_s3_retry,
}

-- The outcomes that end a load at once.
abbrev pub IsFinal : GetOutcome → Type 0
IsFinal (get_dispatch_failure e) = ⊥
IsFinal _ = Unit

-- What the caller gets for the last outcome.
abbrev pub answer : GetOutcome → Result (Option Bytes)
answer (got (ok body)) = ok (some body)
answer (got (err e)) = err e
answer (got (panic e)) = panic e
answer no_such_key = ok none
answer (get_dispatch_failure e) = err e
answer (get_failure e) = err e

module _ {W : Type 0} (s3 : S3Client W) (bucket key : Str) where
  -- The requests from an attempt on: connection failures, each with a pause behind it, then either
  -- an outcome that is final, or a connection failure at attempt 4.
  pub data Run : ℕ → W → GetOutcome → W → Type 0 where
    settled :
        {attempt : ℕ} {w w' : W} {o : GetOutcome}
        → s3.get_object bucket key w ≡ (o, w')
        → IsFinal o
        → Run attempt w o w'
    exhausted :
        {attempt : ℕ} {w w' : W} {e : Str}
        → s3.get_object bucket key w ≡ (get_dispatch_failure e, w')
        → 4 ≤ attempt
        → Run attempt w (get_dispatch_failure e) w'
    retried :
        {attempt : ℕ} {w v w' : W} {e : Str} {o : GetOutcome}
        → s3.get_object bucket key w ≡ (get_dispatch_failure e, v)
        → attempt < 4
        → Run (attempt + 1) (s3.sleep (250 * attempt) v) o w'
        → Run attempt w o w'

  abbrev Ended : ℕ → ℕ → W → Type 0
  Ended n attempt w =
      (o : GetOutcome) × (w' : W) × Run attempt w o w'
      × (load_attempts s3 bucket key n attempt w ≡ (answer o, w'))

  load_attempts_runs : (n attempt : ℕ) (w : W) → attempt + n ≡ 5 → 0 < n → Ended n attempt w
  unfolding load_round load_attempts sleep_before_s3_retry
  load_attempts_runs zero attempt w total pos = absurd (omega arith)
  load_attempts_runs (suc n) attempt w total pos =
      go (λ v more. load_attempts_runs n (attempt + 1) v (omega arith) more)
        (s3.get_object bucket key w) refl
    where
      go :
          ((v : W) → 0 < n → Ended n (attempt + 1) v)
          → (r : GetOutcome × W) → s3.get_object bucket key w ≡ r
          → Ended (suc n) attempt w
      go later (got (ok body), w') e = (got (ok body), w', settled e tt, rw (e, load_attempts))
      go later (got (err m), w') e = (got (err m), w', settled e tt, rw (e, load_attempts))
      go later (got (panic m), w') e = (got (panic m), w', settled e tt, rw (e, load_attempts))
      go later (no_such_key, w') e = (no_such_key, w', settled e tt, rw (e, load_attempts))
      go later (get_failure m, w') e = (get_failure m, w', settled e tt, rw (e, load_attempts))
      go later (get_dispatch_failure m, v) e = elim (Bool-cases (ltb attempt 4)) [
        | inl early ↦
            let (o, w', run, same) = later (s3.sleep (250 * attempt) v) (ground arith) in
            (o, w', retried e (ground arith) run, rw (e, load_round, early) same)
        | inr last ↦
            (get_dispatch_failure m, v, exhausted e (ground arith), rw (e, load_round, last))
      ]

  -- From every world load_s3_object makes a run of requests that begins at attempt 1, repeats only
  -- after a connection failure at an attempt below 4 and a pause of 250 milliseconds times the
  -- attempt, and returns what the last outcome says: the body, none for a missing key, or the
  -- error.
  pub load_s3_object_runs :
      (w : W)
      → (o : GetOutcome) × (w' : W) × Run 1 w o w'
        × (load_s3_object s3 bucket key w ≡ (answer o, w'))
  unfolding load_s3_object
  load_s3_object_runs w = load_attempts_runs 4 1 w (omega arith) (omega arith)
