-- ===== src/S3.antt =====
-- The S3 operations of the broker: `load_s3_object` and `save_s3_object_if_absent`
-- (src/key_material.rs). The S3 client is that of the crate aws_sdk_s3.
pub mod Runs
pub mod Store
pub mod Conditional
pub mod Program
pub mod Untouched
pub mod Interleaving
use aws_kms_demo.Base.{
  ℕ, zero, suc, ◌+◌, ◌*◌, Str, Bytes, txt, Result, ok, err, panic, Option, none, some, Bool, true,
  false, ltb, ◌==◌, list_eq, List, ◌++◌, if◌then◌else◌,
}
use aws_kms_demo.Text.Number.{to_string}
use aws_kms_demo.Effects.{M, ◌>>=◌, ◌>>◌, pure, lift, raise, and_then}

abbrev pub s3_operation_max_attempts : ℕ
s3_operation_max_attempts = 4

-- How `send` ends for a GetObject: the body is read by `collect`, which may fail; the texts are
-- those of the errors.
pub data GetOutcome : Type 0 where
  got : Result Bytes → GetOutcome
  no_such_key : GetOutcome
  get_dispatch_failure : Str → GetOutcome
  get_failure : Str → GetOutcome

-- How `send` ends for a PutObject: a service error has an HTTP status, a code and a message.
pub data PutOutcome : Type 0 where
  put : PutOutcome
  put_service_error : ℕ → Option Str → Option Str → PutOutcome
  put_dispatch_failure : Str → PutOutcome
  put_failure : Str → PutOutcome

-- `put_object` is sent with `if_none_match("*")`; `sleep` waits for milliseconds.
pub record S3Client (W : Type 0) : Type 0 where
  pub get_object : Str → Str → W → GetOutcome × W
  pub put_object_if_none_match : Str → Str → Bytes → W → PutOutcome × W
  pub sleep : ℕ → W → W

s3_name : Str → Str → Str
s3_name bucket key = txt "s3://" ++ (bucket ++ (txt "/" ++ key))

conflict : Str → Str → Str
unfolding s3_name
conflict bucket key =
    txt "conditional S3 write refused because "
    ++ (s3_name bucket key ++ txt " already exists with different content (HTTP 412)")

failed : Str → Str → Str → Str
unfolding s3_name
failed bucket key why =
    txt "conditional S3 write failed for " ++ (s3_name bucket key ++ (txt ": " ++ why))

or_unknown : Option Str → Str
or_unknown none = txt "unknown"
or_unknown (some s) = s

service_text : ℕ → Option Str → Option Str → Str
unfolding or_unknown
service_text status code message =
    txt "HTTP "
    ++ (to_string status
        ++ (txt ", code=" ++ (or_unknown code ++ (txt ", message=" ++ or_unknown message))))

-- `existing.as_deref() == Some(expected_body)`
unfoldable pub is_body : Option Bytes → Bytes → Bool
is_body none expected = false
is_body (some b) expected = list_eq b expected

module _ {W : Type 0} (s3 : S3Client W) where
  unfoldable pub sleep_before_s3_retry : ℕ → W → W
  sleep_before_s3_retry attempt = s3.sleep (250 * attempt)

  module _ (bucket key : Str) where
    -- One round of the loop of `load_s3_object`, with what follows a retry.
    unfoldable pub load_round :
        ℕ → (W → Result (Option Bytes) × W) → GetOutcome × W → Result (Option Bytes) × W
    load_round attempt again (got (ok body), w) = (ok (some body), w)
    load_round attempt again (got (err e), w) = (err e, w)
    load_round attempt again (got (panic e), w) = (panic e, w)
    load_round attempt again (no_such_key, w) = (ok none, w)
    load_round attempt again (get_dispatch_failure e, w) =
        if ltb attempt s3_operation_max_attempts
        then again (sleep_before_s3_retry attempt w)
        else (err e, w)
    load_round attempt again (get_failure e, w) = (err e, w)

    -- `for attempt in attempt..=…`, with the rounds that are left.
    unfoldable pub load_attempts : ℕ → ℕ → M W (Option Bytes)
    unfolding load_round
    load_attempts zero attempt w = (panic (txt "S3 GetObject retry loop always returns"), w)
    load_attempts (suc n) attempt w =
        load_round attempt (load_attempts n (attempt + 1)) (s3.get_object bucket key w)

    unfoldable pub load_s3_object : M W (Option Bytes)
    unfolding load_attempts
    load_s3_object = load_attempts s3_operation_max_attempts 1

    -- The body that is there decides a refused conditional write.
    unfoldable pub resolve_conflict : Bytes → M W (Unit {0})
    unfolding conflict is_body
    resolve_conflict body = do
      existing ← load_s3_object
      lift (if is_body existing body then ok tt else err (conflict bucket key))

    unfoldable pub save_round :
        Bytes → ℕ → (W → Result (Unit {0}) × W) → PutOutcome × W → Result (Unit {0}) × W
    unfolding failed service_text
    save_round body attempt again (put, w) = (ok tt, w)
    save_round body attempt again (put_service_error status code message, w) =
        if status == 412
        then resolve_conflict body w
        else (err (failed bucket key (service_text status code message)), w)
    save_round body attempt again (put_dispatch_failure e, w) =
        if ltb attempt s3_operation_max_attempts
        then again (sleep_before_s3_retry attempt w)
        else (err (failed bucket key e), w)
    save_round body attempt again (put_failure e, w) = (err (failed bucket key e), w)

    unfoldable pub save_attempts : Bytes → ℕ → ℕ → M W (Unit {0})
    unfolding save_round
    save_attempts body zero attempt w = (panic (txt "S3 PutObject retry loop always returns"), w)
    save_attempts body (suc n) attempt w =
        save_round body attempt (save_attempts body n (attempt + 1))
          (s3.put_object_if_none_match bucket key body w)

    unfoldable pub save_s3_object_if_absent : Bytes → M W (Unit {0})
    unfolding save_attempts
    save_s3_object_if_absent body = save_attempts body s3_operation_max_attempts 1
