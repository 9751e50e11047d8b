-- ===== src/Broker/Target.antt =====
-- `validate_s3_target` and the credential tables (src/lib.rs).
use aws_kms_demo.Base.{
  Str, txt, ok, true, list_eq_iff, list_eq_refl, ◌++◌, append_assoc, ◌≡◌, ◌↔◌, ap, sym, ◌∙◌, arith,
}
use aws_kms_demo.Text.{starts_with}
use aws_kms_demo.Text.Prefix.{starts_with_append, starts_with_sound}
use aws_kms_demo.Broker.{validate_s3_target}

-- An object below the prefix in the bucket.
abbrev pub IsBelow : Str → Str → Str → Str → Type 0
IsBelow bucket key allowed_bucket allowed_prefix =
    (bucket ≡ allowed_bucket) × ((rest : Str) × (key ≡ allowed_prefix ++ (txt "/" ++ rest)))

validate_s3_target_parts :
    (bucket key allowed_bucket allowed_prefix : Str)
    → validate_s3_target bucket key allowed_bucket allowed_prefix ≡ ok tt
    → (bucket ≡ allowed_bucket) × (starts_with key (allowed_prefix ++ txt "/") ≡ true)
unfolding validate_s3_target
validate_s3_target_parts bucket key allowed_bucket allowed_prefix h =
    ground (arith, list_eq_iff bucket allowed_bucket)

-- validate_s3_target accepts a bucket and key exactly when the bucket is the allowed one and the
-- key is the allowed prefix, a slash and some rest.
pub validate_s3_target_iff :
    (bucket key allowed_bucket allowed_prefix : Str)
    → (validate_s3_target bucket key allowed_bucket allowed_prefix ≡ ok tt)
      ↔ IsBelow bucket key allowed_bucket allowed_prefix
unfolding validate_s3_target
validate_s3_target_iff bucket key allowed_bucket allowed_prefix = (
  λ h.
      let (same, under) = validate_s3_target_parts bucket key allowed_bucket allowed_prefix h in
      let (rest, e) = starts_with_sound key (allowed_prefix ++ txt "/") under in
      (same, (rest, e ∙ append_assoc allowed_prefix (txt "/") rest)),
  λ (same, (rest, e)).
      let under : starts_with key (allowed_prefix ++ txt "/") ≡ true =
        ap (λ k. starts_with k (allowed_prefix ++ txt "/"))
          (e ∙ sym (append_assoc allowed_prefix (txt "/") rest))
        ∙ starts_with_append (allowed_prefix ++ txt "/") rest in
      rw (under, same, list_eq_refl allowed_bucket),
)
