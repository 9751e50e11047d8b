-- ===== src/S3/Store.antt =====
-- The store behind the S3 client, as far as src/key_material.rs relies on it.
use aws_kms_demo.Base.{
  ℕ, Str, Bytes, ok, Option, none, some, ◌&&◌, list_eq, list_eq_refl, ◌≡◌, sym, ap, ◌∙◌,
  if◌then◌else◌, ◌⊎◌, inl, inr,
}
use aws_kms_demo.S3.{S3Client, got, no_such_key, put, put_service_error}

-- The objects of all buckets.
abbrev pub Contents : Type 0
Contents = Str → Str → Option Bytes

abbrev pub update : Contents → Str → Str → Bytes → Contents
update c bucket key body b k = if list_eq b bucket && list_eq k key then some body else c b k

pub update_self :
    (c : Contents) (bucket key : Str) (body : Bytes)
    → update c bucket key body bucket key ≡ some body
update_self c bucket key body = rw (list_eq_refl bucket, list_eq_refl key)

-- A conditional write of one object: nothing is changed, or an absent object is created.
abbrev pub Written : Str → Str → Bytes → Contents → Contents → Type 0
Written bucket key body before after =
    (after ≡ before) ⊎ ((before bucket key ≡ none) × (after ≡ update before bucket key body))

-- What the code relies on in S3, with no other writer at work: a read is exact and changes nothing,
-- a write with `If-None-Match: *` that succeeds has created the object, one that is refused by the
-- service has changed nothing, and one whose connection failed may have gone either way.
pub record IsConditionalStore {W : Type 0} (s3 : S3Client W) (contents : W → Contents)
    : Type 0 where
  pub get_keeps : (b k : Str) (w : W) → contents (s3.get_object b k w).1 ≡ contents w
  pub get_exact :
      (b k : Str) (w : W) (body : Bytes)
      → (s3.get_object b k w).0 ≡ got (ok body)
      → contents w b k ≡ some body
  pub get_absent :
      (b k : Str) (w : W) → (s3.get_object b k w).0 ≡ no_such_key → contents w b k ≡ none
  pub sleep_keeps : (n : ℕ) (w : W) → contents (s3.sleep n w) ≡ contents w
  pub put_created :
      (b k : Str) (body : Bytes) (w : W)
      → (s3.put_object_if_none_match b k body w).0 ≡ put
      → (contents w b k ≡ none)
        × (contents (s3.put_object_if_none_match b k body w).1 ≡ update (contents w) b k body)
  pub put_refused :
      (b k : Str) (body : Bytes) (w : W) (status : ℕ) (code message : Option Str)
      → (s3.put_object_if_none_match b k body w).0 ≡ put_service_error status code message
      → contents (s3.put_object_if_none_match b k body w).1 ≡ contents w
  pub put_unclear :
      (b k : Str) (body : Bytes) (w : W)
      → Written b k body (contents w) (contents (s3.put_object_if_none_match b k body w).1)

pub Written-trans :
    (bucket key : Str) (body : Bytes) (a b c : Contents)
    → Written bucket key body a b
    → Written bucket key body b c
    → Written bucket key body a c
Written-trans bucket key body a b c (inl p) (inl q) = inl (q ∙ p)
Written-trans bucket key body a b c (inl p) (inr (q, r)) =
    inr (ap (λ f. f bucket key) (sym p) ∙ q, r ∙ ap (λ f. update f bucket key body) p)
Written-trans bucket key body a b c (inr (p, q)) (inl r) = inr (p, r ∙ q)
Written-trans bucket key body a b c (inr (p, q)) (inr (r, s)) =
    let held : b bucket key ≡ some body =
      ap (λ f. f bucket key) q ∙ update_self a bucket key body in
    absurd (cc)
