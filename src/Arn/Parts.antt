-- ===== src/Arn/Parts.antt =====
-- `kms_region_from_arn` and `kms_account_from_arn` (src/lib.rs) against the form of an ARN.
use aws_kms_demo.Base.{
  Str, txt, list_eq_iff, list_eq_refl, true, false, List, [], ◌∷◌, ◌++◌, ◌≡◌, ◌≢◌, ◌↔◌, refl, subst,
  Result, ok, err, panic, >>=-eq-ok, Returns, arith,
}
use aws_kms_demo.Text.{is_empty, starts_with}
use aws_kms_demo.Text.Split.{split, splitn, Lacks, split_cons, splitn_cons, splitn_inv}
use aws_kms_demo.Text.Prefix.{starts_with_append, starts_with_sound}
use aws_kms_demo.Arn.{kms_region_from_arn, kms_account_from_arn, region_of_parts}

region_of_parts_ok :
    (arn partition region account id : Str)
    → region ≢ []
    → account ≢ []
    → region_of_parts arn
        (txt "arn" ∷ partition ∷ txt "kms" ∷ region ∷ account ∷ (txt "key/" ++ id) ∷ [])
      ≡ ok region
unfolding region_of_parts is_empty
region_of_parts_ok arn partition [] account id p q = absurd (p refl)
region_of_parts_ok arn partition region [] id p q = absurd (q refl)
region_of_parts_ok arn partition (c ∷ region) (d ∷ account) id p q =
    rw (list_eq_refl (txt "arn"), list_eq_refl (txt "kms"), starts_with_append (txt "key/") id)

-- What the tests say of the parts that pass them.
record ArePassing (p0 p2 p3 p4 p5 region : Str) : Type 0 where
  scheme : p0 ≡ txt "arn"
  service : p2 ≡ txt "kms"
  same_region : p3 ≡ region
  some_region : p3 ≢ []
  some_account : p4 ≢ []
  key : starts_with p5 (txt "key/") ≡ true

is_empty-false : (s : Str) → is_empty s ≡ false → s ≢ []
unfolding is_empty
is_empty-false [] h = λ e. cc
is_empty-false (c ∷ s) h = λ e. cc

region_of_parts_inv :
    (arn p0 p1 p2 p3 p4 p5 region : Str)
    → region_of_parts arn (p0 ∷ p1 ∷ p2 ∷ p3 ∷ p4 ∷ p5 ∷ []) ≡ ok region
    → ArePassing p0 p2 p3 p4 p5 region
unfolding region_of_parts
region_of_parts_inv arn p0 p1 p2 p3 p4 p5 region h = record {
  scheme = ground (arith, list_eq_iff p0 (txt "arn"));
  service = ground (arith, list_eq_iff p2 (txt "kms"));
  same_region = ground arith;
  some_region = ground (arith, is_empty-false p3);
  some_account = ground (arith, is_empty-false p4);
  key = ground arith;
}

abbrev Accepted : Str → List Str → Str → Type 0
Accepted arn parts region =
    (p0 : Str) × (p1 : Str) × (p2 : Str) × (p3 : Str) × (p4 : Str) × (p5 : Str) × (parts
      ≡ p0 ∷ p1 ∷ p2 ∷ p3 ∷ p4 ∷ p5 ∷ [])
    × ArePassing p0 p2 p3 p4 p5 region

region_of_parts_sound :
    (arn : Str) (parts : List Str) (region : Str)
    → region_of_parts arn parts ≡ ok region
    → Accepted arn parts region
unfolding region_of_parts
region_of_parts_sound arn (p0 ∷ p1 ∷ p2 ∷ p3 ∷ p4 ∷ p5 ∷ []) region h =
    (p0, p1, p2, p3, p4, p5, refl, region_of_parts_inv arn p0 p1 p2 p3 p4 p5 region h)
region_of_parts_sound arn _ region h = cc

-- arn:<partition>:kms:<region>:<account>:key/<id>
pub record IsArn (arn partition region account id : Str) : Type 0 where
  pub whole :
      arn
      ≡ txt "arn"
        ++ b':'
          ∷ (partition
              ++ b':'
                ∷ (txt "kms" ++ b':' ∷ (region ++ b':' ∷ (account ++ b':' ∷ (txt "key/" ++ id)))))
  pub plain_partition : Lacks b':' partition
  pub plain_region : Lacks b':' region
  pub plain_account : Lacks b':' account
  pub some_region : region ≢ []
  pub some_account : account ≢ []

arn-Lacks : Lacks b':' (txt "arn")
unfolding txt
arn-Lacks = omega arith

kms-Lacks : Lacks b':' (txt "kms")
unfolding txt
kms-Lacks = omega arith

module _ {arn partition region account id : Str} (a : IsArn arn partition region account id) where
  splitn-IsArn :
      splitn 6 b':' arn
      ≡ txt "arn" ∷ partition ∷ txt "kms" ∷ region ∷ account ∷ (txt "key/" ++ id) ∷ []
  unfolding splitn
  splitn-IsArn = rw (
    a.whole,
    splitn_cons 4 b':' _ _ arn-Lacks,
    splitn_cons 3 b':' _ _ a.plain_partition,
    splitn_cons 2 b':' _ _ kms-Lacks,
    splitn_cons 1 b':' _ _ a.plain_region,
    splitn_cons 0 b':' _ _ a.plain_account,
  )

  split-IsArn :
      split b':' arn
      ≡ txt "arn" ∷ partition ∷ txt "kms" ∷ region ∷ account ∷ split b':' (txt "key/" ++ id)
  split-IsArn = rw (
    a.whole,
    split_cons b':' _ _ arn-Lacks,
    split_cons b':' _ _ a.plain_partition,
    split_cons b':' _ _ kms-Lacks,
    split_cons b':' _ _ a.plain_region,
    split_cons b':' _ _ a.plain_account,
  )

  pub kms_region_from_arn-IsArn : kms_region_from_arn arn ≡ ok region
  unfolding kms_region_from_arn
  kms_region_from_arn-IsArn =
      rw (splitn-IsArn, kms_region_from_arn)
        (region_of_parts_ok arn partition region account id a.some_region a.some_account)

  pub kms_account_from_arn-IsArn : kms_account_from_arn arn ≡ ok account
  unfolding kms_account_from_arn
  kms_account_from_arn-IsArn = rw (kms_region_from_arn-IsArn, split-IsArn)

splitn_last : (s p : Str) → splitn 1 b':' s ≡ p ∷ [] → s ≡ p
unfolding splitn
splitn_last s p h = cc

parts-IsArn :
    (arn p0 p1 p2 p3 p4 p5 region : Str)
    → splitn 6 b':' arn ≡ p0 ∷ p1 ∷ p2 ∷ p3 ∷ p4 ∷ p5 ∷ []
    → ArePassing p0 p2 p3 p4 p5 region
    → (id : Str) × IsArn arn p1 region p4 id
parts-IsArn arn p0 p1 p2 p3 p4 p5 region h a =
    let (r1, e1, _, h1) = splitn_inv 4 b':' arn p0 p1 _ h in
    let (r2, e2, free1, h2) = splitn_inv 3 b':' r1 p1 p2 _ h1 in
    let (r3, e3, _, h3) = splitn_inv 2 b':' r2 p2 p3 _ h2 in
    let (r4, e4, free3, h4) = splitn_inv 1 b':' r3 p3 p4 _ h3 in
    let (r5, e5, free4, h5) = splitn_inv 0 b':' r4 p4 p5 _ h4 in
    let e6 = splitn_last r5 p5 h5 in
    let (id, e7) = starts_with_sound p5 (txt "key/") a.key in
    (
      id,
      record {
        whole = cc (a.scheme, a.service, a.same_region);
        plain_partition = free1;
        plain_region = subst (Lacks b':') a.same_region free3;
        plain_account = free4;
        some_region = subst (λ r. r ≢ []) a.same_region a.some_region;
        some_account = a.some_account;
      },
    )

pub kms_region_from_arn_sound :
    (arn region : Str)
    → kms_region_from_arn arn ≡ ok region
    → (partition : Str) × (account : Str) × (id : Str) × IsArn arn partition region account id
unfolding kms_region_from_arn
kms_region_from_arn_sound arn region h =
    let (p0, p1, p2, p3, p4, p5, e, a) = region_of_parts_sound arn _ region h in
    let (id, is_arn) = parts-IsArn arn p0 p1 p2 p3 p4 p5 region e a in (p1, p4, id, is_arn)

-- kms_region_from_arn returns a region exactly when the text is a full key ARN with that region:
-- arn, a partition, kms, the region, an account and key/ with the rest, between colons, where
-- partition, region and account hold no colon and region and account are not empty.
pub kms_region_from_arn_iff :
    (arn region : Str)
    → (kms_region_from_arn arn ≡ ok region)
      ↔ ((partition : Str) × (account : Str) × (id : Str) × IsArn arn partition region account id)
kms_region_from_arn_iff arn region = (
  kms_region_from_arn_sound arn region,
  λ (partition, account, id, a). kms_region_from_arn-IsArn a,
)

kms_account_from_arn_sound :
    (arn account : Str)
    → kms_account_from_arn arn ≡ ok account
    → (partition : Str) × (region : Str) × (id : Str) × IsArn arn partition region account id
unfolding kms_account_from_arn
kms_account_from_arn_sound arn account h =
    let (region, found, _) = >>=-eq-ok (kms_region_from_arn arn) _ h in
    let (partition, account', id, a) = kms_region_from_arn_sound arn region found in
    let found' : kms_account_from_arn arn ≡ ok account' = kms_account_from_arn-IsArn a in
    let same : account' ≡ account = cc in
    (partition, region, id, subst (λ s. IsArn arn partition region s id) same a)

region_of_parts_no_panic :
    (arn : Str) (parts : List Str) (m : Str) → region_of_parts arn parts ≢ panic m
unfolding region_of_parts
region_of_parts_no_panic arn (p0 ∷ p1 ∷ p2 ∷ p3 ∷ p4 ∷ p5 ∷ []) m = ground arith
region_of_parts_no_panic arn _ m = λ e. cc

kms_region_from_arn_no_panic : (arn m : Str) → kms_region_from_arn arn ≢ panic m
unfolding kms_region_from_arn
kms_region_from_arn_no_panic arn m = region_of_parts_no_panic arn _ m

-- kms_account_from_arn returns an account exactly when the text is a full key ARN with that
-- account; so where the region is found the account is found, and the expect does not panic.
pub kms_account_from_arn_iff :
    (arn account : Str)
    → (kms_account_from_arn arn ≡ ok account)
      ↔ ((partition : Str) × (region : Str) × (id : Str) × IsArn arn partition region account id)
kms_account_from_arn_iff arn account = (
  kms_account_from_arn_sound arn account,
  λ (partition, region, id, a). kms_account_from_arn-IsArn a,
)

-- Neither function panics, whatever the text.
pub kms_account_from_arn-Returns : (arn : Str) → Returns (kms_account_from_arn arn)
unfolding kms_account_from_arn
kms_account_from_arn-Returns arn = go (kms_region_from_arn arn) refl
  where
    go : (r : Result Str) → kms_region_from_arn arn ≡ r → Returns (kms_account_from_arn arn)
    go (ok region) e =
        let (_, account, _, a) = kms_region_from_arn_sound arn region e in
        rw (kms_account_from_arn-IsArn a, Returns) tt
    go (err m) e = rw (e, kms_account_from_arn) tt
    go (panic m) e = absurd (kms_region_from_arn_no_panic arn m e)
