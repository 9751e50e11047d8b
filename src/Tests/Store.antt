-- ===== src/Tests/Store.antt =====
-- A store in memory that keeps its contents as they are written, with the host of a broker on it.
use aws_kms_demo.Base.{ℕ, Str, Bytes, txt, ok, err, Option, none, some, ◌≡◌, refl, inl, inr}
use aws_kms_demo.S3.{S3Client, GetOutcome, got, no_such_key, PutOutcome, put, put_service_error}
use aws_kms_demo.S3.Store.{Contents, update, Written, IsConditionalStore}
use aws_kms_demo.Broker.{Host}
use aws_kms_demo.Broker.Access.{IsLawfulHost}

abbrev pub found : Option Bytes → GetOutcome
found none = no_such_key
found (some body) = got (ok body)

abbrev pub stored : Option Bytes → Str → Str → Bytes → Contents → PutOutcome × Contents
stored none bucket key body w = (put, update w bucket key body)
stored (some other) bucket key body w = (put_service_error 412 none none, w)

abbrev pub memory : S3Client Contents
memory = record {
  get_object = λ b k w. (found (w b k), w);
  put_object_if_none_match = λ b k body w. stored (w b k) b k body w;
  sleep = λ n w. w;
}

found_exact : (o : Option Bytes) (body : Bytes) → found o ≡ got (ok body) → o ≡ some body
found_exact none body h = cc
found_exact (some b) body h = cc

found_absent : (o : Option Bytes) → found o ≡ no_such_key → o ≡ none
found_absent none h = refl
found_absent (some b) h = cc

created :
    (o : Option Bytes) (b k : Str) (body : Bytes) (w : Contents)
    → (stored o b k body w).0 ≡ put
    → (o ≡ none) × ((stored o b k body w).1 ≡ update w b k body)
created none b k body w h = (refl, refl)
created (some other) b k body w h = cc

refused :
    (o : Option Bytes) (b k : Str) (body : Bytes) (w : Contents) (status : ℕ)
    (code message : Option Str)
    → (stored o b k body w).0 ≡ put_service_error status code message
    → (stored o b k body w).1 ≡ w
refused none b k body w status code message h = cc
refused (some other) b k body w status code message h = refl

unclear :
    (o : Option Bytes) (b k : Str) (body : Bytes) (w : Contents)
    → w b k ≡ o
    → Written b k body w (stored o b k body w).1
unclear none b k body w e = inr (e, refl)
unclear (some other) b k body w e = inl refl

pub memory-IsConditionalStore : IsConditionalStore memory (λ w. w)
memory-IsConditionalStore = record {
  get_keeps = λ b k w. refl;
  get_exact = λ b k w body h. found_exact (w b k) body h;
  get_absent = λ b k w h. found_absent (w b k) h;
  sleep_keeps = λ n w. refl;
  put_created = λ b k body w h. created (w b k) b k body w h;
  put_refused =
      λ b k body w status code message h. refused (w b k) b k body w status code message h;
  put_unclear = λ b k body w. unclear (w b k) b k body w refl;
}

abbrev pub empty_store : Contents
empty_store b k = none

abbrev pub memory_host : Host Contents
memory_host = record {
  s3 = memory;
  provide_credentials = λ p w. (err (txt "no credentials"), w);
  build_runtime = λ w. (ok tt, w);
}

pub memory_host-IsLawfulHost : IsLawfulHost memory_host (λ w. w)
memory_host-IsLawfulHost = record {
  store = memory-IsConditionalStore;
  provide_keeps = λ p w. refl;
  runtime_keeps = λ w. refl;
}
