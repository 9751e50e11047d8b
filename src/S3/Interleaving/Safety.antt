-- ===== src/S3/Interleaving/Safety.antt =====
-- However its requests interleave with those of others, the conditional save tells the truth
-- (src/key_material.rs).
use aws_kms_demo.Base.{
  ℕ, zero, suc, ◌+◌, Str, Bytes, Result, ok, err, panic, Option, none, some, Bool-cases, true, ltb,
  ◌==◌, list_eq_iff, ◌≡◌, refl, ap, subst, inl, inr, arith,
}
use aws_kms_demo.S3.{
  GetOutcome, got, no_such_key, get_dispatch_failure, get_failure, PutOutcome, put,
  put_service_error, put_dispatch_failure, put_failure, is_body,
}
use aws_kms_demo.S3.Store.{Contents, update_self}
use aws_kms_demo.S3.Program.{
  Program, finished, getting, putting, sleeping, after_get, load_program, after_load, after_put,
  attempts_program, save_program,
}
use aws_kms_demo.S3.Interleaving.{
  GetReply, present, absent, failing, PutReply, created, lost, refused, Move, get_move, put_move,
  wake,
}
use aws_kms_demo.S3.Interleaving.Growth.{Grows}

module _ (bucket key : Str) (body : Bytes) where
  unfoldable pub Holds : Contents → Type 0
  Holds c = c bucket key ≡ some body

  -- However S3 replies, and whatever others create meanwhile, the program reports success only where
  -- the store holds the body.
  unfoldable pub IsSafe : Program → Contents → Type 0
  IsSafe (finished r) c = r ≡ ok tt → Holds c
  IsSafe (getting b k next) c =
      (d : Contents) (o : GetOutcome) → Grows c d → GetReply d b k o → IsSafe (next o) d
  IsSafe (putting b k other next) c =
      (d e : Contents) (o : PutOutcome) → Grows c d → PutReply d b k other o e → IsSafe (next o) e
  IsSafe (sleeping n next) c = (d : Contents) → Grows c d → IsSafe next d

  pub IsSafe-grow : (p : Program) (c d : Contents) → Grows c d → IsSafe p c → IsSafe p d
  unfolding IsSafe Holds
  IsSafe-grow (finished r) c d grows h = λ won. grows bucket key body (h won)
  IsSafe-grow (getting b k next) c d grows h =
      λ e o more reply. h e o (λ x y held g. more x y held (grows x y held g)) reply
  IsSafe-grow (putting b k other next) c d grows h =
      λ e f o more reply. h e f o (λ x y held g. more x y held (grows x y held g)) reply
  IsSafe-grow (sleeping n next) c d grows h =
      λ e more. h e (λ x y held g. more x y held (grows x y held g))

  pub Move-IsSafe : {c d : Contents} {p q : Program} → Move c p d q → IsSafe p c → IsSafe q d
  unfolding IsSafe
  Move-IsSafe {c} (get_move {o} reply) h = h c o (λ b k held g. g) reply
  Move-IsSafe {c} {d} (put_move {o} reply) h = h c d o (λ b k held g. g) reply
  Move-IsSafe {c} wake h = h c (λ b k held g. g)

  -- What a load's continuation must do with a true answer.
  IsReady : (Result (Option Bytes) → Program) → Type 0
  IsReady done =
      (c : Contents) (r : Result (Option Bytes))
      → ((held : Bytes) → r ≡ ok (some held) → c bucket key ≡ some held)
      → IsSafe (done r) c

  reply_present :
      {c : Contents} {o : GetOutcome} (held : Bytes)
      → GetReply c bucket key o
      → o ≡ got (ok held)
      → c bucket key ≡ some held
  reply_present held (present e) h = cc
  reply_present held (absent e) h = cc
  reply_present held (failing never other) h = absurd (never held h)

  after_get-IsSafe :
      (attempt : ℕ) (again : Program) (done : Result (Option Bytes) → Program) (c : Contents)
      (o : GetOutcome)
      → ((d : Contents) → IsSafe again d)
      → IsReady done
      → GetReply c bucket key o
      → IsSafe (after_get bucket key attempt again done o) c
  unfolding after_get IsReady IsSafe
  after_get-IsSafe attempt again done c (got (ok held)) rest ready reply =
      ready c (ok (some held))
        (λ x e. subst (λ (y : Bytes). c bucket key ≡ some y) (cc) (reply_present held reply refl))
  after_get-IsSafe attempt again done c (got (err e)) rest ready reply = ready c (err e) (λ x e. cc)
  after_get-IsSafe attempt again done c (got (panic e)) rest ready reply =
      ready c (panic e) (λ x e. cc)
  after_get-IsSafe attempt again done c no_such_key rest ready reply = ready c (ok none) (λ x e. cc)
  after_get-IsSafe attempt again done c (get_dispatch_failure m) rest ready reply =
      elim (Bool-cases (ltb attempt 4)) [
        | inl early ↦ rw early (λ d grows. rest d)
        | inr last ↦ rw last (ready c (err m) (λ x e. cc))
      ]
  after_get-IsSafe attempt again done c (get_failure m) rest ready reply =
      ready c (err m) (λ x e. cc)

  load_program-IsSafe :
      (n attempt : ℕ) (done : Result (Option Bytes) → Program) (c : Contents)
      → IsReady done
      → IsSafe (load_program bucket key n attempt done) c
  unfolding load_program IsSafe IsReady
  load_program-IsSafe zero attempt done c ready = ready c (panic _) (λ x e. cc)
  load_program-IsSafe (suc n) attempt done c ready = λ d o grows reply.
      after_get-IsSafe attempt (load_program bucket key n (attempt + 1) done) done d o
        (λ e. load_program-IsSafe n (attempt + 1) done e ready) ready reply

  is_body-eq : (existing : Option Bytes) → is_body existing body ≡ true → existing ≡ some body
  unfolding is_body
  is_body-eq none h = cc
  is_body-eq (some held) h = ground (arith, list_eq_iff held body)

  after_load-IsReady : IsReady (after_load bucket key body)
  unfolding IsReady IsSafe Holds after_load
  after_load-IsReady c (ok existing) h = elim (Bool-cases (is_body existing body)) [
    | inl same ↦ λ won. h body (ap (λ o. ok o) (is_body-eq existing same))
    | inr other ↦ rw other (λ won. cc)
  ]
  after_load-IsReady c (err e) h = λ won. cc
  after_load-IsReady c (panic e) h = λ won. cc

  put_holds :
      {c d : Contents} {o : PutOutcome}
      → PutReply c bucket key body o d
      → o ≡ put
      → d bucket key ≡ some body
  put_holds {c} (created free) h = update_self c bucket key body
  put_holds (lost free other) h = absurd (other h)
  put_holds (refused other) h = absurd (other h)

  after_put-IsSafe :
      (attempt : ℕ) (again : Program) (c d : Contents) (o : PutOutcome)
      → ((e : Contents) → IsSafe again e)
      → PutReply c bucket key body o d
      → IsSafe (after_put bucket key body attempt again o) d
  unfolding after_put IsSafe Holds
  after_put-IsSafe attempt again c d put rest reply = λ won. put_holds reply refl
  after_put-IsSafe attempt again c d (put_service_error status code message) rest reply =
      elim (Bool-cases (status == 412)) [
        | inl conflicts ↦
            rw conflicts (load_program-IsSafe 4 1 (after_load bucket key body) d after_load-IsReady)
        | inr other ↦ rw other (λ won. cc)
      ]
  after_put-IsSafe attempt again c d (put_dispatch_failure m) rest reply =
      elim (Bool-cases (ltb attempt 4)) [
        | inl early ↦ rw early (λ e grows. rest e)
        | inr last ↦ rw last (λ won. cc)
      ]
  after_put-IsSafe attempt again c d (put_failure m) rest reply = λ won. cc

  attempts_program-IsSafe :
      (n attempt : ℕ) (c : Contents) → IsSafe (attempts_program bucket key body n attempt) c
  unfolding attempts_program IsSafe
  attempts_program-IsSafe zero attempt c = λ won. cc
  attempts_program-IsSafe (suc n) attempt c = λ d e o grows reply.
      after_put-IsSafe attempt (attempts_program bucket key body n (attempt + 1)) d e o
        (attempts_program-IsSafe n (attempt + 1)) reply

  pub save_program-IsSafe : (c : Contents) → IsSafe (save_program bucket key body) c
  unfolding save_program
  save_program-IsSafe c = attempts_program-IsSafe 4 1 c
