-- ===== src/S3/Interleaving.antt =====
-- Threads that save objects at the same time, as those of several connections of one broker or of
-- several brokers (src/key_material.rs): the requests interleave in any order.
pub mod Growth
pub mod Safety
pub mod Agreement
use aws_kms_demo.Base.{ℕ, ◌==◌, Str, Bytes, Option, none, some, Result, ok, ◌≡◌, ◌≢◌, if◌then◌else◌}
use aws_kms_demo.S3.{GetOutcome, got, no_such_key, PutOutcome, put}
use aws_kms_demo.S3.Store.{Contents, update}
use aws_kms_demo.S3.Program.{Program, finished, getting, putting, sleeping, save_program}

-- What S3 may reply to a GetObject: the object that is there, its absence, or any failure.
pub data GetReply (c : Contents) (bucket key : Str) : GetOutcome → Type 0 where
  present : {body : Bytes} → c bucket key ≡ some body → GetReply c bucket key (got (ok body))
  absent : c bucket key ≡ none → GetReply c bucket key no_such_key
  failing :
      {o : GetOutcome}
      → ((body : Bytes) → o ≢ got (ok body))
      → o ≢ no_such_key
      → GetReply c bucket key o

-- What S3 may do with a PutObject that carries `If-None-Match: *`: create the absent object and say
-- so, create it and lose the reply, or leave everything and reply with anything but success.
pub data PutReply (c : Contents) (bucket key : Str) (body : Bytes)
    : PutOutcome → Contents → Type 0 where
  created : c bucket key ≡ none → PutReply c bucket key body put (update c bucket key body)
  lost :
      {o : PutOutcome}
      → c bucket key ≡ none
      → o ≢ put
      → PutReply c bucket key body o (update c bucket key body)
  refused : {o : PutOutcome} → o ≢ put → PutReply c bucket key body o c

-- One request of one thread.
pub data Move : Contents → Program → Contents → Program → Type 0 where
  get_move :
      {c : Contents} {bucket key : Str} {next : GetOutcome → Program} {o : GetOutcome}
      → GetReply c bucket key o
      → Move c (getting bucket key next) c (next o)
  put_move :
      {c d : Contents} {bucket key : Str} {body : Bytes} {next : PutOutcome → Program}
      {o : PutOutcome}
      → PutReply c bucket key body o d
      → Move c (putting bucket key body next) d (next o)
  wake : {c : Contents} {n : ℕ} {next : Program} → Move c (sleeping n next) c next

pub record System : Type 0 where
  pub store : Contents
  pub thread : ℕ → Program

-- What each thread saves.
pub record Job : Type 0 where
  pub bucket : Str
  pub key : Str
  pub body : Bytes

abbrev pub start : (ℕ → Job) → Contents → System
start jobs c = record {
  store = c;
  thread = λ i. save_program (jobs i).bucket (jobs i).key (jobs i).body;
}

abbrev pub set : (ℕ → Program) → ℕ → Program → ℕ → Program
set threads i p j = if j == i then p else threads j

-- Any thread makes the next move.
pub data Reach (s : System) : System → Type 0 where
  here : Reach s s
  later :
      {t : System} {c : Contents} {p : Program}
      → Reach s t
      → (i : ℕ) → Move t.store (t.thread i) c p
      → Reach s (record { store = c; thread = set t.thread i p })
