-- ===== src/S3/Interleaving/Growth.antt =====
-- Whatever the threads' requests interleave to, no object is overwritten (src/key_material.rs).
use aws_kms_demo.Base.{
  Str, Bytes, none, some, Bool-cases, list_eq, list_eq_iff, ◌&&◌, ◌≡◌, ap, inl, inr, arith,
}
use aws_kms_demo.S3.{PutOutcome}
use aws_kms_demo.S3.Store.{Contents, update}
use aws_kms_demo.S3.Program.{Program}
use aws_kms_demo.S3.Interleaving.{
  PutReply, created, lost, refused, Move, get_move, put_move, wake, System, Reach, here, later,
}

-- Every object of the one store is in the other.
abbrev pub Grows : Contents → Contents → Type 0
Grows c d = (b k : Str) (held : Bytes) → c b k ≡ some held → d b k ≡ some held

Grows-update :
    (c : Contents) (bucket key : Str) (body : Bytes)
    → c bucket key ≡ none
    → Grows c (update c bucket key body)
Grows-update c bucket key body free b k held h =
    elim (Bool-cases (list_eq b bucket && list_eq k key)) [
      | inl same ↦
          let same_bucket : b ≡ bucket = ground (arith, list_eq_iff b bucket, list_eq_iff k key) in
          let same_key : k ≡ key = ground (arith, list_eq_iff b bucket, list_eq_iff k key) in
          absurd (cc (free, h, ap (λ x. c x k) same_bucket, ap (λ y. c bucket y) same_key))
      | inr other ↦ rw other h
    ]

Grows-PutReply :
    {c d : Contents} (bucket key : Str) (body : Bytes) {o : PutOutcome}
    → PutReply c bucket key body o d
    → Grows c d
Grows-PutReply {c} bucket key body reply = go c reply
  where
    go : (c : Contents) {o : PutOutcome} {d : Contents} → PutReply c bucket key body o d → Grows c d
    go c (created free) = Grows-update c bucket key body free
    go c (lost free other) = Grows-update c bucket key body free
    go c (refused other) = λ b k held h. h

pub Grows-Move : {c d : Contents} {p q : Program} → Move c p d q → Grows c d
Grows-Move (get_move reply) = λ b k held h. h
Grows-Move (put_move {bucket} {key} {body} reply) = Grows-PutReply bucket key body reply
Grows-Move wake = λ b k held h. h

-- No object is overwritten or removed.
pub Reach-Grows : {s t : System} → Reach s t → Grows s.store t.store
Reach-Grows here = λ b k held h. h
Reach-Grows (later reach i move) =
    λ b k held h. Grows-Move move b k held (Reach-Grows reach b k held h)
