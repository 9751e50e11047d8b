-- ===== src/Tests/Storage.antt =====
-- S3, the frames and the broker.
use aws_kms_demo.Base.{Bytes, txt, ok, err, some, ◌≡◌, ◌++◌, List, [], ◌∷◌, length, refl, arith, ap}
use aws_kms_demo.S3.{GetOutcome, load_s3_object, save_s3_object_if_absent}
use aws_kms_demo.S3.Runs.{Run, answer, load_s3_object_runs}
use aws_kms_demo.S3.Store.{Contents, Written}
use aws_kms_demo.S3.Conditional.{save_s3_object_if_absent-Written, save_s3_object_if_absent-holds}
use aws_kms_demo.Frame.{Codec, to_be_bytes, too_long, read_json_frame}
use aws_kms_demo.Frame.RoundTrip.{
  slice_reader, read_json_frame_oversized, frames_round_trip, write_all_frames, read_all_frames,
  IsFaithful,
}
use aws_kms_demo.Config.Types.{save_object_if_absent}
use aws_kms_demo.Broker.{respond}
use aws_kms_demo.Broker.Access.{Confined, respond-Confined}
use aws_kms_demo.Tests.Fixtures.{sized_settings}
use aws_kms_demo.Tests.Store.{
  memory, memory-IsConditionalStore, empty_store, memory_host, memory_host-IsLawfulHost,
}

-- Bytes as their own JSON.
abbrev plain : Codec Bytes
plain = record { to_vec = λ b. ok b; from_slice = λ b. ok b }

plain-IsFaithful : IsFaithful plain
plain-IsFaithful value bytes e = ap (λ r. r) (go value bytes e)
  where
    go : (value bytes : Bytes) → plain.to_vec value ≡ ok bytes → plain.from_slice bytes ≡ ok value
    go value bytes e = cc

abbrev samples : List Bytes
samples = (1 ∷ 2 ∷ []) ∷ [] ∷ []

frames_round_trip_example :
    (buffer : Bytes) × (write_all_frames plain samples [] ≡ (ok tt, buffer))
    × (read_all_frames plain (length samples) buffer ≡ (ok samples, []))
frames_round_trip_example =
    frames_round_trip plain plain-IsFaithful samples
      ((1 ∷ 2 ∷ [], refl, omega arith), (([], refl, omega arith), tt))

read_json_frame_oversized_example :
    read_json_frame plain slice_reader (to_be_bytes 40000000 ++ []) ≡ (err (too_long 40000000), [])
read_json_frame_oversized_example =
    read_json_frame_oversized plain 40000000 [] (omega arith) (omega arith)

load_s3_object_runs_example :
    (o : GetOutcome) × (w' : Contents) × Run memory (txt "vault") (txt "k") 1 empty_store o w'
    × (load_s3_object memory (txt "vault") (txt "k") empty_store ≡ (answer o, w'))
load_s3_object_runs_example = load_s3_object_runs memory (txt "vault") (txt "k") empty_store

save_s3_object_if_absent-Written_example :
    Written
      (txt "vault")
      (txt "k")
      (1 ∷ [])
      empty_store
      (save_s3_object_if_absent memory (txt "vault") (txt "k") (1 ∷ []) empty_store).1
save_s3_object_if_absent-Written_example =
    save_s3_object_if_absent-Written memory (λ w. w) memory-IsConditionalStore (txt "vault")
      (txt "k") (1 ∷ []) empty_store

save_run : (save_s3_object_if_absent memory (txt "vault") (txt "k") (1 ∷ []) empty_store).0 ≡ ok tt
unfolding save_s3_object_if_absent
save_run = refl

save_s3_object_if_absent-holds_example :
    (save_s3_object_if_absent memory (txt "vault") (txt "k") (1 ∷ []) empty_store).1
      (txt "vault")
      (txt "k")
    ≡ some (1 ∷ [])
save_s3_object_if_absent-holds_example =
    save_s3_object_if_absent-holds memory (λ w. w) memory-IsConditionalStore (txt "vault") (txt "k")
      (1 ∷ []) empty_store save_run

respond-Confined_example :
    Confined sized_settings empty_store
      (respond memory_host [] sized_settings
        (some 16)
        (some 16)
        (ok (save_object_if_absent (txt "vault") (txt "kms-keypair/a") (1 ∷ [])))
        empty_store).1
respond-Confined_example =
    respond-Confined memory_host (λ w. w) memory_host-IsLawfulHost [] sized_settings (some 16)
      (some 16) (ok (save_object_if_absent (txt "vault") (txt "kms-keypair/a") (1 ∷ [])))
      empty_store
