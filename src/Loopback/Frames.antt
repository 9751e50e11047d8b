-- ===== src/Loopback/Frames.antt =====
-- One frame in each direction of a connection (src/lib.rs).
use aws_kms_demo.Base.{
  ◌≤◌, ◌^◌, Bytes, Result, ok, err, panic, ltb, length, Bool-cases, true, false, [], ◌++◌, ◌≡◌, ◌≢◌,
  ◌⊎◌, refl, inl, inr, arith, append-nil,
}
use aws_kms_demo.Frame.{
  Codec, Writer, Reader, to_be_bytes, write_json_frame, read_json_frame, max_json_frame_length,
}
use aws_kms_demo.Frame.RoundTrip.{
  slice_read, slice_read_lem, length-to_be_bytes, from_be_bytes-to_be_bytes, frame,
}
use aws_kms_demo.Loopback.{Wire, broker_reader, Peer, served, enclave_read}

-- A writer that appends to a part of the world.
abbrev pub appender : {X : Type 0} → (Bytes → X → X) → Writer X
appender append = record { write_all = λ bytes x. (ok tt, append bytes x); flush = λ x. (ok tt, x) }

-- Either the one frame of the value is written, or nothing is and the result is not Ok.
abbrev pub WritesFrame :
    {X T : Type 0} → Codec T → (Bytes → X → X) → T → X → Result (Unit {0}) × X → Type 0
WritesFrame codec append value x r =
    ((payload : Bytes) × (codec.to_vec value ≡ ok payload)
      × (length payload ≤ max_json_frame_length)
      × (r ≡ (ok tt, append (frame payload) x)))
    ⊎ ((r.1 ≡ x) × (r.0 ≢ ok tt))

pub write_json_frame-WritesFrame :
    {X T : Type 0} (codec : Codec T) (append : Bytes → X → X)
    → ((a b : Bytes) (x : X) → append b (append a x) ≡ append (a ++ b) x)
    → (value : T) (x : X)
    → WritesFrame codec append value x (write_json_frame codec (appender append) value x)
unfolding write_json_frame
write_json_frame-WritesFrame codec append joins value x = go (codec.to_vec value) refl
  where
    go :
        (r : Result Bytes)
        → codec.to_vec value ≡ r
        → WritesFrame codec append value x (write_json_frame codec (appender append) value x)
    go (err e) made = inr (rw made, rw made (λ h. cc))
    go (panic e) made = inr (rw made, rw made (λ h. cc))
    go (ok payload) made = elim (Bool-cases (ltb max_json_frame_length (length payload))) [
      | inl large ↦ inr (rw (made, large), rw (made, large) (λ h. cc))
      | inr small ↦
          let fits : ltb (length payload) (2 ^ 32) ≡ true = ground arith in
          inl (payload, made, ground arith, rw (made, small, fits, joins))
    ]

-- A value whose JSON fits is written as its frame.
pub writes_frame :
    {X T : Type 0} (codec : Codec T) (append : Bytes → X → X) (value : T) (payload : Bytes) (x : X)
    → ((a b : Bytes) (x : X) → append b (append a x) ≡ append (a ++ b) x)
    → codec.to_vec value ≡ ok payload
    → length payload ≤ max_json_frame_length
    → write_json_frame codec (appender append) value x ≡ (ok tt, append (frame payload) x)
unfolding write_json_frame
writes_frame codec append value payload x joins made small =
    let fits : ltb max_json_frame_length (length payload) ≡ false = ground arith in
    let narrow : ltb (length payload) (2 ^ 32) ≡ true = ground arith in
    rw (made, fits, narrow, joins)

module _ {W T : Type 0} (codec : Codec T) where
  pub broker_reads :
      (value : T) (payload down : Bytes) (w : W)
      → codec.from_slice payload ≡ ok value
      → length payload ≤ max_json_frame_length
      → read_json_frame codec broker_reader (w, frame payload, down) ≡ (ok value, (w, [], down))
  unfolding read_json_frame
  broker_reads value payload down w e h =
      let small : ltb max_json_frame_length (length payload) ≡ false = ground arith in
      let whole : slice_read (length payload) payload ≡ (ok payload, []) =
        rw (append-nil payload) at (slice_read_lem (length payload) payload [] refl) in
      rw (
        slice_read_lem 4 (to_be_bytes (length payload)) payload (length-to_be_bytes _),
        from_be_bytes-to_be_bytes (length payload) (omega arith),
        small,
        whole,
        e,
      )

  module _ (peer : Peer W) where
    abbrev pub enclave_reader : Reader (Wire W)
    enclave_reader = record { read_exact = enclave_read peer }

    pub enclave_reads :
        (value : T) (payload : Bytes) (x : Wire W) (w : W)
        → codec.from_slice payload ≡ ok value
        → length payload ≤ max_json_frame_length
        → served peer x ≡ (w, [], frame payload)
        → read_json_frame codec enclave_reader x ≡ (ok value, (w, [], []))
    unfolding read_json_frame enclave_read served
    enclave_reads value payload x w e h answered =
        let small : ltb max_json_frame_length (length payload) ≡ false = ground arith in
        let whole : slice_read (length payload) payload ≡ (ok payload, []) =
          rw (append-nil payload) at (slice_read_lem (length payload) payload [] refl) in
        rw (
          answered,
          slice_read_lem 4 (to_be_bytes (length payload)) payload (length-to_be_bytes _),
          from_be_bytes-to_be_bytes (length payload) (omega arith),
          small,
          whole,
          e,
        )

    pub enclave_reads_nothing :
        (x : Wire W) (w : W) (value : T) (x' : Wire W)
        → served peer x ≡ (w, [], [])
        → read_json_frame codec enclave_reader x ≢ (ok value, x')
    unfolding read_json_frame enclave_read slice_read
    enclave_reads_nothing x w value x' closed h = let failed = (rw closed at h) in cc
