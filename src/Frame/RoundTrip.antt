-- ===== src/Frame/RoundTrip.antt =====
-- Frames written to a `Vec<u8>` and read from a `&[u8]` (src/lib.rs, and its tests).
use aws_kms_demo.Base.{
  ℕ, zero, suc, true, false, ◌^◌, ◌≤◌, ◌<◌, Bytes, txt, ok, err, ltb, leb, length, take, drop, List,
  [], ◌∷◌, ◌++◌, if◌then◌else◌, ◌≡◌, refl, arith, take_append, drop_append, length-append,
  append_assoc, append-nil,
}
use aws_kms_demo.Effects.{M, ◌>>=◌, ◌>>◌, pure}
use aws_kms_demo.Frame.{
  Codec, Writer, Reader, to_be_bytes, from_be_bytes, write_json_frame, read_json_frame,
  max_json_frame_length, too_long,
}

-- Writing to a `Vec<u8>` appends and cannot fail; reading from a slice takes off its front.
abbrev pub vec_writer : Writer Bytes
vec_writer = record { write_all = λ bytes out. (ok tt, out ++ bytes); flush = λ out. (ok tt, out) }

unfoldable pub slice_read : ℕ → M Bytes Bytes
slice_read n input =
    if leb n (length input)
    then (ok (take n input), drop n input)
    else (err (txt "failed to fill whole buffer"), [])

abbrev pub slice_reader : Reader Bytes
slice_reader = record { read_exact = slice_read }

pub slice_read_lem : (n : ℕ) (a b : Bytes) → length a ≡ n → slice_read n (a ++ b) ≡ (ok a, b)
unfolding slice_read
slice_read_lem n a b e =
    let fits : leb (length a) (length (a ++ b)) ≡ true = ground (arith, length-append a b) in
    rw (← e, fits, take_append a b, drop_append a b)

-- serde_json reads back what it wrote.
abbrev pub IsFaithful : {T : Type 0} → Codec T → Type 0
IsFaithful {T} codec =
    (value : T) (bytes : Bytes) → codec.to_vec value ≡ ok bytes → codec.from_slice bytes ≡ ok value

pub from_be_bytes-to_be_bytes : (n : ℕ) → n < 2 ^ 32 → from_be_bytes (to_be_bytes n) ≡ n
unfolding from_be_bytes to_be_bytes
from_be_bytes-to_be_bytes n h = omega arith

pub length-to_be_bytes : (n : ℕ) → length (to_be_bytes n) ≡ 4
unfolding to_be_bytes
length-to_be_bytes n = refl

abbrev pub frame : Bytes → Bytes
frame payload = to_be_bytes (length payload) ++ payload

module _ {T : Type 0} (codec : Codec T) where
  -- A value whose JSON fits the limit is appended as one frame.
  pub write_json_frame_lem :
      (value : T) (payload out : Bytes)
      → codec.to_vec value ≡ ok payload
      → length payload ≤ max_json_frame_length
      → write_json_frame codec vec_writer value out ≡ (ok tt, out ++ frame payload)
  unfolding write_json_frame
  write_json_frame_lem value payload out e h =
      let small : ltb max_json_frame_length (length payload) ≡ false = ground arith in
      let fits : ltb (length payload) (2 ^ 32) ≡ true = ground arith in
      rw (e, small, fits, append_assoc)

  -- One whole frame is taken off the input, and what follows it is left.
  pub read_json_frame_lem :
      (value : T) (payload rest : Bytes)
      → codec.from_slice payload ≡ ok value
      → length payload ≤ max_json_frame_length
      → read_json_frame codec slice_reader (frame payload ++ rest) ≡ (ok value, rest)
  unfolding read_json_frame
  read_json_frame_lem value payload rest e h =
      let small : ltb max_json_frame_length (length payload) ≡ false = ground arith in
      rw (
        append_assoc,
        slice_read_lem 4 (to_be_bytes (length payload)) (payload ++ rest) (length-to_be_bytes _),
        from_be_bytes-to_be_bytes (length payload) (omega arith),
        small,
        slice_read_lem (length payload) payload rest refl,
        e,
      )

  -- A header with a length below 2 ^ 32 and above the frame limit is refused with the error that
  -- names it, and no byte behind the four of the header is read.
  pub read_json_frame_oversized :
      (n : ℕ) (rest : Bytes)
      → n < 2 ^ 32
      → max_json_frame_length < n
      → read_json_frame codec slice_reader (to_be_bytes n ++ rest) ≡ (err (too_long n), rest)
  unfolding read_json_frame
  read_json_frame_oversized n rest fits h =
      let large : ltb max_json_frame_length n ≡ true = ground arith in
      rw (
        slice_read_lem 4 (to_be_bytes n) rest (length-to_be_bytes n),
        from_be_bytes-to_be_bytes n fits,
        large,
      )

  -- Nothing is written of a value whose JSON is above the limit.
  pub write_json_frame_oversized :
      (value : T) (payload out : Bytes)
      → codec.to_vec value ≡ ok payload
      → max_json_frame_length < length payload
      → write_json_frame codec vec_writer value out ≡ (err (too_long (length payload)), out)
  unfolding write_json_frame
  write_json_frame_oversized value payload out e h =
      let large : ltb max_json_frame_length (length payload) ≡ true = ground arith in rw (e, large)

  -- The values written one after the other to one buffer.
  pub write_all_frames : List T → M Bytes (Unit {0})
  write_all_frames [] = pure tt
  write_all_frames (v ∷ vs) = do write_json_frame codec vec_writer v; write_all_frames vs

  -- As many frames as are asked for, read one after the other from one input.
  pub read_all_frames : ℕ → M Bytes (List T)
  read_all_frames zero = pure []
  read_all_frames (suc n) = do
    v ← read_json_frame codec slice_reader
    vs ← read_all_frames n
    pure (v ∷ vs)

  -- Every value has a JSON text within the limit.
  abbrev pub Fit : List T → Type 0
  Fit [] = Unit
  Fit (v ∷ vs) =
      ((payload : Bytes) × (codec.to_vec v ≡ ok payload) × (length payload ≤ max_json_frame_length))
      × Fit vs

  -- The buffer after all writes.
  pub frames : (vs : List T) → Fit vs → Bytes
  frames [] fit = []
  frames (v ∷ vs) ((payload, _, _), fit) = frame payload ++ frames vs fit

  pub write_all_frames_lem :
      (vs : List T) (fit : Fit vs) (out : Bytes)
      → write_all_frames vs out ≡ (ok tt, out ++ frames vs fit)
  unfolding write_all_frames frames
  write_all_frames_lem [] fit out = rw append-nil
  write_all_frames_lem (v ∷ vs) ((payload, e, h), fit) out = rw (
    write_json_frame_lem v payload out e h,
    write_all_frames_lem vs fit (out ++ frame payload),
    append_assoc,
  )

  pub read_all_frames_lem :
      (faithful : IsFaithful codec) (vs : List T) (fit : Fit vs) (rest : Bytes)
      → read_all_frames (length vs) (frames vs fit ++ rest) ≡ (ok vs, rest)
  unfolding read_all_frames frames
  read_all_frames_lem faithful [] fit rest = refl
  read_all_frames_lem faithful (v ∷ vs) ((payload, e, h), fit) rest = rw (
    append_assoc,
    read_json_frame_lem v payload (frames vs fit ++ rest) (faithful v payload e) h,
    read_all_frames_lem faithful vs fit rest,
  )

  -- Where the codec reads back what it writes and every value has a text within the frame limit,
  -- writing the values one after the other to an empty buffer succeeds, and reading as many frames
  -- from that buffer gives back the values with no byte left over.
  pub frames_round_trip :
      IsFaithful codec
      → (vs : List T) → Fit vs
      → (buffer : Bytes) × (write_all_frames vs [] ≡ (ok tt, buffer))
        × (read_all_frames (length vs) buffer ≡ (ok vs, []))
  frames_round_trip faithful vs fit = (
    frames vs fit,
    write_all_frames_lem vs fit [],
    rw (append-nil (frames vs fit)) at (read_all_frames_lem faithful vs fit []),
  )
