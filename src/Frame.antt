-- ===== src/Frame.antt =====
-- `write_json_frame` and `read_json_frame` (src/lib.rs): a length in four big-endian bytes, then the
-- JSON text. The JSON of a value is that of the crate serde_json.
pub mod RoundTrip
use aws_kms_demo.Base.{
  ℕ, ◌+◌, ◌*◌, ◌/◌, ◌%◌, ◌^◌, Str, Bytes, txt, Result, ok, err, ltb, length, List, [], ◌∷◌, ◌++◌,
  if◌then◌else◌,
}
use aws_kms_demo.Text.Number.{to_string}
use aws_kms_demo.Effects.{M, ◌>>=◌, ◌>>◌, pure, lift, guard}

abbrev pub max_json_frame_length : ℕ
max_json_frame_length = 1024 * 1024

-- serde_json at one type.
pub record Codec (T : Type 0) : Type 0 where
  pub to_vec : T → Result Bytes
  pub from_slice : Bytes → Result T

-- `std::io::Write` and `std::io::Read`, as far as the frames use them.
pub record Writer (W : Type 0) : Type 0 where
  pub write_all : Bytes → M W (Unit {0})
  pub flush : M W (Unit {0})

pub record Reader (W : Type 0) : Type 0 where
  pub read_exact : ℕ → M W Bytes

unfoldable pub to_be_bytes : ℕ → Bytes
to_be_bytes n = n / 2 ^ 24 % 256 ∷ n / 2 ^ 16 % 256 ∷ n / 2 ^ 8 % 256 ∷ n % 256 ∷ []

-- `u32::from_be_bytes` of an array of four bytes.
unfoldable pub from_be_bytes : Bytes → ℕ
from_be_bytes (a ∷ b ∷ c ∷ d ∷ []) = a * 2 ^ 24 + b * 2 ^ 16 + c * 2 ^ 8 + d
from_be_bytes _ = 0

unfoldable pub too_long : ℕ → Str
too_long n =
    txt "JSON frame is "
    ++ (to_string n ++ (txt " bytes; maximum is " ++ to_string max_json_frame_length))

-- `u32::try_from(usize)`
abbrev pub u32_try_from : ℕ → Result ℕ
u32_try_from n =
    if ltb n (2 ^ 32) then ok n else err (txt "out of range integral type conversion attempted")

module _ {W T : Type 0} (codec : Codec T) where
  unfoldable pub write_json_frame : Writer W → T → M W (Unit {0})
  unfolding too_long
  write_json_frame writer value = do
    payload ← lift (codec.to_vec value)
    guard (ltb max_json_frame_length (length payload)) (too_long (length payload))
    len ← lift (u32_try_from (length payload))
    writer.write_all (to_be_bytes len)
    writer.write_all payload
    writer.flush

  unfoldable pub read_json_frame : Reader W → M W T
  unfolding too_long
  read_json_frame reader = do
    header ← reader.read_exact 4
    let len = from_be_bytes header
    guard (ltb max_json_frame_length len) (too_long len)
    payload ← reader.read_exact len
    lift (codec.from_slice payload)
