-- ===== src/Arn.antt =====
-- KMS key ARNs (src/lib.rs) and the names derived from them (src/key_material.rs).
pub mod Parts
pub mod Naming
use aws_kms_demo.Base.{
  ℕ, Str, Bytes, txt, list_eq, Bool, true, false, not, ◌||◌, ◌==◌, Option, none, some, List, [],
  ◌∷◌, ◌++◌, ◌+◌, ◌-◌, ◌/◌, ◌%◌, if◌then◌else◌, Result, ok, err, panic, ◌>>=◌, ◌>>◌, ok_or,
  reject_if, length, take, drop, all, reverse, get_elem?, leb,
}
use aws_kms_demo.Text.{is_empty, starts_with, is_ascii_alphanumeric, as_bytes}
use aws_kms_demo.Text.Split.{split, splitn, split_once_at}

arn_error : Str → Str
arn_error key_arn =
    txt "KMS key must be a full key ARN (arn:...:kms:<region>:<account>:key/<id>), got '"
    ++ (key_arn ++ txt "'")

-- The tests of `kms_region_from_arn` on the parts; `parts.len() != 6` is the last clause.
region_of_parts : Str → List Str → Result Str
unfolding arn_error
region_of_parts key_arn (p0 ∷ p1 ∷ p2 ∷ p3 ∷ p4 ∷ p5 ∷ []) =
    if not (list_eq p0 (txt "arn"))
      || not (list_eq p2 (txt "kms"))
      || is_empty p3
      || is_empty p4
      || not (starts_with p5 (txt "key/"))
    then err (arn_error key_arn)
    else ok p3
region_of_parts key_arn _ = err (arn_error key_arn)

unfoldable pub kms_region_from_arn : Str → Result Str
unfolding region_of_parts
kms_region_from_arn key_arn = region_of_parts key_arn (splitn 6 b':' key_arn)

-- `.nth(4).expect(…)`
unfoldable pub kms_account_from_arn : Str → Result Str
kms_account_from_arn key_arn = do
  kms_region_from_arn key_arn
  elim (get_elem? (split b':' key_arn) 4) [
    | none ↦ panic (txt "validated KMS ARN has an account component")
    | some account ↦ ok account
  ]

-- `.rev().take(8).collect().rev().collect()`
abbrev pub last_eight : Str → Str
last_eight s = reverse (take 8 (reverse s))

-- The characters that `kms_key_display_id` lets through.
unfoldable pub is_safe : ℕ → Bool
unfolding is_ascii_alphanumeric
is_safe c = is_ascii_alphanumeric c || c == b'-'

display_id_of : Str → Option (Str × Str) → Result Str
unfolding is_safe is_empty
display_id_of key_arn none = err (txt "KMS key ARN must contain a non-empty key ID: " ++ key_arn)
display_id_of key_arn (some (_, key_id)) =
    if is_empty key_id
    then err (txt "KMS key ARN must contain a non-empty key ID: " ++ key_arn)
    else if not (all is_safe key_id)
    then err (txt "KMS key ARN contains an unsafe key ID: " ++ key_arn)
    else ok (last_eight key_id)

unfoldable pub kms_key_display_id : Str → Result Str
unfolding display_id_of
kms_key_display_id key_arn = display_id_of key_arn (split_once_at (txt ":key/") key_arn)

-- `{byte:02x}` of every byte.
abbrev hex_digit : ℕ → ℕ
hex_digit n = if leb n 9 then b'0' + n else b'a' + (n - 10)

unfoldable pub hex : Bytes → Str
hex [] = []
hex (b ∷ bs) = hex_digit (b / 16) ∷ hex_digit (b % 16) ∷ hex bs

-- `&text[..n]`: a panic where the text is shorter. The texts sliced here are ASCII.
abbrev slice_to : ℕ → Str → Result Str
slice_to n s = if leb n (length s) then ok (take n s) else panic (txt "byte index out of bounds")

-- SHA-256 is the crate sha2.
module _ (sha256 : Bytes → Bytes) where
  unfoldable pub sha256_hex : Bytes → Str
  unfolding hex
  sha256_hex bytes = hex (sha256 bytes)

  unfoldable pub kms_key_storage_id : Str → Result Str
  kms_key_storage_id key_arn = do
    display_id ← kms_key_display_id key_arn
    prefix ← slice_to 12 (sha256_hex (as_bytes key_arn))
    ok (display_id ++ (txt "-" ++ prefix))
