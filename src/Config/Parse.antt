-- ===== src/Config/Parse.antt =====
-- The parsers of the environment's values (src/lib.rs).
use aws_kms_demo.Base.{
  ℕ, Str, txt, list_eq, Bool, true, false, not, ◌&&◌, ◌||◌, ◌==◌, List, [], ◌∷◌, ◌++◌,
  if◌then◌else◌, Result, ok, err, ◌>>=◌, ◌>>◌, ok_or, reject_if, any,
}
use aws_kms_demo.Text.{is_empty, trim, trim_matches}
use aws_kms_demo.Text.Split.{split, split_once}
use aws_kms_demo.Text.Number.{ℤ, pos, negsuc, parse_i32}
use aws_kms_demo.Config.Types.{StartupMode, serve, init_key, DataKeySpec, aes128, aes256, StrMap}

unfoldable pub parse_key_spec : Str → Result DataKeySpec
parse_key_spec value =
    if list_eq value (txt "AES_128")
    then ok aes128
    else if list_eq value (txt "AES_256")
    then ok aes256
    else err (txt "unsupported KMS_KEY_SPEC '" ++ (value ++ txt "', expected AES_128 or AES_256"))

-- `parsed == n` for a literal.
abbrev pub is_pos : ℕ → ℤ → Bool
is_pos n (pos m) = m == n
is_pos n (negsuc m) = false

unfoldable pub parse_number_of_bytes : Str → Result ℤ
parse_number_of_bytes value = do
  parsed ←
      ok_or (parse_i32 value)
        (txt "KMS_NUMBER_OF_BYTES must be an integer, got '" ++ (value ++ txt "'"))
  reject_if (not (is_pos 16 parsed) && not (is_pos 32 parsed))
      (txt "KMS_NUMBER_OF_BYTES must be 16 or 32")
  ok parsed

-- `.map(trim).filter(non-empty)` over the parts.
unfoldable pub trimmed_parts : List Str → List Str
trimmed_parts [] = []
trimmed_parts (s ∷ ss) = if is_empty (trim s) then trimmed_parts ss else trim s ∷ trimmed_parts ss

unfoldable pub parse_csv : Str → List Str
unfolding trimmed_parts
parse_csv value = trimmed_parts (split b',' value)

-- `HashMap::insert`.
unfoldable pub insert : Str → Str → StrMap → StrMap
insert k v [] = (k, v) ∷ []
insert k v ((j, w) ∷ m) = if list_eq j k then (k, v) ∷ m else (j, w) ∷ insert k v m

-- One round of the loop of `parse_encryption_context`.
unfoldable pub context_entry : Str → Result (Str × Str)
context_entry item = do
  parts ←
      ok_or (split_once b'=' item)
        (txt "invalid KMS_ENCRYPTION_CONTEXT item '" ++ (item ++ txt "', expected key=value"))
  reject_if (is_empty (trim parts.0) || is_empty (trim parts.1)) (
      txt "invalid KMS_ENCRYPTION_CONTEXT item '"
      ++ (item ++ txt "', key and value must be non-empty"))
  ok (trim parts.0, trim parts.1)

unfoldable pub context_loop : StrMap → List Str → Result StrMap
context_loop context [] = ok context
context_loop context (item ∷ items) = do
  entry ← context_entry item
  context_loop (insert entry.0 entry.1 context) items

unfoldable pub parse_encryption_context : Str → Result StrMap
unfolding context_loop context_entry
parse_encryption_context value = context_loop [] (parse_csv value)

unfoldable pub parse_bool : Str → Str → Result Bool
parse_bool name value =
    if list_eq value (txt "true")
      || list_eq value (txt "1")
      || list_eq value (txt "yes")
      || list_eq value (txt "y")
    then ok true
    else if list_eq value (txt "false")
        || list_eq value (txt "0")
        || list_eq value (txt "no")
        || list_eq value (txt "n")
    then ok false
    else err (name ++ (txt " must be true or false, got '" ++ (value ++ txt "'")))

unfoldable pub parse_startup_mode : Str → Result StartupMode
parse_startup_mode value =
    if list_eq value (txt "serve")
    then ok serve
    else if list_eq value (txt "init-key")
    then ok init_key
    else err (txt "DECRYPT_SERVER_TEE_MODE must be serve or init-key, got '" ++ (value ++ txt "'"))

unfoldable pub is_slash : ℕ → Bool
is_slash c = c == b'/'

-- One of the components is `..`.
unfoldable pub has_parent : Str → Bool
has_parent prefix = any (λ component. list_eq component (txt "..")) (split b'/' prefix)

unfoldable pub normalize_s3_prefix : Str → Result Str
normalize_s3_prefix value = do
  let prefix = trim_matches is_slash value
  reject_if (is_empty prefix) (txt "S3_PREFIX must not be empty")
  reject_if (has_parent prefix) (txt "S3_PREFIX must not contain '..' path components")
  ok prefix
