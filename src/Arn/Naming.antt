-- ===== src/Arn/Naming.antt =====
-- `kms_key_display_id` and `kms_key_storage_id` (src/key_material.rs): names safe in an object key.
use Prim.Native.Nat.{min}
use mathlib.Core.List.{reverse-reverse, reverse-append}
use aws_kms_demo.Base.{
  ℕ, Str, Bytes, txt, true, false, Option, none, some, [], ◌∷◌, ◌++◌, ◌≤◌, ◌<◌, ◌/◌, ◌%◌, ◌*◌, ◌≡◌,
  ◌≢◌, ◌⊎◌, refl, ap, sym, ◌∙◌, subst, Result, ok, err, panic, >>=-eq-ok, Returns,
  Returns-of_no_panic, arith, Option-cases, inl, inr, append_assoc, All, All-append, All-reverse,
  All-take, length, take, drop, reverse, all, take-append-drop, length-take, length-reverse,
}
use aws_kms_demo.Text.{is_empty, as_bytes}
use aws_kms_demo.Text.Split.{split_once_at}
use aws_kms_demo.Text.Prefix.{split_once_at_sound}
use aws_kms_demo.Arn.{
  is_safe, last_eight, display_id_of, kms_key_display_id, hex, hex_digit, slice_to, sha256_hex,
  kms_key_storage_id,
}

-- An ASCII digit, an ASCII letter, or a dash.
abbrev pub IsSafe : ℕ → Type 0
IsSafe c =
    ((b'0' ≤ c) × (c ≤ b'9'))
    ⊎ (((b'A' ≤ c) × (c ≤ b'Z')) ⊎ (((b'a' ≤ c) × (c ≤ b'z')) ⊎ (c ≡ b'-')))

is_safe_sound : (c : ℕ) → is_safe c ≡ true → IsSafe c
unfolding is_safe
is_safe_sound c h = ground arith

all-IsSafe : (s : Str) → all is_safe s ≡ true → All IsSafe s
all-IsSafe [] h = tt
all-IsSafe (c ∷ s) h = (is_safe_sound c (ground arith), all-IsSafe s (ground arith))

length_pos : (s : Str) → is_empty s ≡ false → 0 < length s
unfolding is_empty
length_pos [] h = cc
length_pos (c ∷ s) h = omega arith

-- A display id has 1 to 8 characters, all safe, and the ARN ends with it.
pub record IsDisplayId (arn id : Str) : Type 0 where
  pub safe : All IsSafe id
  pub nonempty : 0 < length id
  pub short : length id ≤ 8
  pub before : Str
  pub ends : arn ≡ before ++ id

last_eight-IsSafe : (s : Str) → All IsSafe s → All IsSafe (last_eight s)
last_eight-IsSafe s h =
    All-reverse IsSafe _ (All-take IsSafe 8 (reverse s) (All-reverse IsSafe s h))

length-last_eight : (s : Str) → length (last_eight s) ≡ min 8 (length s)
length-last_eight s =
    length-reverse (take 8 (reverse s))
    ∙ (length-take 8 (reverse s) ∙ ap (λ n. min 8 n) (length-reverse s))

last_eight_suffix : (s : Str) → (w : Str) × (s ≡ w ++ last_eight s)
last_eight_suffix s = (
  reverse (drop 8 (reverse s)),
  sym (reverse-reverse s)
      ∙ (ap reverse (sym (take-append-drop 8 (reverse s))) ∙ reverse-append (take 8 (reverse s)) _),
)

key_id_inv :
    (arn a key_id id : Str)
    → display_id_of arn (some (a, key_id)) ≡ ok id
    → (is_empty key_id ≡ false) × (all is_safe key_id ≡ true) × (id ≡ last_eight key_id)
unfolding display_id_of
key_id_inv arn a key_id id h = (ground arith, ground arith, ground arith)

regroup : (a b c d : Str) → a ++ (b ++ (c ++ d)) ≡ (a ++ (b ++ c)) ++ d
regroup a b c d = simp append_assoc

-- A display id has one to eight characters, all of them letters, digits or dashes, and it is the
-- end of the ARN, behind a place where :key/ stands.
pub kms_key_display_id_sound : (arn id : Str) → kms_key_display_id arn ≡ ok id → IsDisplayId arn id
unfolding kms_key_display_id
kms_key_display_id_sound arn id h = elim (Option-cases (split_once_at (txt ":key/") arn)) [
  | inl missed ↦ absurd (cc (rw (missed, kms_key_display_id) at h))
  | inr ((a, key_id), found) ↦
      let (some_id, safe_id, same) =
        key_id_inv arn a key_id id (rw (found, kms_key_display_id) at h) in
      let (w, cut) = last_eight_suffix key_id in
      record {
        safe = subst (All IsSafe) (sym same) (last_eight-IsSafe key_id (all-IsSafe key_id safe_id));
        nonempty = rw same (omega (arith, length-last_eight key_id, length_pos key_id some_id));
        short = rw same (omega (arith, length-last_eight key_id));
        before = a ++ (txt ":key/" ++ w);
        ends =
            split_once_at_sound (txt ":key/") arn a key_id found
            ∙ (ap (λ k. a ++ (txt ":key/" ++ k)) (cut ∙ ap (λ e. w ++ e) (sym same))
                ∙ regroup a (txt ":key/") w id);
      }
]

-- What the program relies on in SHA-256: 32 bytes, whatever is hashed.
pub record IsDigest (sha256 : Bytes → Bytes) : Type 0 where
  pub size : (bytes : Bytes) → length (sha256 bytes) ≡ 32
  pub are_bytes : (bytes : Bytes) → All (λ b. b < 256) (sha256 bytes)

length-hex : (bs : Bytes) → length (hex bs) ≡ 2 * length bs
unfolding hex
length-hex [] = omega arith
length-hex (b ∷ bs) = omega (arith, length-hex bs)

hex_digit-IsSafe : (n : ℕ) → n < 16 → IsSafe (hex_digit n)
hex_digit-IsSafe n h = ground arith

hex-IsSafe : (bs : Bytes) → All (λ b. b < 256) bs → All IsSafe (hex bs)
unfolding hex
hex-IsSafe [] h = tt
hex-IsSafe (b ∷ bs) (p, h) = (
  hex_digit-IsSafe (b / 16) (omega arith),
  (hex_digit-IsSafe (b % 16) (omega arith), hex-IsSafe bs h),
)

-- `{display_id}-{hash12}`
pub record IsStorageId (arn id : Str) : Type 0 where
  pub display : Str
  pub hash : Str
  pub form : id ≡ display ++ (txt "-" ++ hash)
  pub is_display : IsDisplayId arn display
  pub size : length hash ≡ 12
  pub safe : All IsSafe id

display_id_of_no_panic :
    (arn : Str) (o : Option (Str × Str)) (m : Str) → display_id_of arn o ≢ panic m
unfolding display_id_of
display_id_of_no_panic arn none m = λ e. cc
display_id_of_no_panic arn (some (a, key_id)) m = ground arith

pub kms_key_display_id-Returns : (arn : Str) → Returns (kms_key_display_id arn)
unfolding kms_key_display_id
kms_key_display_id-Returns arn =
    Returns-of_no_panic _ (display_id_of_no_panic arn (split_once_at (txt ":key/") arn))

dash-IsSafe : All IsSafe (txt "-")
unfolding txt
dash-IsSafe = (inr (inr (inr refl)), tt)

module _ (sha256 : Bytes → Bytes) (d : IsDigest sha256) where
  length-sha256_hex : (bytes : Bytes) → length (sha256_hex sha256 bytes) ≡ 64
  unfolding sha256_hex
  length-sha256_hex bytes = omega (arith, length-hex (sha256 bytes), d.size bytes)

  slice_hash :
      (bytes : Bytes)
      → slice_to 12 (sha256_hex sha256 bytes) ≡ ok (take 12 (sha256_hex sha256 bytes))
  slice_hash bytes = ground (arith, length-sha256_hex bytes)

  hash-IsSafe : (bytes : Bytes) → All IsSafe (take 12 (sha256_hex sha256 bytes))
  unfolding sha256_hex
  hash-IsSafe bytes = All-take IsSafe 12 _ (hex-IsSafe (sha256 bytes) (d.are_bytes bytes))

  storage_of_display :
      (arn id : Str)
      → kms_key_display_id arn ≡ ok id
      → kms_key_storage_id sha256 arn
        ≡ ok (id ++ (txt "-" ++ take 12 (sha256_hex sha256 (as_bytes arn))))
  unfolding kms_key_storage_id
  storage_of_display arn id e = rw (e, slice_hash (as_bytes arn))

  -- With a digest of 32 bytes, a storage id is the display id of the ARN, a dash and 12
  -- characters, and it holds only ASCII letters, digits and dashes.
  pub kms_key_storage_id_sound :
      (arn id : Str) → kms_key_storage_id sha256 arn ≡ ok id → IsStorageId arn id
  unfolding kms_key_storage_id
  kms_key_storage_id_sound arn id h =
      let (display, found, _) = >>=-eq-ok (kms_key_display_id arn) _ h in
      let hash = take 12 (sha256_hex sha256 (as_bytes arn)) in
      let built = storage_of_display arn display found in
      let same : id ≡ display ++ (txt "-" ++ hash) = cc in
      let shown = kms_key_display_id_sound arn display found in
      record {
        display = display;
        hash = hash;
        form = same;
        is_display = shown;
        size = omega (
          arith,
          length-take 12 (sha256_hex sha256 (as_bytes arn)),
          length-sha256_hex (as_bytes arn),
        );
        safe = subst (All IsSafe) (sym same) (
            All-append IsSafe display _ shown.safe
              (All-append IsSafe (txt "-") hash dash-IsSafe (hash-IsSafe (as_bytes arn))));
      }

  -- With a digest of 32 bytes kms_key_storage_id does not panic, whatever the ARN: the slice of
  -- the hash is in range.
  pub kms_key_storage_id-Returns : (arn : Str) → Returns (kms_key_storage_id sha256 arn)
  unfolding kms_key_storage_id
  kms_key_storage_id-Returns arn = go (kms_key_display_id arn) refl (kms_key_display_id-Returns arn)
    where
      go :
          (r : Result Str)
          → kms_key_display_id arn ≡ r
          → Returns r
          → Returns (kms_key_storage_id sha256 arn)
      go (ok id) e _ = rw (storage_of_display arn id e, Returns) tt
      go (err m) e _ = rw (e, kms_key_storage_id) tt
      go (panic m) e p = absurd p
