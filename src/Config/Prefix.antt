-- ===== src/Config/Prefix.antt =====
-- `normalize_s3_prefix` and the comma-separated values (src/lib.rs).
use mathlib.Core.List.{reverse-append}
use aws_kms_demo.Base.{
  ℕ, arith, reverse, append_assoc, Str, txt, Bool, true, false, any, list_eq, ◌≢◌, ◌⊎◌, ap, sym,
  ◌∙◌, List, [], ◌∷◌, ◌++◌, ◌≡◌, subst, ok, >>=-eq-ok, reject_if, reject_if-eq-ok, All, Bool-cases,
  inl, inr,
}
use aws_kms_demo.Text.{is_empty, trim, trim_matches, is_whitespace}
use aws_kms_demo.Text.Split.{split, split-append}
use aws_kms_demo.Text.Prefix.{
  IsTrimmed, StartsOutside, trim_matches-IsTrimmed, trim_matches_fixed, trim_matches_infix,
}
use aws_kms_demo.Config.Parse.{normalize_s3_prefix, is_slash, has_parent, parse_csv, trimmed_parts}

-- Before a component: the front of the text, or a slash. Behind one: its end, or a slash.
abbrev pub IsFront : Str → Type 0
IsFront before = (before ≡ []) ⊎ ((v : Str) × (before ≡ v ++ b'/' ∷ []))

abbrev pub IsBack : Str → Type 0
IsBack after = (after ≡ []) ⊎ ((w : Str) × (after ≡ b'/' ∷ w))

-- A normal prefix is not empty, has no slash at either end and no component `..` between slashes.
pub record IsPrefixNormal (prefix : Str) : Type 0 where
  pub some_text : prefix ≢ []
  pub no_slash_first : (rest : Str) → prefix ≢ b'/' ∷ rest
  pub no_slash_last : (rest : Str) → prefix ≢ rest ++ b'/' ∷ []
  pub no_parent :
      (before after : Str)
      → prefix ≡ before ++ (txt ".." ++ after)
      → IsFront before
      → IsBack after
      → ⊥

abbrev pub IsSlash : ℕ → Type 0
IsSlash c = c ≡ b'/'

is_slash_sound : (c : ℕ) → is_slash c ≡ true → IsSlash c
unfolding is_slash
is_slash_sound c h = ground arith

all_slashes : (s : Str) → All (λ c. is_slash c ≡ true) s → All IsSlash s
all_slashes [] h = tt
all_slashes (c ∷ s) (p, h) = (is_slash_sound c p, all_slashes s h)

-- The checks that the code makes.
record PassesChecks (prefix : Str) : Type 0 where
  pub some_text : is_empty prefix ≡ false
  pub trimmed : IsTrimmed is_slash prefix
  pub no_parent : has_parent prefix ≡ false

normalize_ok : (prefix : Str) → PassesChecks prefix → normalize_s3_prefix prefix ≡ ok prefix
unfolding normalize_s3_prefix
normalize_ok prefix n = rw (trim_matches_fixed is_slash prefix n.trimmed, n.some_text, n.no_parent)

normalize_s3_prefix-PassesChecks :
    (value prefix : Str)
    → normalize_s3_prefix value ≡ ok prefix
    → PassesChecks prefix × (trim_matches is_slash value ≡ prefix)
unfolding normalize_s3_prefix
normalize_s3_prefix-PassesChecks value prefix h =
    let prefix' = trim_matches is_slash value in
    let (_, filled, h₁) =
      >>=-eq-ok (reject_if (is_empty prefix') (txt "S3_PREFIX must not be empty")) _ h in
    let (_, safe, h₂) =
      >>=-eq-ok
        (reject_if (has_parent prefix') (txt "S3_PREFIX must not contain '..' path components")) _
        h₁ in
    let same : trim_matches is_slash value ≡ prefix = cc in
    (
      subst PassesChecks same (record {
        some_text = reject_if-eq-ok _ _ filled;
        trimmed = trim_matches-IsTrimmed is_slash value;
        no_parent = reject_if-eq-ok _ _ safe;
      }),
      same,
    )

is_parent : Str → Bool
is_parent component = list_eq component (txt "..")

any_later : (xs ys : List Str) → any is_parent ys ≡ true → any is_parent (xs ++ ys) ≡ true
any_later [] ys h = h
any_later (x ∷ xs) ys h = ground (arith, any_later xs ys h)

parent_back : (after : Str) → IsBack after → any is_parent (split b'/' (txt ".." ++ after)) ≡ true
unfolding is_parent split txt list_eq
parent_back after (inl end) = rw end
parent_back after (inr (w, slash)) = rw slash

parent_component :
    (before after : Str)
    → IsFront before
    → IsBack after
    → has_parent (before ++ (txt ".." ++ after)) ≡ true
unfolding has_parent is_parent
parent_component before after (inl front) back = rw front (parent_back after back)
parent_component before after (inr (v, slash)) back =
    let whole : before ++ (txt ".." ++ after) ≡ v ++ b'/' ∷ (txt ".." ++ after) =
      ap (λ x. x ++ (txt ".." ++ after)) slash ∙ append_assoc v (b'/' ∷ []) (txt ".." ++ after) in
    ap (λ x. any is_parent (split b'/' x)) whole
    ∙ (ap (any is_parent) (split-append b'/' v (txt ".." ++ after))
        ∙ any_later (split b'/' v) _ (parent_back after back))

slash_front : (rest : Str) → StartsOutside is_slash (b'/' ∷ rest) → ⊥
unfolding is_slash
slash_front rest h = cc

empty_apart : is_empty [] ≡ false → ⊥
unfolding is_empty
empty_apart h = cc

PassesChecks-IsPrefixNormal : (prefix : Str) → PassesChecks prefix → IsPrefixNormal prefix
PassesChecks-IsPrefixNormal prefix n = record {
  some_text = λ e. empty_apart (sym (ap is_empty e) ∙ n.some_text);
  no_slash_first = λ rest e. slash_front rest (subst (StartsOutside is_slash) e n.trimmed.front);
  no_slash_last = λ rest e. slash_front (reverse rest) (
      subst (StartsOutside is_slash) (ap reverse e ∙ reverse-append rest (b'/' ∷ []))
        n.trimmed.back);
  no_parent = λ before after e front back.
      let found = ap has_parent e ∙ parent_component before after front back in
      cc (n.no_parent, found);
}

-- A prefix that normalize_s3_prefix returns is not empty, has no slash at either end and no
-- component .., and it is what is left of the value between two texts of slashes.
pub normalize_s3_prefix_sound :
    (value prefix : Str)
    → normalize_s3_prefix value ≡ ok prefix
    → IsPrefixNormal prefix
      × ((v : Str) × (w : Str) × (value ≡ v ++ (prefix ++ w)) × All IsSlash v × All IsSlash w)
normalize_s3_prefix_sound value prefix h =
    let (passes, same) = normalize_s3_prefix-PassesChecks value prefix h in
    let (v, w, cut, slashes, slashes') = trim_matches_infix is_slash value in
    (
      PassesChecks-IsPrefixNormal prefix passes,
      (v, w, cut ∙ ap (λ p. v ++ (p ++ w)) same, all_slashes v slashes, all_slashes w slashes'),
    )

-- A prefix that normalize_s3_prefix returned is accepted by it again and not changed.
pub normalize_s3_prefix_idem :
    (value prefix : Str)
    → normalize_s3_prefix value ≡ ok prefix
    → normalize_s3_prefix prefix ≡ ok prefix
normalize_s3_prefix_idem value prefix h =
    normalize_ok prefix (normalize_s3_prefix-PassesChecks value prefix h).0

-- An item of a comma-separated value is trimmed and not empty.
pub record IsItem (item : Str) : Type 0 where
  pub trimmed : IsTrimmed is_whitespace item
  pub some_text : is_empty item ≡ false

-- Every item that parse_csv returns is not empty and has no white space at either end.
pub parse_csv-IsItem : (value : Str) → All IsItem (parse_csv value)
unfolding parse_csv trim
parse_csv-IsItem value = go (split b',' value)
  where
    go : (parts : List Str) → All IsItem (trimmed_parts parts)
    go [] = tt
    go (s ∷ ss) = elim (Bool-cases (is_empty (trim s))) [
      | inl blank ↦ rw (blank, trimmed_parts, All) (go ss)
      | inr filled ↦
          rw (filled, trimmed_parts, All)
            (record { trimmed = trim_matches-IsTrimmed is_whitespace s; some_text = filled }, go ss)
    ]
