-- ===== src/Text/Prefix.antt =====
-- Laws of prefixes, of trimming, and of the first occurrence of a text.
use mathlib.Core.List.{reverse-append, reverse-reverse}
use aws_kms_demo.Base.{
  ℕ, ◌≡◌, refl, ap, sym, ◌∙◌, subst, Str, Bool, true, false, some, [], ◌∷◌, ◌++◌, arith, Bool-cases,
  All, All-reverse, Option-cases, inl, inr, reverse,
}
use aws_kms_demo.Text.{strip_prefix, starts_with, trim_start_matches, trim_matches}
use aws_kms_demo.Text.Split.{split_once_at}

pub strip_prefix_append : (p s : Str) → strip_prefix p (p ++ s) ≡ some s
unfolding strip_prefix
strip_prefix_append [] s = refl
strip_prefix_append (c ∷ p) s = ground (arith, strip_prefix_append p s)

pub strip_prefix_sound : (p s r : Str) → strip_prefix p s ≡ some r → s ≡ p ++ r
unfolding strip_prefix
strip_prefix_sound [] s r h = ground arith
strip_prefix_sound (c ∷ p) [] r h = ground arith
strip_prefix_sound (c ∷ p) (d ∷ s) r h = ground (arith, strip_prefix_sound p s r)

pub starts_with_append : (p s : Str) → starts_with (p ++ s) p ≡ true
unfolding starts_with
starts_with_append p s = rw (strip_prefix_append p s, starts_with)

pub starts_with_sound : (s p : Str) → starts_with s p ≡ true → (r : Str) × (s ≡ p ++ r)
unfolding starts_with
starts_with_sound s p h = elim (Option-cases (strip_prefix p s)) [
  | inl missed ↦ ground arith
  | inr (r, found) ↦ (r, strip_prefix_sound p s r found)
]

-- The text after the first occurrence, and the text before it.
pub split_once_at_sound :
    (pat s a b : Str) → split_once_at pat s ≡ some (a, b) → s ≡ a ++ (pat ++ b)
unfolding split_once_at
split_once_at_sound pat [] a b h = elim (Option-cases (strip_prefix pat [])) [
  | inl missed ↦ ground arith
  | inr (r, found) ↦ ground (arith, strip_prefix_sound pat [] r found)
]
split_once_at_sound pat (c ∷ s) a b h = elim (Option-cases (strip_prefix pat (c ∷ s))) [
  | inr (r, found) ↦ ground (arith, strip_prefix_sound pat (c ∷ s) r found)
  | inl missed ↦ elim (Option-cases (split_once_at pat s)) [
    | inl none_later ↦ ground arith
    | inr (p, later) ↦ ground (arith, split_once_at_sound pat s p.0 p.1 later)
  ]
]

-- The text does not begin with a character of the class.
abbrev pub StartsOutside : (ℕ → Bool) → Str → Type 0
StartsOutside p [] = Unit
StartsOutside p (c ∷ s) = p c ≡ false

pub trim_start_matches-StartsOutside :
    (p : ℕ → Bool) (s : Str) → StartsOutside p (trim_start_matches p s)
unfolding trim_start_matches
trim_start_matches-StartsOutside p [] = tt
trim_start_matches-StartsOutside p (c ∷ s) = elim (Bool-cases (p c)) [
  | inl inside ↦
      rw (inside, trim_start_matches, StartsOutside) (trim_start_matches-StartsOutside p s)
  | inr outside ↦ rw (outside, trim_start_matches, StartsOutside) outside
]

pub trim_start_matches_fixed :
    (p : ℕ → Bool) (s : Str) → StartsOutside p s → trim_start_matches p s ≡ s
unfolding trim_start_matches
trim_start_matches_fixed p [] h = refl
trim_start_matches_fixed p (c ∷ s) h = rw (h, trim_start_matches)

abbrev pub AllOf : (ℕ → Bool) → Str → Type 0
AllOf p = All (λ c. p c ≡ true)

-- What trimming takes off the front: characters of the class.
pub trim_start_matches_suffix :
    (p : ℕ → Bool) (s : Str) → (w : Str) × (s ≡ w ++ trim_start_matches p s) × AllOf p w
unfolding trim_start_matches
trim_start_matches_suffix p [] = ([], refl, tt)
trim_start_matches_suffix p (c ∷ s) = elim (Bool-cases (p c)) [
  | inl inside ↦
      let (w, e, all) = trim_start_matches_suffix p s in (c ∷ w, ground arith, (inside, all))
  | inr outside ↦ ([], ground arith, tt)
]

StartsOutside-prefix : (p : ℕ → Bool) (s t : Str) → StartsOutside p (s ++ t) → StartsOutside p s
StartsOutside-prefix p [] t h = tt
StartsOutside-prefix p (c ∷ s) t h = h

-- A trimmed text neither begins nor ends with a character of the class.
pub record IsTrimmed (p : ℕ → Bool) (s : Str) : Type 0 where
  pub front : StartsOutside p s
  pub back : StartsOutside p (reverse s)

-- What `trim_matches` cuts off at the end.
trimmed_end :
    (p : ℕ → Bool) (a : Str)
    → (w : Str) × (a ≡ reverse (trim_start_matches p (reverse a)) ++ w) × AllOf p w
trimmed_end p a =
    let (w, cut, all) = trim_start_matches_suffix p (reverse a) in
    (
      reverse w,
      sym (reverse-reverse a) ∙ (ap reverse cut ∙ reverse-append w _),
      All-reverse (λ c. p c ≡ true) w all,
    )

pub trim_matches-IsTrimmed : (p : ℕ → Bool) (s : Str) → IsTrimmed p (trim_matches p s)
unfolding trim_matches
trim_matches-IsTrimmed p s =
    let a = trim_start_matches p s in
    let (w, cut, _) = trimmed_end p a in
    record {
      front =
          StartsOutside-prefix p _ w
            (subst (StartsOutside p) cut (trim_start_matches-StartsOutside p s));
      back =
          subst (StartsOutside p) (sym (reverse-reverse (trim_start_matches p (reverse a))))
            (trim_start_matches-StartsOutside p (reverse a));
    }

-- Trimming keeps a text that is trimmed already.
pub trim_matches_fixed : (p : ℕ → Bool) (s : Str) → IsTrimmed p s → trim_matches p s ≡ s
unfolding trim_matches
trim_matches_fixed p s t =
    ap (λ a. reverse (trim_start_matches p (reverse a))) (trim_start_matches_fixed p s t.front)
    ∙ (ap reverse (trim_start_matches_fixed p (reverse s) t.back) ∙ reverse-reverse s)

-- A trimmed text is cut out of the given one, between two texts of the class.
pub trim_matches_infix :
    (p : ℕ → Bool) (s : Str)
    → (v : Str) × (w : Str) × (s ≡ v ++ (trim_matches p s ++ w)) × AllOf p v × AllOf p w
unfolding trim_matches
trim_matches_infix p s =
    let (v, front, all) = trim_start_matches_suffix p s in
    let (w, back, all') = trimmed_end p (trim_start_matches p s) in
    (v, w, front ∙ ap (λ r. v ++ r) back, all, all')
