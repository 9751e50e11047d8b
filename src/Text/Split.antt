-- ===== src/Text/Split.antt =====
-- `str::split`, `splitn` and `split_once`, with the laws that relate them to joining.
use aws_kms_demo.Base.{
  ℕ, zero, suc, ◌≡◌, ◌≢◌, refl, ap, sym, ◌∙◌, Str, true, false, Option, none, some, List, [], ◌∷◌,
  ◌++◌, ◌==◌, All, arith, Bool-cases, Option-cases, inl, inr,
}
use aws_kms_demo.Text.{strip_prefix}

-- `s.split_once(sep)` at a character: the text before and after its first occurrence.
unfoldable pub split_once : ℕ → Str → Option (Str × Str)
split_once sep [] = none
split_once sep (c ∷ s) = elim (c == sep) [
  | true ↦ some ([], s)
  | false ↦ elim (split_once sep s) [ none ↦ none | some (a, b) ↦ some (c ∷ a, b) ]
]

-- A character that belongs to the first part.
abbrev extend_first : ℕ → List Str → List Str
extend_first c [] = (c ∷ []) ∷ []
extend_first c (p ∷ ps) = (c ∷ p) ∷ ps

-- `s.split(sep)`: always at least one part.
unfoldable pub split : ℕ → Str → List Str
split sep [] = [] ∷ []
split sep (c ∷ s) = elim (c == sep) [
  | true ↦ [] ∷ split sep s
  | false ↦ extend_first c (split sep s)
]

-- `s.splitn(n, sep)`: at most `n` parts, the last one unsplit.
unfoldable pub splitn : ℕ → ℕ → Str → List Str
unfolding split_once
splitn zero sep s = []
splitn (suc zero) sep s = s ∷ []
splitn (suc (suc n)) sep s = elim (split_once sep s) [
  | none ↦ s ∷ []
  | some (a, b) ↦ a ∷ splitn (suc n) sep b
]

-- `s.split_once(pattern)` at a text.
unfoldable pub split_once_at : Str → Str → Option (Str × Str)
unfolding strip_prefix
split_once_at pat [] = elim (strip_prefix pat []) [ none ↦ none | some b ↦ some ([], b) ]
split_once_at pat (c ∷ s) = elim (strip_prefix pat (c ∷ s)) [
  | some b ↦ some ([], b)
  | none ↦ elim (split_once_at pat s) [ none ↦ none | some (a, b) ↦ some (c ∷ a, b) ]
]

abbrev pub Lacks : ℕ → Str → Type 0
Lacks sep = All (λ c. c ≢ sep)

-- `split_once` finds the first separator: nothing before it is one.
pub split_once_sound :
    (sep : ℕ) (s a b : Str) → split_once sep s ≡ some (a, b) → (s ≡ a ++ sep ∷ b) × Lacks sep a
unfolding split_once
split_once_sound sep [] a b h = ground arith
split_once_sound sep (c ∷ s) a b h = elim (Bool-cases (c == sep)) [
  | inl same ↦ ground arith
  | inr other ↦ elim (Option-cases (split_once sep s)) [
    | inl missed ↦ ground arith
    | inr (p, found) ↦ ground (arith, split_once_sound sep s p.0 p.1 found)
  ]
]

pub split_once_complete :
    (sep : ℕ) (a b : Str) → Lacks sep a → split_once sep (a ++ sep ∷ b) ≡ some (a, b)
unfolding split_once
split_once_complete sep [] b h = ground arith
split_once_complete sep (c ∷ a) b (p, h) = ground (arith, split_once_complete sep a b h)

pub split_once-none : (sep : ℕ) (s : Str) → Lacks sep s → split_once sep s ≡ none
unfolding split_once
split_once-none sep [] h = refl
split_once-none sep (c ∷ s) (p, h) = ground (arith, split_once-none sep s h)

pub split_once-Lacks : (sep : ℕ) (s : Str) → split_once sep s ≡ none → Lacks sep s
unfolding split_once
split_once-Lacks sep [] h = tt
split_once-Lacks sep (c ∷ s) h = elim (Bool-cases (c == sep)) [
  | inl same ↦ ground arith
  | inr other ↦ elim (Option-cases (split_once sep s)) [
    | inl missed ↦ (ground arith, split_once-Lacks sep s missed)
    | inr (p, found) ↦ ground arith
  ]
]

-- Splitting takes off a leading part that holds no separator.
pub split_cons : (sep : ℕ) (a b : Str) → Lacks sep a → split sep (a ++ sep ∷ b) ≡ a ∷ split sep b
unfolding split
split_cons sep [] b h = ground arith
split_cons sep (c ∷ a) b (p, h) = ground (arith, split_cons sep a b h)

pub split-Lacks_all : (sep : ℕ) (s : Str) → Lacks sep s → split sep s ≡ s ∷ []
unfolding split
split-Lacks_all sep [] h = refl
split-Lacks_all sep (c ∷ s) (p, h) = ground (arith, split-Lacks_all sep s h)

split_some : (sep : ℕ) (s : Str) → (p : Str) × (ps : List Str) × (split sep s ≡ p ∷ ps)
unfolding split
split_some sep [] = ([], [], refl)
split_some sep (c ∷ s) = elim (Bool-cases (c == sep)) [
  | inl same ↦ ([], split sep s, rw (same, split))
  | inr other ↦
      let (p, ps, e) = split_some sep s in (c ∷ p, ps, rw (other, split) (ap (extend_first c) e))
]

-- The parts on both sides of a separator.
pub split-append : (sep : ℕ) (a b : Str) → split sep (a ++ sep ∷ b) ≡ split sep a ++ split sep b
unfolding split
split-append sep [] b = ground arith
split-append sep (c ∷ a) b = elim (Bool-cases (c == sep)) [
  | inl same ↦ rw (same, split) (ap (λ ps. [] ∷ ps) (split-append sep a b))
  | inr other ↦
      let (p, ps, e) = split_some sep a in
      rw (other, split)
        (ap (extend_first c) (split-append sep a b)
          ∙ (ap (λ qs. extend_first c (qs ++ split sep b)) e
              ∙ sym (ap (λ qs. extend_first c qs ++ split sep b) e)))
]

extend_first-Lacks :
    (sep c : ℕ) (ps : List Str) → c ≢ sep → All (Lacks sep) ps → All (Lacks sep) (extend_first c ps)
extend_first-Lacks sep c [] p h = ((p, tt), tt)
extend_first-Lacks sep c (q ∷ qs) p (h, hs) = ((p, h), hs)

-- No part of a split holds the separator.
pub split-Lacks : (sep : ℕ) (s : Str) → All (Lacks sep) (split sep s)
unfolding split
split-Lacks sep [] = (tt, tt)
split-Lacks sep (c ∷ s) = elim (Bool-cases (c == sep)) [
  | inl same ↦ rw (same, split, All) (tt, split-Lacks sep s)
  | inr other ↦
      rw (other, split, All)
        (extend_first-Lacks sep c (split sep s) (ground arith) (split-Lacks sep s))
]

-- `splitn` on a text that still has a separator.
pub splitn_cons :
    (n sep : ℕ) (a b : Str)
    → Lacks sep a
    → splitn (suc (suc n)) sep (a ++ sep ∷ b) ≡ a ∷ splitn (suc n) sep b
unfolding splitn
splitn_cons n sep a b h = rw (split_once_complete sep a b h, splitn)

-- A split that yields more than one part has cut at the first separator.
pub splitn_inv :
    (n sep : ℕ) (s p q : Str) (ps : List Str)
    → splitn (suc (suc n)) sep s ≡ p ∷ q ∷ ps
    → (r : Str) × (s ≡ p ++ sep ∷ r) × Lacks sep p × (splitn (suc n) sep r ≡ q ∷ ps)
unfolding splitn
splitn_inv n sep s p q ps h = elim (Option-cases (split_once sep s)) [
  | inl missed ↦ ground arith
  | inr ((a, b), found) ↦
      let (whole, free) = split_once_sound sep s a b found in
      (b, ground arith, ground arith, ground arith)
]
