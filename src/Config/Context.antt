-- ===== src/Config/Context.antt =====
-- What `parse_encryption_context` makes of its items (src/lib.rs).
use aws_kms_demo.Base.{
  Str, ok, >>=-eq-ok, ok-injective, ok_or-eq-ok, reject_if-eq-ok, Option, none, some, Bool-cases,
  true, false, ◌||◌, list_eq, list_eq_iff, List, [], ◌∷◌, ◌++◌, All, ◌≡◌, ◌≢◌, ◌↔◌, ◌⊎◌, refl, sym,
  ap, ◌∙◌, subst, inl, inr, if◌then◌else◌, arith,
}
use aws_kms_demo.Text.{trim, is_empty}
use aws_kms_demo.Text.Split.{split, split_once, Lacks, split_once_sound, split_once_complete}
use aws_kms_demo.Config.Types.{StrMap}
use aws_kms_demo.Config.Parse.{
  parse_csv, trimmed_parts, insert, context_entry, context_loop, parse_encryption_context,
}

-- The value that a map has for a key.
unfoldable pub get : Str → StrMap → Option Str
get k [] = none
get k ((j, v) ∷ m) = if list_eq j k then some v else get k m

apart_sym : (a b : Str) → list_eq a b ≡ false → list_eq b a ≡ false
apart_sym a b h = elim (Bool-cases (list_eq b a)) [
  | inl same ↦ cc (h, (list_eq_iff a b).1 (sym ((list_eq_iff b a).0 same)))
  | inr apart ↦ apart
]

-- A lookup after an insertion.
get-insert :
    (k v j : Str) (m : StrMap) → get j (insert k v m) ≡ (if list_eq k j then some v else get j m)
unfolding get insert
get-insert k v j [] = refl
get-insert k v j ((i, w) ∷ m) = elim (Bool-cases (list_eq i k)) [
  | inl same ↦ elim (Bool-cases (list_eq k j)) [
    | inl hit ↦ rw (same, hit)
    | inr miss ↦
        let apart : list_eq i j ≡ false = ap (λ x. list_eq x j) ((list_eq_iff i k).0 same) ∙ miss in
        rw (same, miss, apart)
  ]
  | inr other ↦ elim (Bool-cases (list_eq i j)) [
    | inl hit ↦
        let miss : list_eq k j ≡ false =
          ap (λ x. list_eq k x) (sym ((list_eq_iff i j).0 hit)) ∙ apart_sym i k other in
        rw (other, hit, miss)
    | inr miss ↦ rw (other, miss, get-insert k v j m)
  ]
]

-- A part of the comma-separated value that gives a key a value: trimmed it is a text with an equals
-- sign, the key is what is before the first one, the value what is behind it, both trimmed, and
-- neither is empty.
pub record IsEntry (part key value : Str) : Type 0 where
  pub before : Str
  pub after : Str
  pub form : trim part ≡ before ++ b'=' ∷ after
  pub first : Lacks b'=' before
  pub key_is : key ≡ trim before
  pub value_is : value ≡ trim after
  pub some_key : key ≢ []
  pub some_value : value ≢ []

abbrev pub Unnamed : Str → Str → Type 0
Unnamed key part = (value : Str) → IsEntry part key value → ⊥

-- The last of the parts that gives the key a value gives it that one.
pub data LastEntry (key : Str) : List Str → Str → Type 0 where
  here :
      {part : Str} {parts : List Str} {value : Str}
      → IsEntry part key value
      → All (Unnamed key) parts
      → LastEntry key (part ∷ parts) value
  later :
      {part : Str} {parts : List Str} {value : Str}
      → LastEntry key parts value
      → LastEntry key (part ∷ parts) value

some_injective : {a b : Str} → ◌≡◌ {A = Option Str} (some a) (some b) → a ≡ b
some_injective h = cc

pair_injective : {a b : Str × Str} → ◌≡◌ {A = Option (Str × Str)} (some a) (some b) → a ≡ b
pair_injective h = cc

-- A part has one entry at most.
entry_unique :
    (part key value key' value' : Str)
    → IsEntry part key value
    → IsEntry part key' value'
    → (key ≡ key') × (value ≡ value')
entry_unique part key value key' value' e e' =
    let found = split_once_complete b'=' e.before e.after e.first in
    let found' = split_once_complete b'=' e'.before e'.after e'.first in
    let same =
      pair_injective (sym found ∙ (ap (split_once b'=') (sym e.form ∙ e'.form) ∙ found')) in
    (
      e.key_is ∙ (ap (λ p. trim p.0) same ∙ sym e'.key_is),
      e.value_is ∙ (ap (λ p. trim p.1) same ∙ sym e'.value_is),
    )

LastEntry-none :
    (key : Str) (parts : List Str) (value : Str)
    → All (Unnamed key) parts
    → LastEntry key parts value
    → ⊥
LastEntry-none key [] value un l = elim l [ ]
LastEntry-none key (part ∷ parts) value (un, _) (here e _) = un value e
LastEntry-none key (part ∷ parts) value (_, rest) (later l) = LastEntry-none key parts value rest l

LastEntry-unique :
    (key : Str) (parts : List Str) (v w : Str)
    → LastEntry key parts v
    → LastEntry key parts w
    → v ≡ w
LastEntry-unique key [] v w l l' = elim l [ ]
LastEntry-unique key (part ∷ parts) v w (here e _) (here e' _) =
    (entry_unique part key v key w e e').1
LastEntry-unique key (part ∷ parts) v w (here e unnamed) (later l) =
    absurd (LastEntry-none key parts w unnamed l)
LastEntry-unique key (part ∷ parts) v w (later l) (here e unnamed) =
    absurd (LastEntry-none key parts v unnamed l)
LastEntry-unique key (part ∷ parts) v w (later l) (later l') = LastEntry-unique key parts v w l l'

nonempty : (s : Str) → is_empty s ≡ false → s ≢ []
unfolding is_empty
nonempty [] h = cc
nonempty (c ∷ s) h = λ e. cc

-- A round of the loop has read an entry.
context_entry-IsEntry :
    (part key value : Str) → context_entry (trim part) ≡ ok (key, value) → IsEntry part key value
unfolding context_entry
context_entry-IsEntry part key value h =
    let ((before, after), cut, h₁) = >>=-eq-ok _ _ h in
    let (_, filled, h₂) = >>=-eq-ok _ _ h₁ in
    let (form, first) = split_once_sound b'=' (trim part) before after (ok_or-eq-ok _ _ cut) in
    let same = ok-injective (trim before, trim after) (key, value) h₂ in
    let none_empty = reject_if-eq-ok (is_empty (trim before) || is_empty (trim after)) _ filled in
    record {
      before = before;
      after = after;
      form = form;
      first = first;
      key_is = sym (ap (λ p. p.0) same);
      value_is = sym (ap (λ p. p.1) same);
      some_key = subst (λ s. s ≢ []) (ap (λ p. p.0) same) (nonempty (trim before) (ground arith));
      some_value = subst (λ s. s ≢ []) (ap (λ p. p.1) same) (nonempty (trim after) (ground arith));
    }

blank-Unnamed : (key part : Str) → is_empty (trim part) ≡ true → Unnamed key part
unfolding is_empty
blank-Unnamed key part blank value e = go e.before e.form
  where
    go : (before : Str) → trim part ≡ before ++ b'=' ∷ e.after → ⊥
    go [] form = cc (sym (ap is_empty form) ∙ blank)
    go (c ∷ before) form = cc (sym (ap is_empty form) ∙ blank)

-- What the loop leaves for a key: the value of its last entry, or what was there.
abbrev Outcome : Str → List Str → Option Str → Option Str → Type 0
Outcome key parts before after =
    ((after ≡ before) × All (Unnamed key) parts)
    ⊎ ((value : Str) × LastEntry key parts value × (after ≡ some value))

Outcome-cons :
    (key part : Str) (parts : List Str) (before after : Option Str)
    → Unnamed key part
    → Outcome key parts before after
    → Outcome key (part ∷ parts) before after
Outcome-cons key part parts before after un (inl (same, unnamed)) = inl (same, (un, unnamed))
Outcome-cons key part parts before after un (inr (v, l, held)) = inr (v, later l, held)

Outcome-entry :
    (k j v part : Str) (parts : List Str) (context m : StrMap)
    → IsEntry part j v
    → Outcome k parts (get k (insert j v context)) (get k m)
    → Outcome k (part ∷ parts) (get k context) (get k m)
Outcome-entry k j v part parts context m e (inr (w, l, held)) = inr (w, later l, held)
Outcome-entry k j v part parts context m e (inl (same, unnamed)) = elim (Bool-cases (list_eq j k)) [
  | inl hit ↦ inr (
    v,
    here (subst (λ x. IsEntry part x v) ((list_eq_iff j k).0 hit) e) unnamed,
    same ∙ (get-insert j v k context ∙ ap (λ b. if b then some v else get k context) hit),
  )
  | inr miss ↦ inl (
    same ∙ (get-insert j v k context ∙ ap (λ b. if b then some v else get k context) miss),
    (
      λ w e'.
          let other = (list_eq_iff j k).1 (entry_unique part j v k w e e').0 in cc (other, miss),
      unnamed,
    ),
  )
]

context_loop-Outcome :
    (k : Str) (parts : List Str) (context m : StrMap)
    → context_loop context (trimmed_parts parts) ≡ ok m
    → Outcome k parts (get k context) (get k m)
unfolding context_loop trimmed_parts
context_loop-Outcome k [] context m h = inl (ap (get k) (sym (ok-injective context m h)), tt)
context_loop-Outcome k (part ∷ parts) context m h = elim (Bool-cases (is_empty (trim part))) [
  | inl blank ↦
      Outcome-cons k part parts _ _ (blank-Unnamed k part blank)
        (context_loop-Outcome k parts context m (rw (blank, trimmed_parts) at h))
  | inr filled ↦
      let ((j, v), e, rest) =
        >>=-eq-ok (context_entry (trim part)) _ (rw (filled, trimmed_parts, context_loop) at h) in
      Outcome-entry k j v part parts context m (context_entry-IsEntry part j v e)
        (context_loop-Outcome k parts (insert j v context) m rest)
]

-- In a context that parse_encryption_context returns, a key has a value just where, among the
-- parts of the given text between its commas, the last one that gives the key a value gives it
-- that value. Such a part, trimmed, has the key before its first equals sign and the value behind
-- it, both trimmed and not empty.
pub parse_encryption_context-get :
    (text k v : Str) (m : StrMap)
    → parse_encryption_context text ≡ ok m
    → (get k m ≡ some v) ↔ LastEntry k (split b',' text) v
unfolding parse_encryption_context get parse_csv
parse_encryption_context-get text k v m h = go (context_loop-Outcome k (split b',' text) [] m h)
  where
    go :
        Outcome k (split b',' text) none (get k m)
        → (get k m ≡ some v) ↔ LastEntry k (split b',' text) v
    go (inl (same, unnamed)) =
        (λ held. absurd (cc (sym same ∙ held)), λ l. absurd (LastEntry-none k _ v unnamed l))
    go (inr (w, l, held)) = (
      λ has. subst (LastEntry k _) (some_injective (sym held ∙ has)) l,
      λ l'. held ∙ ap (λ x. some x) (LastEntry-unique k _ w v l l'),
    )
