-- ===== src/Text/Number.antt =====
-- `to_string` of an unsigned number, and `str::parse` into `u32` and `i32`.
pub mod Decimal
pub mod Value
use mathlib.Core.Logic.{dite}
use mathlib.Core.WellFounded.{Acc, WellFounded}
use native.Mathlib.Decide.{dec_lt}
use aws_kms_demo.Base.{
  ℕ, zero, suc, ◌≡◌, ◌≢◌, ◌<◌, ◌≤◌, ◌+◌, ◌-◌, ◌*◌, ◌/◌, ◌%◌, ◌^◌, refl, ap, sym, ◌∙◌, Str, Bool,
  true, false, ◌&&◌, ◌||◌, Option, none, some, List, [], ◌∷◌, ◌++◌, ◌==◌, if◌then◌else◌, ltb, leb,
  arith, txt,
}

-- A signed number; `negsuc n` is -(n + 1).
pub data ℤ : Type 0 where
  pos : ℕ → ℤ
  negsuc : ℕ → ℤ

acc_below : (k n : ℕ) → n < k → Acc ◌<◌ n
acc_below zero n h = absurd (omega arith)
acc_below (suc k) n h = Acc.intro n (λ m lt. acc_below k m (omega arith))

lt_wf : WellFounded ◌<◌
unfolding acc_below
lt_wf = record { apply = λ n. acc_below (suc n) n (omega arith) }

tenth-lt : {n : ℕ} → 9 < n → n / 10 < n
tenth-lt h = omega arith

-- The decimal digits of `n` in front of `out`.
digits : (n : ℕ) → Acc ◌<◌ n → Str → Str
digits n (Acc.intro _ smaller) out =
    dite (dec_lt 9 n) (λ h. digits (n / 10) (smaller (n / 10) (tenth-lt h)) ((b'0' + n % 10) ∷ out))
      (λ _. (b'0' + n % 10) ∷ out)

unfoldable pub to_string : ℕ → Str
unfolding digits lt_wf dec_lt tenth-lt
to_string n = digits n (lt_wf.apply n) []

-- The loop of `from_str_radix` at radix 10, with its checked arithmetic below `bound`.
unfoldable pub parse_digits : ℕ → ℕ → Str → Option ℕ
parse_digits bound n [] = some n
parse_digits bound n (c ∷ s) =
    let rest = parse_digits bound (n * 10 + (c - b'0')) s in
    if leb b'0' c && leb c b'9' && ltb (n * 10 + (c - b'0')) bound then rest else none

-- Without a sign: no digit at all is an error.
unfoldable pub parse_unsigned : ℕ → Str → Option ℕ
unfolding parse_digits
parse_unsigned bound [] = none
parse_unsigned bound (c ∷ s) = parse_digits bound 0 (c ∷ s)

-- `parse::<u32>`: one leading `+` is accepted, a `-` is not.
unfoldable pub parse_u32 : Str → Option ℕ
unfolding parse_unsigned
parse_u32 [] = none
parse_u32 (c ∷ s) = if c == b'+' then parse_unsigned (2 ^ 32) s else parse_unsigned (2 ^ 32) (c ∷ s)

abbrev pub negate : ℕ → ℤ
negate zero = pos 0
negate (suc n) = negsuc n

-- `parse::<i32>`: one leading `+` or `-`, and the range of the type.
unfoldable pub parse_i32 : Str → Option ℤ
unfolding parse_unsigned
parse_i32 [] = none
parse_i32 (c ∷ s) =
    if c == b'-'
    then elim (parse_unsigned (2 ^ 31 + 1) s) [ none ↦ none | some n ↦ some (negate n) ]
    else if c == b'+'
    then elim (parse_unsigned (2 ^ 31) s) [ none ↦ none | some n ↦ some (pos n) ]
    else elim (parse_unsigned (2 ^ 31) (c ∷ s)) [ none ↦ none | some n ↦ some (pos n) ]

printed : to_string 4294967295 ≡ txt "4294967295"
unfolding to_string txt
printed = refl

parsed : (parse_u32 (txt "4294967295") ≡ some 4294967295) × (parse_u32 (txt "4294967296") ≡ none)
unfolding parse_u32 txt
parsed = (refl, refl)

signed : (parse_i32 (txt "-2147483648") ≡ some (negsuc 2147483647)) × (parse_i32 (txt "+") ≡ none)
unfolding parse_i32 txt
signed = (refl, refl)
