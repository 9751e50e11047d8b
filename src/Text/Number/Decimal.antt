-- ===== src/Text/Number/Decimal.antt =====
-- Printing a number and parsing it again.
use mathlib.Core.Logic.{dif_pos, dif_neg}
use mathlib.Core.WellFounded.{Acc}
use native.Mathlib.Bridge.{le_prop}
use native.Mathlib.Decide.{dec_lt}
use aws_kms_demo.Base.{
  ℕ, ◌≡◌, ◌≢◌, ◌<◌, ◌≤◌, ◌+◌, ◌-◌, ◌*◌, ◌/◌, ◌%◌, ◌^◌, refl, ◌∙◌, Str, some, [], ◌∷◌, arith, All,
}
use aws_kms_demo.Text.Number.{
  lt_wf, tenth-lt, digits, to_string, parse_digits, parse_unsigned, parse_u32,
}

abbrev pub IsDigit : ℕ → Type 0
IsDigit c = (b'0' ≤ c) × (c ≤ b'9')

parse_digits_step :
    (bound n m : ℕ) (out : Str)
    → m * 10 + n % 10 ≡ n
    → n < bound
    → parse_digits bound m ((b'0' + n % 10) ∷ out) ≡ parse_digits bound n out
unfolding parse_digits
parse_digits_step bound n m out e h =
    let same : m * 10 + (b'0' + n % 10 - b'0') ≡ n = omega arith in
    rw (same, parse_digits) (ground arith)

digits-IsDigit :
    (n : ℕ) (w : Acc ◌<◌ n) (out : Str) → All IsDigit out → All IsDigit (digits n w out)
unfolding digits
digits-IsDigit n (Acc.intro _ smaller) out h = elim (dec_lt 9 n) [
  | yes more ↦ rw (dif_pos _ le_prop more) (
      digits-IsDigit (n / 10) (smaller (n / 10) (tenth-lt more)) ((b'0' + n % 10) ∷ out)
        ((omega arith, omega arith), h))
  | no last ↦ rw (dif_neg _ last) ((omega arith, omega arith), h)
]

parse_digits-digits :
    (bound n : ℕ) (w : Acc ◌<◌ n) (out : Str)
    → n < bound
    → parse_digits bound 0 (digits n w out) ≡ parse_digits bound n out
unfolding digits
parse_digits-digits bound n (Acc.intro _ smaller) out h = elim (dec_lt 9 n) [
  | yes more ↦ rw (dif_pos _ le_prop more) (
      parse_digits-digits bound (n / 10) (smaller (n / 10) (tenth-lt more)) ((b'0' + n % 10) ∷ out)
        (omega arith)
      ∙ parse_digits_step bound n (n / 10) out (omega arith) h)
  | no last ↦ rw (dif_neg _ last) (parse_digits_step bound n 0 out (omega arith) h)
]

digits_ne_nil : (n : ℕ) (w : Acc ◌<◌ n) (out : Str) → digits n w out ≢ []
unfolding digits
digits_ne_nil n (Acc.intro _ smaller) out = elim (dec_lt 9 n) [
  | yes more ↦
      rw (dif_pos _ le_prop more)
        (digits_ne_nil (n / 10) (smaller (n / 10) (tenth-lt more)) ((b'0' + n % 10) ∷ out))
  | no last ↦ rw (dif_neg _ last) (λ e. cc)
]

pub to_string-IsDigit : (n : ℕ) → All IsDigit (to_string n)
unfolding to_string
to_string-IsDigit n = digits-IsDigit n (lt_wf.apply n) [] tt

parse_u32_of_digits : (s : Str) → All IsDigit s → s ≢ [] → parse_u32 s ≡ parse_digits (2 ^ 32) 0 s
unfolding parse_u32 parse_unsigned
parse_u32_of_digits [] h ne = absurd (ne refl)
parse_u32_of_digits (c ∷ s) (d, h) ne = ground arith

-- A printed `u32` parses back to itself.
pub parse_u32-to_string : (n : ℕ) → n < 2 ^ 32 → parse_u32 (to_string n) ≡ some n
unfolding to_string parse_digits
parse_u32-to_string n h =
    parse_u32_of_digits (to_string n) (to_string-IsDigit n) (digits_ne_nil n (lt_wf.apply n) [])
    ∙ parse_digits-digits (2 ^ 32) n (lt_wf.apply n) [] h

parse_digits-lt :
    (bound n : ℕ) (s : Str) (m : ℕ) → n < bound → parse_digits bound n s ≡ some m → m < bound
unfolding parse_digits
parse_digits-lt bound n [] m h e = ground arith
parse_digits-lt bound n (c ∷ s) m h e =
    ground (arith, parse_digits-lt bound (n * 10 + (c - b'0')) s m)

pub parse_u32-lt : (s : Str) (m : ℕ) → parse_u32 s ≡ some m → m < 2 ^ 32
unfolding parse_u32 parse_unsigned
parse_u32-lt [] m e = ground arith
parse_u32-lt (c ∷ []) m e = ground (arith, parse_digits-lt (2 ^ 32) 0 (c ∷ []) m)
parse_u32-lt (c ∷ d ∷ s) m e =
    ground (arith, parse_digits-lt (2 ^ 32) 0 (c ∷ d ∷ s) m, parse_digits-lt (2 ^ 32) 0 (d ∷ s) m)
