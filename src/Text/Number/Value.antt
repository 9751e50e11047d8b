-- ===== src/Text/Number/Value.antt =====
-- Which texts `parse::<u32>` accepts, and the number that they stand for.
use aws_kms_demo.Base.{
  ℕ, ◌+◌, ◌-◌, ◌*◌, ◌^◌, ◌<◌, ◌≤◌, ◌≡◌, ◌≢◌, ◌↔◌, ◌⊎◌, refl, ap, ◌∙◌, inl, inr, Str, some, [], ◌∷◌,
  All, Bool-cases, arith, ◌==◌, ==_iff,
}
use aws_kms_demo.Text.Number.{parse_digits, parse_unsigned, parse_u32}
use aws_kms_demo.Text.Number.Decimal.{IsDigit}

-- The digits behind a number, in base ten.
abbrev pub decimal : ℕ → Str → ℕ
decimal n [] = n
decimal n (c ∷ s) = decimal (n * 10 + (c - b'0')) s

-- One or more digits, with a plus sign before them or none, and a number below 2 ^ 32.
pub record IsU32 (text : Str) (n : ℕ) : Type 0 where
  pub digits : Str
  pub form : (text ≡ digits) ⊎ (text ≡ b'+' ∷ digits)
  pub some_digit : digits ≢ []
  pub are_digits : All IsDigit digits
  pub number : decimal 0 digits ≡ n
  pub small : n < 2 ^ 32

parse_digits_sound :
    (bound n : ℕ) (s : Str) (m : ℕ)
    → n < bound
    → parse_digits bound n s ≡ some m
    → All IsDigit s × (decimal n s ≡ m) × (m < bound)
unfolding parse_digits
parse_digits_sound bound n [] m h e = (tt, ground arith, ground arith)
parse_digits_sound bound n (c ∷ s) m h e =
    let digit : IsDigit c = ground arith in
    let below : n * 10 + (c - b'0') < bound = ground arith in
    let rest : parse_digits bound (n * 10 + (c - b'0')) s ≡ some m = ground arith in
    let (digits, number, small) = parse_digits_sound bound (n * 10 + (c - b'0')) s m below rest in
    ((digit, digits), number, small)

le-decimal : (n : ℕ) (s : Str) → n ≤ decimal n s
le-decimal n [] = omega arith
le-decimal n (c ∷ s) = omega (arith, le-decimal (n * 10 + (c - b'0')) s)

parse_digits_complete :
    (bound n : ℕ) (s : Str)
    → All IsDigit s
    → decimal n s < bound
    → parse_digits bound n s ≡ some (decimal n s)
unfolding parse_digits
parse_digits_complete bound n [] h small = refl
parse_digits_complete bound n (c ∷ s) (d, h) small =
    let below : n * 10 + (c - b'0') < bound = omega (arith, le-decimal (n * 10 + (c - b'0')) s) in
    ground (arith, parse_digits_complete bound (n * 10 + (c - b'0')) s h small)

unsigned_sound :
    (s : Str) (m : ℕ)
    → parse_unsigned (2 ^ 32) s ≡ some m
    → (s ≢ []) × All IsDigit s × (decimal 0 s ≡ m) × (m < 2 ^ 32)
unfolding parse_unsigned
unsigned_sound [] m h = cc
unsigned_sound (c ∷ s) m h =
    let (digits, number, small) = parse_digits_sound (2 ^ 32) 0 (c ∷ s) m (omega arith) h in
    (λ e. cc, digits, number, small)

unsigned_complete :
    (s : Str) (m : ℕ)
    → s ≢ []
    → All IsDigit s
    → decimal 0 s ≡ m
    → m < 2 ^ 32
    → parse_unsigned (2 ^ 32) s ≡ some m
unfolding parse_unsigned
unsigned_complete [] m filled digits e small = absurd (filled refl)
unsigned_complete (c ∷ s) m filled digits e small =
    parse_digits_complete (2 ^ 32) 0 (c ∷ s) digits (omega arith) ∙ ap (λ x. some x) e

pub parse_u32_sound : (s : Str) (m : ℕ) → parse_u32 s ≡ some m → IsU32 s m
unfolding parse_u32
parse_u32_sound [] m h = cc
parse_u32_sound (c ∷ s) m h = elim (Bool-cases (c == b'+')) [
  | inl plus ↦
      let (filled, digits, number, small) = unsigned_sound s m (rw (plus, parse_u32) at h) in
      record {
        digits = s;
        form = inr (ap (λ x. x ∷ s) ((==_iff c b'+').0 plus));
        some_digit = filled;
        are_digits = digits;
        number = number;
        small = small;
      }
  | inr other ↦
      let (filled, digits, number, small) = unsigned_sound (c ∷ s) m (rw (other, parse_u32) at h) in
      record {
        digits = c ∷ s;
        form = inl refl;
        some_digit = filled;
        are_digits = digits;
        number = number;
        small = small;
      }
]

parse_u32_plain : (s : Str) → All IsDigit s → parse_u32 s ≡ parse_unsigned (2 ^ 32) s
unfolding parse_u32 parse_unsigned
parse_u32_plain [] h = refl
parse_u32_plain (c ∷ s) (d, h) = ground arith

parse_u32_plus : (s : Str) → parse_u32 (b'+' ∷ s) ≡ parse_unsigned (2 ^ 32) s
unfolding parse_u32
parse_u32_plus s = refl

-- `parse::<u32>` gives the number just where the text is its digits.
pub parse_u32_iff : (s : Str) (m : ℕ) → (parse_u32 s ≡ some m) ↔ IsU32 s m
parse_u32_iff s m = (parse_u32_sound s m, λ x. complete x x.form)
  where
    complete : (x : IsU32 s m) → (s ≡ x.digits) ⊎ (s ≡ b'+' ∷ x.digits) → parse_u32 s ≡ some m
    complete x (inl plain) =
        ap parse_u32 plain
        ∙ (parse_u32_plain x.digits x.are_digits
            ∙ unsigned_complete x.digits m x.some_digit x.are_digits x.number x.small)
    complete x (inr signed) =
        ap parse_u32 signed
        ∙ (parse_u32_plus x.digits
            ∙ unsigned_complete x.digits m x.some_digit x.are_digits x.number x.small)
