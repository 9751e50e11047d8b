-- ===== src/Base/Fallible.antt =====
-- `Result<T, E>` with the error's text, and the panic that ends a computation without a result.
use mathlib.Core.Path.{◌≡◌, refl}
use mathlib.Core.Logic.{◌≢◌}
use mathlib.Core.Bool.{Bool, true, false}
use mathlib.Core.Option.{Option, none, some}
use aws_kms_demo.Base.Chars.{Str}

pub data Result {ℓ} (T : Type ℓ) : Type ℓ where
  panic : Str → Result T
  ok : T → Result T
  err : Str → Result T

-- A computation that does not panic: `Ok` or `Err`.
abbrev pub Returns {ℓ} : {T : Type ℓ} → Result T → Type 0
Returns (panic message) = ⊥
Returns _ = Unit

infixl 5 ◌>>=◌ ◌>>◌
-- `?`: what follows runs only after `Ok`.
abbrev pub ◌>>=◌ {ℓ κ} : {T : Type ℓ} {S : Type κ} → Result T → (T → Result S) → Result S
panic message >>= next = panic message
err message >>= next = err message
ok value >>= next = next value

abbrev pub ◌>>◌ {ℓ κ} : {T : Type ℓ} {S : Type κ} → Result T → Result S → Result S
first >> second = first >>= λ value. second

-- `Option::ok_or`, and a chain of `.map(f).transpose()`.
abbrev pub ok_or {ℓ} : {A : Type ℓ} → Option A → Str → Result A
ok_or none e = err e
ok_or (some a) e = ok a

abbrev pub traverse {ℓ κ} :
    {A : Type ℓ} {B : Type κ} → (A → Result B) → Option A → Result (Option B)
traverse f none = ok none
traverse f (some a) = f a >>= λ b. ok (some b)

-- An early return `if test { return Err(e) }`.
abbrev pub reject_if : Bool → Str → Result (Unit {0})
reject_if true e = err e
reject_if false e = ok tt

-- Both halves of a bind succeed where the whole does.
pub >>=-eq-ok {ℓ κ} :
    {T : Type ℓ} {S : Type κ} (first : Result T) (next : T → Result S) {out : S}
    → (first >>= next) ≡ ok out
    → (value : T) × (first ≡ ok value) × (next value ≡ ok out)
>>=-eq-ok (panic message) next whole = cc
>>=-eq-ok (err message) next whole = cc
>>=-eq-ok (ok value) next whole = (value, refl, whole)

pub ok_or-eq-ok {ℓ} : {A : Type ℓ} (o : Option A) (e : Str) {a : A} → ok_or o e ≡ ok a → o ≡ some a
ok_or-eq-ok none e h = cc
ok_or-eq-ok (some a) e h = cc

pub reject_if-eq-ok : (b : Bool) (e : Str) {u : Unit {0}} → reject_if b e ≡ ok u → b ≡ false
reject_if-eq-ok true e h = cc
reject_if-eq-ok false e h = refl

pub Returns-of_no_panic {ℓ} : {A : Type ℓ} (r : Result A) → ((m : Str) → r ≢ panic m) → Returns r
Returns-of_no_panic (ok a) h = tt
Returns-of_no_panic (err e) h = tt
Returns-of_no_panic (panic e) h = absurd (h e refl)

pub ok-injective {ℓ} : {A : Type ℓ} (a b : A) → ok a ≡ ok b → a ≡ b
ok-injective a b h = cc
