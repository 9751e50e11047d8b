-- ===== src/Effects.antt =====
-- Computations that act on the world outside the program: a result and the world after it. An
-- error or a panic keeps what was done before it.
pub mod Succeeds
use aws_kms_demo.Base.{◌∙◌, Str, Bool, true, false, ◌≡◌, refl, Result, ok, err, panic}
use aws_kms_demo.Base.{◌∙◌, reject_if}

abbrev pub M : Type 0 → Type 0 → Type 0
M W A = W → Result A × W

abbrev pub and_then : {W A B : Type 0} → Result A × W → (A → M W B) → Result B × W
and_then (ok a, w) f = f a w
and_then (err e, w) f = (err e, w)
and_then (panic e, w) f = (panic e, w)

infixl 5 ◌>>=◌ ◌>>◌
abbrev pub ◌>>=◌ : {W A B : Type 0} → M W A → (A → M W B) → M W B
◌>>=◌ m f w = and_then (m w) f

abbrev pub ◌>>◌ : {W A B : Type 0} → M W A → M W B → M W B
◌>>◌ m k w = and_then (m w) (λ _. k)

abbrev pub pure : {W A : Type 0} → A → M W A
pure a w = (ok a, w)

abbrev pub raise : {W A : Type 0} → Str → M W A
raise e w = (err e, w)

-- A computation that does not touch the world.
abbrev pub lift : {W A : Type 0} → Result A → M W A
lift r w = (r, w)

abbrev pub guard : {W : Type 0} → Bool → Str → M W (Unit {0})
guard test e w = (reject_if test e, w)

-- Inversion of a successful bind.
pub >>=-eq-ok :
    {W A B : Type 0} (m : M W A) (f : A → M W B) (w w' : W) {b : B}
    → (m >>= f) w ≡ (ok b, w')
    → (a : A) × (v : W) × (m w ≡ (ok a, v)) × (f a v ≡ (ok b, w'))
>>=-eq-ok m f w w' {b} h = go (m w) refl h
  where
    go :
        (r : Result _ × _)
        → m w ≡ r
        → and_then r f ≡ (ok b, w')
        → (a : _) × (v : _) × (m w ≡ (ok a, v)) × (f a v ≡ (ok b, w'))
    go (ok a, v) e h = (a, v, e, h)
    go (err x, v) e h = cc
    go (panic x, v) e h = cc

-- The same in the form of a rule: what follows from the parts follows from the whole.
pub bind_elim {ℓ} :
    {W A B : Type 0} {C : Type ℓ} (m : M W A) (f : A → M W B) (w w' : W) {b : B}
    → (m >>= f) w ≡ (ok b, w')
    → ((a : A) (v : W) → m w ≡ (ok a, v) → f a v ≡ (ok b, w') → C)
    → C
bind_elim m f w w' h k = let (a, v, e, rest) = >>=-eq-ok m f w w' h in k a v e rest

pub lift_elim {ℓ} :
    {W A B : Type 0} {C : Type ℓ} (r : Result A) (f : A → M W B) (w w' : W) {b : B}
    → (lift r >>= f) w ≡ (ok b, w')
    → ((a : A) → r ≡ ok a → f a w ≡ (ok b, w') → C)
    → C
lift_elim (ok a) f w w' h k = k a refl h
lift_elim (err e) f w w' h k = cc
lift_elim (panic e) f w w' h k = cc

pub guard_elim {ℓ} :
    {W B : Type 0} {C : Type ℓ} (test : Bool) (message : Str) (f : Unit {0} → M W B) (w w' : W)
    {b : B}
    → (guard test message >>= f) w ≡ (ok b, w')
    → (test ≡ false → f tt w ≡ (ok b, w') → C)
    → C
guard_elim true message f w w' h k = cc
guard_elim false message f w w' h k = k refl h

-- A property of the world after a bind, from one of the world after its first part.
pub and_then_holds :
    {W A B : Type 0} (P : W → Type 0) (r : Result A × W) (f : A → M W B)
    → P r.1
    → ((a : A) → r.0 ≡ ok a → P (f a r.1).1)
    → P (and_then r f).1
and_then_holds P (ok a, w) f h k = k a refl
and_then_holds P (err e, w) f h k = h
and_then_holds P (panic e, w) f h k = h

-- A computation that leaves what a view shows of the world.
abbrev pub Keeps : {W C A : Type 0} → (W → C) → M W A → Type 0
Keeps {W} view m = (w : W) → view (m w).1 ≡ view w

pub lift-Keeps : {W C A : Type 0} (view : W → C) (r : Result A) → Keeps view (lift r)
lift-Keeps view r w = refl

pub bind-Keeps :
    {W C A B : Type 0} (view : W → C) (m : M W A) (f : A → M W B)
    → Keeps view m
    → ((a : A) → Keeps view (f a))
    → Keeps view (m >>= f)
bind-Keeps {W} view m f first later w =
    and_then_holds (λ (v : W). view v ≡ view w) (m w) f (first w) (λ a _. later a (m w).1 ∙ first w)
