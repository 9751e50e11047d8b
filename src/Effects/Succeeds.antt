-- ===== src/Effects/Succeeds.antt =====
-- Computations that succeed, and leave the world fit for the next one.
use aws_kms_demo.Base.{Str, Bool, true, false, Result, ok, ◌≡◌, ap, ◌∙◌}
use aws_kms_demo.Effects.{M, and_then, ◌>>=◌, lift, guard}

-- From that world the computation gives that result, and the world after it is fit again.
abbrev pub Succeeds : {W A : Type 0} → (W → Type 0) → M W A → W → A → Type 0
Succeeds {W} Fit m w a = (v : W) × (m w ≡ (ok a, v)) × Fit v

module _ {W : Type 0} (Fit : W → Type 0) where
  pub bind-Succeeds :
      {A B : Type 0} (m : M W A) (f : A → M W B) (w : W) (a : A) (b : B)
      → Succeeds Fit m w a
      → ((v : W) → Fit v → Succeeds Fit (f a) v b)
      → Succeeds Fit (m >>= f) w b
  bind-Succeeds m f w a b (v, e, fit) later =
      let (u, e', fit') = later v fit in (u, ap (λ r. and_then r f) e ∙ e', fit')

  pub run-Succeeds :
      {A B : Type 0} (m : M W A) (f : A → M W B) (w v : W) (a : A) (b : B)
      → m w ≡ (ok a, v)
      → Succeeds Fit (f a) v b
      → Succeeds Fit (m >>= f) w b
  run-Succeeds m f w v a b e (u, e', fit) = (u, ap (λ r. and_then r f) e ∙ e', fit)

  pub lift-Succeeds :
      {A B : Type 0} (r : Result A) (f : A → M W B) (w : W) (a : A) (b : B)
      → r ≡ ok a
      → Succeeds Fit (f a) w b
      → Succeeds Fit (lift r >>= f) w b
  lift-Succeeds r f w a b e (v, e', fit) = (v, ap (λ x. and_then (x, w) f) e ∙ e', fit)

  pub guard-Succeeds :
      {B : Type 0} (test : Bool) (message : Str) (f : Unit {0} → M W B) (w : W) (b : B)
      → test ≡ false
      → Succeeds Fit (f tt) w b
      → Succeeds Fit (guard test message >>= f) w b
  guard-Succeeds true message f w b e later = cc
  guard-Succeeds false message f w b e later = later
