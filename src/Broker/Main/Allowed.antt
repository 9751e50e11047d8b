-- ===== src/Broker/Main/Allowed.antt =====
-- Whom `enclave_broker_main` lets the broker serve (src/bin_support.rs).
use aws_kms_demo.Base.{
  ℕ, Str, txt, ok, err, Option, none, some, Bool-cases, true, false, ◌≡◌, ◌≢◌, ◌⊎◌, refl, sym, ◌∙◌,
  [], ◌∷◌, inl, inr, Result,
}
use aws_kms_demo.Text.{trim, is_empty}
use aws_kms_demo.Text.Number.{parse_u32}
use aws_kms_demo.Text.Number.Value.{IsU32, parse_u32_iff}
use aws_kms_demo.Config.{unwrap_or, from_env}
use aws_kms_demo.Config.Types.{ParentSettings}
use aws_kms_demo.Endpoint.{Endpoint, parse}
use aws_kms_demo.Process.{Process, load_environment}
use aws_kms_demo.Rpc.{Tonic}
use aws_kms_demo.Broker.{Host}
use aws_kms_demo.Broker.Loop.{Machine, serve_enclave_broker}
use aws_kms_demo.Broker.Main.{
  parse_allowed, allowed_enclave_cid, start_of, serve_command, run_command, after_loading,
  enclave_broker_main,
}

-- What the variable ENCLAVE_BROKER_ALLOWED_CID asks for: no restriction where it is unset or blank,
-- else the CID that it spells, with no blank around it.
abbrev pub Restricts : Option Str → Option ℕ → Type 0
Restricts none none = Unit
Restricts none (some cid) = ⊥
Restricts (some value) none = trim value ≡ []
Restricts (some value) (some cid) = (trim value ≢ []) × IsU32 value cid

abbrev pub refused : Str
refused = txt "ENCLAVE_BROKER_ALLOWED_CID must be a u32"

empty_sound : (s : Str) → is_empty s ≡ true → s ≡ []
unfolding is_empty
empty_sound [] h = refl
empty_sound (c ∷ s) h = cc

filled_sound : (s : Str) → is_empty s ≡ false → s ≢ []
unfolding is_empty
filled_sound [] h = cc
filled_sound (c ∷ s) h = λ e. cc

-- The variable is read as what it asks for, or it asks for nothing and is refused.
Verdict : Option Str → Type 0
Verdict variable =
    ((allowed : Option ℕ) × (allowed_enclave_cid variable ≡ ok allowed)
      × Restricts variable allowed)
    ⊎ ((allowed_enclave_cid variable ≡ err refused)
        × ((allowed : Option ℕ) → Restricts variable allowed → ⊥))

parsed-Verdict :
    (value : Str) (o : Option ℕ)
    → is_empty (trim value) ≡ false
    → parse_u32 value ≡ o
    → Verdict (some value)
unfolding Verdict allowed_enclave_cid parse_allowed
parsed-Verdict value (some cid) given parsed = inl (
  some cid,
  rw (given, parsed) refl,
  (filled_sound (trim value) given, (parse_u32_iff value cid).0 parsed),
)
parsed-Verdict value none given parsed = inr (rw (given, parsed) refl, none_asked)
  where
    none_asked : (allowed : Option ℕ) → Restricts (some value) allowed → ⊥
    none_asked none blank = filled_sound (trim value) given blank
    none_asked (some cid) (_, spelt) =
        let read = sym parsed ∙ (parse_u32_iff value cid).1 spelt in cc

verdict : (variable : Option Str) → Verdict variable
unfolding Verdict allowed_enclave_cid parse_allowed
verdict none = inl (none, refl, tt)
verdict (some value) = elim (Bool-cases (is_empty (trim value))) [
  | inl blank ↦ inl (none, rw blank refl, empty_sound (trim value) blank)
  | inr given ↦ parsed-Verdict value (parse_u32 value) given refl
]

module _ {W : Type 0} (process : Process W) (machine : Machine W) (host : Host W)
    (tonic : Tonic W) where
  -- The broker serves with the restriction that the variable asks for, or it does not start, since
  -- the variable asks for none.
  abbrev pub IsStarted :
      Option Str
      → (Option ℕ → Option (Result (Unit {0})) × W)
      → W
      → Option (Result (Unit {0})) × W
      → Type 0
  IsStarted variable serves w run =
      ((allowed : Option ℕ) × Restricts variable allowed × (run ≡ serves allowed))
      ⊎ (((allowed : Option ℕ) → Restricts variable allowed → ⊥) × (run ≡ (some (err refused), w)))

  -- Where the environment is loaded, holds proper settings and an endpoint to listen on (or none,
  -- for the default), enclave_broker_main without a command runs serve_enclave_broker on them with
  -- the restriction that ENCLAVE_BROKER_ALLOWED_CID asks for: none where it is unset or blank, a
  -- CID where it is the digits of that u32, with a plus sign before them or none. On any other
  -- value it returns the Err that says so, and nothing is started.
  pub enclave_broker_main-IsStarted :
      (s : ParentSettings) (endpoint : Endpoint) (n : ℕ) (w w' : W)
      → load_environment process w ≡ (ok tt, w')
      → from_env (process.vars w') ≡ ok s
      → parse (
          unwrap_or
            (process.vars w' (txt "ENCLAVE_BROKER_LISTEN_ENDPOINT"))
            (txt "tcp:127.0.0.1:7001"))
        ≡ ok endpoint
      → IsStarted
          (process.vars w' (txt "ENCLAVE_BROKER_ALLOWED_CID"))
          (λ allowed. serve_enclave_broker machine host (process.vars w') endpoint s allowed n w')
          w'
          (enclave_broker_main process machine host tonic none n w)
  unfolding enclave_broker_main after_loading run_command serve_command start_of Verdict
  enclave_broker_main-IsStarted s endpoint n w w' loaded configured listens =
      elim (verdict (process.vars w' (txt "ENCLAVE_BROKER_ALLOWED_CID"))) [
        | inl (allowed, read, asked) ↦ inl (
          allowed,
          asked,
          rw (loaded, after_loading, run_command, start_of, configured, listens, read),
        )
        | inr (refuses, none_asked) ↦ inr (
          none_asked,
          rw (loaded, after_loading, run_command, start_of, configured, listens, refuses),
        )
      ]
