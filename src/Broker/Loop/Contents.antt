-- ===== src/Broker/Loop/Contents.antt =====
-- What a run of the broker can do to S3, from its start on (src/lib.rs).
use aws_kms_demo.Base.{
  ℕ, zero, suc, Str, Bytes, Result, ok, err, panic, Option, none, some, ◌≡◌, refl, ap, ◌∙◌, inl,
  inr,
}
use aws_kms_demo.Config.{Environment}
use aws_kms_demo.Config.Types.{ParentSettings, serve}
use aws_kms_demo.Endpoint.{Endpoint}
use aws_kms_demo.S3.Store.{Contents}
use aws_kms_demo.Broker.{Host, Providers}
use aws_kms_demo.Broker.Target.{IsBelow}
use aws_kms_demo.Broker.Access.{IsLawfulHost, Confined}
use aws_kms_demo.Broker.History.{Confined-keeps, Confined-outside, serve_connection-Confined}
use aws_kms_demo.Sockets.Linux.{Listener, AcceptedConnection}
use aws_kms_demo.Sockets.{accept}
use aws_kms_demo.Broker.Loop.{
  Machine, serve_accepted, spawned, after_accept, accept_loop, set_up, started,
  serve_enclave_broker,
}
use aws_kms_demo.Broker.Loop.Apart.{
  IsApart, accept-Keeps, close_listener-keeps, close_stream-keeps, set_up-Keeps,
}

-- Held objects stay as they are, nothing changes outside the prefix, and in serve mode nothing at all.
abbrev pub Guarded : ParentSettings → Contents → Contents → Type 0
Guarded s before after =
    ((b k : Str) (held : Bytes) → before b k ≡ some held → after b k ≡ some held)
    × ((b k : Str) → (IsBelow b k s.s3_bucket s.s3_prefix → ⊥) → after b k ≡ before b k)
    × (s.startup_mode ≡ serve → after ≡ before)

Guarded-trans :
    (s : ParentSettings) (c d e : Contents) → Guarded s c d → Guarded s d e → Guarded s c e
Guarded-trans s c d e (keeps, outside, idle) (keeps', outside', idle') = (
  λ b k held h. keeps' b k held (keeps b k held h),
  λ b k h. outside' b k h ∙ outside b k h,
  λ h. idle' h ∙ idle h,
)

Guarded-same : (s : ParentSettings) (c d : Contents) → d ≡ c → Guarded s c d
Guarded-same s c d same =
    (λ b k held h. ap (λ x. x b k) same ∙ h, λ b k h. ap (λ x. x b k) same, λ h. same)

Confined-Guarded : (s : ParentSettings) (c d : Contents) → Confined s c d → Guarded s c d
Confined-Guarded s c d confined = (
  λ b k held h. Confined-keeps s b k held c d confined h,
  λ b k h. Confined-outside s b k c d confined h,
  idle confined,
)
  where
    idle : Confined s c d → s.startup_mode ≡ serve → d ≡ c
    idle (inl same) h = same
    idle (inr (mode, _)) h = absurd (cc)

module _ {W : Type 0} (machine : Machine W) (host : Host W) (contents : W → Contents)
    (L : IsLawfulHost host contents) (A : IsApart machine contents) (s : ParentSettings)
    (allowed : Option ℕ) where
  abbrev End : Type 0
  End = Option (Result (Unit {0})) × W

  serve_accepted-Guarded :
      (providers : Providers) (connection : AcceptedConnection) (w : W)
      → Guarded s
          (contents w)
          (contents (serve_accepted machine host s allowed providers connection w))
  unfolding serve_accepted
  serve_accepted-Guarded providers connection w =
      Guarded-trans s _ _ _
        (Confined-Guarded s _ _ (
          serve_connection-Confined host contents L providers s machine.requests machine.responses
            allowed (machine.reader connection.stream) (machine.writer connection.stream)
            connection.peer_cid (A.streams connection.stream) w))
        (Guarded-same s _ _ (close_stream-keeps machine contents A connection.stream _))

  spawned-Guarded :
      (providers : Providers) (listener : Listener) (rest : W → End)
      (connection : AcceptedConnection) (b : Option Str × W)
      → ((v : W) → Guarded s (contents v) (contents (rest v).1))
      → Guarded s
          (contents b.1)
          (contents (spawned machine host s allowed providers listener rest connection b).1)
  unfolding spawned
  spawned-Guarded providers listener rest connection (none, w) later =
      Guarded-trans s _ _ _ (serve_accepted-Guarded providers connection w) (later _)
  spawned-Guarded providers listener rest connection (some e, w) later = Guarded-same s _ _ (
      close_listener-keeps machine contents A host listener _
      ∙ close_stream-keeps machine contents A connection.stream w)

  after_accept-Guarded :
      (providers : Providers) (listener : Listener) (rest : W → End)
      (a : Result AcceptedConnection × W)
      → ((v : W) → Guarded s (contents v) (contents (rest v).1))
      → Guarded s
          (contents a.1)
          (contents (after_accept machine host s allowed providers listener rest a).1)
  unfolding after_accept
  after_accept-Guarded providers listener rest (ok connection, w) later =
      Guarded-trans s _ _ _ (Guarded-same s _ _ (A.spawn_keeps w))
        (spawned-Guarded providers listener rest connection (machine.spawn w) later)
  after_accept-Guarded providers listener rest (err e, w) later =
      Guarded-same s _ _ (close_listener-keeps machine contents A host listener w)
  after_accept-Guarded providers listener rest (panic e, w) later =
      Guarded-same s _ _ (close_listener-keeps machine contents A host listener w)

  accept_loop-Guarded :
      (providers : Providers) (listener : Listener) (n : ℕ) (w : W)
      → Guarded s
          (contents w)
          (contents (accept_loop machine host s allowed providers listener n w).1)
  unfolding accept_loop
  accept_loop-Guarded providers listener zero w = Guarded-same s _ _ refl
  accept_loop-Guarded providers listener (suc n) w =
      Guarded-trans s _ _ _ (Guarded-same s _ _ (accept-Keeps machine contents A listener w)) (
        after_accept-Guarded providers listener
          (accept_loop machine host s allowed providers listener n)
          (accept machine.os machine.target_os_linux listener w)
          (accept_loop-Guarded providers listener n))

  started-Guarded :
      (n : ℕ) (r : Result (Providers × Listener) × W)
      → Guarded s (contents r.1) (contents (started machine host s allowed n r).1)
  unfolding started
  started-Guarded n (ok (providers, listener), w) = accept_loop-Guarded providers listener n w
  started-Guarded n (err e, w) = Guarded-same s _ _ refl
  started-Guarded n (panic e, w) = Guarded-same s _ _ refl

  -- On a lawful host whose sockets and streams are apart from S3, whatever bytes any number of
  -- connections send from the start of serve_enclave_broker on, served one after the other, an
  -- object that S3 holds is still there with the same body, what is not below the configured
  -- prefix in the configured bucket is unchanged, and outside init-key mode nothing at all is
  -- changed.
  pub serve_enclave_broker-Guarded :
      (env : Environment) (endpoint : Endpoint) (n : ℕ) (w : W)
      → Guarded s
          (contents w)
          (contents (serve_enclave_broker machine host env endpoint s allowed n w).1)
  unfolding serve_enclave_broker
  serve_enclave_broker-Guarded env endpoint n w =
      Guarded-trans s _ _ _
        (Guarded-same s _ _ (set_up-Keeps machine contents A host env endpoint w))
        (started-Guarded n (set_up machine host env endpoint w))
