-- ===== src/Broker/Loop/Ends.antt =====
-- When the loop of `serve_enclave_broker` ends (src/lib.rs).
use aws_kms_demo.Base.{
  ℕ, zero, suc, ◌<◌, ◌++◌, Str, Result, ok, err, panic, Option, none, some, ◌≡◌, ◌↔◌, refl, ap, ◌∙◌,
  subst, arith,
}
use aws_kms_demo.Config.Types.{ParentSettings}
use aws_kms_demo.Broker.{Host, Providers}
use aws_kms_demo.Sockets.Linux.{Listener, AcceptedConnection}
use aws_kms_demo.Sockets.{accept, close_stream}
use aws_kms_demo.Broker.Loop.{
  Machine, close_listener, spawn_failure, spawned, serve_accepted, after_accept, accept_loop,
}

module _ {W : Type 0} (machine : Machine W) (host : Host W) (s : ParentSettings)
    (allowed : Option ℕ) (providers : Providers) (listener : Listener) where
  abbrev End : Type 0
  End = Option (Result (Unit {0})) × W

  abbrev pub accepts : W → Result AcceptedConnection × W
  accepts w = accept machine.os machine.target_os_linux listener w

  -- So many connections are accepted and served, each by a thread, from one world to another.
  pub data Serves : ℕ → W → W → Type 0 where
    done : {w : W} → Serves 0 w w
    next :
        {n : ℕ} {w v u t : W} {connection : AcceptedConnection}
        → accepts w ≡ (ok connection, v)
        → machine.spawn v ≡ (none, u)
        → Serves n (serve_accepted machine host s allowed providers connection u) t
        → Serves (suc n) w t

  -- How a round ends the loop: `accept` fails, or no thread can be started for its connection,
  -- whose stream is closed. The listener is closed.
  pub data Ends : W → End → Type 0 where
    accept_fails :
        {w v : W} {e : Str}
        → accepts w ≡ (err e, v)
        → Ends w (some (err e), close_listener machine host listener v)
    accept_panics :
        {w v : W} {e : Str}
        → accepts w ≡ (panic e, v)
        → Ends w (some (panic e), close_listener machine host listener v)
    no_thread :
        {w v u : W} {e : Str} {connection : AcceptedConnection}
        → accepts w ≡ (ok connection, v)
        → machine.spawn v ≡ (some e, u)
        → Ends w (
          some (panic (spawn_failure ++ e)),
          close_listener machine host listener (close_stream machine.os connection.stream u),
        )

  -- The loop ends in the round behind so many connections.
  abbrev pub EndsAfter : ℕ → W → End → Type 0
  EndsAfter k w end = (u : W) × Serves k w u × Ends u end

  abbrev loop : ℕ → W → End
  loop n w = accept_loop machine host s allowed providers listener n w

  abbrev after : (W → End) → Result AcceptedConnection × W → End
  after rest a = after_accept machine host s allowed providers listener rest a

  spawned-EndsAfter :
      (rest : W → End) (n : ℕ) (w v : W) (connection : AcceptedConnection) (b : Option Str × W)
      {r : Result (Unit {0})} {end : W}
      → accepts w ≡ (ok connection, v)
      → machine.spawn v ≡ b
      → ((u : W) → rest u ≡ (some r, end) → (k : ℕ) × (k < n) × EndsAfter k u (some r, end))
      → spawned machine host s allowed providers listener rest connection b ≡ (some r, end)
      → (k : ℕ) × (k < suc n) × EndsAfter k w (some r, end)
  unfolding spawned
  spawned-EndsAfter rest n w v connection (none, u) e started later h =
      let (k, below, (t, runs, ends)) = later _ h in
      (suc k, omega arith, (t, next e started runs, ends))
  spawned-EndsAfter rest n w v connection (some m, u) e started later h =
      (0, omega arith, (w, done, subst (Ends w) h (no_thread e started)))

  after_accept-EndsAfter :
      (rest : W → End) (n : ℕ) (w : W) (a : Result AcceptedConnection × W) {r : Result (Unit {0})}
      {end : W}
      → accepts w ≡ a
      → ((u : W) → rest u ≡ (some r, end) → (k : ℕ) × (k < n) × EndsAfter k u (some r, end))
      → after rest a ≡ (some r, end)
      → (k : ℕ) × (k < suc n) × EndsAfter k w (some r, end)
  unfolding after_accept
  after_accept-EndsAfter rest n w (ok c, v) e later h =
      spawned-EndsAfter rest n w v c (machine.spawn v) e refl later h
  after_accept-EndsAfter rest n w (err m, v) e later h =
      (0, omega arith, (w, done, subst (Ends w) h (accept_fails e)))
  after_accept-EndsAfter rest n w (panic m, v) e later h =
      (0, omega arith, (w, done, subst (Ends w) h (accept_panics e)))

  accept_loop-EndsAfter :
      (n : ℕ) (w : W) {r : Result (Unit {0})} {end : W}
      → loop n w ≡ (some r, end)
      → (k : ℕ) × (k < n) × EndsAfter k w (some r, end)
  unfolding accept_loop
  accept_loop-EndsAfter zero w h = cc
  accept_loop-EndsAfter (suc n) w h =
      after_accept-EndsAfter (accept_loop machine host s allowed providers listener n) n w
        (accepts w) refl (λ v e. accept_loop-EndsAfter n v e) h

  abbrev spawning : (W → End) → AcceptedConnection → Option Str × W → End
  spawning rest c b = spawned machine host s allowed providers listener rest c b

  after_end : (rest : W → End) (w : W) (end : End) → Ends w end → after rest (accepts w) ≡ end
  unfolding after_accept spawned
  after_end rest w end (accept_fails e) = ap (after rest) e
  after_end rest w end (accept_panics e) = ap (after rest) e
  after_end rest w end (no_thread {connection} e fails) =
      ap (after rest) e ∙ ap (spawning rest connection) fails

  EndsAfter-accept_loop :
      (k n : ℕ) (w u : W) (end : End) → k < n → Serves k w u → Ends u end → loop n w ≡ end
  unfolding accept_loop after_accept spawned
  EndsAfter-accept_loop k zero w u end below runs ends = absurd (omega arith)
  EndsAfter-accept_loop k (suc n) w u end below done ends = after_end (loop n) w end ends
  EndsAfter-accept_loop k (suc n) w u end below (next {n = m} {connection} e started runs) ends =
      ap (after (loop n)) e
      ∙ (ap (spawning (loop n) connection) started
          ∙ EndsAfter-accept_loop m n _ u end (omega arith) runs ends)

  -- Through at most n rounds the loop of serve_enclave_broker ends with a result just where, for
  -- some k below n, k connections are accepted and served, each by a thread of its own, and in the
  -- next round accept fails with that result, or accept gives a connection and no thread can be
  -- started for it, and the result is the panic of thread::spawn, with the connection's stream
  -- closed; the listener is closed then. Otherwise it still runs.
  pub accept_loop_iff :
      (n : ℕ) (w : W) (r : Result (Unit {0})) (end : W)
      → (loop n w ≡ (some r, end)) ↔ ((k : ℕ) × (k < n) × EndsAfter k w (some r, end))
  accept_loop_iff n w r end = (
    accept_loop-EndsAfter n w,
    λ (k, below, (u, runs, ends)). EndsAfter-accept_loop k n w u (some r, end) below runs ends,
  )
