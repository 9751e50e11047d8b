-- ===== src/Broker/Loop.antt =====
-- `serve_enclave_broker` (src/lib.rs): its set-up and its loop of connections.
pub mod Ends
pub mod Peer
pub mod Apart
pub mod Contents
use aws_kms_demo.Base.{
  ℕ, zero, suc, Str, txt, Result, ok, err, panic, Option, none, some, ok_or, Bool, ◌++◌,
}
use aws_kms_demo.Effects.{M, ◌>>=◌, pure, lift, and_then}
use aws_kms_demo.Config.{Environment}
use aws_kms_demo.Config.Types.{ParentSettings, BrokerRequest, BrokerResponse}
use aws_kms_demo.Endpoint.{Endpoint}
use aws_kms_demo.Frame.{Codec, Writer, Reader}
use aws_kms_demo.Broker.{Host, Providers, CredentialsProvider, serve_connection}
use aws_kms_demo.Broker.Providers.{credentials_providers}
use aws_kms_demo.Sockets.Linux.{
  Os, ReadWrite, Listener, tcp_listener, vsock_listener, unsupported, linux, AcceptedConnection,
}
use aws_kms_demo.Sockets.{listen_endpoint, accept, close_stream}

-- What the process has besides the host: sockets, streams over them, serde_json, and the SDK's
-- `load`, which finds a credentials provider or none. `spawn` starts a thread or tells why not.
pub record Machine (W : Type 0) : Type 0 where
  pub os : Os W
  pub target_os_linux : Bool
  pub reader : ReadWrite → Reader W
  pub writer : ReadWrite → Writer W
  pub requests : Codec BrokerRequest
  pub responses : Codec BrokerResponse
  pub spawn : W → Option Str × W
  pub load_sdk_config : W → Option CredentialsProvider × W

-- `.expect("failed to spawn thread")` in `std::thread`.
abbrev pub spawn_failure : Str
spawn_failure = txt "failed to spawn thread: "

module _ {W : Type 0} (machine : Machine W) (host : Host W) where
  unfoldable pub close_listener : Listener → W → W
  close_listener (tcp_listener fd) w = machine.os.close fd w
  close_listener (vsock_listener unsupported) w = w
  close_listener (vsock_listener (linux fd)) w = machine.os.close fd w

  module _ (s : ParentSettings) (allowed : Option ℕ) (providers : Providers) where
    -- The thread of one connection, whatever it ends with; its stream is dropped at its end.
    unfoldable pub serve_accepted : AcceptedConnection → W → W
    serve_accepted connection w =
        close_stream machine.os connection.stream
          (serve_connection host providers s machine.requests machine.responses
            (machine.reader connection.stream) (machine.writer connection.stream) allowed
            connection.peer_cid w).1

    -- `thread::spawn`: where no thread can be started it panics, and the stream and the listener
    -- are dropped.
    unfoldable pub spawned :
        Listener
        → (W → Option (Result (Unit {0})) × W)
        → AcceptedConnection
        → Option Str × W
        → Option (Result (Unit {0})) × W
    unfolding serve_accepted close_listener
    spawned listener next connection (none, w) = next (serve_accepted connection w)
    spawned listener next connection (some e, w) = (
      some (panic (spawn_failure ++ e)),
      close_listener listener (close_stream machine.os connection.stream w),
    )

    -- `listener.accept()?` in the loop; `none` is a loop that still runs.
    unfoldable pub after_accept :
        Listener
        → (W → Option (Result (Unit {0})) × W)
        → Result AcceptedConnection × W
        → Option (Result (Unit {0})) × W
    unfolding spawned
    after_accept listener next (ok connection, w) =
        spawned listener next connection (machine.spawn w)
    after_accept listener next (err e, w) = (some (err e), close_listener listener w)
    after_accept listener next (panic e, w) = (some (panic e), close_listener listener w)

    -- The loop, through at most so many calls of `accept`, the threads one after the other.
    unfoldable pub accept_loop : Listener → ℕ → W → Option (Result (Unit {0})) × W
    unfolding after_accept
    accept_loop listener zero w = (none, w)
    accept_loop listener (suc n) w =
        after_accept listener (accept_loop listener n)
          (accept machine.os machine.target_os_linux listener w)

  module _ (env : Environment) (endpoint : Endpoint) where
    unfoldable pub listening : Providers → M W (Providers × Listener)
    listening providers = do
      listener ← listen_endpoint machine.os machine.target_os_linux endpoint
      pure (providers, listener)

    unfoldable pub with_provider : CredentialsProvider → M W (Providers × Listener)
    unfolding listening
    with_provider default_provider = do
      providers ← lift (credentials_providers env default_provider)
      listening providers

    -- `aws_config::defaults(…).load()` and `credentials_provider().ok_or(…)`, before the rest.
    unfoldable pub with_config : Option CredentialsProvider × W → Result (Providers × Listener) × W
    unfolding with_provider
    with_config (some default_provider, w) = with_provider default_provider w
    with_config (none, w) =
        (err (txt "AWS credential provider is not configured on enclave-broker"), w)

    unfoldable pub set_up : M W (Providers × Listener)
    unfolding with_config
    set_up w = with_config (machine.load_sdk_config w)

  -- What follows the set-up.
  unfoldable pub started :
      ParentSettings
      → Option ℕ
      → ℕ
      → Result (Providers × Listener) × W
      → Option (Result (Unit {0})) × W
  unfolding accept_loop
  started s allowed n (ok (providers, listener), w) = accept_loop s allowed providers listener n w
  started s allowed n (err e, w) = (some (err e), w)
  started s allowed n (panic e, w) = (some (panic e), w)

  unfoldable pub serve_enclave_broker :
      Environment → Endpoint → ParentSettings → Option ℕ → ℕ → W → Option (Result (Unit {0})) × W
  unfolding set_up started
  serve_enclave_broker env endpoint s allowed n w = started s allowed n (set_up env endpoint w)
