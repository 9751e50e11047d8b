-- ===== src/Broker/Loop/Apart.antt =====
-- What the broker's sockets leave as it is (src/lib.rs).
use aws_kms_demo.Base.{
  ℕ, ◌==◌, Str, ok, Option, none, some, Bool-cases, if◌then◌else◌, ◌≡◌, refl, ◌∙◌, inl, inr,
}
use aws_kms_demo.Effects.{M, Keeps, lift, pure, bind-Keeps}
use aws_kms_demo.Text.Number.{ℤ}
use aws_kms_demo.Config.{Environment}
use aws_kms_demo.Endpoint.{Endpoint, tcp, vsock}
use aws_kms_demo.S3.Store.{Contents}
use aws_kms_demo.Broker.{Host, CredentialsProvider}
use aws_kms_demo.Broker.Providers.{credentials_providers}
use aws_kms_demo.Broker.History.{IsStream}
use aws_kms_demo.Sockets.Linux.{
  Os, SockAddrVm, ReadWrite, tcp_stream, file, Listener, tcp_listener, VsockListener,
  vsock_listener, unsupported, linux, AcceptedConnection, is_negative, sockaddr, sockaddr_size,
  af_vsock, sock_stream, vmaddr_cid_any, checked, with_socket, fail_closing, listen_socket,
  bind_socket,
}
use aws_kms_demo.Sockets.Linux
use aws_kms_demo.Sockets.{listen_endpoint, listen_vsock, accept, accept_on, close_stream}
use aws_kms_demo.Broker.Loop.{
  Machine, close_listener, listening, with_provider, with_config, set_up,
}

-- Neither sockets nor streams nor the SDK's configuration are S3.
pub record IsApart {W : Type 0} (machine : Machine W) (contents : W → Contents) : Type 0 where
  pub socket_keeps :
      (domain type_ protocol : ℕ) (w : W)
      → contents (machine.os.socket domain type_ protocol w).1 ≡ contents w
  pub bind_keeps :
      (fd : ℤ) (addr : SockAddrVm) (len : ℕ) (w : W)
      → contents (machine.os.bind fd addr len w).1 ≡ contents w
  pub listen_keeps :
      (fd : ℤ) (backlog : ℕ) (w : W) → contents (machine.os.listen fd backlog w).1 ≡ contents w
  pub accept_keeps :
      (fd : ℤ) (addr : SockAddrVm) (len : ℕ) (w : W)
      → contents (machine.os.accept fd addr len w).2 ≡ contents w
  pub close_keeps : (fd : ℤ) (w : W) → contents (machine.os.close fd w) ≡ contents w
  pub tcp_bind_keeps : (addr : Str) → Keeps contents (machine.os.tcp_bind addr)
  pub tcp_accept_keeps : (fd : ℤ) → Keeps contents (machine.os.tcp_accept fd)
  pub spawn_keeps : (w : W) → contents (machine.spawn w).1 ≡ contents w
  pub load_keeps : (w : W) → contents (machine.load_sdk_config w).1 ≡ contents w
  pub streams : (x : ReadWrite) → IsStream contents (machine.reader x) (machine.writer x)

module _ {W : Type 0} (machine : Machine W) (contents : W → Contents)
    (A : IsApart machine contents) where
  checked-Keeps :
      {T : Type 0} (fd : ℤ) (next : M W T) (r : ℤ × W)
      → Keeps contents next
      → contents (checked machine.os fd next r).1 ≡ contents r.1
  unfolding checked fail_closing
  checked-Keeps fd next (rc, w) rest = elim (Bool-cases (is_negative rc)) [
    | inl fails ↦ rw fails (A.close_keeps fd w)
    | inr fine ↦ rw fine (rest w)
  ]

  with_socket-Keeps :
      {T : Type 0} (next : ℤ → M W T) (r : ℤ × W)
      → ((fd : ℤ) → Keeps contents (next fd))
      → contents (with_socket machine.os next r).1 ≡ contents r.1
  unfolding with_socket
  with_socket-Keeps next (fd, w) rest = elim (Bool-cases (is_negative fd)) [
    | inl fails ↦ rw fails
    | inr fine ↦ rw fine (rest fd w)
  ]

  bind_socket-Keeps : (addr : SockAddrVm) (fd : ℤ) → Keeps contents (bind_socket machine.os addr fd)
  unfolding bind_socket listen_socket
  bind_socket-Keeps addr fd w =
      checked-Keeps fd (listen_socket machine.os fd) (machine.os.bind fd addr sockaddr_size w) (λ v.
        checked-Keeps fd (λ u. (ok (vsock_listener (linux fd)), u)) (machine.os.listen fd 128 v)
          (λ u. refl)
        ∙ A.listen_keeps fd 128 v)
      ∙ A.bind_keeps fd addr sockaddr_size w

  pub listen_endpoint-Keeps :
      (endpoint : Endpoint)
      → Keeps contents (listen_endpoint machine.os machine.target_os_linux endpoint)
  unfolding listen_endpoint listen_vsock Linux.listen_vsock
  listen_endpoint-Keeps (tcp addr) w =
      bind-Keeps contents (machine.os.tcp_bind addr) _ (A.tcp_bind_keeps addr) (λ fd v. refl) w
  listen_endpoint-Keeps (vsock cid port) w = elim (Bool-cases machine.target_os_linux) [
    | inl supported ↦ rw supported (
        with_socket-Keeps
          (bind_socket machine.os (sockaddr (if cid == 0 then vmaddr_cid_any else cid) port))
          (machine.os.socket af_vsock sock_stream 0 w) (bind_socket-Keeps _)
        ∙ A.socket_keeps af_vsock sock_stream 0 w)
    | inr other ↦ rw other
  ]

  pub accept-Keeps :
      (listener : Listener) → Keeps contents (accept machine.os machine.target_os_linux listener)
  unfolding accept accept_on Linux.accept_vsock
  accept-Keeps (tcp_listener fd) w =
      bind-Keeps contents (machine.os.tcp_accept fd) _ (A.tcp_accept_keeps fd) (λ client v. refl) w
  accept-Keeps (vsock_listener unsupported) w = refl
  accept-Keeps (vsock_listener (linux fd)) w =
      let same = A.accept_keeps fd (sockaddr 0 0) sockaddr_size w in
      elim (Bool-cases (is_negative (machine.os.accept fd (sockaddr 0 0) sockaddr_size w).0)) [
        | inl fails ↦ rw fails same
        | inr fine ↦ rw fine same
      ]

  pub close_listener-keeps :
      (host : Host W) (listener : Listener) (w : W)
      → contents (close_listener machine host listener w) ≡ contents w
  unfolding close_listener
  close_listener-keeps host (tcp_listener fd) w = A.close_keeps fd w
  close_listener-keeps host (vsock_listener unsupported) w = refl
  close_listener-keeps host (vsock_listener (linux fd)) w = A.close_keeps fd w

  pub close_stream-keeps :
      (x : ReadWrite) (w : W) → contents (close_stream machine.os x w) ≡ contents w
  unfolding close_stream
  close_stream-keeps (tcp_stream fd) w = A.close_keeps fd w
  close_stream-keeps (file fd) w = A.close_keeps fd w

  module _ (host : Host W) (env : Environment) (endpoint : Endpoint) where
    with_provider-Keeps :
        (default_provider : CredentialsProvider)
        → Keeps contents (with_provider machine host env endpoint default_provider)
    unfolding with_provider listening
    with_provider-Keeps default_provider =
        bind-Keeps contents (lift (credentials_providers env default_provider))
          (listening machine host env endpoint) (λ w. refl)
          (λ providers.
            bind-Keeps contents (listen_endpoint machine.os machine.target_os_linux endpoint)
              (λ listener. pure (providers, listener)) (listen_endpoint-Keeps endpoint)
              (λ listener w. refl))

    with_config-keeps :
        (r : Option CredentialsProvider × W)
        → contents (with_config machine host env endpoint r).1 ≡ contents r.1
    unfolding with_config
    with_config-keeps (some default_provider, w) = with_provider-Keeps default_provider w
    with_config-keeps (none, w) = refl

    pub set_up-Keeps : Keeps contents (set_up machine host env endpoint)
    unfolding set_up
    set_up-Keeps w = with_config-keeps (machine.load_sdk_config w) ∙ A.load_keeps w
