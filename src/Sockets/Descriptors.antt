-- ===== src/Sockets/Descriptors.antt =====
-- Which descriptors connecting, listening and accepting leave open (src/lib.rs).
use aws_kms_demo.Base.{
  ℕ, Str, Result, ok, err, panic, Bool, none, Bool-cases, ◌==◌, if◌then◌else◌, List, [], ◌∷◌, ◌++◌,
  ◌≡◌, refl, sym, ◌∙◌, ap, inl, inr,
}
use aws_kms_demo.Effects.{M, ◌>>=◌, pure, and_then}
use aws_kms_demo.Text.Number.{ℤ}
use aws_kms_demo.Endpoint.{Endpoint, tcp, vsock}
use aws_kms_demo.Sockets.Linux.{
  Os, SockAddrVm, ReadWrite, tcp_stream, file, VsockListener, unsupported, linux, Listener,
  tcp_listener, vsock_listener, AcceptedConnection, is_negative, sockaddr, sockaddr_size, af_vsock,
  sock_stream, vmaddr_cid_any, checked, with_socket, fail_closing, connect_socket, listen_socket,
  bind_socket,
}
use aws_kms_demo.Sockets.Linux
use aws_kms_demo.Sockets.{
  connect_vsock, listen_vsock, connect_endpoint, listen_endpoint, accept_on, accept,
  try_clone_stream,
}

-- The open descriptors after a call that returns a new one or a negative number.
abbrev pub gained : ℤ → List ℤ → List ℤ
gained fd open_fds = if is_negative fd then open_fds else fd ∷ open_fds

-- The open descriptors after a call whose result owns some.
abbrev pub owned {ℓ} : {A : Type ℓ} → (A → List ℤ) → Result A → List ℤ → List ℤ
owned fds (ok a) open_fds = fds a ++ open_fds
owned fds (err e) open_fds = open_fds
owned fds (panic e) open_fds = open_fds

abbrev pub stream_fds : ReadWrite → List ℤ
stream_fds (tcp_stream fd) = fd ∷ []
stream_fds (file fd) = fd ∷ []

abbrev pub listener_fds : Listener → List ℤ
listener_fds (tcp_listener fd) = fd ∷ []
listener_fds (vsock_listener (linux fd)) = fd ∷ []
listener_fds (vsock_listener unsupported) = []

-- The table of open descriptors of a process, the latest first: what each call does to it.
pub record IsDescriptorTable {W : Type 0} (os : Os W) (open_fds : W → List ℤ) : Type 0 where
  pub socket_opens :
      (domain type_ protocol : ℕ) (w : W)
      → open_fds (os.socket domain type_ protocol w).1
        ≡ gained (os.socket domain type_ protocol w).0 (open_fds w)
  pub connect_keeps :
      (fd : ℤ) (addr : SockAddrVm) (len : ℕ) (w : W)
      → open_fds (os.connect fd addr len w).1 ≡ open_fds w
  pub bind_keeps :
      (fd : ℤ) (addr : SockAddrVm) (len : ℕ) (w : W)
      → open_fds (os.bind fd addr len w).1 ≡ open_fds w
  pub listen_keeps :
      (fd : ℤ) (backlog : ℕ) (w : W) → open_fds (os.listen fd backlog w).1 ≡ open_fds w
  pub accept_opens :
      (fd : ℤ) (addr : SockAddrVm) (len : ℕ) (w : W)
      → open_fds (os.accept fd addr len w).2 ≡ gained (os.accept fd addr len w).0 (open_fds w)
  pub close_latest :
      (fd : ℤ) (rest : List ℤ) (w : W) → open_fds w ≡ fd ∷ rest → open_fds (os.close fd w) ≡ rest
  pub tcp_connect_opens :
      (addr : Str) (w : W)
      → open_fds (os.tcp_connect addr w).1
        ≡ owned (λ fd. fd ∷ []) (os.tcp_connect addr w).0 (open_fds w)
  pub tcp_bind_opens :
      (addr : Str) (w : W)
      → open_fds (os.tcp_bind addr w).1 ≡ owned (λ fd. fd ∷ []) (os.tcp_bind addr w).0 (open_fds w)
  pub tcp_accept_opens :
      (fd : ℤ) (w : W)
      → open_fds (os.tcp_accept fd w).1 ≡ owned (λ fd. fd ∷ []) (os.tcp_accept fd w).0 (open_fds w)
  pub try_clone_opens :
      (fd : ℤ) (w : W)
      → open_fds (os.try_clone fd w).1
        ≡ owned (λ clone. clone ∷ []) (os.try_clone fd w).0 (open_fds w)

module _ {W : Type 0} (os : Os W) (open_fds : W → List ℤ) (T : IsDescriptorTable os open_fds) where
  -- A result owns exactly what was opened for it.
  abbrev pub Balanced : {A : Type 0} → (A → List ℤ) → W → Result A × W → Type 0
  Balanced fds w r = open_fds r.1 ≡ owned fds r.0 (open_fds w)

  checked-Balanced :
      {A : Type 0} (fds : A → List ℤ) (fd : ℤ) (next : M W A) (r : ℤ × W) (w : W)
      → open_fds r.1 ≡ fd ∷ open_fds w
      → ((u : W) → open_fds u ≡ fd ∷ open_fds w → Balanced fds w (next u))
      → Balanced fds w (checked os fd next r)
  unfolding checked fail_closing
  checked-Balanced fds fd next (rc, v) w opened rest = elim (Bool-cases (is_negative rc)) [
    | inl fails ↦ rw fails (T.close_latest fd (open_fds w) v opened)
    | inr fine ↦ rw fine (rest v opened)
  ]

  with_socket-Balanced :
      {A : Type 0} (fds : A → List ℤ) (next : ℤ → M W A) (w : W)
      → ((fd : ℤ) (u : W) → open_fds u ≡ fd ∷ open_fds w → Balanced fds w (next fd u))
      → Balanced fds w (with_socket os next (os.socket af_vsock sock_stream 0 w))
  unfolding with_socket
  with_socket-Balanced fds next w rest =
      let opened = T.socket_opens af_vsock sock_stream 0 w in
      let (fd, v) = os.socket af_vsock sock_stream 0 w in
      elim (Bool-cases (is_negative fd)) [
        | inl fails ↦ rw fails (rw fails at opened)
        | inr fine ↦ rw fine (rest fd v (rw fine at opened))
      ]

  connect_socket-Balanced :
      (addr : SockAddrVm) (w : W) (fd : ℤ) (v : W)
      → open_fds v ≡ fd ∷ open_fds w
      → Balanced stream_fds w (connect_socket os addr fd v)
  unfolding connect_socket
  connect_socket-Balanced addr w fd v opened =
      checked-Balanced stream_fds fd (λ u. (ok (file fd), u)) (os.connect fd addr sockaddr_size v) w
        (T.connect_keeps fd addr sockaddr_size v ∙ opened) (λ u e. e)

  linux_connect-Balanced :
      (cid port : ℕ) (w : W) → Balanced stream_fds w (Linux.connect_vsock os cid port w)
  unfolding Linux.connect_vsock
  linux_connect-Balanced cid port w =
      with_socket-Balanced stream_fds (connect_socket os (sockaddr cid port)) w
        (connect_socket-Balanced (sockaddr cid port) w)

  listen_socket-Balanced :
      (w : W) (fd : ℤ) (v : W)
      → open_fds v ≡ fd ∷ open_fds w
      → Balanced listener_fds w (listen_socket os fd v)
  unfolding listen_socket
  listen_socket-Balanced w fd v opened =
      checked-Balanced listener_fds fd (λ u. (ok (vsock_listener (linux fd)), u))
        (os.listen fd 128 v) w (T.listen_keeps fd 128 v ∙ opened) (λ u e. e)

  bind_socket-Balanced :
      (addr : SockAddrVm) (w : W) (fd : ℤ) (v : W)
      → open_fds v ≡ fd ∷ open_fds w
      → Balanced listener_fds w (bind_socket os addr fd v)
  unfolding bind_socket
  bind_socket-Balanced addr w fd v opened =
      checked-Balanced listener_fds fd (listen_socket os fd) (os.bind fd addr sockaddr_size v) w
        (T.bind_keeps fd addr sockaddr_size v ∙ opened) (listen_socket-Balanced w fd)

  linux_listen-Balanced :
      (cid port : ℕ) (w : W) → Balanced listener_fds w (Linux.listen_vsock os cid port w)
  unfolding Linux.listen_vsock
  linux_listen-Balanced cid port w =
      let addr = sockaddr (if cid == 0 then vmaddr_cid_any else cid) port in
      with_socket-Balanced listener_fds (bind_socket os addr) w (bind_socket-Balanced addr w)

  abbrev pub connection_fds : AcceptedConnection → List ℤ
  connection_fds c = stream_fds c.stream

  linux_accept-Balanced : (fd : ℤ) (w : W) → Balanced connection_fds w (Linux.accept_vsock os fd w)
  unfolding Linux.accept_vsock
  linux_accept-Balanced fd w =
      let opened = T.accept_opens fd (sockaddr 0 0) sockaddr_size w in
      elim (Bool-cases (is_negative (os.accept fd (sockaddr 0 0) sockaddr_size w).0)) [
        | inl fails ↦ rw fails (rw fails at opened)
        | inr fine ↦ rw fine (rw fine at opened)
      ]

  -- What wraps a call of std::net in a value that owns its descriptor.
  wrapped-Balanced :
      {A : Type 0} (fds : A → List ℤ) (wrap : ℤ → A) (call : M W ℤ) (w : W)
      → ((fd : ℤ) → fds (wrap fd) ≡ fd ∷ [])
      → open_fds (call w).1 ≡ owned (λ fd. fd ∷ []) (call w).0 (open_fds w)
      → Balanced fds w ((call >>= λ fd. pure (wrap fd)) w)
  wrapped-Balanced fds wrap call w one opened = go (call w) opened
    where
      go :
          (r : Result ℤ × W)
          → open_fds r.1 ≡ owned (λ fd. fd ∷ []) r.0 (open_fds w)
          → Balanced fds w (and_then r (λ fd. pure (wrap fd)))
      go (ok fd, v) e = e ∙ ap (λ l. l ++ open_fds w) (sym (one fd))
      go (err m, v) e = e
      go (panic m, v) e = e

module _ {W : Type 0} (os : Os W) (open_fds : W → List ℤ) (T : IsDescriptorTable os open_fds)
    (target_os_linux : Bool) where
  connect_endpoint-Balanced :
      (endpoint : Endpoint) (w : W)
      → Balanced os open_fds T stream_fds w (connect_endpoint os target_os_linux endpoint w)
  unfolding connect_endpoint connect_vsock
  connect_endpoint-Balanced (tcp addr) w =
      wrapped-Balanced os open_fds T stream_fds tcp_stream (os.tcp_connect addr) w (λ fd. refl)
        (T.tcp_connect_opens addr w)
  connect_endpoint-Balanced (vsock cid port) w = elim (Bool-cases target_os_linux) [
    | inl supported ↦ rw supported (linux_connect-Balanced os open_fds T cid port w)
    | inr other ↦ rw other
  ]

  listen_endpoint-Balanced :
      (endpoint : Endpoint) (w : W)
      → Balanced os open_fds T listener_fds w (listen_endpoint os target_os_linux endpoint w)
  unfolding listen_endpoint listen_vsock
  listen_endpoint-Balanced (tcp addr) w =
      wrapped-Balanced os open_fds T listener_fds tcp_listener (os.tcp_bind addr) w (λ fd. refl)
        (T.tcp_bind_opens addr w)
  listen_endpoint-Balanced (vsock cid port) w = elim (Bool-cases target_os_linux) [
    | inl supported ↦ rw supported (linux_listen-Balanced os open_fds T cid port w)
    | inr other ↦ rw other
  ]

  accept-Balanced :
      (listener : Listener) (w : W)
      → Balanced os open_fds T
          (connection_fds os open_fds T)
          w
          (accept os target_os_linux listener w)
  unfolding accept accept_on
  accept-Balanced (tcp_listener fd) w =
      wrapped-Balanced os open_fds T (connection_fds os open_fds T)
        (λ fd. record { stream = tcp_stream fd; peer_cid = none }) (os.tcp_accept fd) w (λ fd. refl)
        (T.tcp_accept_opens fd w)
  accept-Balanced (vsock_listener (linux fd)) w = linux_accept-Balanced os open_fds T fd w
  accept-Balanced (vsock_listener unsupported) w = refl

  try_clone_stream-Balanced :
      (x : ReadWrite) (w : W)
      → Balanced os open_fds T stream_fds w (try_clone_stream os target_os_linux x w)
  unfolding try_clone_stream
  try_clone_stream-Balanced (tcp_stream fd) w =
      wrapped-Balanced os open_fds T stream_fds tcp_stream (os.try_clone fd) w (λ fd. refl)
        (T.try_clone_opens fd w)
  try_clone_stream-Balanced (file fd) w =
      wrapped-Balanced os open_fds T stream_fds file (os.try_clone fd) w (λ fd. refl)
        (T.try_clone_opens fd w)

  -- Over a table of open descriptors that the calls of the operating system keep as documented,
  -- connect_endpoint, listen_endpoint, Listener::accept and try_clone_stream leave open exactly
  -- what was open before and, where they succeed, the descriptor of their result: a failure at any
  -- step closes what was opened.
  pub sockets-Balanced :
      (endpoint : Endpoint) (listener : Listener) (x : ReadWrite) (w : W)
      → Balanced os open_fds T stream_fds w (connect_endpoint os target_os_linux endpoint w)
        × Balanced os open_fds T listener_fds w (listen_endpoint os target_os_linux endpoint w)
        × Balanced os open_fds T
            (connection_fds os open_fds T)
            w
            (accept os target_os_linux listener w)
        × Balanced os open_fds T stream_fds w (try_clone_stream os target_os_linux x w)
  sockets-Balanced endpoint listener x w = (
    connect_endpoint-Balanced endpoint w,
    listen_endpoint-Balanced endpoint w,
    accept-Balanced listener w,
    try_clone_stream-Balanced x w,
  )
