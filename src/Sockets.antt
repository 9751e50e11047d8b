-- ===== src/Sockets.antt =====
-- `connect_endpoint`, `listen_endpoint` and `Listener::accept` (src/lib.rs).
pub mod Linux
pub mod Descriptors
use aws_kms_demo.Base.{ℕ, Str, txt, Option, none, Bool, if◌then◌else◌}
use aws_kms_demo.Effects.{M, ◌>>=◌, pure, raise}
use aws_kms_demo.Text.Number.{ℤ}
use aws_kms_demo.Endpoint.{Endpoint, tcp, vsock}
use aws_kms_demo.Sockets.Linux.{
  Os, ReadWrite, tcp_stream, file, VsockListener, unsupported, linux, Listener, tcp_listener,
  vsock_listener, AcceptedConnection,
}
use aws_kms_demo.Sockets.Linux

-- What dropping a stream does.
unfoldable pub close_stream : {W : Type 0} → Os W → ReadWrite → W → W
close_stream os (tcp_stream fd) w = os.close fd w
close_stream os (file fd) w = os.close fd w

abbrev unsupported_text : Str
unsupported_text = txt "vsock is only supported on Linux targets"

module _ {W : Type 0} (os : Os W) (target_os_linux : Bool) where
  unfoldable pub connect_vsock : ℕ → ℕ → M W ReadWrite
  connect_vsock cid port w =
      if target_os_linux then Linux.connect_vsock os cid port w else raise unsupported_text w

  unfoldable pub listen_vsock : ℕ → ℕ → M W Listener
  listen_vsock cid port w =
      if target_os_linux then Linux.listen_vsock os cid port w else raise unsupported_text w

  unfoldable pub connect_endpoint : Endpoint → M W ReadWrite
  unfolding connect_vsock
  connect_endpoint (tcp addr) = do fd ← os.tcp_connect addr; pure (tcp_stream fd)
  connect_endpoint (vsock cid port) = connect_vsock cid port

  unfoldable pub listen_endpoint : Endpoint → M W Listener
  unfolding listen_vsock
  listen_endpoint (tcp addr) = do fd ← os.tcp_bind addr; pure (tcp_listener fd)
  listen_endpoint (vsock cid port) = listen_vsock cid port

  -- `VsockListener::accept`
  unfoldable pub accept_on : VsockListener → M W AcceptedConnection
  accept_on unsupported = raise unsupported_text
  accept_on (linux fd) = Linux.accept_vsock os fd

  -- `Listener::accept`
  unfoldable pub accept : Listener → M W AcceptedConnection
  unfolding accept_on
  accept (tcp_listener listener) = do
    fd ← os.tcp_accept listener
    pure (record { stream = tcp_stream fd; peer_cid = none })
  accept (vsock_listener listener) = accept_on listener

  unfoldable pub try_clone_stream : ReadWrite → M W ReadWrite
  try_clone_stream (tcp_stream fd) = do clone ← os.try_clone fd; pure (tcp_stream clone)
  try_clone_stream (file fd) = do clone ← os.try_clone fd; pure (file clone)
