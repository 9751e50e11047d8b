-- ===== src/Sockets/Linux.antt =====
-- The streams and listeners, and the module `linux_vsock` (src/lib.rs). The functions of the C
-- library and of std::net are parameters.
use aws_kms_demo.Base.{
  ℕ, ◌^◌, ◌%◌, ◌==◌, Str, Bytes, Result, err, ok, Option, some, Bool, true, false, if◌then◌else◌,
  [], ◌∷◌,
}
use aws_kms_demo.Effects.{M}
use aws_kms_demo.Text.Number.{ℤ, pos, negsuc}

pub record SockAddrVm : Type 0 where
  pub svm_family : ℕ
  pub svm_reserved1 : ℕ
  pub svm_port : ℕ
  pub svm_cid : ℕ
  pub svm_zero : Bytes

-- `mem::size_of::<SockAddrVm>()`: two u16, two u32 and four bytes, without padding.
abbrev pub sockaddr_size : ℕ
sockaddr_size = 16

-- A descriptor is an i32; `close` is what dropping its owner does. `accept` writes the peer's
-- address.
pub record Os (W : Type 0) : Type 0 where
  pub socket : ℕ → ℕ → ℕ → W → ℤ × W
  pub connect : ℤ → SockAddrVm → ℕ → W → ℤ × W
  pub bind : ℤ → SockAddrVm → ℕ → W → ℤ × W
  pub listen : ℤ → ℕ → W → ℤ × W
  pub accept : ℤ → SockAddrVm → ℕ → W → ℤ × SockAddrVm × W
  pub last_os_error : W → Str
  pub close : ℤ → W → W
  pub tcp_connect : Str → M W ℤ
  pub tcp_bind : Str → M W ℤ
  pub tcp_accept : ℤ → M W ℤ
  pub try_clone : ℤ → M W ℤ

-- `Box<dyn ReadWrite>`: a `TcpStream` or a `File`.
pub data ReadWrite : Type 0 where
  tcp_stream : ℤ → ReadWrite
  file : ℤ → ReadWrite

pub data VsockListener : Type 0 where
  unsupported : VsockListener
  linux : ℤ → VsockListener

pub data Listener : Type 0 where
  tcp_listener : ℤ → Listener
  vsock_listener : VsockListener → Listener

pub record AcceptedConnection : Type 0 where
  pub stream : ReadWrite
  pub peer_cid : Option ℕ

abbrev pub af_vsock : ℕ
af_vsock = 40

abbrev pub sock_stream : ℕ
sock_stream = 1

abbrev pub vmaddr_cid_any : ℕ
vmaddr_cid_any = 0xffff_ffff

-- `fd < 0`
abbrev pub is_negative : ℤ → Bool
is_negative (pos n) = false
is_negative (negsuc n) = true

-- `AF_VSOCK as u16`
abbrev pub sockaddr : ℕ → ℕ → SockAddrVm
sockaddr cid port = record {
  svm_family = af_vsock % 2 ^ 16;
  svm_reserved1 = 0;
  svm_port = port;
  svm_cid = cid;
  svm_zero = 0 ∷ 0 ∷ 0 ∷ 0 ∷ [];
}

module _ {W : Type 0} (os : Os W) where
  -- The error is read before the descriptor is closed.
  unfoldable pub fail_closing : {A : Type 0} → ℤ → M W A
  fail_closing fd w = (err (os.last_os_error w), os.close fd w)

  -- What follows `socket`.
  unfoldable pub with_socket : {A : Type 0} → (ℤ → M W A) → ℤ × W → Result A × W
  with_socket next (fd, w) = if is_negative fd then (err (os.last_os_error w), w) else next fd w

  -- What follows a call on the open descriptor.
  unfoldable pub checked : {A : Type 0} → ℤ → M W A → ℤ × W → Result A × W
  unfolding fail_closing
  checked fd next (rc, w) = if is_negative rc then fail_closing fd w else next w

  unfoldable pub connect_socket : SockAddrVm → ℤ → M W ReadWrite
  connect_socket addr fd w =
      checked fd (λ v. (ok (file fd), v)) (os.connect fd addr sockaddr_size w)

  unfoldable pub connect_vsock : ℕ → ℕ → M W ReadWrite
  unfolding with_socket connect_socket checked fail_closing
  connect_vsock cid port w =
      with_socket (connect_socket (sockaddr cid port)) (os.socket af_vsock sock_stream 0 w)

  unfoldable pub listen_socket : ℤ → M W Listener
  listen_socket fd w = checked fd (λ v. (ok (vsock_listener (linux fd)), v)) (os.listen fd 128 w)

  unfoldable pub bind_socket : SockAddrVm → ℤ → M W Listener
  unfolding listen_socket
  bind_socket addr fd w = checked fd (listen_socket fd) (os.bind fd addr sockaddr_size w)

  unfoldable pub listen_vsock : ℕ → ℕ → M W Listener
  unfolding with_socket bind_socket listen_socket checked fail_closing
  listen_vsock cid port w =
      let bind_cid = if cid == 0 then vmaddr_cid_any else cid in
      with_socket (bind_socket (sockaddr bind_cid port)) (os.socket af_vsock sock_stream 0 w)

  unfoldable pub accept_vsock : ℤ → M W AcceptedConnection
  accept_vsock fd w =
      let (client, addr, v) = os.accept fd (sockaddr 0 0) sockaddr_size w in
      if is_negative client
      then (err (os.last_os_error v), v)
      else (ok (record { stream = file client; peer_cid = some addr.svm_cid }), v)
