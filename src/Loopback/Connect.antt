-- ===== src/Loopback/Connect.antt =====
-- A connection of `connect_endpoint` (src/lib.rs) starts empty and leaves S3 alone.
use aws_kms_demo.Base.{
  ℕ, Str, Bool, Bool-cases, true, false, ok, [], ◌≡◌, refl, sym, ap, ◌∙◌, inl, inr,
}
use aws_kms_demo.Effects.{bind_elim, bind-Keeps, Keeps}
use aws_kms_demo.Text.Number.{ℤ}
use aws_kms_demo.Endpoint.{Endpoint, tcp, vsock}
use aws_kms_demo.S3.Store.{Contents}
use aws_kms_demo.Sockets.Linux.{
  Os, SockAddrVm, ReadWrite, tcp_stream, file, is_negative, sockaddr, sockaddr_size, af_vsock,
  sock_stream, with_socket, connect_socket, checked, fail_closing,
}
use aws_kms_demo.Sockets.Linux
use aws_kms_demo.Sockets.{connect_endpoint, connect_vsock, close_stream}
use aws_kms_demo.Loopback.{Wire, buffers}

-- A call that connects leaves nothing in either direction, and no call on sockets is one of S3.
pub record IsFresh {W : Type 0} (os : Os (Wire W)) (held : W → Contents) : Type 0 where
  pub connect_empties :
      (fd : ℤ) (addr : SockAddrVm) (len : ℕ) (x : Wire W)
      → is_negative (os.connect fd addr len x).0 ≡ false
      → buffers (os.connect fd addr len x).1 ≡ ([], [])
  pub tcp_empties :
      (addr : Str) (x y : Wire W) (fd : ℤ)
      → os.tcp_connect addr x ≡ (ok fd, y)
      → buffers y ≡ ([], [])
  pub socket_keeps :
      (domain type_ protocol : ℕ) (x : Wire W)
      → held (os.socket domain type_ protocol x).1.0 ≡ held x.0
  pub connect_keeps :
      (fd : ℤ) (addr : SockAddrVm) (len : ℕ) (x : Wire W)
      → held (os.connect fd addr len x).1.0 ≡ held x.0
  pub close_keeps : (fd : ℤ) (x : Wire W) → held (os.close fd x).0 ≡ held x.0
  pub tcp_keeps : (addr : Str) → Keeps (λ (x : Wire W). held x.0) (os.tcp_connect addr)

module _ {W : Type 0} (os : Os (Wire W)) (held : W → Contents) (F : IsFresh os held) where
  connect_socket-empties :
      (addr : SockAddrVm) (fd : ℤ) (x y : Wire W) (stream : ReadWrite)
      → connect_socket os addr fd x ≡ (ok stream, y)
      → buffers y ≡ ([], [])
  unfolding connect_socket checked fail_closing
  connect_socket-empties addr fd x y stream h =
      elim (Bool-cases (is_negative (os.connect fd addr sockaddr_size x).0)) [
        | inl fails ↦ let failed = (rw fails at h) in absurd (cc)
        | inr fine ↦
            ap (λ r. buffers r.1) (sym (rw fine at h))
            ∙ F.connect_empties fd addr sockaddr_size x fine
      ]

  connect_socket-keeps :
      (addr : SockAddrVm) (fd : ℤ) (x : Wire W) → held (connect_socket os addr fd x).1.0 ≡ held x.0
  unfolding connect_socket checked fail_closing
  connect_socket-keeps addr fd x =
      let same = F.connect_keeps fd addr sockaddr_size x in
      elim (Bool-cases (is_negative (os.connect fd addr sockaddr_size x).0)) [
        | inl fails ↦ rw fails (F.close_keeps fd (os.connect fd addr sockaddr_size x).1 ∙ same)
        | inr fine ↦ rw fine same
      ]

  linux_connect-empties :
      (cid port : ℕ) (x y : Wire W) (stream : ReadWrite)
      → Linux.connect_vsock os cid port x ≡ (ok stream, y)
      → buffers y ≡ ([], [])
  unfolding Linux.connect_vsock with_socket
  linux_connect-empties cid port x y stream h =
      elim (Bool-cases (is_negative (os.socket af_vsock sock_stream 0 x).0)) [
        | inl fails ↦ let failed = (rw fails at h) in absurd (cc)
        | inr fine ↦
            connect_socket-empties (sockaddr cid port) _ (os.socket af_vsock sock_stream 0 x).1 y
              stream (rw fine at h)
      ]

  linux_connect-keeps :
      (cid port : ℕ) (x : Wire W) → held (Linux.connect_vsock os cid port x).1.0 ≡ held x.0
  unfolding Linux.connect_vsock with_socket
  linux_connect-keeps cid port x =
      let same = F.socket_keeps af_vsock sock_stream 0 x in
      elim (Bool-cases (is_negative (os.socket af_vsock sock_stream 0 x).0)) [
        | inl fails ↦ rw fails same
        | inr fine ↦ rw fine (
            connect_socket-keeps (sockaddr cid port) _ (os.socket af_vsock sock_stream 0 x).1
            ∙ same)
      ]

  pub close_stream-keeps :
      (stream : ReadWrite) (x : Wire W) → held (close_stream os stream x).0 ≡ held x.0
  unfolding close_stream
  close_stream-keeps (tcp_stream fd) x = F.close_keeps fd x
  close_stream-keeps (file fd) x = F.close_keeps fd x

  pub connect_endpoint-empties :
      (target_os_linux : Bool) (endpoint : Endpoint) (x y : Wire W) (stream : ReadWrite)
      → connect_endpoint os target_os_linux endpoint x ≡ (ok stream, y)
      → buffers y ≡ ([], [])
  unfolding connect_endpoint connect_vsock
  connect_endpoint-empties target_os_linux (tcp addr) x y stream h =
      bind_elim (os.tcp_connect addr) _ x y h λ fd v connected last.
        ap (λ r. buffers r.1) (sym last) ∙ F.tcp_empties addr x v fd connected
  connect_endpoint-empties true (vsock cid port) x y stream h =
      linux_connect-empties cid port x y stream h
  connect_endpoint-empties false (vsock cid port) x y stream h = cc

  pub connect_endpoint-keeps :
      (target_os_linux : Bool) (endpoint : Endpoint) (x : Wire W)
      → held (connect_endpoint os target_os_linux endpoint x).1.0 ≡ held x.0
  unfolding connect_endpoint connect_vsock
  connect_endpoint-keeps target_os_linux (tcp addr) x =
      bind-Keeps {B = ReadWrite} (λ (v : Wire W). held v.0) (os.tcp_connect addr) _
        (F.tcp_keeps addr) (λ fd v. refl) x
  connect_endpoint-keeps true (vsock cid port) x = linux_connect-keeps cid port x
  connect_endpoint-keeps false (vsock cid port) x = refl
