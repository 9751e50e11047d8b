-- ===== src/Rpc.antt =====
-- The enclave's gRPC service and its client (src/lib.rs), over the crates tonic and tokio_vsock.
use aws_kms_demo.Base.{ℕ, ◌==◌, Str, txt, Result, ok, ◌++◌, Bool, if◌then◌else◌}
use aws_kms_demo.Effects.{M, ◌>>=◌, pure, lift, raise}
use aws_kms_demo.Endpoint.{Endpoint, tcp, vsock}

pub record HelloResponse : Type 0 where
  pub message : Str

-- `EnclaveGrpcService::hello`
unfoldable pub hello : {W : Type 0} → M W HelloResponse
hello w = (ok (record { message = txt "hello from enclave" }), w)

-- Channels and incoming connections are named by numbers, a socket address by its text; `call` is
-- the generated client's `hello`, and the servers are given the handler.
pub record Tonic (W : Type 0) : Type 0 where
  pub target_os_linux : Bool
  pub connect : Str → M W ℕ
  pub connect_with_connector : ℕ → ℕ → M W ℕ
  pub call : ℕ → M W HelloResponse
  pub parse_socket_addr : Str → Result Str
  pub serve : M W HelloResponse → Str → M W (Unit {0})
  pub bind_vsock : ℕ → ℕ → M W ℕ
  pub serve_with_incoming : M W HelloResponse → ℕ → M W (Unit {0})

abbrev no_vsock : Str
no_vsock = txt "vsock is only supported on Linux targets"

abbrev vmaddr_cid_any : ℕ
vmaddr_cid_any = 0xffff_ffff

module _ {W : Type 0} (tonic : Tonic W) where
  unfoldable pub connect_enclave_vsock_client : ℕ → ℕ → M W ℕ
  connect_enclave_vsock_client cid port w =
      if tonic.target_os_linux then tonic.connect_with_connector cid port w else raise no_vsock w

  unfoldable pub connect_client : Endpoint → M W ℕ
  unfolding connect_enclave_vsock_client
  connect_client (tcp addr) = tonic.connect (txt "http://" ++ addr)
  connect_client (vsock cid port) = connect_enclave_vsock_client cid port

  unfoldable pub request_enclave_hello : Endpoint → M W Str
  unfolding connect_client
  request_enclave_hello endpoint = do
    client ← connect_client endpoint
    response ← tonic.call client
    pure response.message

  serve_incoming : ℕ → ℕ → M W (Unit {0})
  serve_incoming cid port = do
    incoming ← tonic.bind_vsock (if cid == 0 then vmaddr_cid_any else cid) port
    tonic.serve_with_incoming hello incoming

  unfoldable pub serve_enclave_grpc_vsock : ℕ → ℕ → M W (Unit {0})
  unfolding serve_incoming
  serve_enclave_grpc_vsock cid port w =
      if tonic.target_os_linux then serve_incoming cid port w else raise no_vsock w

  unfoldable pub serve_enclave_rpc : Endpoint → M W (Unit {0})
  unfolding serve_enclave_grpc_vsock
  serve_enclave_rpc (tcp addr) = do
    addr ← lift (tonic.parse_socket_addr addr)
    tonic.serve hello addr
  serve_enclave_rpc (vsock cid port) = serve_enclave_grpc_vsock cid port
