-- ===== src/Broker/Loop/Peer.antt =====
-- Whose connections the broker answers where it is restricted to one enclave (src/lib.rs).
use aws_kms_demo.Base.{
  ℕ, Str, Result, ok, err, panic, Option, none, some, Bool, false, Bool-cases, ◌≡◌, ◌≢◌, sym, ap,
  ◌∙◌, inl, inr, arith, ==_iff, ok-injective,
}
use aws_kms_demo.Effects.{and_then, pure}
use aws_kms_demo.Text.Number.{ℤ}
use aws_kms_demo.Config.Types.{ParentSettings, BrokerRequest, BrokerResponse, error}
use aws_kms_demo.Broker.{Host, Providers, respond, is_foreign}
use aws_kms_demo.Sockets.Linux.{
  Os, Listener, tcp_listener, vsock_listener, VsockListener, unsupported, linux, AcceptedConnection,
  tcp_stream, sockaddr, sockaddr_size, is_negative,
}
use aws_kms_demo.Sockets.Linux
use aws_kms_demo.Sockets.{accept, accept_on}

some_injective : {a b : ℕ} → ◌≡◌ {A = Option ℕ} (some a) (some b) → a ≡ b
some_injective h = cc

own_cid : (cid : ℕ) (peer : Option ℕ) → is_foreign (some cid) peer ≡ false → peer ≡ some cid
unfolding is_foreign
own_cid cid none h = cc
own_cid cid (some other) h = ap (λ c. some c) (ground (arith, ==_iff other cid))

own_peer :
    {W : Type 0} (host : Host W) (providers : Providers) (s : ParentSettings) (cid : ℕ)
    (peer : Option ℕ) (request : BrokerRequest) (response : BrokerResponse) (v v' : W)
    → respond host providers s (some cid) peer (ok request) v ≡ (ok response, v')
    → ((m : Str) → response ≢ error m)
    → peer ≡ some cid
unfolding respond
own_peer host providers s cid peer request response v v' h proper =
    elim (Bool-cases (is_foreign (some cid) peer)) [
      | inl foreign ↦
          absurd (proper _ (sym (ok-injective _ response (ap (λ x. x.0) (rw foreign at h)))))
      | inr own ↦ own_cid cid peer own
    ]

module _ {W : Type 0} (os : Os W) (target_os_linux : Bool) where
  -- The listener is of vsock, and the kernel named that CID as the peer's.
  abbrev pub IsFromCid : Listener → ℕ → W → Type 0
  IsFromCid (tcp_listener fd) cid w = ⊥
  IsFromCid (vsock_listener unsupported) cid w = ⊥
  IsFromCid (vsock_listener (linux fd)) cid w =
      (is_negative (os.accept fd (sockaddr 0 0) sockaddr_size w).0 ≡ false)
      × ((os.accept fd (sockaddr 0 0) sockaddr_size w).1.svm_cid ≡ cid)

  tcp_peer :
      (r : Result ℤ × W) (connection : AcceptedConnection) (w' : W)
      → and_then r (λ fd. pure (record { stream = tcp_stream fd; peer_cid = none }))
        ≡ (ok connection, w')
      → connection.peer_cid ≡ none
  tcp_peer (ok fd, w) connection w' h =
      sym (ap (λ c. c.peer_cid) (ok-injective _ connection (ap (λ x. x.0) h)))
  tcp_peer (err e, w) connection w' h = cc
  tcp_peer (panic e, w) connection w' h = cc

  accept-IsFromCid :
      (listener : Listener) (connection : AcceptedConnection) (cid : ℕ) (w w' : W)
      → accept os target_os_linux listener w ≡ (ok connection, w')
      → connection.peer_cid ≡ some cid
      → IsFromCid listener cid w
  unfolding accept accept_on Linux.accept_vsock
  accept-IsFromCid (tcp_listener fd) connection cid w w' h peer =
      let unknown = tcp_peer (os.tcp_accept fd w) connection w' h in absurd (cc)
  accept-IsFromCid (vsock_listener unsupported) connection cid w w' h peer = absurd (cc)
  accept-IsFromCid (vsock_listener (linux fd)) connection cid w w' h peer =
      elim (Bool-cases (is_negative (os.accept fd (sockaddr 0 0) sockaddr_size w).0)) [
        | inl fails ↦ let failed = (rw fails at h) in absurd (cc)
        | inr fine ↦
            let made = ok-injective _ connection (ap (λ x. x.0) (rw fine at h)) in
            (fine, some_injective (ap (λ c. c.peer_cid) made ∙ peer))
      ]

  -- Where the broker is restricted to a CID and answers a request of an accepted connection with
  -- anything but an error, the listener is a vsock listener and its accept returned a descriptor
  -- with that CID as the peer's address.
  pub respond-IsFromCid :
      (host : Host W) (providers : Providers) (s : ParentSettings) (listener : Listener)
      (connection : AcceptedConnection) (cid : ℕ) (request : BrokerRequest)
      (response : BrokerResponse) (w w' v v' : W)
      → accept os target_os_linux listener w ≡ (ok connection, w')
      → respond host providers s (some cid) connection.peer_cid (ok request) v ≡ (ok response, v')
      → ((m : Str) → response ≢ error m)
      → IsFromCid listener cid w
  respond-IsFromCid host providers s listener connection cid request response w w' v v' accepted
        answered proper =
      accept-IsFromCid listener connection cid w w' accepted
        (own_peer host providers s cid connection.peer_cid request response v v' answered proper)
