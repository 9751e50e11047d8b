-- ===== src/Loopback/Storage.antt =====
-- What the enclave learns of S3 through the broker (src/lib.rs, src/key_material.rs).
use aws_kms_demo.Base.{Str, Bytes, ok, Option, some, [], ◌≡◌, refl, sym, ap, ◌∙◌}
use aws_kms_demo.Effects.{bind_elim}
use aws_kms_demo.Config.Types.{
  init_key, load_object, save_object_if_absent, BrokerResponse, error, settings, aws_credentials,
  object, saved,
}
use aws_kms_demo.Endpoint.{Endpoint}
use aws_kms_demo.Frame.RoundTrip.{IsFaithful}
use aws_kms_demo.S3.Store.{Contents}
use aws_kms_demo.Broker.Target.{IsBelow}
use aws_kms_demo.Broker.Access.{IsLawfulHost}
use aws_kms_demo.Broker.Answers.{respond_load_exact, respond_saved_holds}
use aws_kms_demo.Broker.Untouched.{IsUntouchedHost}
use aws_kms_demo.Client.{
  request_broker, client_load_object, client_save_object_if_absent, expect_object, expect_saved,
  unexpected,
}
use aws_kms_demo.Loopback.{Wire, buffers, Peer, network}
use aws_kms_demo.Loopback.Connect.{IsFresh, connect_endpoint-keeps, close_stream-keeps}
use aws_kms_demo.Loopback.Request.{request_broker-IsAnswered}

-- What the two programs rely on: the host serves S3 as it is and leaves the connection alone, the
-- codecs read back what they write, and a connection starts with nothing in it and leaves S3.
pub record IsLawfulPeer {W : Type 0} (peer : Peer W) (held : W → Contents) : Type 0 where
  pub host_lawful : IsLawfulHost peer.host (λ (x : Wire W). held x.0)
  pub host_untouched : IsUntouchedHost peer.host buffers
  pub requests_faithful : IsFaithful peer.requests
  pub responses_faithful : IsFaithful peer.responses
  pub sockets_fresh : IsFresh peer.os held

module _ {W : Type 0} (peer : Peer W) (held : W → Contents) (L : IsLawfulPeer peer held)
    (endpoint : Endpoint) where
  saved_of :
      (response : BrokerResponse) (x x' : Wire W)
      → expect_saved (network peer) endpoint response x ≡ (ok tt, x')
      → (response ≡ saved) × (x ≡ x')
  unfolding expect_saved unexpected
  saved_of (settings s) x x' h = cc
  saved_of (aws_credentials c) x x' h = cc
  saved_of (object body) x x' h = cc
  saved_of saved x x' h = (refl, ap (λ r. r.1) h)
  saved_of (error m) x x' h = cc

  object_of :
      (response : BrokerResponse) (body : Option Bytes) (x x' : Wire W)
      → expect_object (network peer) endpoint response x ≡ (ok body, x')
      → (response ≡ object body) × (x ≡ x')
  unfolding expect_object unexpected
  object_of (settings s) body x x' h = cc
  object_of (aws_credentials c) body x x' h = cc
  object_of (object other) body x x' h = (cc, ap (λ r. r.1) h)
  object_of saved body x x' h = cc
  object_of (error m) body x x' h = cc

  -- On a lawful peer, where BrokerS3Client::save_object_if_absent over the network returns Ok, the
  -- broker is in init-key mode, the key is below its configured prefix in its configured bucket,
  -- and S3 then holds exactly the body under the key.
  pub client_save-holds :
      (bucket key : Str) (body : Bytes) (x x' : Wire W)
      → client_save_object_if_absent (network peer) endpoint bucket key body x ≡ (ok tt, x')
      → (peer.settings.startup_mode ≡ init_key)
        × IsBelow bucket key peer.settings.s3_bucket peer.settings.s3_prefix
        × (held x'.0 bucket key ≡ some body)
  unfolding client_save_object_if_absent
  client_save-holds bucket key body x x' h =
      bind_elim (request_broker (network peer) endpoint (save_object_if_absent bucket key body)) _ x
        x' h
        λ response y asked last.
          let (is_saved, same) = saved_of response y x' last in
          let (w, stream, connected, (z, answer, end), proper) =
            request_broker-IsAnswered peer L.host_untouched L.requests_faithful L.responses_faithful
              held L.sockets_fresh endpoint (save_object_if_absent bucket key body) x response y
              asked in
          let (mode, below, stored) =
            respond_saved_holds peer.host (λ (v : Wire W). held v.0) L.host_lawful peer.providers
              peer.settings peer.allowed peer.cid bucket key body (w, [], []) z
              (answer ∙ ap (λ c. (ok c, z)) is_saved) in
          (
            mode,
            below,
            ap (λ (v : Wire W). held v.0 bucket key) (sym same ∙ end)
                ∙ (ap (λ c. c bucket key)
                      (close_stream-keeps peer.os held L.sockets_fresh stream (z.0, [], []))
                    ∙ stored),
          )

  -- On a lawful peer, where BrokerS3Client::load_object over the network returns a body, the key
  -- is below the broker's configured prefix in its configured bucket and S3 held exactly that body
  -- under it.
  pub client_load-exact :
      (bucket key : Str) (body : Bytes) (x x' : Wire W)
      → client_load_object (network peer) endpoint bucket key x ≡ (ok (some body), x')
      → IsBelow bucket key peer.settings.s3_bucket peer.settings.s3_prefix
        × (held x.0 bucket key ≡ some body)
  unfolding client_load_object
  client_load-exact bucket key body x x' h =
      bind_elim (request_broker (network peer) endpoint (load_object bucket key)) _ x x' h
        λ response y asked last.
          let (is_object, same) = object_of response (some body) y x' last in
          let (w, stream, connected, (z, answer, end), proper) =
            request_broker-IsAnswered peer L.host_untouched L.requests_faithful L.responses_faithful
              held L.sockets_fresh endpoint (load_object bucket key) x response y asked in
          let (below, stored) =
            respond_load_exact peer.host (λ (v : Wire W). held v.0) L.host_lawful peer.providers
              peer.settings peer.allowed peer.cid bucket key body (w, [], []) z
              (answer ∙ ap (λ c. (ok c, z)) is_object) in
          (
            below,
            ap (λ c. c bucket key)
                  (sym (
                    connect_endpoint-keeps peer.os held L.sockets_fresh peer.target_os_linux
                      endpoint x))
                ∙ (ap (λ r. held r.1.0 bucket key) connected ∙ stored),
          )
