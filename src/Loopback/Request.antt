-- ===== src/Loopback/Request.antt =====
-- What the enclave gets as the answer of the broker is what the broker answers (src/lib.rs).
use aws_kms_demo.Base.{
  ◌≤◌, Str, Bytes, Result, ok, err, panic, length, [], ◌++◌, ◌≡◌, ◌≢◌, refl, sym, ap, ◌∙◌, inl, inr,
  append_assoc, ok-injective,
}
use aws_kms_demo.Effects.{M, and_then, bind_elim}
use aws_kms_demo.Config.Types.{
  BrokerRequest, BrokerResponse, error, settings, aws_credentials, object, saved,
}
use aws_kms_demo.Endpoint.{Endpoint}
use aws_kms_demo.Frame.{write_json_frame, read_json_frame, max_json_frame_length}
use aws_kms_demo.Frame.RoundTrip.{IsFaithful, frame}
use aws_kms_demo.Sockets.Linux.{ReadWrite}
use aws_kms_demo.Sockets.{connect_endpoint, close_stream}
use aws_kms_demo.Broker.{respond, serve_connection}
use aws_kms_demo.Broker.Untouched.{IsUntouchedHost, respond-Keeps}
use aws_kms_demo.Client.{request_broker, exchange, fail_on_error}
use aws_kms_demo.Loopback.{Wire, buffers, enclave_writer, broker_writer, Peer, served, network}
use aws_kms_demo.S3.Store.{Contents}
use aws_kms_demo.Loopback.Connect.{IsFresh, connect_endpoint-empties}
use aws_kms_demo.Loopback.Frames.{
  WritesFrame, write_json_frame-WritesFrame, broker_reads, enclave_reader, enclave_reads,
  enclave_reads_nothing,
}

module _ {W : Type 0} (peer : Peer W) where
  abbrev pub answers : BrokerRequest → Wire W → Result BrokerResponse × Wire W
  answers request =
      respond peer.host peer.providers peer.settings peer.allowed peer.cid (ok request)

  -- What the broker's thread does with a request that it has read.
  abbrev pub answering : Result BrokerResponse × Wire W → Wire W
  answering r =
      (and_then r
        (λ response x. (ok tt, (write_json_frame peer.responses broker_writer response x).1))).1

  abbrev pub ended : Wire W → Wire W
  ended x = (x.0, [], x.2)

  pub served-frame :
      (request : BrokerRequest) (payload : Bytes) (w : W)
      → peer.requests.from_slice payload ≡ ok request
      → length payload ≤ max_json_frame_length
      → served peer (w, frame payload, []) ≡ ended (answering (answers request (w, [], [])))
  unfolding served serve_connection aws_kms_demo.Frame.to_be_bytes respond
  served-frame request payload w e h = rw (broker_reads peer.requests request payload [] w e h)

  -- The broker gives that response to the request, and the world is the one that it leaves.
  abbrev pub IsAnswer : BrokerRequest → W → BrokerResponse → Wire W → Type 0
  IsAnswer request w response x =
      (z : Wire W) × (answers request (w, [], []) ≡ (ok response, z)) × (x ≡ (z.0, [], []))

  abbrev pub read_answer : M (Wire W) BrokerResponse
  read_answer = read_json_frame peer.responses (enclave_reader peer.responses peer)

  module _ (U : IsUntouchedHost peer.host buffers) (faithful_requests : IsFaithful peer.requests)
      (faithful_responses : IsFaithful peer.responses) where
    -- The thread wrote its response's frame or nothing.
    read_written :
        (x : Wire W) (response other : BrokerResponse) (w : W) (x' : Wire W)
        (written : Result (Unit {0}) × Wire W)
        → served peer x ≡ ended written.1
        → WritesFrame peer.responses
            (λ bytes (v, up, down). (v, up, down ++ bytes))
            response
            (w, [], [])
            written
        → read_answer x ≡ (ok other, x')
        → (response ≡ other) × (x' ≡ (w, [], []))
    read_written x response other w x' written e (inl (payload, made, small, wrote)) h =
        let read =
          enclave_reads peer.responses peer response payload x w
            (faithful_responses response payload made) small (e ∙ ap (λ r. ended r.1) wrote) in
        let same = sym read ∙ h in
        (ok-injective response other (ap (λ r. r.0) same), sym (ap (λ r. r.1) same))
    read_written x response other w x' written e (inr (nothing, failed)) h =
        absurd (enclave_reads_nothing peer.responses peer x w other x' (e ∙ ap ended nothing) h)

    read_after :
        (x : Wire W) (request : BrokerRequest) (other : BrokerResponse) (w : W) (x' : Wire W)
        (r : Result BrokerResponse × Wire W)
        → answers request (w, [], []) ≡ r
        → buffers r.1 ≡ ([], [])
        → served peer x ≡ ended (answering r)
        → read_answer x ≡ (ok other, x')
        → IsAnswer request w other x'
    read_after x request other w x' (ok response, (v, up, down)) e empty closes h =
        let here : ◌≡◌ {A = Wire W} (v, up, down) (v, [], []) =
          ap (λ (b : Bytes × Bytes). (v, b.0, b.1)) empty in
        let (same, end) =
          read_written x response other v x'
            (write_json_frame peer.responses broker_writer response (v, [], []))
            (closes
              ∙ ap
                  (λ (y : Wire W).
                    ended (write_json_frame peer.responses broker_writer response y).1)
                  here)
            (write_json_frame-WritesFrame peer.responses
              (λ bytes (v, up, down). (v, up, down ++ bytes))
              (λ a b (v, up, down). ap (λ d. (v, up, d)) (append_assoc down a b)) response
              (v, [], []))
            h in
        ((v, up, down), e ∙ ap (λ c. (ok c, (v, up, down))) same, end)
    read_after x request other w x' (err m, (v, up, down)) e empty closes h = absurd (
        enclave_reads_nothing peer.responses peer x v other x'
          (closes ∙ ap (λ (b : Bytes × Bytes). (v, [], b.1)) empty) h)
    read_after x request other w x' (panic m, (v, up, down)) e empty closes h = absurd (
        enclave_reads_nothing peer.responses peer x v other x'
          (closes ∙ ap (λ (b : Bytes × Bytes). (v, [], b.1)) empty) h)

    read_request :
        (request : BrokerRequest) (payload : Bytes) (other : BrokerResponse) (w : W) (x' : Wire W)
        → peer.requests.from_slice payload ≡ ok request
        → length payload ≤ max_json_frame_length
        → read_answer (w, frame payload, []) ≡ (ok other, x')
        → IsAnswer request w other x'
    read_request request payload other w x' e small h =
        read_after (w, frame payload, []) request other w x' (answers request (w, [], [])) refl
          (respond-Keeps peer.host buffers U peer.providers peer.settings peer.allowed peer.cid
            (ok request) (w, [], []))
          (served-frame request payload w e small) h

    exchange_answers :
        (request : BrokerRequest) (other : BrokerResponse) (w : W) (x' : Wire W)
        (written : Result (Unit {0}) × Wire W)
        → WritesFrame peer.requests
            (λ bytes (v, up, down). (v, up ++ bytes, down))
            request
            (w, [], [])
            written
        → and_then written (λ _. read_answer) ≡ (ok other, x')
        → IsAnswer request w other x'
    exchange_answers request other w x' written (inl (payload, made, small, wrote)) h =
        read_request request payload other w x' (faithful_requests request payload made) small
          (ap (λ r. and_then r (λ _. read_answer)) (sym wrote) ∙ h)
    exchange_answers request other w x' (ok _, v) (inr (nothing, failed)) h = absurd (failed refl)
    exchange_answers request other w x' (err m, v) (inr (nothing, failed)) h = cc
    exchange_answers request other w x' (panic m, v) (inr (nothing, failed)) h = cc

    passes :
        (net_response response : BrokerResponse) (endpoint : Endpoint) (x x' : Wire W)
        → fail_on_error (network peer) endpoint net_response x ≡ (ok response, x')
        → ((m : Str) → response ≢ error m) × (net_response ≡ response) × (x ≡ x')
    unfolding fail_on_error
    passes (settings s) response endpoint x x' h =
        (λ m e. cc, ok-injective (settings s) response (ap (λ r. r.0) h), ap (λ r. r.1) h)
    passes (aws_credentials c) response endpoint x x' h =
        (λ m e. cc, ok-injective (aws_credentials c) response (ap (λ r. r.0) h), ap (λ r. r.1) h)
    passes (object body) response endpoint x x' h =
        (λ m e. cc, ok-injective (object body) response (ap (λ r. r.0) h), ap (λ r. r.1) h)
    passes saved response endpoint x x' h =
        (λ m e. cc, ok-injective saved response (ap (λ r. r.0) h), ap (λ r. r.1) h)
    passes (error message) response endpoint x x' h = cc

    module _ (held : W → Contents) (F : IsFresh peer.os held) where
      -- The client's answer is the broker's, and no error; the stream is closed.
      abbrev pub IsAnswered : Endpoint → BrokerRequest → Wire W → BrokerResponse → Wire W → Type 0
      IsAnswered endpoint request x response x' =
          (w : W) × (stream : ReadWrite) × (connect_endpoint peer.os peer.target_os_linux endpoint x
            ≡ (ok stream, (w, [], [])))
          × ((z : Wire W) × (answers request (w, [], []) ≡ (ok response, z))
              × (x' ≡ close_stream peer.os stream (z.0, [], [])))
          × ((m : Str) → response ≢ error m)

      answer_after :
          (endpoint : Endpoint) (request : BrokerRequest) (response net_response : BrokerResponse)
          (x y v u t x' : Wire W) (stream : ReadWrite)
          → connect_endpoint peer.os peer.target_os_linux endpoint x ≡ (ok stream, y)
          → write_json_frame peer.requests enclave_writer request y ≡ (ok tt, v)
          → read_answer v ≡ (ok net_response, u)
          → fail_on_error (network peer) endpoint net_response u ≡ (ok response, t)
          → close_stream peer.os stream t ≡ x'
          → IsAnswered endpoint request x response x'
      answer_after endpoint request response net_response x (w, up, down) v u t x' stream connected
            wrote read last dropped =
          let empty =
            connect_endpoint-empties peer.os held F peer.target_os_linux endpoint x (w, up, down)
              stream connected in
          let here : ◌≡◌ {A = Wire W} (w, up, down) (w, [], []) =
            ap (λ (b : Bytes × Bytes). (w, b.0, b.1)) empty in
          let (proper, same, unchanged) = passes net_response response endpoint u t last in
          let (z, e, end) =
            exchange_answers request net_response w u
              (write_json_frame peer.requests enclave_writer request (w, [], []))
              (write_json_frame-WritesFrame peer.requests
                (λ bytes (v, up, down). (v, up ++ bytes, down))
                (λ a b (v, up, down). ap (λ l. (v, l, down)) (append_assoc up a b)) request
                (w, [], []))
              (ap
                  (λ (y : Wire W).
                    and_then (write_json_frame peer.requests enclave_writer request y)
                      (λ _. read_answer))
                  (sym here)
                ∙ (ap (λ r. and_then r (λ _. read_answer)) wrote ∙ read)) in
          (
            w,
            stream,
            connected ∙ ap (λ (q : Wire W). (ok stream, q)) here,
            (
              z,
              e ∙ ap (λ c. (ok c, z)) same,
              sym dropped ∙ ap (close_stream peer.os stream) (sym unchanged ∙ end),
            ),
            proper,
          )

      -- Over streams to the broker's thread, with codecs that read back what they write and a host
      -- that leaves the streams alone, where request_broker returns a response, the connection was
      -- made, the response is no error, and it is the one that respond gives to that request in
      -- the world of the connection; the world in the end is the one that respond leaves, with
      -- nothing left in the streams, once the stream is closed.
      pub request_broker-IsAnswered :
          (endpoint : Endpoint) (request : BrokerRequest) (x : Wire W) (response : BrokerResponse)
          (x' : Wire W)
          → request_broker (network peer) endpoint request x ≡ (ok response, x')
          → IsAnswered endpoint request x response x'
      unfolding request_broker exchange network
      request_broker-IsAnswered endpoint request x response x' h =
          bind_elim (connect_endpoint peer.os peer.target_os_linux endpoint) _ x x' h
            λ stream y connected rest.
              let run = exchange (network peer) endpoint stream request y in
              bind_elim (write_json_frame peer.requests enclave_writer request) _ y run.1
                (ap (λ r. (r.0, run.1)) rest)
                λ _ v wrote rest'. bind_elim read_answer _ v run.1 rest' λ net_response u read last.
                  answer_after endpoint request response net_response x y v u run.1 x' stream
                    connected wrote read last (ap (λ r. r.1) rest)
