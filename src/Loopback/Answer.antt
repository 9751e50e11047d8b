-- ===== src/Loopback/Answer.antt =====
-- The enclave gets every answer that fits a frame (src/lib.rs).
use aws_kms_demo.Base.{◌≤◌, Bytes, ok, length, [], ◌++◌, ◌≡◌, ap, ◌∙◌, append_assoc}
use aws_kms_demo.Config.Types.{BrokerRequest, BrokerResponse}
use aws_kms_demo.Endpoint.{Endpoint}
use aws_kms_demo.Frame.{Codec, write_json_frame, max_json_frame_length}
use aws_kms_demo.Frame.RoundTrip.{IsFaithful, frame}
use aws_kms_demo.Sockets.Linux.{ReadWrite}
use aws_kms_demo.Sockets.{connect_endpoint}
use aws_kms_demo.Client.{request_broker, exchange, closing, fail_on_error}
use aws_kms_demo.Loopback.{Wire, enclave_writer, broker_writer, Peer, served, network}
use aws_kms_demo.Loopback.Frames.{writes_frame, enclave_reads}
use aws_kms_demo.Loopback.Request.{answers, answering, ended, served-frame}

-- The value's JSON fits a frame.
abbrev pub Fits : {T : Type 0} → Codec T → T → Type 0
Fits codec value =
    (payload : Bytes) × (codec.to_vec value ≡ ok payload) × (length payload ≤ max_json_frame_length)

module _ {W : Type 0} (peer : Peer W) (faithful_requests : IsFaithful peer.requests)
    (faithful_responses : IsFaithful peer.responses) where
  -- With codecs that read back what they write, where the connection is made with nothing in its
  -- streams, the request's JSON fits a frame, the broker's thread gives a response and leaves the
  -- streams alone, and the response's JSON fits a frame, request_broker closes the stream and ends
  -- with that response, or with the Err of an error response.
  pub request_broker-answers :
      (endpoint : Endpoint) (request : BrokerRequest) (response : BrokerResponse) (x : Wire W)
      (w v : W) (stream : ReadWrite)
      → connect_endpoint peer.os peer.target_os_linux endpoint x ≡ (ok stream, (w, [], []))
      → Fits peer.requests request
      → answers peer request (w, [], []) ≡ (ok response, (v, [], []))
      → Fits peer.responses response
      → request_broker (network peer) endpoint request x
        ≡ closing
            (network peer)
            endpoint
            stream
            (fail_on_error (network peer) endpoint response (v, [], []))
  unfolding request_broker exchange network
  request_broker-answers endpoint request response x w v stream connected (payload, made, small)
        answered (reply, printed, fits) =
      let sent : write_json_frame peer.requests enclave_writer request (w, [], [])
          ≡ (ok tt, (w, frame payload, [])) =
        writes_frame {X = Wire W} peer.requests (λ bytes (v, up, down). (v, up ++ bytes, down))
          request payload (w, [], [])
          (λ a b (v, up, down). ap (λ l. (v, l, down)) (append_assoc up a b)) made small in
      let replied : write_json_frame peer.responses broker_writer response (v, [], [])
          ≡ (ok tt, (v, [], frame reply)) =
        writes_frame {X = Wire W} peer.responses (λ bytes (v, up, down). (v, up, down ++ bytes))
          response reply (v, [], [])
          (λ a b (v, up, down). ap (λ d. (v, up, d)) (append_assoc down a b)) printed fits in
      let closes : served peer (w, frame payload, []) ≡ (v, [], frame reply) =
        served-frame peer request payload w (faithful_requests request payload made) small
        ∙ (ap (λ r. ended peer (answering peer r)) answered ∙ ap (λ r. ended peer r.1) replied) in
      let read =
        enclave_reads peer.responses peer response reply (w, frame payload, []) v
          (faithful_responses response reply printed) fits closes in
      rw (connected, sent, read)
