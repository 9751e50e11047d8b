-- ===== src/Client.antt =====
-- The enclave's side of the broker protocol: `request_broker` and its callers (src/lib.rs), and
-- `BrokerS3Client` (src/key_material.rs).
use aws_kms_demo.Base.{Bool, Str, Bytes, txt, Result, Option, ◌++◌}
use aws_kms_demo.Effects.{M, ◌>>=◌, ◌>>◌, pure, raise}
use aws_kms_demo.Endpoint.{Endpoint}
use aws_kms_demo.Config.Types.{
  ParentSettings, KmsSlot, AwsCredentials, BrokerRequest, get_settings, get_aws_credentials,
  load_object, save_object_if_absent, BrokerResponse, settings, aws_credentials, object, saved,
  error,
}
use aws_kms_demo.Sockets.Linux.{Os, ReadWrite}
use aws_kms_demo.Sockets.{connect_endpoint, close_stream}
use aws_kms_demo.Frame.{Codec, Writer, Reader, write_json_frame, read_json_frame}

-- The sockets, the streams over them, serde_json, and `debug`, the derived `{:?}`.
pub record Network (W : Type 0) : Type 0 where
  pub os : Os W
  pub target_os_linux : Bool
  pub writer : ReadWrite → Writer W
  pub reader : ReadWrite → Reader W
  pub requests : Codec BrokerRequest
  pub responses : Codec BrokerResponse
  pub debug : BrokerResponse → Str

module _ {W : Type 0} (net : Network W) (endpoint : Endpoint) where
  -- The `match` on the response: an `Error` becomes an `Err`.
  unfoldable pub fail_on_error : BrokerResponse → M W BrokerResponse
  fail_on_error (error message) = raise message
  fail_on_error response = pure response

  -- The request and the response on a stream.
  unfoldable pub exchange : ReadWrite → BrokerRequest → M W BrokerResponse
  unfolding fail_on_error
  exchange stream request = do
    write_json_frame net.requests (net.writer stream) request
    response ← read_json_frame net.responses (net.reader stream)
    fail_on_error response

  -- The stream is dropped on every way out.
  abbrev pub closing : ReadWrite → Result BrokerResponse × W → Result BrokerResponse × W
  closing stream r = (r.0, close_stream net.os stream r.1)

  unfoldable pub request_broker : BrokerRequest → M W BrokerResponse
  unfolding exchange
  request_broker request = connect_endpoint net.os net.target_os_linux endpoint >>= λ stream w.
      closing stream (exchange stream request w)

  unfoldable pub unexpected : {A : Type 0} → BrokerResponse → M W A
  unexpected response = raise (txt "unexpected enclave-broker response: " ++ net.debug response)

  expect_settings : BrokerResponse → M W ParentSettings
  unfolding unexpected
  expect_settings (settings s) = pure s
  expect_settings response = unexpected response

  unfoldable pub request_broker_settings : M W ParentSettings
  unfolding expect_settings
  request_broker_settings = do response ← request_broker get_settings; expect_settings response

  expect_credentials : BrokerResponse → M W AwsCredentials
  unfolding unexpected
  expect_credentials (aws_credentials c) = pure c
  expect_credentials response = unexpected response

  unfoldable pub request_broker_credentials : KmsSlot → M W AwsCredentials
  unfolding expect_credentials
  request_broker_credentials slot = do
    response ← request_broker (get_aws_credentials slot)
    expect_credentials response

  unfoldable pub expect_object : BrokerResponse → M W (Option Bytes)
  unfolding unexpected
  expect_object (object body) = pure body
  expect_object response = unexpected response

  -- `BrokerS3Client::load_object`
  unfoldable pub client_load_object : Str → Str → M W (Option Bytes)
  unfolding expect_object
  client_load_object bucket key = do
    response ← request_broker (load_object bucket key)
    expect_object response

  unfoldable pub expect_saved : BrokerResponse → M W (Unit {0})
  unfolding unexpected
  expect_saved saved = pure tt
  expect_saved response = unexpected response

  -- `BrokerS3Client::save_object_if_absent`
  unfoldable pub client_save_object_if_absent : Str → Str → Bytes → M W (Unit {0})
  unfolding expect_saved
  client_save_object_if_absent bucket key body = do
    response ← request_broker (save_object_if_absent bucket key body)
    expect_saved response
