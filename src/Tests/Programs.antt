-- ===== src/Tests/Programs.antt =====
-- The broker's program, from its start to its end.
use aws_kms_demo.Base.{
  ℕ, ◌<◌, txt, ok, err, panic, none, some, Bool, true, false, list_eq, ◌≡◌, ◌↔◌, refl, [],
  if◌then◌else◌,
}
use aws_kms_demo.Text.Number.{pos}
use aws_kms_demo.Config.{Environment, is_some, unwrap_or, from_env}
use aws_kms_demo.Config.Types.{get_settings, settings}
use aws_kms_demo.Endpoint.{tcp, parse}
use aws_kms_demo.S3.Store.{Contents}
use aws_kms_demo.Broker.{default_chain, respond, serve_connection}
use aws_kms_demo.Sockets.Linux.{
  Os, Listener, tcp_listener, vsock_listener, linux, sockaddr, AcceptedConnection, file,
  is_negative,
}
use aws_kms_demo.Sockets.{accept}
use aws_kms_demo.Broker.Loop.{Machine, accept_loop, serve_enclave_broker}
use aws_kms_demo.Broker.Loop.Ends.{EndsAfter, accept_loop_iff}
use aws_kms_demo.Broker.Loop.Peer.{respond-IsFromCid}
use aws_kms_demo.Broker.Loop.Apart.{IsApart}
use aws_kms_demo.Broker.Loop.Contents.{Guarded, serve_enclave_broker-Guarded}
use aws_kms_demo.Broker.Main.{enclave_broker_main}
use aws_kms_demo.Process.{Process, load_environment}
use aws_kms_demo.Rpc.{Tonic}
use aws_kms_demo.Broker.Main.Allowed.{IsStarted, enclave_broker_main-IsStarted}
use aws_kms_demo.Tests.Fixtures.{init_settings, sized_environment, sized_settings}
use aws_kms_demo.Tests.Store.{empty_store, memory_host, memory_host-IsLawfulHost}
use aws_kms_demo.Tests.Parent.{
  saves, answers, empty_reader, null_writer, quiet, one_object, two_objects,
}

-- Accepting fails once the object is there that the first connection saves.
abbrev one_connection_os : Os Contents
one_connection_os = record {
  socket = λ domain type_ protocol w. (pos 3, w);
  connect = λ fd addr len w. (pos 0, w);
  bind = λ fd addr len w. (pos 0, w);
  listen = λ fd backlog w. (pos 0, w);
  accept = λ fd addr len w. (pos 4, sockaddr 16 5000, w);
  last_os_error = λ w. txt "error";
  close = λ fd w. w;
  tcp_connect = λ addr w. (ok (pos 3), w);
  tcp_bind = λ addr w. (ok (pos 3), w);
  tcp_accept = λ fd w.
      (if is_some (w (txt "vault") (txt "keys/b")) then err (txt "closed") else ok (pos 4), w);
  try_clone = λ fd w. (ok (pos 5), w);
}

abbrev memory_machine : Machine Contents
memory_machine = record {
  os = one_connection_os;
  target_os_linux = true;
  reader = λ stream. empty_reader;
  writer = λ stream. null_writer;
  requests = saves;
  responses = answers;
  spawn = λ w. (none, w);
  load_sdk_config = λ w. (some default_chain, w);
}

memory_machine-IsApart : IsApart memory_machine (λ w. w)
memory_machine-IsApart = record {
  socket_keeps = λ domain type_ protocol w. refl;
  bind_keeps = λ fd addr len w. refl;
  listen_keeps = λ fd backlog w. refl;
  accept_keeps = λ fd addr len w. refl;
  close_keeps = λ fd w. refl;
  tcp_bind_keeps = λ addr w. refl;
  tcp_accept_keeps = λ fd w. refl;
  spawn_keeps = λ w. refl;
  load_keeps = λ w. refl;
  streams = λ x. quiet;
}

-- One connection is served, and the loop ends with the failure of the second call.
loop_run :
    accept_loop memory_machine memory_host init_settings none [] (tcp_listener (pos 3)) 5 one_object
    ≡ (some (err (txt "closed")), two_objects)
unfolding accept_loop accept list_eq txt serve_connection respond aws_kms_demo.Frame.read_json_frame
    aws_kms_demo.Frame.from_be_bytes aws_kms_demo.Broker.answer_request
    aws_kms_demo.Broker.run_request aws_kms_demo.Broker.dispatch
    aws_kms_demo.Broker.validate_s3_target aws_kms_demo.Text.starts_with
    aws_kms_demo.S3.save_s3_object_if_absent aws_kms_demo.Frame.write_json_frame
    aws_kms_demo.Sockets.close_stream
loop_run = refl

-- No thread can be started for the first connection.
abbrev full_machine : Machine Contents
full_machine = record {
  os = one_connection_os;
  target_os_linux = true;
  reader = λ stream. empty_reader;
  writer = λ stream. null_writer;
  requests = saves;
  responses = answers;
  spawn = λ w. (some (txt "limit"), w);
  load_sdk_config = λ w. (some default_chain, w);
}

full_run :
    accept_loop full_machine memory_host init_settings none [] (tcp_listener (pos 3)) 5 one_object
    ≡ (some (panic (txt "failed to spawn thread: limit")), one_object)
unfolding accept_loop accept txt aws_kms_demo.Sockets.close_stream list_eq
full_run = refl

accept_loop_iff_example :
    (accept_loop memory_machine memory_host init_settings none []
        (tcp_listener (pos 3))
        5
        one_object
      ≡ (some (err (txt "closed")), two_objects))
    ↔ ((k : ℕ) × (k < 5)
        × EndsAfter memory_machine memory_host init_settings none []
            (tcp_listener (pos 3))
            k
            one_object
            (some (err (txt "closed")), two_objects))
accept_loop_iff_example =
    accept_loop_iff memory_machine memory_host init_settings none [] (tcp_listener (pos 3)) 5
      one_object (err (txt "closed")) two_objects

abbrev no_environment : Environment
no_environment name = none

serve_enclave_broker-Guarded_example :
    Guarded init_settings one_object
      (serve_enclave_broker memory_machine memory_host no_environment
        (tcp (txt "127.0.0.1:7001"))
        init_settings
        none
        5
        one_object).1
serve_enclave_broker-Guarded_example =
    serve_enclave_broker-Guarded memory_machine memory_host (λ w. w) memory_host-IsLawfulHost
      memory_machine-IsApart init_settings none no_environment (tcp (txt "127.0.0.1:7001")) 5
      one_object

abbrev from_enclave : AcceptedConnection
from_enclave = record { stream = file (pos 4); peer_cid = some 16 }

accepted_run :
    accept one_connection_os true (vsock_listener (linux (pos 3))) empty_store
    ≡ (ok from_enclave, empty_store)
unfolding accept aws_kms_demo.Sockets.Linux.accept_vsock
accepted_run = refl

settings_run :
    respond memory_host [] init_settings (some 16) (some 16) (ok get_settings) empty_store
    ≡ (ok (settings init_settings), empty_store)
unfolding respond aws_kms_demo.Broker.answer_request
settings_run = refl

respond-IsFromCid_example : (◌≡◌ {A = Bool} false false) × (◌≡◌ {A = ℕ} 16 16)
respond-IsFromCid_example =
    respond-IsFromCid one_connection_os true memory_host [] init_settings
      (vsock_listener (linux (pos 3))) from_enclave 16 get_settings (settings init_settings)
      empty_store empty_store empty_store empty_store accepted_run settings_run (λ m e. cc)

-- The broker's program with a configuration that restricts it to one CID.
abbrev broker_environment : Environment
broker_environment name =
    if list_eq name (txt "ENCLAVE_BROKER_ALLOWED_CID")
    then some (txt "16")
    else sized_environment name

abbrev broker_process : Process Contents
broker_process = record {
  vars = λ w. broker_environment;
  from_path = λ path w. (ok tt, w);
  dotenv = λ w. (ok tt, w);
  is_file = λ path w. false;
}

abbrev no_channels : Tonic Contents
no_channels = record {
  target_os_linux = true;
  connect = λ addr w. (err (txt "refused"), w);
  connect_with_connector = λ cid port w. (err (txt "refused"), w);
  call = λ channel w. (err (txt "refused"), w);
  parse_socket_addr = λ addr. ok addr;
  serve = λ handler addr w. (ok tt, w);
  bind_vsock = λ cid port w. (ok 0, w);
  serve_with_incoming = λ handler incoming w. (ok tt, w);
}

loaded_run : load_environment broker_process one_object ≡ (ok tt, one_object)
unfolding load_environment txt list_eq
loaded_run = refl

configured_run : from_env broker_environment ≡ ok sized_settings
unfolding from_env txt list_eq aws_kms_demo.Config.optional_env aws_kms_demo.Text.is_empty
    aws_kms_demo.Text.trim aws_kms_demo.Config.Parse.parse_number_of_bytes
    aws_kms_demo.Text.Number.parse_i32 aws_kms_demo.Config.required_env
    aws_kms_demo.Tests.Fixtures.main_arn aws_kms_demo.Tests.Fixtures.spare_arn
    aws_kms_demo.Config.from_arn aws_kms_demo.Arn.kms_region_from_arn aws_kms_demo.Text.Split.splitn
    aws_kms_demo.Text.starts_with aws_kms_demo.Config.Parse.normalize_s3_prefix
    aws_kms_demo.Config.Parse.is_slash aws_kms_demo.Config.Parse.has_parent
    aws_kms_demo.Text.Split.split
configured_run = refl

listens_run :
    parse (
      unwrap_or
        (broker_environment (txt "ENCLAVE_BROKER_LISTEN_ENDPOINT"))
        (txt "tcp:127.0.0.1:7001"))
    ≡ ok (tcp (txt "127.0.0.1:7001"))
unfolding parse txt list_eq aws_kms_demo.Text.strip_prefix aws_kms_demo.Text.is_empty
listens_run = refl

enclave_broker_main-IsStarted_example :
    IsStarted broker_process memory_machine memory_host no_channels
      (some (txt "16"))
      (λ allowed.
        serve_enclave_broker memory_machine memory_host broker_environment
          (tcp (txt "127.0.0.1:7001"))
          sized_settings
          allowed
          5
          one_object)
      one_object
      (enclave_broker_main broker_process memory_machine memory_host no_channels none 5 one_object)
unfolding list_eq txt
enclave_broker_main-IsStarted_example =
    enclave_broker_main-IsStarted broker_process memory_machine memory_host no_channels
      sized_settings (tcp (txt "127.0.0.1:7001")) 5 one_object one_object loaded_run configured_run
      listens_run
