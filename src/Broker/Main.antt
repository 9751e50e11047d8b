-- ===== src/Broker/Main.antt =====
-- `enclave_broker_main` (src/bin_support.rs).
pub mod Allowed
use aws_kms_demo.Base.{
  ℕ, Str, txt, Result, ok, err, panic, ◌>>=◌, Option, none, some, Bool, list_eq, ok_or, ◌++◌,
  if◌then◌else◌,
}
use aws_kms_demo.Effects.{M}
use aws_kms_demo.Effects
use aws_kms_demo.Text.{trim, is_empty}
use aws_kms_demo.Text.Number.{parse_u32}
use aws_kms_demo.Config.{Environment, unwrap_or, from_env}
use aws_kms_demo.Config.Types.{ParentSettings}
use aws_kms_demo.Endpoint.{Endpoint, parse}
use aws_kms_demo.Process.{Process, load_environment}
use aws_kms_demo.Rpc.{Tonic, request_enclave_hello}
use aws_kms_demo.Broker.{Host}
use aws_kms_demo.Broker.Loop.{Machine, serve_enclave_broker}

-- `parse::<u32>()` of a value that is not blank; the value itself is not trimmed.
unfoldable pub parse_allowed : Str → Result (Option ℕ)
parse_allowed value =
    if is_empty (trim value)
    then ok none
    else ok_or (parse_u32 value) (txt "ENCLAVE_BROKER_ALLOWED_CID must be a u32") >>= λ cid.
        ok (some cid)

unfoldable pub allowed_enclave_cid : Option Str → Result (Option ℕ)
unfolding parse_allowed
allowed_enclave_cid none = ok none
allowed_enclave_cid (some value) = parse_allowed value

-- What the broker is started with.
pub record Start : Type 0 where
  pub settings : ParentSettings
  pub listen_endpoint : Endpoint
  pub allowed : Option ℕ

unfoldable pub start_of : Environment → Result Start
unfolding allowed_enclave_cid
start_of env = do
  settings ← from_env env
  listen_endpoint ←
      parse (unwrap_or (env (txt "ENCLAVE_BROKER_LISTEN_ENDPOINT")) (txt "tcp:127.0.0.1:7001"))
  allowed ← allowed_enclave_cid (env (txt "ENCLAVE_BROKER_ALLOWED_CID"))
  ok (record { settings = settings; listen_endpoint = listen_endpoint; allowed = allowed })

module _ {W : Type 0} (process : Process W) (machine : Machine W) (host : Host W)
    (tonic : Tonic W) where
  -- `hello`: the message is printed.
  unfoldable pub hello_command : Environment → M W (Unit {0})
  hello_command env =
      Effects.◌>>=◌
        (Effects.lift
          (parse (unwrap_or (env (txt "ENCLAVE_RPC_ENDPOINT")) (txt "tcp:127.0.0.1:7003"))))
        λ endpoint. Effects.◌>>=◌ (request_enclave_hello tonic endpoint) λ message. Effects.pure tt

  -- The loop of the server is run through at most so many calls of `accept`.
  unfoldable pub serve_command : Environment → ℕ → Result Start → W → Option (Result (Unit {0})) × W
  serve_command env n (ok start) w =
      serve_enclave_broker machine host env start.listen_endpoint start.settings start.allowed n w
  serve_command env n (err e) w = (some (err e), w)
  serve_command env n (panic e) w = (some (panic e), w)

  abbrev ended : Result (Unit {0}) × W → Option (Result (Unit {0})) × W
  ended r = (some r.0, r.1)

  -- The `match` on the first argument of the command line.
  unfoldable pub run_command : Environment → Option Str → ℕ → W → Option (Result (Unit {0})) × W
  unfolding hello_command serve_command start_of
  run_command env none n w = serve_command env n (start_of env) w
  run_command env (some command) n w =
      if list_eq command (txt "hello") then ended (hello_command env w) else (
        some (err (txt "unknown enclave-broker command '" ++ (command ++ txt "'; expected hello"))),
        w,
      )

  unfoldable pub after_loading :
      Option Str → ℕ → Result (Unit {0}) × W → Option (Result (Unit {0})) × W
  unfolding run_command
  after_loading command n (ok _, w) = run_command (process.vars w) command n w
  after_loading command n (err e, w) = (some (err e), w)
  after_loading command n (panic e, w) = (some (panic e), w)

  unfoldable pub enclave_broker_main : Option Str → ℕ → W → Option (Result (Unit {0})) × W
  unfolding after_loading
  enclave_broker_main command n w = after_loading command n (load_environment process w)
