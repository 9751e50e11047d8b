-- ===== src/Tests/Wire.antt =====
-- A broker on a store in memory, joined to the enclave, with a plain encoding of the messages.
use aws_kms_demo.Base.{
  ℕ, Str, Bytes, txt, Result, ok, err, Option, none, some, true, length, take, drop, [], ◌∷◌, ◌++◌,
  ◌≡◌, ◌==◌, if◌then◌else◌, refl, sym, ◌∙◌, ap, take_append, drop_append, ok-injective,
}
use aws_kms_demo.Config.Types.{
  primary, backup, BrokerRequest, get_settings, get_aws_credentials, load_object,
  save_object_if_absent, BrokerResponse, settings, aws_credentials, object, saved, error,
}
use aws_kms_demo.S3.{S3Client}
use aws_kms_demo.S3.Store.{Contents, IsConditionalStore}
use aws_kms_demo.Broker.{Host, default_chain}
use aws_kms_demo.Broker.Access.{IsLawfulHost}
use aws_kms_demo.Broker.Untouched.{IsUntouchedHost}
use aws_kms_demo.Loopback.{Wire, buffers, Peer}
use aws_kms_demo.Loopback.Connect.{IsFresh}
use aws_kms_demo.Loopback.Storage.{IsLawfulPeer}
use aws_kms_demo.Text.Number.{pos}
use aws_kms_demo.Sockets.Linux.{Os, sockaddr}
use aws_kms_demo.Tests.Machine.{key_settings}
use aws_kms_demo.Tests.Store.{memory, memory-IsConditionalStore}

abbrev wire_s3 : S3Client (Wire Contents)
wire_s3 = record {
  get_object =
      λ b k (w, up, down). ((memory.get_object b k w).0, ((memory.get_object b k w).1, up, down));
  put_object_if_none_match = λ b k body (w, up, down). (
    (memory.put_object_if_none_match b k body w).0,
    ((memory.put_object_if_none_match b k body w).1, up, down),
  );
  sleep = λ n x. x;
}

abbrev wire_host : Host (Wire Contents)
wire_host = record {
  s3 = wire_s3;
  provide_credentials = λ p x. (
    ok (record {
      access_key_id = txt "id";
      secret_access_key = txt "secret";
      session_token = none;
      expiry = none;
    }),
    x,
  );
  build_runtime = λ x. (ok tt, x);
}

wire_s3-IsConditionalStore : IsConditionalStore wire_s3 (λ (x : Wire Contents). x.0)
wire_s3-IsConditionalStore =
    let M = memory-IsConditionalStore in
    record {
      get_keeps = λ b k x. M.get_keeps b k x.0;
      get_exact = λ b k x body h. M.get_exact b k x.0 body h;
      get_absent = λ b k x h. M.get_absent b k x.0 h;
      sleep_keeps = λ n x. refl;
      put_created = λ b k body x h. M.put_created b k body x.0 h;
      put_refused =
          λ b k body x status code message h. M.put_refused b k body x.0 status code message h;
      put_unclear = λ b k body x. M.put_unclear b k body x.0;
    }

pub wire_host-IsLawfulHost : IsLawfulHost wire_host (λ (x : Wire Contents). x.0)
wire_host-IsLawfulHost = record {
  store = wire_s3-IsConditionalStore;
  provide_keeps = λ p x. refl;
  runtime_keeps = λ x. refl;
}

pub wire_host-IsUntouchedHost : IsUntouchedHost wire_host buffers
wire_host-IsUntouchedHost = record {
  s3_keeps = record { gets = λ b k x. refl; puts = λ b k body x. refl; sleeps = λ n x. refl };
  provides = λ p x. refl;
  builds = λ x. refl;
}

-- A connection starts with nothing in either direction.
abbrev wire_os : Os (Wire Contents)
wire_os = record {
  socket = λ domain type_ protocol x. (pos 3, x);
  connect = λ fd addr len (w, up, down). (pos 0, (w, [], []));
  bind = λ fd addr len x. (pos 0, x);
  listen = λ fd backlog x. (pos 0, x);
  accept = λ fd addr len x. (pos 4, sockaddr 16 5000, x);
  last_os_error = λ x. txt "error";
  close = λ fd x. x;
  tcp_connect = λ addr (w, up, down). (ok (pos 3), (w, [], []));
  tcp_bind = λ addr x. (ok (pos 3), x);
  tcp_accept = λ fd x. (ok (pos 4), x);
  try_clone = λ fd x. (ok (pos 5), x);
}

-- A tag, and the lengths of the parts before the last.
abbrev encode_request : BrokerRequest → Result Bytes
encode_request get_settings = err (txt "not sent")
encode_request (get_aws_credentials primary) = ok (0 ∷ [])
encode_request (get_aws_credentials backup) = ok (1 ∷ [])
encode_request (load_object b k) = ok (2 ∷ length b ∷ (b ++ k))
encode_request (save_object_if_absent b k body) = ok (3 ∷ length b ∷ length k ∷ (b ++ (k ++ body)))

abbrev load_of : Bytes → Result BrokerRequest
load_of (n ∷ rest) = ok (load_object (take n rest) (drop n rest))
load_of _ = err (txt "not a request")

abbrev save_of : Bytes → Result BrokerRequest
save_of (n ∷ m ∷ rest) =
    ok (save_object_if_absent (take n rest) (take m (drop n rest)) (drop m (drop n rest)))
save_of _ = err (txt "not a request")

abbrev decode_request : Bytes → Result BrokerRequest
decode_request [] = err (txt "not a request")
decode_request (tag ∷ rest) =
    if tag == 0
    then ok (get_aws_credentials primary)
    else if tag == 1
    then ok (get_aws_credentials backup)
    else if tag == 2
    then load_of rest
    else save_of rest

decode-encode_request :
    (r : BrokerRequest) (bytes : Bytes) → encode_request r ≡ ok bytes → decode_request bytes ≡ ok r
decode-encode_request get_settings bytes h = cc
decode-encode_request (get_aws_credentials primary) bytes h =
    ap decode_request (ok-injective bytes (0 ∷ []) (sym h))
decode-encode_request (get_aws_credentials backup) bytes h =
    ap decode_request (ok-injective bytes (1 ∷ []) (sym h))
decode-encode_request (load_object b k) bytes h =
    ap decode_request (ok-injective bytes (2 ∷ length b ∷ (b ++ k)) (sym h))
    ∙ rw (take_append b k, drop_append b k)
decode-encode_request (save_object_if_absent b k body) bytes h =
    ap decode_request (ok-injective bytes (3 ∷ length b ∷ length k ∷ (b ++ (k ++ body))) (sym h))
    ∙ rw (
      take_append b (k ++ body),
      drop_append b (k ++ body),
      take_append k body,
      drop_append k body,
    )

abbrev encode_credentials : Str → Str → Str → Option Str → Option ℕ → Result Bytes
encode_credentials region id secret none none =
    ok (3 ∷ length region ∷ length id ∷ (region ++ (id ++ secret)))
encode_credentials region id secret _ _ = err (txt "not sent")

abbrev encode_response : BrokerResponse → Result Bytes
encode_response (settings s) = err (txt "not sent")
encode_response (aws_credentials c) =
    encode_credentials c.region c.access_key_id c.secret_access_key c.session_token
      c.expires_at_epoch_seconds
encode_response (object none) = ok (1 ∷ [])
encode_response (object (some body)) = ok (2 ∷ body)
encode_response saved = ok (0 ∷ [])
encode_response (error m) = ok (4 ∷ m)

abbrev credentials_of : Bytes → Result BrokerResponse
credentials_of (n ∷ m ∷ rest) = ok (
    aws_credentials (record {
      region = take n rest;
      access_key_id = take m (drop n rest);
      secret_access_key = drop m (drop n rest);
      session_token = none;
      expires_at_epoch_seconds = none;
    }))
credentials_of _ = err (txt "not a response")

abbrev decode_response : Bytes → Result BrokerResponse
decode_response [] = err (txt "not a response")
decode_response (tag ∷ rest) =
    if tag == 0
    then ok saved
    else if tag == 1
    then ok (object none)
    else if tag == 2
    then ok (object (some rest))
    else if tag == 3
    then credentials_of rest
    else ok (error rest)

decode-encode_credentials :
    (region id secret : Str) (token : Option Str) (expires : Option ℕ) (bytes : Bytes)
    → encode_credentials region id secret token expires ≡ ok bytes
    → decode_response bytes
      ≡ ok (
          aws_credentials (record {
            region = region;
            access_key_id = id;
            secret_access_key = secret;
            session_token = token;
            expires_at_epoch_seconds = expires;
          }))
decode-encode_credentials region id secret none none bytes h =
    ap decode_response
      (ok-injective bytes (3 ∷ length region ∷ length id ∷ (region ++ (id ++ secret))) (sym h))
    ∙ rw (
      take_append region (id ++ secret),
      drop_append region (id ++ secret),
      take_append id secret,
      drop_append id secret,
    )
decode-encode_credentials region id secret none (some n) bytes h = cc
decode-encode_credentials region id secret (some t) expires bytes h = cc

decode-encode_response :
    (r : BrokerResponse) (bytes : Bytes)
    → encode_response r ≡ ok bytes
    → decode_response bytes ≡ ok r
decode-encode_response (settings s) bytes h = cc
decode-encode_response (aws_credentials c) bytes h =
    decode-encode_credentials c.region c.access_key_id c.secret_access_key c.session_token
      c.expires_at_epoch_seconds bytes h
decode-encode_response (object none) bytes h =
    ap decode_response (ok-injective bytes (1 ∷ []) (sym h))
decode-encode_response (object (some body)) bytes h =
    ap decode_response (ok-injective bytes (2 ∷ body) (sym h))
decode-encode_response saved bytes h = ap decode_response (ok-injective bytes (0 ∷ []) (sym h))
decode-encode_response (error m) bytes h = ap decode_response (ok-injective bytes (4 ∷ m) (sym h))

abbrev pub wire_peer : Peer Contents
wire_peer = record {
  host = wire_host;
  providers = (primary, some default_chain) ∷ (backup, some default_chain) ∷ [];
  settings = key_settings;
  requests = record { to_vec = encode_request; from_slice = decode_request };
  responses = record { to_vec = encode_response; from_slice = decode_response };
  allowed = some 16;
  cid = some 16;
  os = wire_os;
  target_os_linux = true;
  debug = λ r. txt "response";
}

wire_os-IsFresh : IsFresh wire_os (λ w. w)
wire_os-IsFresh = record {
  connect_empties = λ fd addr len x fine. refl;
  tcp_empties = λ addr x y fd h. ap (λ r. buffers r.1) (sym h);
  socket_keeps = λ domain type_ protocol x. refl;
  connect_keeps = λ fd addr len x. refl;
  close_keeps = λ fd x. refl;
  tcp_keeps = λ addr x. refl;
}

pub wire_peer-IsLawfulPeer : IsLawfulPeer wire_peer (λ w. w)
wire_peer-IsLawfulPeer = record {
  host_lawful = wire_host-IsLawfulHost;
  host_untouched = wire_host-IsUntouchedHost;
  requests_faithful = decode-encode_request;
  responses_faithful = decode-encode_response;
  sockets_fresh = wire_os-IsFresh;
}
