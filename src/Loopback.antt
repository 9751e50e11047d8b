-- ===== src/Loopback.antt =====
-- A network that joins the enclave's client (src/lib.rs, src/key_material.rs) to the thread of one
-- connection of the broker (src/lib.rs): a stream of bytes in each direction.
pub mod Frames
pub mod Request
pub mod Connect
pub mod Storage
pub mod Publish
pub mod Answer
use aws_kms_demo.Base.{ℕ, Str, Bytes, ok, Option, Bool, List, [], ◌∷◌, ◌++◌}
use aws_kms_demo.Effects.{M}
use aws_kms_demo.Config.Types.{ParentSettings, BrokerRequest, BrokerResponse}
use aws_kms_demo.Frame.{Codec, Writer, Reader}
use aws_kms_demo.Frame.RoundTrip.{slice_read}
use aws_kms_demo.Sockets.Linux.{Os}
use aws_kms_demo.Broker.{Host, Providers, serve_connection}
use aws_kms_demo.Client.{Network}

-- A world with what the enclave has sent and the broker not yet read, and the other way round.
abbrev pub Wire : Type 0 → Type 0
Wire W = W × Bytes × Bytes

module _ {W : Type 0} where
  abbrev pub buffers : Wire W → Bytes × Bytes
  buffers (w, up, down) = (up, down)

  abbrev pub enclave_writer : Writer (Wire W)
  enclave_writer = record {
    write_all = λ bytes (w, up, down). (ok tt, (w, up ++ bytes, down));
    flush = λ x. (ok tt, x);
  }

  abbrev pub broker_reader : Reader (Wire W)
  broker_reader = record {
    read_exact = λ n (w, up, down). ((slice_read n up).0, (w, (slice_read n up).1, down));
  }

  abbrev pub broker_writer : Writer (Wire W)
  broker_writer = record {
    write_all = λ bytes (w, up, down). (ok tt, (w, up, down ++ bytes));
    flush = λ x. (ok tt, x);
  }

-- The broker and its connection: both sides have one host and one format of messages.
pub record Peer (W : Type 0) : Type 0 where
  pub host : Host (Wire W)
  pub providers : Providers
  pub settings : ParentSettings
  pub requests : Codec BrokerRequest
  pub responses : Codec BrokerResponse
  pub allowed : Option ℕ
  pub cid : Option ℕ
  pub os : Os (Wire W)
  pub target_os_linux : Bool
  pub debug : BrokerResponse → Str

module _ {W : Type 0} (peer : Peer W) where
  -- What the broker has not read is lost when its thread ends.
  abbrev closed : Wire W → Wire W
  closed (w, up, down) = (w, [], down)

  -- The broker's thread runs once the enclave waits for an answer.
  unfoldable pub served : Wire W → Wire W
  served (w, [], down) = (w, [], down)
  served (w, b ∷ up, down) =
      closed
        (serve_connection peer.host peer.providers peer.settings peer.requests peer.responses
          broker_reader broker_writer peer.allowed peer.cid (w, b ∷ up, down)).1

  abbrev received : ℕ → M (Wire W) Bytes
  received n (w, up, down) = ((slice_read n down).0, (w, up, (slice_read n down).1))

  unfoldable pub enclave_read : ℕ → M (Wire W) Bytes
  unfolding served
  enclave_read n x = received n (served x)

  unfoldable pub network : Network (Wire W)
  unfolding enclave_read
  network = record {
    os = peer.os;
    target_os_linux = peer.target_os_linux;
    writer = λ stream. enclave_writer;
    reader = λ stream. record { read_exact = enclave_read };
    requests = peer.requests;
    responses = peer.responses;
    debug = peer.debug;
  }
