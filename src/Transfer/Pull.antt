-- ===== src/Transfer/Pull.antt =====
-- src/transfer.rs: `recv_core_with_stream`, a pull of the client. The threads of the data plane are
-- `run`, which gives the result of `Receiver::run` and what it leaves in the sink.
use girth.Prelude.{ℕ, true, List, Option, none, some, ◌==◌, if◌then◌else◌}
use girth.Prelude.Int.{pos}
use girth.Shared.Float.{Float}
use girth.Shared.Result.{Result, ok, err, ◌>>=◌}
use girth.Error.{IoError, GirthError, from_io, integrity}
use girth.Control.{Ack, TransferParams, mode_recv, magnitude, rate_config}
use girth.Protocol.Blocks.{num_blocks}
use girth.Crypto.Payload.{Aead}
use girth.Rate.{RateWarmStart}
use girth.Runtime.{TransferHandle, TransferControl, transferring, verifying, complete}
use girth.Receiver.{SocketAddr}
use girth.Receiver.Setup.{RecvConfig}
use girth.Transfer.Names.{resolve_peer}
use girth.Transfer.Client.{
  Crates, ClientNet, SinkCalls, Request, make_request, check_ack, exchange, open_socket, mark_phase,
  control_of,
}

-- What a pull leaves: its result, which has the stream where it succeeds, the handle and the sink.
pub record Pulled (S K : Type 0) : Type 0 where
  pub result : Result GirthError S
  pub handle : Option TransferHandle
  pub sink : K

-- The checksum that is read back, against the one of the answer.
abbrev pub verify_crc : ℕ → Result IoError (Option ℕ) → Result GirthError (Unit {0})
verify_crc want (err e) = err (from_io e)
verify_crc want (ok none) = ok tt
verify_crc want (ok (some got)) = if got == want then ok tt else err integrity

module _ (lib : Crates) (f : Float) {S K : Type 0} (net : ClientNet S) (sinks : SinkCalls K)
    (server_addr : List ℕ) (p : TransferParams) (warm_start : Option RateWarmStart)
    (auth_token : Option (List ℕ)) where
  unfoldable pub pull_request : List ℕ → Request
  unfolding make_request
  pull_request name = make_request lib net mode_recv name (pos 0) 0 p warm_start auth_token

  unfoldable pub pull_config :
      Request → Ack → Option Aead → SocketAddr → Option TransferControl → RecvConfig f
  unfolding rate_config
  pull_config q a crypto peer control = record {
    shared = record {
      file_size = magnitude a.size;
      block_size = p.block_size;
      total_blocks = num_blocks a.size p.block_size;
      session = a.session;
      expected_peer_ip = some peer.ip;
      crypto = crypto;
      feedback_interval_us = p.feedback_interval_us;
      net_tick_interval_us = p.net_tick_interval_us;
      max_nacks_per_pdu = 0;
    };
    rate = rate_config f p p.rate_bps;
    control = control;
    warm_start = q.warm_start;
    start_peer = some peer;
  }

  -- Up to the sink: the answer, the stream and the cipher.
  unfoldable pub greet : List ℕ → S → Result GirthError ((Ack × S) × Option Aead)
  unfolding pull_request check_ack
  greet name s = exchange net (pull_request name).hello s >>= λ r.
      check_ack lib p auth_token (pull_request name) r.0 >>= λ crypto. ok (r, crypto)

  -- Behind the run: the file is finished and read back.
  abbrev pub checked : Ack → K → Result IoError (Unit {0}) → Result GirthError (Unit {0})
  checked a sink (err e) = err (from_io e)
  checked a sink (ok _) = verify_crc a.crc32c (sinks.read_crc32c sink)

  abbrev pub conclude : Option TransferHandle → S → K → Result GirthError (Unit {0}) → Pulled S K
  conclude handle s sink (err e) = record { result = err e; handle = handle; sink = sink }
  conclude handle s sink (ok _) = record {
    result = ok s;
    handle = mark_phase handle complete;
    sink = sink;
  }

  abbrev pub finish : Option TransferHandle → S → Ack → K → Pulled S K
  finish handle s a sink =
      let (finalized, sink') = sinks.finalize sink in
      conclude handle s sink' (checked a sink' finalized)

  abbrev pub after_run :
      Option TransferHandle → S → Ack → Result IoError (Unit {0}) × K → Pulled S K
  after_run handle s a (err e, sink) = record {
    result = err (from_io e);
    handle = handle;
    sink = sink;
  }
  after_run handle s a (ok _, sink) = finish (mark_phase handle verifying) s a sink

  -- The peer is found, and the data plane runs.
  abbrev pub connected :
      (RecvConfig f → K → Result IoError (Unit {0}) × K)
      → Option TransferHandle
      → Request
      → (Ack × S) × Option Aead
      → K
      → Result GirthError SocketAddr
      → Pulled S K
  connected run handle q (r, crypto) sink (err e) = record {
    result = err e;
    handle = handle;
    sink = sink;
  }
  connected run handle q (r, crypto) sink (ok peer) =
      after_run (mark_phase handle transferring) r.1 r.0
        (run (pull_config q r.0 crypto peer (control_of handle)) sink)

  -- In front of that the sink takes the size.
  abbrev pub receive :
      (RecvConfig f → K → Result IoError (Unit {0}) × K)
      → Option TransferHandle
      → Request
      → (Ack × S) × Option Aead
      → Result IoError (Unit {0}) × K
      → Pulled S K
  receive run handle q g (err e, sink) = record {
    result = err (from_io e);
    handle = handle;
    sink = sink;
  }
  receive run handle q g (ok _, sink) =
      connected run handle q g sink (open_socket net server_addr g.0.0 true)

  abbrev pub begin :
      (RecvConfig f → K → Result IoError (Unit {0}) × K)
      → Option TransferHandle
      → Request
      → K
      → Result GirthError ((Ack × S) × Option Aead)
      → Pulled S K
  begin run handle q sink (err e) = record { result = err e; handle = handle; sink = sink }
  begin run handle q sink (ok g) =
      receive run handle q g (sinks.allocate (magnitude g.0.0.size) sink)

  unfoldable pub recv_core_with_stream :
      (RecvConfig f → K → Result IoError (Unit {0}) × K)
      → List ℕ
      → K
      → Option TransferHandle
      → S
      → Pulled S K
  unfolding greet mark_phase pull_request pull_config resolve_peer
  recv_core_with_stream run name sink handle s =
      begin run handle (pull_request name) sink (greet name s)
