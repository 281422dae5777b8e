-- ===== src/Transfer/Push.antt =====
-- src/transfer.rs: `send_core_with_stream`, a push of the client. The threads of the data plane are
-- `run`, which gives the result of `Sender::run`.
use girth.Prelude.{ℕ, false, List, Option, some}
use girth.Prelude.Int.{as_i64}
use girth.Shared.Float.{Float}
use girth.Shared.Result.{Result, ok, err, ◌>>=◌, map_err}
use girth.Error.{IoError, GirthError, from_io}
use girth.Control.{Ack, TransferParams, mode_send, magnitude, rate_config}
use girth.Protocol.Blocks.{num_blocks}
use girth.Io.{BlockSource}
use girth.Io.Crc.{source_crc32c}
use girth.Crypto.Payload.{Aead}
use girth.Rate.{RateWarmStart}
use girth.Runtime.{TransferHandle, TransferControl, transferring, complete}
use girth.Sender.Setup.{SendConfig}
use girth.Receiver.{SocketAddr}
use girth.Transfer.Names.{resolve_peer}
use girth.Transfer.Client.{
  Crates, ClientNet, Request, make_request, check_ack, exchange, open_socket, mark_phase,
  control_of, or_error,
}

module _ (lib : Crates) (f : Float) {S : Type 0} (net : ClientNet S) (server_addr : List ℕ)
    (p : TransferParams) (warm_start : Option RateWarmStart) (auth_token : Option (List ℕ)) where
  unfoldable pub push_request : BlockSource → List ℕ → ℕ → Request
  unfolding make_request
  push_request source name crc =
      make_request lib net mode_send name (as_i64 source.len) crc p warm_start auth_token

  unfoldable pub push_config :
      BlockSource → Request → Ack → Option Aead → SocketAddr → Option TransferControl → SendConfig f
  unfolding rate_config
  push_config source q a crypto peer control = record {
    peer = some peer;
    expected_peer_ip = some peer.ip;
    shared = record {
      source = source;
      file_size = magnitude (as_i64 source.len);
      block_size = p.block_size;
      total_blocks = num_blocks (as_i64 source.len) p.block_size;
      session = a.session;
      crypto = crypto;
    };
    rate = rate_config f p p.rate_bps;
    control = control;
    warm_start = q.warm_start;
  }

  -- Everything of `send_core_with_stream` in front of the run: the stream and the configuration.
  unfoldable pub prepare_send :
      BlockSource → List ℕ → Option TransferControl → S → Result GirthError (S × SendConfig f)
  unfolding source_crc32c push_request check_ack resolve_peer push_config
  prepare_send source name control s =
      map_err from_io (or_error net.source_error (source_crc32c lib.crc32c_append source))
      >>= λ crc. exchange net (push_request source name crc).hello s >>= λ r.
          check_ack lib p auth_token (push_request source name crc) r.0 >>= λ crypto.
          open_socket net server_addr r.0 false >>= λ peer.
          ok (r.1, push_config source (push_request source name crc) r.0 crypto peer control)

  abbrev pub finish_send :
      Option TransferHandle
      → S
      → Result IoError (Unit {0})
      → Result GirthError S × Option TransferHandle
  finish_send handle s (err e) = (err (from_io e), handle)
  finish_send handle s (ok _) = (ok s, mark_phase handle complete)

  abbrev pub run_send :
      (SendConfig f → Result IoError (Unit {0}))
      → Option TransferHandle
      → Result GirthError (S × SendConfig f)
      → Result GirthError S × Option TransferHandle
  run_send run handle (err e) = (err e, handle)
  run_send run handle (ok (s, cfg)) = finish_send (mark_phase handle transferring) s (run cfg)

  -- The stream comes back where the push succeeds.
  unfoldable pub send_core_with_stream :
      (SendConfig f → Result IoError (Unit {0}))
      → BlockSource
      → List ℕ
      → Option TransferHandle
      → S
      → Result GirthError S × Option TransferHandle
  unfolding prepare_send mark_phase
  send_core_with_stream run source name handle s =
      run_send run handle (prepare_send source name (control_of handle) s)
