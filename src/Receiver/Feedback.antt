-- ===== src/Receiver/Feedback.antt =====
-- src/receiver.rs: `feedback_loop`, one round of which reports to the sender and asks for lost blocks.
pub mod Detects
pub mod Asks
pub mod Reports
use girth.Prelude.{
  ℕ, ◌+◌, ◌-◌, ◌*◌, ◌%◌, ◌^◌, Bool, ◌&&◌, ◌||◌, List, Option, none, some, ◌>>=◌, ltb, leb, ◌==◌,
  map, length, replicate, take, if◌then◌else◌,
}
use girth.Prelude.Int.{as_i64}
use girth.Shared.Float.{Float}
use girth.Protocol.Data.{data_header_size}
use girth.Protocol.Feedback.{NackEntry, encode_feedback, feedback_header_size, nack_entry_size}
use girth.Runtime.{TransferControl, effective_rate}
use girth.Rate.{rto, update}
use girth.LossTracker.Scanner.{LossScanner, new, advance, scan_holes, collect_due, pending_count}
use girth.Receiver.{SocketAddr, RecvShared, Receiver}

-- The variables of the loop.
pub record FeedbackLoop : Type 0 where
  pub scanner : LossScanner
  pub buf : List ℕ
  pub last_net_tick : ℕ
  pub done_sends : ℕ

unfoldable pub new_loop : RecvShared → FeedbackLoop
new_loop sh = record {
  scanner = new sh.total_blocks;
  buf = replicate (feedback_header_size + sh.max_nacks_per_pdu * nack_entry_size) 0;
  last_net_tick = 0;
  done_sends = 0;
}

abbrev nack : ℕ → NackEntry
nack s = record { block_seq = s; rex_index = as_i64 s }

-- What the clock reads in a round: at its start, for the net tick, and for the PDU.
pub record Clock : Type 0 where
  pub now : ℕ
  pub cur_now : ℕ
  pub tick : ℕ

-- What a round leaves: the loop's variables, the shared state, and the datagram for the peer.
pub record Sent (f : Float) (S : Type 0) : Type 0 where
  pub vars : FeedbackLoop
  pub state : Receiver f S
  pub datagram : Option (SocketAddr × List ℕ)

-- Where loss detection ends: at the last block once all are sent.
unfoldable pub scan_end : {f : Float} {S : Type 0} → RecvShared → Receiver f S → ℕ
scan_end sh r = if r.all_sent && ltb 0 sh.total_blocks then sh.total_blocks - 1 else r.max_seen

unfoldable pub is_complete : {f : Float} {S : Type 0} → RecvShared → Receiver f S → Bool
is_complete sh r = r.all_sent && r.flushed_blocks == sh.total_blocks

module _ (f : Float) where
  open f use {F64, lit, from_u64, to_u64, mul, div, lt}

  -- `nack_cap`: what the sender can resend in an interval, at least one, at most a PDU's worth.
  unfoldable pub nack_cap : RecvShared → ℕ → ℕ
  nack_cap sh target =
      let block_bits = mul (from_u64 (sh.block_size + data_header_size)) (lit 8 1) in
      let capacity = to_u64 (
        mul (div (from_u64 target) block_bits)
          (div (from_u64 sh.feedback_interval_us) (lit 1000000 1))) in
      let per_interval = if ltb capacity 1 then 1 else capacity in
      if ltb 0 target && lt (lit 0 1) block_bits && ltb per_interval sh.max_nacks_per_pdu
      then per_interval
      else sh.max_nacks_per_pdu

  module _ {S : Type 0} where
    -- The rate controller's step and the scan: the part of a round that runs without a peer too.
    unfoldable pub detect :
        RecvShared
        → Option TransferControl
        → ℕ
        → FeedbackLoop
        → Receiver f S
        → Option (ℕ × FeedbackLoop × Receiver f S)
    unfolding scan_end
    detect sh control now vars r = do
      (own, rate) ← update f r.rtt.rate r.rtt.net.srtt r.rtt.net.min_rtt
      let target = effective_rate control own
      (hi, s) ← advance r.bm vars.scanner
      s ←
          (if r.seen_any || r.all_sent
            then scan_holes f r.bm (scan_end sh r) (from_u64 now) (rto f r.rtt.path) s
            else some s)
      some (
        target,
        record vars { scanner = s },
        record r {
          rtt = record (r.rtt) { rate = rate };
          stats = record (r.stats) {
            target_rate_bps = target;
            hi_contig = hi;
            rex_queue_len = pending_count s;
          };
        },
      )

    -- The report to `peer`; `sent` tells whether the socket took it.
    unfoldable pub report :
        RecvShared
        → Clock
        → Bool
        → Bool
        → SocketAddr
        → ℕ
        → FeedbackLoop
        → Receiver f S
        → Option (Sent f S)
    unfolding nack_cap
    report sh clock sent complete peer target vars r = do
      (due, s) ←
          collect_due f r.bm (from_u64 clock.now) (rto f r.rtt.path) (nack_cap sh target)
            vars.scanner
      let is_net =
          leb sh.net_tick_interval_us ((clock.cur_now + 2 ^ 64 - vars.last_net_tick) % 2 ^ 64)
      (buf, n) ←
          encode_feedback vars.buf
            (record {
              tick_is_network = is_net;
              nack_count = 0;
              session = sh.session;
              tick = clock.tick;
              target_rate = target;
              hi_contig = r.stats.hi_contig;
              done = complete;
            })
            (map nack due)
      let sends = if complete then vars.done_sends + 1 else vars.done_sends
      some (record {
        vars = record {
          scanner = s;
          buf = buf;
          last_net_tick = if is_net then clock.cur_now else vars.last_net_tick;
          done_sends = sends;
        };
        state = record r {
          done = r.done || (complete && leb 8 sends);
          stats = record (r.stats) {
            nacks_sent = if sent then r.stats.nacks_sent + length due else r.stats.nacks_sent;
          };
        };
        datagram = some (peer, take n buf);
      })

    -- What follows loss detection: without a peer, nothing; `complete` is read before the report.
    unfoldable pub to_peer :
        RecvShared
        → Clock
        → Bool
        → ℕ
        → FeedbackLoop
        → Receiver f S
        → Option SocketAddr
        → Option (Sent f S)
    unfolding report is_complete
    to_peer sh clock sent target vars r none =
        some (record { vars = vars; state = r; datagram = none })
    to_peer sh clock sent target vars r (some p) =
        report sh clock sent (is_complete sh r) p target vars r

    -- One round, with the shared state as it stands.
    unfoldable pub feedback_round :
        RecvShared
        → Option TransferControl
        → Clock
        → Bool
        → FeedbackLoop
        → Receiver f S
        → Option (Sent f S)
    unfolding detect to_peer
    feedback_round sh control clock sent vars r = do
      (target, vars, r) ← detect sh control clock.now vars r
      to_peer sh clock sent target vars r r.peer
