-- ===== src/Recovery/Round.antt =====
-- A round of the receiver's feedback loop (src/receiver.rs) and its answer by the sender (src/sender.rs).
use girth.Prelude.{
  ℕ, some, ◌+◌, ◌-◌, ◌*◌, ◌^◌, ◌≤◌, ◌<◌, ◌≡◌, ◌⊎◌, inl, inr, sym, ap, subst, ◌∙◌, Bool, true, ◌||◌,
  List, Option, arith, length, min, Bool-cases,
}
use girth.Shared.Float.{Float}
use girth.Runtime.{TransferControl, effective_rate}
use girth.Rate.{RateController, rto, update}
use girth.Rate.Bounds.{IsLimited}
use girth.LossTracker.Scanner.{request_time}
use girth.LossTracker.Scanner.Invariant.{Inv}
use girth.Io.{BlockSink}
use girth.LossTracker.Bitmap.{has}
use girth.LossTracker.Scanner.Due.{IsMonotone, due_now}
use girth.Sender.Pdu.{SendShared}
use girth.Sender.Pdu.Wire.{IsSender}
use girth.Sender.Pdu.Layout.{overhead}
use girth.Sender.Queue.{rex_len}
use girth.Sender.Control.{SendPeer}
use girth.Sender.Pacing.{Pacer}
use girth.Sender.Pacing.Carries.Batch.{IsPacer}
use girth.Receiver.{SocketAddr, RecvShared, Receiver}
use girth.Receiver.Accept.{Matches}
use girth.Receiver.Feedback.{FeedbackLoop, Clock, scan_end, nack_cap}
use girth.Receiver.Feedback.Reports.{Reports, feedback_round-Reports}
use girth.Receiver.Delivery.Arrival.{Waits}
use girth.Recovery.{Repairs, heard, report-Repairs}

module _ (f : Float) {S : Type 0} (io : BlockSink S) (crc32c : List ℕ → ℕ) (sh : SendShared)
    (rsh : RecvShared) (bytes : List ℕ) (a : SocketAddr) (buf_len now to_send : ℕ) where
  -- What a round and its answer lead to where nothing is lost: the repair of what was asked for; and
  -- where the cap did not cut the report, every block up to the end of the scan, once a block has arrived or
  -- all are sent, is marked at the receiver unless its request is not due yet.
  pub record Recovers (arrivals : ℕ → ℕ) (p : SendPeer) (t2 : ℕ) (control : Option TransferControl)
      (clock : Clock) (sent : Bool) (vars : FeedbackLoop) (s : Pacer) (r : Receiver f S)
      (q : Reports f rsh control clock sent a vars r) : Type 0 where
    pub repairs :
        Repairs f io crc32c sh rsh bytes a buf_len now to_send arrivals q.asks.nacks
          (heard p t2 q.asks.pkt s)
          q.result.state
    pub kept : (j : ℕ) → has r.bm j ≡ true → has repairs.after.bm j ≡ true
    pub recovered :
        (length q.asks.nacks ≡ nack_cap f rsh q.target)
        ⊎ ((j : ℕ)
            → (r.seen_any || r.all_sent) ≡ true
            → j ≤ min (scan_end rsh r) (rsh.total_blocks - 1)
            → (has r.bm j ≡ true) ⊎ (due_now f (f.from_u64 clock.now) j q.scanned.heap ≡ true)
            → has repairs.after.bm j ≡ true)

  Waits-state :
      {control : Option TransferControl} {clock : Clock} {sent : Bool} {vars : FeedbackLoop}
      {r : Receiver f S} (q : Reports f rsh control clock sent a vars r)
      → Waits f io rsh a bytes r
      → Waits f io rsh a bytes q.result.state × (q.result.state.bm ≡ r.bm) × (q.detected.bm ≡ r.bm)
  Waits-state q w =
      let detected = ap (λ (t : Receiver f S). t.bm) q.unmoved in
      (
        subst (Waits f io rsh a bytes) (sym q.asks.state_same)
            (subst (Waits f io rsh a bytes) (sym q.unmoved) w),
        ap (λ (t : Receiver f S). t.bm) q.asks.state_same ∙ detected,
        detected,
      )

module _ (f : Float) {S : Type 0} (io : BlockSink S) (crc32c : List ℕ → ℕ)
    (crc_u32 : (b : List ℕ) → crc32c b < 2 ^ 32) (sh : SendShared)
    (session_u32 : sh.session < 2 ^ 32) (rsh : RecvShared) (bytes : List ℕ) (v : IsSender sh bytes)
    (same : Matches sh rsh) (small : (j : ℕ) → j < rsh.total_blocks → j * rsh.block_size < 2 ^ 64)
    (a : SocketAddr) (buf_len now : ℕ) (wide : 36 + sh.block_size + overhead sh ≤ buf_len) where
  -- What a round that reports leads to.
  answered :
      (arrivals : ℕ → ℕ) (to_send : ℕ) (p : SendPeer) (t2 : ℕ) (control : Option TransferControl)
      (clock : Clock) (sent : Bool) (vars : FeedbackLoop) (s : Pacer) (r : Receiver f S)
      → p.session ≡ sh.session
      → clock.tick < 2 ^ 64
      → rsh.max_nacks_per_pdu ≤ 125
      → (q : Reports f rsh control clock sent a vars r) → IsPacer crc32c sh bytes buf_len s
      → rex_len (heard p t2 q.asks.pkt s).send.rex ≤ to_send
      → Waits f io rsh a bytes r
      → Recovers f io crc32c sh rsh bytes a buf_len now to_send arrivals p t2 control clock sent
          vars s r q
  answered arrivals to_send p t2 control clock sent vars s r ps tick fit q ok few w =
      let (w', state_bm, detected_bm) =
        Waits-state f io crc32c sh rsh bytes a buf_len now to_send q w in
      let x =
        report-Repairs f io crc32c crc_u32 sh session_u32 rsh bytes v same small a buf_len now
          to_send wide arrivals p t2 q.asks.pkt q.asks.fh q.asks.nacks s q.result.state
          (omega (arith, q.asks.short, fit)) q.asks.decodes
          (q.asks.session_same ∙ same.session_same ∙ sym ps) (omega (arith, q.asks.tick_same, tick))
          (λ j k. omega (arith, (q.asks.missing j k).0, same.total_same)) ok few w' in
      let stays : (j : ℕ) → has r.bm j ≡ true → has x.after.bm j ≡ true =
        λ j h. x.kept j (rw state_bm h) in
      record {
        repairs = x;
        kept = stays;
        recovered = elim q.asks.all_due [
          | inl full ↦ inl full
          | inr all ↦ inr (λ j on h known. elim (Bool-cases (has r.bm j)) [
            | inl have ↦ stays j have
            | inr gap ↦ elim known [
              | inl have ↦ stays j have
              | inr due ↦ x.marked j (all j (rw detected_bm gap) (q.detects.pends on j h gap) due)
            ]
          ])
        ];
      }

  -- A round of the receiver's feedback loop that finds the sender for its peer, the sender's handling of the
  -- report, the batch that follows, of a place for each block that is queued then and any more, and the
  -- arrival of its datagrams: the round returns and reports; nothing panics, every block that was asked for
  -- is marked, what was marked stays so, and both ends keep their promises; and unless the cap cut the
  -- report, every block up to the end of the scan whose request was due is marked. The scanner is in its
  -- invariant, every number fits its field, a PDU has at most 125 NACKs, as more are cut off by the sender's
  -- buffer, the limits of an adaptive rate are in order, and times convert to floats in order.
  pub round-Recovers :
      (arrivals : ℕ → ℕ) (more : ℕ) (p : SendPeer) (t2 : ℕ) (control : Option TransferControl)
      (clock : Clock) (sent : Bool) (vars : FeedbackLoop) (s : Pacer) (r : Receiver f S)
      → p.session ≡ sh.session
      → r.peer ≡ some a
      → IsMonotone f (f.from_u64 clock.now)
      → f.lt
          (f.from_u64 clock.now)
          (f.from_u64 (request_time f (f.from_u64 clock.now) (rto f r.rtt.path)))
        ≡ true
      → Inv r.bm vars.scanner
      → vars.scanner.total ≡ rsh.total_blocks
      → 0 < rsh.total_blocks
      → rsh.total_blocks < 2 ^ 64
      → clock.tick < 2 ^ 64
      → IsLimited f r.rtt.rate
      → ((own : ℕ) (c : RateController f)
          → update f r.rtt.rate r.rtt.net.srtt r.rtt.net.min_rtt ≡ some (own, c)
          → effective_rate control own < 2 ^ 64)
      → rsh.max_nacks_per_pdu ≤ 125
      → 36 + 16 * rsh.max_nacks_per_pdu ≤ length vars.buf
      → IsPacer crc32c sh bytes buf_len s
      → Waits f io rsh a bytes r
      → (q : Reports f rsh control clock sent a vars r) × Recovers f io crc32c sh rsh bytes a
          buf_len now
          (rex_len (heard p t2 q.asks.pkt s).send.rex + more)
          arrivals
          p
          t2
          control
          clock
          sent
          vars
          s
          r
          q
  round-Recovers arrivals more p t2 control clock sent vars s r ps known mono later inv total pos
        fits tick limited rate few room ok w =
      let q =
        feedback_round-Reports f rsh control clock sent a vars r known mono later inv total pos fits
          (rw same.session_same session_u32) tick limited rate (omega arith) room in
      (
        q,
        answered arrivals (rex_len (heard p t2 q.asks.pkt s).send.rex + more) p t2 control clock
            sent vars s r ps tick few q ok (omega arith) w,
      )
