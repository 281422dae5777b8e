-- ===== src/Receiver/Feedback/Reports.antt =====
-- A round of `feedback_loop` (src/receiver.rs) as a whole.
use girth.Prelude.{
  ℕ, ◌+◌, ◌*◌, ◌^◌, ◌≤◌, ◌<◌, ◌≡◌, ap, subst, ◌∙◌, Bool, true, Option, some, arith, length,
}
use girth.Shared.Float.{Float}
use girth.Runtime.{TransferControl, effective_rate}
use girth.Rate.{RateController, rto, update}
use girth.Rate.Bounds.{IsLimited}
use girth.LossTracker.Scanner.{LossScanner, request_time}
use girth.LossTracker.Scanner.Invariant.{Inv}
use girth.LossTracker.Scanner.Due.{IsMonotone}
use girth.Receiver.{SocketAddr, RecvShared, Receiver}
use girth.Receiver.Feedback.{FeedbackLoop, Clock, Sent, is_complete, to_peer, feedback_round}
use girth.Receiver.Feedback.Detects.{Detects, detect-Detects}
use girth.Receiver.Feedback.Asks.{Asks, report-Asks}

module _ (f : Float) {S : Type 0} where
  -- A round that finds a peer.
  pub record Reports (sh : RecvShared) (control : Option TransferControl) (clock : Clock)
      (sent : Bool) (p : SocketAddr) (vars : FeedbackLoop) (r : Receiver f S) : Type 0 where
    pub target : ℕ
    pub hi : ℕ
    pub scanned : LossScanner
    pub detected : Receiver f S
    pub result : Sent f S
    pub runs : feedback_round f sh control clock sent vars r ≡ some result
    pub detects : Detects f sh r hi scanned
    pub unmoved : detected ≡ record r { rtt = detected.rtt; stats = detected.stats }
    pub shown : detected.stats.hi_contig ≡ hi
    pub asks : Asks f sh clock (is_complete sh r) target scanned detected p result

  -- A round of the feedback loop, from a scanner in its invariant and for a file with a block, where every
  -- number fits its field and the buffer has room for a PDU: it returns without a panic; the scanner is valid
  -- again; every missing block up to the end of the scan is pending; and the peer is sent a FEEDBACK PDU
  -- that decodes to the session, the first gap, whether the file is complete, and NACKs of missing blocks of
  -- the file: all that are pending and due, unless their number is the cap. The limits of the rate are in
  -- order where it is adaptive, as its controller panics on others. It is supposed that the
  -- conversion of times to floats keeps their order, and that a repeated request is due later than now.
  pub feedback_round-Reports :
      (sh : RecvShared) (control : Option TransferControl) (clock : Clock) (sent : Bool)
      (p : SocketAddr) (vars : FeedbackLoop) (r : Receiver f S)
      → r.peer ≡ some p
      → IsMonotone f (f.from_u64 clock.now)
      → f.lt
          (f.from_u64 clock.now)
          (f.from_u64 (request_time f (f.from_u64 clock.now) (rto f r.rtt.path)))
        ≡ true
      → Inv r.bm vars.scanner
      → vars.scanner.total ≡ sh.total_blocks
      → 0 < sh.total_blocks
      → sh.total_blocks < 2 ^ 64
      → sh.session < 2 ^ 32
      → clock.tick < 2 ^ 64
      → IsLimited f r.rtt.rate
      → ((own : ℕ) (c : RateController f)
          → update f r.rtt.rate r.rtt.net.srtt r.rtt.net.min_rtt ≡ some (own, c)
          → effective_rate control own < 2 ^ 64)
      → sh.max_nacks_per_pdu < 2 ^ 16
      → 36 + 16 * sh.max_nacks_per_pdu ≤ length vars.buf
      → Reports sh control clock sent p vars r
  unfolding feedback_round to_peer is_complete
  feedback_round-Reports sh control clock sent p vars r known mono later v e pos small session tick
        limited rate few room =
      let (own, hi, s, r', run, d, shown, same, path, (c, updates)) =
        detect-Detects f sh control clock.now vars r limited v e pos in
      let target = effective_rate control own in
      let known' : r'.peer ≡ some p = ap (λ (t : Receiver f S). t.peer) same ∙ known in
      let bm_same : r'.bm ≡ r.bm = ap (λ (t : Receiver f S). t.bm) same in
      let complete_same : is_complete sh r' ≡ is_complete sh r = ap (is_complete sh) same in
      let (x, run', asks) =
        report-Asks f sh clock sent (is_complete sh r') p target (record vars { scanner = s }) r'
          mono (rw path later) (rw bm_same d.inv) d.total_same small session tick
          (rate own c updates) (omega (arith, shown, d.hi_same, d.inv.hi_le, d.total_same, small))
          few room in
      record {
        target = target;
        hi = hi;
        scanned = s;
        detected = r';
        result = x;
        runs =
            rw run
              (ap (to_peer f sh clock sent target (record vars { scanner = s }) r') known' ∙ run');
        detects = d;
        unmoved = same;
        shown = shown;
        asks = subst (λ c. Asks f sh clock c target s r' p x) complete_same asks;
      }
