-- ===== src/Receiver/Feedback/Asks.antt =====
-- The report of a round of `feedback_loop` (src/receiver.rs).
use girth.Prelude.{
  ℕ, suc, ◌+◌, ◌-◌, ◌*◌, ◌%◌, ◌^◌, ◌≤◌, ◌<◌, ◌≡◌, ◌⊎◌, inl, inr, refl, sym, ap, ◌∙◌, Bool, true,
  false, ◌&&◌, ◌||◌, List, [], ◌∷◌, some, arith, leb, ◌==◌, map, length, length-take, take,
  if◌then◌else◌,
}
use girth.Prelude.Int.{as_i64-IsI64}
use girth.Shared.Float.{Float}
use girth.Shared.Sets.{contains}
use girth.Protocol.Feedback.{FeedbackHeader, NackEntry, AreNacks, decode_feedback}
use girth.Protocol.Feedback.RoundTrip.{decode-encode_feedback}
use girth.Rate.{rto}
use girth.LossTracker.Bitmap.{has}
use girth.LossTracker.Scanner.{LossScanner, request_time}
use girth.LossTracker.Scanner.Invariant.{Inv}
use girth.LossTracker.Scanner.Due.{IsMonotone, due_now}
use girth.LossTracker.Scanner.Due.Loop.{collect_due-Collects}
use girth.Sender.Queue.{asked}
use girth.Receiver.{SocketAddr, RecvShared, Receiver}
use girth.Receiver.Feedback.{FeedbackLoop, Clock, Sent, nack, nack_cap, report}

asked-map-nack : (j : ℕ) (xs : List ℕ) → asked j (map nack xs) ≡ contains j xs
asked-map-nack j [] = refl
asked-map-nack j (x ∷ xs) = ap (λ (b : Bool). j == x || b) (asked-map-nack j xs)

length-map-nack : (xs : List ℕ) → length (map nack xs) ≡ length xs
length-map-nack [] = refl
length-map-nack (x ∷ xs) = ap suc (length-map-nack xs)

AreNacks-map-nack :
    (xs : List ℕ) → ((j : ℕ) → contains j xs ≡ true → j < 2 ^ 64) → AreNacks (map nack xs)
AreNacks-map-nack [] h = tt
AreNacks-map-nack (x ∷ xs) h = (
  h x (ground arith),
  as_i64-IsI64 x (h x (ground arith)),
  AreNacks-map-nack xs (λ j c. h j (ground (arith, c))),
)

nack_cap-le :
    (f : Float) (sh : RecvShared) (target : ℕ) → nack_cap f sh target ≤ sh.max_nacks_per_pdu
unfolding nack_cap
nack_cap-le f sh target = ground arith

module _ (f : Float) {S : Type 0} where
  -- The report of a round to the peer: a FEEDBACK PDU of the session whose NACKs are missing blocks of the
  -- file, all that are pending and due unless the PDU or the sender's rate allows no more, the first gap,
  -- and whether the file is complete.
  pub record Asks (sh : RecvShared) (clock : Clock) (complete : Bool) (target : ℕ) (s : LossScanner)
      (r : Receiver f S) (p : SocketAddr) (x : Sent f S) : Type 0 where
    pub inv : Inv r.bm x.vars.scanner
    pub total_same : x.vars.scanner.total ≡ sh.total_blocks
    pub state_same : x.state ≡ record r { done = x.state.done; stats = x.state.stats }
    pub pkt : List ℕ
    pub fh : FeedbackHeader
    pub nacks : List NackEntry
    pub sent_to : x.datagram ≡ some (p, pkt)
    pub short : length pkt ≤ 36 + 16 * sh.max_nacks_per_pdu
    pub decodes : decode_feedback pkt ≡ some (fh, nacks)
    pub session_same : fh.session ≡ sh.session
    pub tick_same : fh.tick ≡ clock.tick
    pub target_same : fh.target_rate ≡ target
    pub hi_same : fh.hi_contig ≡ r.stats.hi_contig
    pub done_same : fh.done ≡ complete
    pub missing : (j : ℕ) → asked j nacks ≡ true → (j < sh.total_blocks) × (has r.bm j ≡ false)
    pub still_pending :
        (j : ℕ)
        → has r.bm j ≡ false
        → contains j s.pending ≡ true
        → contains j x.vars.scanner.pending ≡ true
    pub all_due :
        (length nacks ≡ nack_cap f sh target)
        ⊎ ((j : ℕ)
            → has r.bm j ≡ false
            → contains j s.pending ≡ true
            → due_now f (f.from_u64 clock.now) j s.heap ≡ true
            → asked j nacks ≡ true)

  pub report-Asks :
      (sh : RecvShared) (clock : Clock) (sent complete : Bool) (p : SocketAddr) (target : ℕ)
      (vars : FeedbackLoop) (r : Receiver f S)
      → IsMonotone f (f.from_u64 clock.now)
      → f.lt
          (f.from_u64 clock.now)
          (f.from_u64 (request_time f (f.from_u64 clock.now) (rto f r.rtt.path)))
        ≡ true
      → Inv r.bm vars.scanner
      → vars.scanner.total ≡ sh.total_blocks
      → sh.total_blocks < 2 ^ 64
      → sh.session < 2 ^ 32
      → clock.tick < 2 ^ 64
      → target < 2 ^ 64
      → r.stats.hi_contig < 2 ^ 64
      → sh.max_nacks_per_pdu < 2 ^ 16
      → 36 + 16 * sh.max_nacks_per_pdu ≤ length vars.buf
      → (x : Sent f S) × (report f sh clock sent complete p target vars r ≡ some x)
        × Asks sh clock complete target vars.scanner r p x
  unfolding report
  report-Asks sh clock sent complete p target vars r mono later v e small session tick rate hi few
        room =
      let (due, s, run, c) =
        collect_due-Collects f (f.from_u64 clock.now) (rto f r.rtt.path) (nack_cap f sh target)
          vars.scanner mono later v in
      let in_file : (j : ℕ) → contains j due ≡ true → j < sh.total_blocks =
        λ j q. omega (arith, c.inv.in_scan j (c.repeats j q), c.inv.scan_le, c.total_same, e) in
      let is_net =
        leb sh.net_tick_interval_us ((clock.cur_now + 2 ^ 64 - vars.last_net_tick) % 2 ^ 64) in
      let head : FeedbackHeader = record {
        tick_is_network = is_net;
        nack_count = 0;
        session = sh.session;
        tick = clock.tick;
        target_rate = target;
        hi_contig = r.stats.hi_contig;
        done = complete;
      } in
      let cap = nack_cap-le f sh target in
      let (out, n, wrote, size, read) =
        decode-encode_feedback vars.buf head (map nack due)
          (record {
            session_u32 = session;
            tick_u64 = tick;
            target_rate_u64 = rate;
            hi_contig_u64 = hi;
          })
          (AreNacks-map-nack due (λ j q. omega (arith, in_file j q, small)))
          (omega (arith, length-map-nack due, c.within, cap, few))
          (omega (arith, length-map-nack due, c.within, cap, room)) in
      let sends = if complete then vars.done_sends + 1 else vars.done_sends in
      let x : Sent f S = record {
        vars = record {
          scanner = s;
          buf = out;
          last_net_tick = if is_net then clock.cur_now else vars.last_net_tick;
          done_sends = sends;
        };
        state = record r {
          done = r.done || (complete && leb 8 sends);
          stats = record (r.stats) {
            nacks_sent = if sent then r.stats.nacks_sent + length due else r.stats.nacks_sent;
          };
        };
        datagram = some (p, take n out);
      } in
      (
        x,
        rw (run, wrote) refl,
        record {
          inv = c.inv;
          total_same = c.total_same ∙ e;
          state_same = refl;
          pkt = take n out;
          fh = record head { nack_count = length (map nack due) };
          nacks = map nack due;
          sent_to = refl;
          short = omega (arith, length-take n out, size, length-map-nack due, c.within, cap);
          decodes = read;
          session_same = refl;
          tick_same = refl;
          target_same = refl;
          hi_same = refl;
          done_same = refl;
          missing = λ j q.
              let here = sym (asked-map-nack j due) ∙ q in (in_file j here, c.missing j here);
          still_pending = c.still_pending;
          all_due = elim c.all_due [
            | inl full ↦ inl (length-map-nack due ∙ full)
            | inr all ↦ inr (λ j m w d. asked-map-nack j due ∙ all j m w d)
          ];
        },
      )
