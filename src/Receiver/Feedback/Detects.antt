-- ===== src/Receiver/Feedback/Detects.antt =====
-- Loss detection in a round of `feedback_loop` (src/receiver.rs).
use girth.Prelude.{
  ℕ, ◌-◌, ◌≤◌, ◌<◌, ◌≡◌, ◌⊎◌, inl, inr, refl, ◌∙◌, true, false, ◌||◌, Option, some, arith, min,
  Bool-cases, if◌then◌else◌,
}
use girth.Shared.Float.{Float}
use girth.Shared.Sets.{contains}
use girth.Runtime.{TransferControl, effective_rate}
use girth.Rate.{RateController, rto, update}
use girth.Rate.Bounds.{IsLimited, update-runs}
use girth.LossTracker.Bitmap.{has}
use girth.LossTracker.Scanner.{LossScanner, pending_count, scan_holes}
use girth.LossTracker.Scanner.Invariant.{Inv}
use girth.LossTracker.Scanner.Advance.{advance-first_missing}
use girth.LossTracker.Scanner.Holes.{scan_holes-Tracks}
use girth.Receiver.{RecvShared, Receiver}
use girth.Receiver.Feedback.{FeedbackLoop, scan_end, detect}

module _ (f : Float) {S : Type 0} where
  -- The scanner of a round behind `advance` and the scan: valid for the same bitmap, with every missing
  -- block up to the end of the scan pending once a block has arrived or all are sent.
  pub record Detects (sh : RecvShared) (r : Receiver f S) (hi : ℕ) (s : LossScanner) : Type 0 where
    pub inv : Inv r.bm s
    pub total_same : s.total ≡ sh.total_blocks
    pub hi_same : s.hi_contig ≡ hi
    pub first_gap : (hi ≡ sh.total_blocks) ⊎ (has r.bm hi ≡ false)
    pub pends :
        (r.seen_any || r.all_sent) ≡ true
        → (j : ℕ) → j ≤ min (scan_end sh r) (sh.total_blocks - 1)
        → has r.bm j ≡ false
        → contains j s.pending ≡ true

  scans :
      (sh : RecvShared) (r : Receiver f S) (now rto : f.F64) (s : LossScanner)
      → Inv r.bm s
      → s.total ≡ sh.total_blocks
      → 0 < sh.total_blocks
      → (s.hi_contig ≡ sh.total_blocks) ⊎ (has r.bm s.hi_contig ≡ false)
      → (s' : LossScanner) × ((if r.seen_any || r.all_sent
            then scan_holes f r.bm (scan_end sh r) now rto s
            else some s)
          ≡ some s')
        × Detects sh r s.hi_contig s'
  scans sh r now rto s v e pos gap = elim (Bool-cases (r.seen_any || r.all_sent)) [
    | inr off ↦ (
      s,
      rw off refl,
      record { inv = v; total_same = e; hi_same = refl; first_gap = gap; pends = λ on j h m. cc },
    )
    | inl on ↦
        let (s', run, t) =
          scan_holes-Tracks f (scan_end sh r) now rto s v (omega (arith, e, pos)) in
        (
          s',
          rw on run,
          record {
            inv = t.inv;
            total_same = t.total_same ∙ e;
            hi_same = t.hi_same;
            first_gap = gap;
            pends = λ on j h m. t.pends j (rw e h) m;
          },
        )
  ]

  -- The part of a round that runs without a peer too.
  pub detect-Detects :
      (sh : RecvShared) (control : Option TransferControl) (now : ℕ) (vars : FeedbackLoop)
      (r : Receiver f S)
      → IsLimited f r.rtt.rate
      → Inv r.bm vars.scanner
      → vars.scanner.total ≡ sh.total_blocks
      → 0 < sh.total_blocks
      → (own : ℕ) × (hi : ℕ) × (s : LossScanner) × (r' : Receiver f S) × (detect f sh control now
            vars r
          ≡ some (effective_rate control own, record vars { scanner = s }, r'))
        × Detects sh r hi s
        × (r'.stats.hi_contig ≡ hi)
        × (r' ≡ record r { rtt = r'.rtt; stats = r'.stats })
        × (r'.rtt.path ≡ r.rtt.path)
        × ((c : RateController f) × (update f r.rtt.rate r.rtt.net.srtt r.rtt.net.min_rtt
              ≡ some (own, c)))
  unfolding detect
  detect-Detects sh control now vars r limited v e pos =
      let (s1, run1, a) = advance-first_missing vars.scanner v in
      let (s2, run2, d) =
        scans sh r (f.from_u64 now) (rto f r.rtt.path) s1 a.inv (a.total_same ∙ e) pos
          (elim a.stops [ inl l ↦ inl (l ∙ e) | inr m ↦ inr m ]) in
      let (own, rate, run0) = update-runs f r.rtt.rate r.rtt.net.srtt r.rtt.net.min_rtt limited in
      let r' : Receiver f S = record r {
        rtt = record (r.rtt) { rate = rate };
        stats = record (r.stats) {
          target_rate_bps = effective_rate control own;
          hi_contig = s1.hi_contig;
          rex_queue_len = pending_count s2;
        };
      } in
      (own, s1.hi_contig, s2, r', rw (run0, run1, run2) refl, d, refl, refl, refl, (rate, run0))
