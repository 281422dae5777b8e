-- ===== src/LossTracker/Scanner/Advance.antt =====
-- LossScanner::advance (src/losstracker.rs) moves the mark to the first missing block.
use girth.Prelude.{
  ℕ, zero, suc, ◌+◌, ◌-◌, ◌≤◌, ◌<◌, ◌≡◌, refl, ◌⊎◌, inl, inr, true, false, some, arith, ltb, ltb→lt,
  Bool-cases,
}
use girth.Shared.Sets.{remove}
use girth.LossTracker.Bitmap.{RecvBitmap, has, is_set}
use girth.LossTracker.Bitmap.Laws.{is_set_lem}
use girth.LossTracker.Scanner.{LossScanner, advance_loop, advance}
use girth.LossTracker.Scanner.Invariant.{Inv, contains-remove_other, contains-remove_le}

-- What the loop has done when it stops.
pub record Advanced (bm : RecvBitmap) (s s' : LossScanner) : Type 0 where
  pub inv : Inv bm s'
  pub moves : s.hi_contig ≤ s'.hi_contig
  pub stops : (s'.hi_contig ≡ s.total) ⊎ (has bm s'.hi_contig ≡ false)
  pub total_same : s'.total ≡ s.total
  pub scan_same : s'.next_scan ≡ s.next_scan
  pub heap_same : s'.heap ≡ s.heap

ltb-false : (a b : ℕ) → a ≤ b → ltb a b ≡ false → a ≡ b
ltb-false a b h e = ground arith

abbrev moved : LossScanner → LossScanner
moved s = record s { pending = remove s.hi_contig s.pending; hi_contig = s.hi_contig + 1 }

moved-Inv :
    {bm : RecvBitmap} (s : LossScanner)
    → Inv bm s
    → s.hi_contig < s.total
    → has bm s.hi_contig ≡ true
    → Inv bm (moved s)
moved-Inv {bm} s v h e = record {
  hi_le = omega arith;
  scan_le = v.scan_le;
  received = λ j k. elim (below j k) [ inl q ↦ v.received j q | inr q ↦ rw q e ];
  tracked = λ j k q. contains-remove_other s.hi_contig j s.pending (λ w. cc e) (v.tracked j k q);
  in_scan = λ j q. v.in_scan j (contains-remove_le s.hi_contig j s.pending q);
  requested = λ j q. v.requested j (contains-remove_le s.hi_contig j s.pending q);
  heap_order = v.heap_order;
  covers = v.covers;
}
  where
    below : (j : ℕ) → j < s.hi_contig + 1 → (j < s.hi_contig) ⊎ (j ≡ s.hi_contig)
    below j k = omega arith

advance_loop-Advanced :
    (fuel : ℕ) {bm : RecvBitmap} (s : LossScanner)
    → Inv bm s
    → s.total ≤ s.hi_contig + fuel
    → (s' : LossScanner) × (advance_loop fuel bm s ≡ some s') × Advanced bm s s'
unfolding advance_loop
advance_loop-Advanced zero s v k = (
  s,
  refl,
  record {
    inv = v;
    moves = omega arith;
    stops = inl (omega (arith, v.hi_le));
    total_same = refl;
    scan_same = refl;
    heap_same = refl;
  },
)
advance_loop-Advanced (suc fuel) {bm} s v k = elim (Bool-cases (ltb s.hi_contig s.total)) [
  | inr e ↦ (
    s,
    rw e refl,
    record {
      inv = v;
      moves = omega arith;
      stops = inl (ltb-false s.hi_contig s.total v.hi_le e);
      total_same = refl;
      scan_same = refl;
      heap_same = refl;
    },
  )
  | inl e ↦ elim (Bool-cases (has bm s.hi_contig)) [
    | inr r ↦ (
      s,
      rw (e, read e, r) refl,
      record {
        inv = v;
        moves = omega arith;
        stops = inr r;
        total_same = refl;
        scan_same = refl;
        heap_same = refl;
      },
    )
    | inl r ↦
        let (s', run, a) =
          advance_loop-Advanced fuel (moved s) (moved-Inv s v (ltb→lt _ _ e) r) (omega arith) in
        (
          s',
          rw (e, read e, r) run,
          record {
            inv = a.inv;
            moves = omega (arith, a.moves);
            stops = a.stops;
            total_same = a.total_same;
            scan_same = a.scan_same;
            heap_same = a.heap_same;
          },
        )
  ]
]
  where
    read : ltb s.hi_contig s.total ≡ true → is_set bm s.hi_contig ≡ some (has bm s.hi_contig)
    read e = is_set_lem bm s.hi_contig (omega (arith, ltb→lt s.hi_contig s.total e, v.covers))

-- From a scanner in its invariant `advance` returns, without an access out of range, the number of
-- received blocks before the first missing one: all below it are received, and it is the total or
-- missing. The invariant holds again, and no request is lost or added.
pub advance-first_missing :
    {bm : RecvBitmap} (s : LossScanner)
    → Inv bm s
    → (s' : LossScanner) × (advance bm s ≡ some (s'.hi_contig, s')) × Advanced bm s s'
unfolding advance
advance-first_missing s v =
    let (s', e, a) = advance_loop-Advanced (s.total - s.hi_contig) s v (omega (arith, v.hi_le)) in
    (s', rw e refl, a)
