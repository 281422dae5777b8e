-- ===== src/LossTracker/Scanner/Holes.antt =====
-- LossScanner::scan_holes (src/losstracker.rs) puts every missing block up to the highest one seen under
-- a retransmit request.
use girth.Prelude.{
  ℕ, zero, suc, ◌+◌, ◌-◌, ◌≤◌, ◌<◌, ◌≡◌, refl, ◌∙◌, sym, ==_iff, ◌⊎◌, inl, inr, true, false, some,
  arith, ltb, leb, leb→le, ltb→lt, ◌>>=◌, ◌==◌, if◌then◌else◌, Bool-cases, min, max, subst, ◌∷◌,
}
use girth.Shared.Float.{Float}
use girth.Shared.Sets.{contains}
use girth.LossTracker.Bitmap.{RecvBitmap, has, is_set}
use girth.LossTracker.Bitmap.Laws.{is_set_lem}
use girth.LossTracker.Heap.{HeapItem, push, scheduled, scheduled-push, push-IsHeap}
use girth.LossTracker.Scanner.{LossScanner, scan_one, scan_range, scan_holes, request_time}
use girth.LossTracker.Scanner.Invariant.{Inv}

-- From `s` to `s'`, blocks become pending under new requests: what was pending or requested stays so, and
-- what is new is missing and lies from `from` up to below `to`.
pub record Adds (bm : RecvBitmap) (from to : ℕ) (s s' : LossScanner) : Type 0 where
  pub pending_kept : (j : ℕ) → contains j s.pending ≡ true → contains j s'.pending ≡ true
  pub requests_kept : (j : ℕ) → scheduled j s.heap ≡ true → scheduled j s'.heap ≡ true
  pub only_missing :
      (j : ℕ)
      → contains j s'.pending ≡ true
      → (contains j s.pending ≡ true) ⊎ ((from ≤ j) × (j < to) × (has bm j ≡ false))

Adds-none : {bm : RecvBitmap} (from to : ℕ) (s : LossScanner) → Adds bm from to s s
Adds-none from to s = record {
  pending_kept = λ j e. e;
  requests_kept = λ j e. e;
  only_missing = λ j e. inl e;
}

-- What a scan from `m` up to `n` has done: `next_scan` is a bound that the caller moves.
pub record Scanned (bm : RecvBitmap) (due : ℕ) (s s' : LossScanner) (m n : ℕ) : Type 0 where
  pub adds : Adds bm m n s s'
  pub inv : Inv bm (record s' { next_scan = n })
  pub total_same : s'.total ≡ s.total
  pub hi_same : s'.hi_contig ≡ s.hi_contig
  pub scan_same : s'.next_scan ≡ s.next_scan

not_pending :
    {bm : RecvBitmap} (seq : ℕ) (s : LossScanner)
    → Inv bm (record s { next_scan = seq })
    → contains seq s.pending ≡ false
not_pending seq s v = elim (Bool-cases (contains seq s.pending)) [
  | inl e ↦ absurd (omega (arith, v.in_scan seq e))
  | inr e ↦ e
]

-- The scanner with block `seq` newly pending.
abbrev requested : ℕ → ℕ → LossScanner → LossScanner
requested due seq s = record s {
  pending = seq ∷ s.pending;
  heap = push (record { due = due; seq = seq }) s.heap;
}

lt-suc : (j n : ℕ) → j < n + 1 → (j < n) ⊎ (j ≡ n)
lt-suc j n h = omega arith

received-Inv :
    {bm : RecvBitmap} (seq : ℕ) (s : LossScanner)
    → Inv bm (record s { next_scan = seq })
    → seq < s.total
    → has bm seq ≡ true
    → Inv bm (record s { next_scan = seq + 1 })
received-Inv seq s v h e = record {
  hi_le = v.hi_le;
  scan_le = omega arith;
  received = v.received;
  tracked = λ j k q. elim (lt-suc j seq k) [ inl below ↦ v.tracked j below q | inr same ↦ cc ];
  in_scan = λ j q. omega (arith, v.in_scan j q);
  requested = v.requested;
  heap_order = v.heap_order;
  covers = v.covers;
}

requested-Inv :
    {bm : RecvBitmap} (due seq : ℕ) (s : LossScanner)
    → Inv bm (record s { next_scan = seq })
    → seq < s.total
    → Inv bm (record (requested due seq s) { next_scan = seq + 1 })
requested-Inv due seq s v h = record {
  hi_le = v.hi_le;
  scan_le = omega arith;
  received = v.received;
  tracked = λ j k q. ground (arith, lt-suc j seq k, v.tracked j);
  in_scan = λ j q. ground (arith, v.in_scan j);
  requested = λ j q. ground (arith, v.requested j, scheduled-push j item s.heap);
  heap_order = push-IsHeap item s.heap v.heap_order;
  covers = v.covers;
}
  where
    item : HeapItem
    item = record { due = due; seq = seq }

scan_one-Scanned :
    {bm : RecvBitmap} (due seq : ℕ) (s : LossScanner)
    → Inv bm (record s { next_scan = seq })
    → seq < s.total
    → (s' : LossScanner) × (scan_one bm due seq s ≡ some s') × Scanned bm due s s' seq (seq + 1)
unfolding scan_one
scan_one-Scanned {bm} due seq s v h = elim (Bool-cases (has bm seq)) [
  | inl e ↦ (
    s,
    rw (read, e) refl,
    record {
      adds = Adds-none seq (seq + 1) s;
      inv = received-Inv seq s v h e;
      total_same = refl;
      hi_same = refl;
      scan_same = refl;
    },
  )
  | inr e ↦ (
    requested due seq s,
    rw (read, e, not_pending seq s v) refl,
    record {
      adds = requested-Adds e;
      inv = requested-Inv due seq s v h;
      total_same = refl;
      hi_same = refl;
      scan_same = refl;
    },
  )
]
  where
    read : is_set bm seq ≡ some (has bm seq)
    read = is_set_lem bm seq (omega (arith, v.covers))

    item : HeapItem
    item = record { due = due; seq = seq }

    requested-Adds : has bm seq ≡ false → Adds bm seq (seq + 1) s (requested due seq s)
    requested-Adds e = record {
      pending_kept = λ j k. ground arith;
      requests_kept = λ j k. ground (arith, scheduled-push j item s.heap);
      only_missing = λ j k. elim (Bool-cases (j == seq)) [
        | inl q ↦
            let same : j ≡ seq = (==_iff j seq).0 q in
            inr
              (omega (arith, same), omega (arith, same), subst (λ i. has bm i ≡ false) (sym same) e)
        | inr q ↦ inl (rw q at k)
      ];
    }

scan_range-Scanned :
    (n : ℕ) {bm : RecvBitmap} (due seq end : ℕ) (s : LossScanner)
    → Inv bm (record s { next_scan = seq })
    → seq + n ≡ end
    → end ≤ s.total
    → (s' : LossScanner) × (scan_range n bm due seq s ≡ some s') × Scanned bm due s s' seq end
unfolding scan_range
scan_range-Scanned zero {bm} due seq end s v e h = (
  s,
  refl,
  record {
    adds = Adds-none seq end s;
    inv = subst (λ k. Inv bm (record s { next_scan = k })) (omega arith) v;
    total_same = refl;
    hi_same = refl;
    scan_same = refl;
  },
)
scan_range-Scanned (suc n) due seq end s v e h =
    let (s1, run1, a) = scan_one-Scanned due seq s v (omega arith) in
    let (s2, run2, b) =
      scan_range-Scanned n due (seq + 1) end s1 a.inv (omega arith) (omega (arith, a.total_same)) in
    (
      s2,
      rw run1 run2,
      record {
        adds = record {
          pending_kept = λ j k. b.adds.pending_kept j (a.adds.pending_kept j k);
          requests_kept = λ j k. b.adds.requests_kept j (a.adds.requests_kept j k);
          only_missing = λ j k. elim (b.adds.only_missing j k) [
            | inr (x, y, z) ↦ inr (omega arith, y, z)
            | inl old ↦ elim (a.adds.only_missing j old) [
              | inr (x, y, z) ↦ inr (x, omega arith, z)
              | inl older ↦ inl older
            ]
          ];
        };
        inv = b.inv;
        total_same = b.total_same ∙ a.total_same;
        hi_same = b.hi_same ∙ a.hi_same;
        scan_same = b.scan_same ∙ a.scan_same;
      },
    )

-- What `scan_holes` has done: the mark and the total stay, the next scan starts behind `last` or where it
-- would have; what was pending or requested stays so, what is new is missing and was not scanned before; and
-- each missing block up to `last` is pending under a request.
pub record Tracks (bm : RecvBitmap) (last : ℕ) (s s' : LossScanner) : Type 0 where
  pub inv : Inv bm s'
  pub hi_same : s'.hi_contig ≡ s.hi_contig
  pub total_same : s'.total ≡ s.total
  pub scan_moved : s'.next_scan ≡ max s.next_scan (last + 1)
  pub adds : Adds bm s.next_scan (last + 1) s s'
  pub pends : (j : ℕ) → j ≤ last → has bm j ≡ false → contains j s'.pending ≡ true
  pub requests : (j : ℕ) → j ≤ last → has bm j ≡ false → scheduled j s'.heap ≡ true

abbrev move_scan : ℕ → LossScanner → LossScanner
move_scan last s = if ltb s.next_scan (last + 1) then record s { next_scan = last + 1 } else s

move_scan-Tracks :
    {bm : RecvBitmap} (due last : ℕ) (s s1 : LossScanner)
    → Scanned bm due s s1 s.next_scan (max s.next_scan (last + 1))
    → Tracks bm last s (move_scan last s1)
move_scan-Tracks {bm} due last s s1 a = elim (Bool-cases (ltb s1.next_scan (last + 1))) [
  | inl e ↦ rw e (record {
    inv = subst (λ k. Inv bm (record s1 { next_scan = k })) (ahead e) a.inv;
    hi_same = a.hi_same;
    total_same = a.total_same;
    scan_moved = sym (ahead e);
    adds = record {
      pending_kept = a.adds.pending_kept;
      requests_kept = a.adds.requests_kept;
      only_missing = only_missing;
    };
    pends = pends;
    requests = λ j h m. a.inv.requested j (pends j h m);
  })
  | inr e ↦ rw e (record {
    inv = subst (λ k. Inv bm (record s1 { next_scan = k })) (behind e) a.inv;
    hi_same = a.hi_same;
    total_same = a.total_same;
    scan_moved = sym (behind e);
    adds = record {
      pending_kept = a.adds.pending_kept;
      requests_kept = a.adds.requests_kept;
      only_missing = only_missing;
    };
    pends = pends;
    requests = λ j h m. a.inv.requested j (pends j h m);
  })
]
  where
    only_missing :
        (j : ℕ)
        → contains j s1.pending ≡ true
        → (contains j s.pending ≡ true) ⊎ ((s.next_scan ≤ j) × (j < last + 1) × (has bm j ≡ false))
    only_missing j k = elim (a.adds.only_missing j k) [
      | inl old ↦ inl old
      | inr (x, y, z) ↦ inr (x, omega arith, z)
    ]

    pends : (j : ℕ) → j ≤ last → has bm j ≡ false → contains j s1.pending ≡ true
    pends j h m = a.inv.tracked j (omega arith) m

    ahead : ltb s1.next_scan (last + 1) ≡ true → max s.next_scan (last + 1) ≡ last + 1
    ahead e = omega (arith, ltb→lt s1.next_scan (last + 1) e, a.scan_same)

    behind : ltb s1.next_scan (last + 1) ≡ false → max s.next_scan (last + 1) ≡ s1.next_scan
    behind e = ground (arith, a.scan_same)

scan_last-Tracks :
    {bm : RecvBitmap} (due last : ℕ) (s : LossScanner)
    → Inv bm s
    → last < s.total
    → (s' : LossScanner) × ((do
      s1 ← scan_range (last + 1 - s.next_scan) bm due s.next_scan s
      some (move_scan last s1))
        ≡ some s')
      × Tracks bm last s s'
scan_last-Tracks due last s v h =
    let (s1, run, a) =
      scan_range-Scanned (last + 1 - s.next_scan) due s.next_scan (max s.next_scan (last + 1)) s v
        (omega arith) (omega (arith, v.scan_le)) in
    (move_scan last s1, rw run refl, move_scan-Tracks due last s s1 a)

positive : (n : ℕ) → 0 < n → (n == 0) ≡ false
positive n h = ground arith

-- From a scanner in its invariant `scan_holes` runs without an access out of range. Afterwards every
-- block up to `max_seen` (at most the last one of the file) that is missing is pending, and has a
-- request in the heap; what was pending or had a request stays so, at any block; only missing blocks
-- that were not scanned before become pending; the next scan starts behind, or where it would have; the
-- mark stays, and the invariant holds again. The file has a block.
pub scan_holes-Tracks :
    (f : Float) {bm : RecvBitmap} (max_seen : ℕ) (now rto : f.F64) (s : LossScanner)
    → Inv bm s
    → 0 < s.total
    → (s' : LossScanner) × (scan_holes f bm max_seen now rto s ≡ some s')
      × Tracks bm (min max_seen (s.total - 1)) s s'
unfolding scan_holes
scan_holes-Tracks f {bm} max_seen now rto s v h = elim (Bool-cases (leb s.total max_seen)) [
  | inl e ↦
      rw (positive s.total h, e)
        (scan_last (s.total - 1) (omega arith) (omega (arith, leb→le s.total max_seen e)))
  | inr e ↦ rw (positive s.total h, e) (scan_last max_seen (ground arith) (ground arith))
]
  where
    due : ℕ
    due = request_time f now rto

    scan_last :
        (last : ℕ)
        → last < s.total
        → last ≡ min max_seen (s.total - 1)
        → (s' : LossScanner) × ((do
          s1 ← scan_range (last + 1 - s.next_scan) bm due s.next_scan s
          some (move_scan last s1))
            ≡ some s')
          × Tracks bm (min max_seen (s.total - 1)) s s'
    scan_last last k q = rw (← q) (scan_last-Tracks due last s v k)
