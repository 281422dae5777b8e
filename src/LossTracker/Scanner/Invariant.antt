-- ===== src/LossTracker/Scanner/Invariant.antt =====
-- The invariant of LossScanner (src/losstracker.rs) against the bitmap that it reads.
use girth.Prelude.{ℕ, ◌≤◌, ◌<◌, List, ◌≢◌, ◌≡◌, true, false, arith, inl, inr, Bool-cases}
use girth.Shared.Sets.{contains, remove, contains-remove}
use girth.LossTracker.Bitmap.{RecvBitmap, has, Covers}
use girth.LossTracker.Heap.{scheduled, IsHeap}
use girth.LossTracker.Scanner.{LossScanner, new}

-- Below `hi_contig` every block is received; below `next_scan` each missing block is pending; each
-- pending block has a request in the heap; and the bitmap has room for every block.
pub record Inv (bm : RecvBitmap) (s : LossScanner) : Type 0 where
  pub hi_le : s.hi_contig ≤ s.total
  pub scan_le : s.next_scan ≤ s.total
  pub received : (j : ℕ) → j < s.hi_contig → has bm j ≡ true
  pub tracked : (j : ℕ) → j < s.next_scan → has bm j ≡ false → contains j s.pending ≡ true
  pub in_scan : (j : ℕ) → contains j s.pending ≡ true → j < s.next_scan
  pub requested : (j : ℕ) → contains j s.pending ≡ true → scheduled j s.heap ≡ true
  pub heap_order : IsHeap s.heap
  pub covers : Covers bm s.total

pub new-Inv : (bm : RecvBitmap) (total : ℕ) → Covers bm total → Inv bm (new total)
unfolding new
new-Inv bm total c = record {
  hi_le = omega arith;
  scan_le = omega arith;
  received = λ j h. absurd (omega arith);
  tracked = λ j h. absurd (omega arith);
  in_scan = λ j e. cc;
  requested = λ j e. cc;
  heap_order = tt;
  covers = c;
}

-- More blocks arrive between two operations.
pub record Grows (bm bm' : RecvBitmap) : Type 0 where
  pub keeps : (j : ℕ) → has bm j ≡ true → has bm' j ≡ true
  pub room : (n : ℕ) → Covers bm n → Covers bm' n

still_missing : {bm bm' : RecvBitmap} (j : ℕ) → Grows bm bm' → has bm' j ≡ false → has bm j ≡ false
still_missing {bm} j g e = elim (Bool-cases (has bm j)) [ inl q ↦ cc (g.keeps j q) | inr q ↦ q ]

-- The arrival of blocks keeps the invariant.
pub Grows-Inv : {bm bm' : RecvBitmap} {s : LossScanner} → Grows bm bm' → Inv bm s → Inv bm' s
Grows-Inv {s = s} g v = record {
  hi_le = v.hi_le;
  scan_le = v.scan_le;
  received = λ j h. g.keeps j (v.received j h);
  tracked = λ j h e. v.tracked j h (still_missing j g e);
  in_scan = v.in_scan;
  requested = v.requested;
  heap_order = v.heap_order;
  covers = g.room s.total v.covers;
}

pub contains-remove_other :
    (i j : ℕ) (xs : List ℕ) → j ≢ i → contains j xs ≡ true → contains j (remove i xs) ≡ true
contains-remove_other i j xs h e = ground (arith, contains-remove j i xs)

pub contains-remove_le :
    (i j : ℕ) (xs : List ℕ) → contains j (remove i xs) ≡ true → contains j xs ≡ true
contains-remove_le i j xs e = ground (arith, contains-remove j i xs)
