-- ===== src/LossTracker/Tests.antt =====
-- The bitmap and the scanner of src/losstracker.rs at concrete inputs.
use girth.Shared.Sets.{contains}
use girth.Prelude.{ℕ, zero, suc, ◌<◌, ◌>>=◌, ◌≡◌, refl, true, false, List, [], ◌∷◌, some, arith}
use girth.Shared.Float.{whole}
use girth.LossTracker.Bitmap.{RecvBitmap, has, is_set}
use girth.LossTracker.Scanner
use girth.LossTracker.Scanner.{LossScanner, advance, scan_holes, collect_due}
use girth.LossTracker.Scanner.Invariant.{Inv, new-Inv}
use girth.LossTracker.Scanner.Advance.{Advanced, advance-first_missing}
use girth.LossTracker.Scanner.Holes.{Tracks, scan_holes-Tracks}
use girth.LossTracker.Scanner.Due.Loop.{Collects, collect_due-Collects}

-- Blocks 0 and 2 of 4 are received.
abbrev some_blocks : RecvBitmap
some_blocks = record { words = 5 ∷ []; total = 4 }

abbrev fresh : LossScanner
fresh = record { total = 4; hi_contig = 0; next_scan = 0; pending = []; heap = [] }

fresh-Inv : Inv some_blocks fresh
unfolding Scanner.new
fresh-Inv = new-Inv some_blocks 4 (omega arith)

advance-first_missing_example :
    (s' : LossScanner) × (advance some_blocks fresh ≡ some (s'.hi_contig, s'))
    × Advanced some_blocks fresh s'
advance-first_missing_example = advance-first_missing fresh fresh-Inv

scan_holes-Tracks_example :
    (s' : LossScanner) × (scan_holes whole some_blocks 2 100 2000 fresh ≡ some s')
    × Tracks some_blocks 2 fresh s'
scan_holes-Tracks_example = scan_holes-Tracks whole 2 100 2000 fresh fresh-Inv (omega arith)

-- After a scan at time 100: block 1 waits, with a request due at 3100.
abbrev waiting : LossScanner
waiting = record {
  total = 4;
  hi_contig = 1;
  next_scan = 3;
  pending = 1 ∷ [];
  heap = record { due = 3100; seq = 1 } ∷ [];
}

first_received : (j : ℕ) → j < 1 → has some_blocks j ≡ true
unfolding has
first_received zero h = refl
first_received (suc j) h = absurd (omega arith)

one_missing : (j : ℕ) → j < 3 → has some_blocks j ≡ false → contains j (1 ∷ []) ≡ true
unfolding has
one_missing zero h e = cc
one_missing (suc zero) h e = refl
one_missing (suc (suc zero)) h e = cc
one_missing (suc (suc (suc j))) h e = absurd (omega arith)

waiting-Inv : Inv some_blocks waiting
waiting-Inv = record {
  hi_le = omega arith;
  scan_le = omega arith;
  received = first_received;
  tracked = one_missing;
  in_scan = λ j e. ground arith;
  requested = λ j e. e;
  heap_order = (tt, tt);
  covers = omega arith;
}

collect_due-Collects_example :
    (out : List ℕ) × (s' : LossScanner) × (collect_due whole some_blocks 9000 2000 90 waiting
      ≡ some (out, s'))
    × Collects whole 9000 some_blocks 90 waiting out s'
collect_due-Collects_example =
    collect_due-Collects whole 9000 2000 90 waiting (λ a b h e. ground arith) refl waiting-Inv

-- A scan at time 100 asks for block 1 at 3100; a round at 9000 requests it and repeats at 12000.
one_request :
    (do
      s ← scan_holes whole some_blocks 2 100 2000 fresh
      collect_due whole some_blocks 9000 2000 90 s)
    ≡ some (
      1 ∷ [],
      record fresh { next_scan = 3; pending = 1 ∷ []; heap = record { due = 12000; seq = 1 } ∷ [] },
    )
unfolding scan_holes collect_due is_set girth.LossTracker.Heap.push
one_request = refl
