-- ===== src/LossTracker/Scanner/Due/Rounds.antt =====
-- The rounds of the loop of LossScanner::collect_due (src/losstracker.rs).
use girth.Prelude.{
  ℕ, ◌<◌, ◌≡◌, refl, inl, true, false, List, [], ◌∷◌, ◌++◌, arith, length, length-append,
}
use girth.Shared.Float.{Float}
use girth.Shared.Sets.{contains, remove, contains-append, contains-remove}
use girth.LossTracker.Bitmap.{RecvBitmap, has}
use girth.LossTracker.Heap.{HeapItem, push, scheduled-push, push-IsHeap}
use girth.LossTracker.Scanner.{LossScanner}
use girth.LossTracker.Scanner.Invariant.{Inv, contains-remove_other, contains-remove_le}
use girth.LossTracker.Scanner.Due.{due_now-push, Progress}

-- The heap is `top` and then `rest`, and `top` is due.
module _ (f : Float) (now : f.F64) {bm : RecvBitmap} (s : LossScanner) (top : HeapItem)
    (rest : List HeapItem) (e : s.heap ≡ top ∷ rest) (v : Inv bm s)
    (due : f.lt now (f.from_u64 top.due) ≡ false) {cap : ℕ} (out : List ℕ)
    (h : length out < cap) where
  -- The item of a block that is pending no more.
  pub stale-Progress :
      contains top.seq s.pending ≡ false
      → Progress f now bm cap out s out (record s { heap = rest })
  stale-Progress n = record {
    inv = record {
      hi_le = v.hi_le;
      scan_le = v.scan_le;
      received = v.received;
      tracked = v.tracked;
      in_scan = v.in_scan;
      requested = λ j c. ground (arith, v.requested j c, e);
      heap_order = ground (arith, v.heap_order, e);
      covers = v.covers;
    };
    hi_same = refl;
    total_same = refl;
    scan_same = refl;
    fits = omega arith;
    sound = λ j c. inl c;
    due_before = λ j d. rw e (ground arith);
    keeps = λ j c. c;
    complete = λ j m c d. ground (arith, rw e at d);
    pends = λ j m c. c;
  }

  -- The item of a block that has arrived.
  pub received-Progress :
      has bm top.seq ≡ true
      → Progress f now bm cap out s out
          (record s { heap = rest; pending = remove top.seq s.pending })
  received-Progress r = record {
    inv = record {
      hi_le = v.hi_le;
      scan_le = v.scan_le;
      received = v.received;
      tracked = λ j k m. pending_after j m (v.tracked j k m);
      in_scan = λ j c. v.in_scan j (contains-remove_le top.seq j s.pending c);
      requested = λ j c. ground (arith, v.requested j, e, contains-remove j top.seq s.pending);
      heap_order = ground (arith, v.heap_order, e);
      covers = v.covers;
    };
    hi_same = refl;
    total_same = refl;
    scan_same = refl;
    fits = omega arith;
    sound = λ j c. inl c;
    due_before = λ j d. rw e (ground arith);
    keeps = λ j c. c;
    complete = λ j m c d. ground (arith, rw e at d);
    pends = λ j m c. pending_after j m c;
  }
    where
      pending_after :
          (j : ℕ)
          → has bm j ≡ false
          → contains j s.pending ≡ true
          → contains j (remove top.seq s.pending) ≡ true
      pending_after j m c = contains-remove_other top.seq j s.pending (λ q. cc) c

  -- The item of a missing block: the block is collected, and its request repeated at `re_due`.
  pub collected-Progress :
      (re_due : ℕ)
      → f.lt now (f.from_u64 re_due) ≡ true
      → contains top.seq s.pending ≡ true
      → has bm top.seq ≡ false
      → Progress f now bm cap out s
          (out ++ top.seq ∷ [])
          (record s { heap = push (record { due = re_due; seq = top.seq }) rest })
  collected-Progress re_due later p m = record {
    inv = record {
      hi_le = v.hi_le;
      scan_le = v.scan_le;
      received = v.received;
      tracked = v.tracked;
      in_scan = v.in_scan;
      requested = λ j c. ground (arith, v.requested j c, e, scheduled-push j again_item rest);
      heap_order = push-IsHeap again_item rest (ground (arith, v.heap_order, e));
      covers = v.covers;
    };
    hi_same = refl;
    total_same = refl;
    scan_same = refl;
    fits = omega (arith, length-append out (top.seq ∷ []));
    sound = λ j c. rw e (ground (arith, contains-append j out (top.seq ∷ [])));
    due_before = λ j d. rw e (ground (arith, due_now-push f now j again_item rest));
    keeps = λ j c. ground (arith, contains-append j out (top.seq ∷ []));
    complete = λ j n c d. ground (
      arith,
      rw e at d,
      contains-append j out (top.seq ∷ []),
      due_now-push f now j again_item rest,
    );
    pends = λ j n c. c;
  }
    where
      again_item : HeapItem
      again_item = record { due = re_due; seq = top.seq }
