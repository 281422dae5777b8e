-- ===== src/LossTracker/Scanner/Due.antt =====
-- LossScanner::collect_due (src/losstracker.rs): which requests a round of feedback makes.
pub mod Rounds
pub mod Loop
use girth.Prelude.{
  ℕ, zero, suc, ◌+◌, ◌-◌, ◌≤◌, ◌<◌, ◌≡◌, refl, ◌∙◌, sym, ◌⊎◌, inl, inr, Bool, true, false, not,
  ◌&&◌, ◌||◌, List, [], ◌∷◌, ◌++◌, arith, leb, ◌==◌, length,
}
use girth.Shared.Float.{Float}
use girth.Shared.Sets.{contains}
use girth.LossTracker.Bitmap.{RecvBitmap, has}
use girth.LossTracker.Heap.{HeapItem, push, before, AllFrom, IsHeap}
use girth.LossTracker.Scanner.{LossScanner}
use girth.LossTracker.Scanner.Invariant.{Inv}

module _ (f : Float) (now : f.F64) where
  -- Some item for block `j` is due.
  abbrev pub due_now : ℕ → List HeapItem → Bool
  due_now j [] = false
  due_now j (x ∷ xs) = (j == x.seq && not (f.lt now (f.from_u64 x.due))) || due_now j xs

  pub due_now-push :
      (j : ℕ) (x : HeapItem) (ys : List HeapItem)
      → due_now j (push x ys) ≡ ((j == x.seq && not (f.lt now (f.from_u64 x.due))) || due_now j ys)
  unfolding push
  due_now-push j x [] = refl
  due_now-push j x (y ∷ ys) = ground (arith, due_now-push j x ys)

  -- The conversion to a float keeps the order.
  abbrev pub IsMonotone : Type 0
  IsMonotone = (a b : ℕ) → a ≤ b → f.lt now (f.from_u64 a) ≡ true → f.lt now (f.from_u64 b) ≡ true

  -- Where the top is not due, nothing is.
  pub none_due :
      IsMonotone
      → (d j : ℕ) (ys : List HeapItem) → f.lt now (f.from_u64 d) ≡ true
      → AllFrom d ys
      → due_now j ys ≡ false
  none_due mono d j [] h a = refl
  none_due mono d j (y ∷ ys) h a = ground (arith, mono d y.due a.0 h, none_due mono d j ys h a.1)

  -- What the rounds of the loop do, from `out` and `s` to `out'` and `s'`. `sound`: what is collected
  -- is missing and was due; `complete`: a missing block that was due is collected, or still is due.
  pub record Progress (bm : RecvBitmap) (cap : ℕ) (out : List ℕ) (s : LossScanner) (out' : List ℕ)
      (s' : LossScanner) : Type 0 where
    pub inv : Inv bm s'
    pub hi_same : s'.hi_contig ≡ s.hi_contig
    pub total_same : s'.total ≡ s.total
    pub scan_same : s'.next_scan ≡ s.next_scan
    pub fits : length out' ≤ cap
    pub sound :
        (j : ℕ)
        → contains j out' ≡ true
        → (contains j out ≡ true)
          ⊎ ((has bm j ≡ false) × (due_now j s.heap ≡ true) × (contains j s'.pending ≡ true))
    pub due_before : (j : ℕ) → due_now j s'.heap ≡ true → due_now j s.heap ≡ true
    pub keeps : (j : ℕ) → contains j out ≡ true → contains j out' ≡ true
    pub complete :
        (j : ℕ)
        → has bm j ≡ false
        → contains j s.pending ≡ true
        → due_now j s.heap ≡ true
        → (contains j out' ≡ true) ⊎ (due_now j s'.heap ≡ true)
    pub pends :
        (j : ℕ) → has bm j ≡ false → contains j s.pending ≡ true → contains j s'.pending ≡ true

  pub Progress-refl :
      {bm : RecvBitmap} {cap : ℕ} {out : List ℕ} {s : LossScanner}
      → Inv bm s
      → length out ≤ cap
      → Progress bm cap out s out s
  Progress-refl v h = record {
    inv = v;
    hi_same = refl;
    total_same = refl;
    scan_same = refl;
    fits = h;
    sound = λ j e. inl e;
    due_before = λ j e. e;
    keeps = λ j e. e;
    complete = λ j m p d. inr d;
    pends = λ j m p. p;
  }

  pub Progress-trans :
      {bm : RecvBitmap} {cap : ℕ} {o1 o2 o3 : List ℕ} {s1 s2 s3 : LossScanner}
      → Progress bm cap o1 s1 o2 s2
      → Progress bm cap o2 s2 o3 s3
      → Progress bm cap o1 s1 o3 s3
  Progress-trans p q = record {
    inv = q.inv;
    hi_same = q.hi_same ∙ p.hi_same;
    total_same = q.total_same ∙ p.total_same;
    scan_same = q.scan_same ∙ p.scan_same;
    fits = q.fits;
    sound = λ j e. elim (q.sound j e) [
      | inl old ↦ elim (p.sound j old) [
        | inl older ↦ inl older
        | inr (m, d, c) ↦ inr (m, d, q.pends j m c)
      ]
      | inr (m, d, c) ↦ inr (m, p.due_before j d, c)
    ];
    due_before = λ j d. p.due_before j (q.due_before j d);
    keeps = λ j e. q.keeps j (p.keeps j e);
    complete = λ j m c d. elim (p.complete j m c d) [
      | inl old ↦ inl (q.keeps j old)
      | inr d' ↦ q.complete j m (p.pends j m c) d'
    ];
    pends = λ j m c. q.pends j m (p.pends j m c);
  }
