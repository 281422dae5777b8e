-- ===== src/LossTracker/Scanner/Due/Loop.antt =====
-- LossScanner::collect_due (src/losstracker.rs) as a whole: it ends, and what it returns.
use girth.Prelude.{
  ℕ, zero, suc, ◌+◌, ◌-◌, ◌≤◌, ◌<◌, ◌≡◌, refl, ◌⊎◌, inl, inr, true, false, List, [], ◌∷◌, ◌++◌,
  some, arith, leb, leb→le, length, length-append, Bool-cases,
}
use girth.Shared.Float.{Float}
use girth.Shared.Sets.{contains, remove}
use girth.LossTracker.Bitmap.{RecvBitmap, has, is_set}
use girth.LossTracker.Bitmap.Laws.{is_set_lem}
use girth.LossTracker.Heap.{HeapItem, push, length-push}
use girth.LossTracker.Scanner.{
  LossScanner, stop, again, request_time, collect_round, collect_loop, collect_due,
}
use girth.LossTracker.Scanner.Invariant.{Inv}
use girth.LossTracker.Scanner.Due.{
  due_now, none_due, IsMonotone, Progress, Progress-refl, Progress-trans,
}
use girth.LossTracker.Scanner.Due.Rounds.{stale-Progress, received-Progress, collected-Progress}

module _ (f : Float) (now : f.F64) (mono : IsMonotone f now) (bm : RecvBitmap) (re_due cap : ℕ)
    (later : f.lt now (f.from_u64 re_due) ≡ true) where
  -- The loop ends for want of room, or because nothing is due.
  abbrev pub Ends : List ℕ → LossScanner → Type 0
  Ends out s = (cap ≤ length out) ⊎ ((j : ℕ) → due_now f now j s.heap ≡ false)

  abbrev measure : List ℕ → LossScanner → ℕ
  measure out s = length s.heap + (cap - length out)

  record Goes (out : List ℕ) (s : LossScanner) (out' : List ℕ) (s' : LossScanner) : Type 0 where
    runs : collect_round f bm now re_due cap out s ≡ some (again out' s')
    progress : Progress f now bm cap out s out' s'
    falls : measure out' s' < measure out s

  abbrev RoundCases : List ℕ → LossScanner → Type 0
  RoundCases out s =
      ((collect_round f bm now re_due cap out s ≡ some stop) × Ends out s)
      ⊎ ((out' : List ℕ) × (s' : LossScanner) × Goes out s out' s')

  module _ (out : List ℕ) (s : LossScanner) (v : Inv bm s) (room : leb cap (length out) ≡ false)
      (top : HeapItem) (rest : List HeapItem) (e : s.heap ≡ top ∷ rest) where
    below : length out < cap
    below = ground arith

    pending_round :
        f.lt now (f.from_u64 top.due) ≡ false → contains top.seq s.pending ≡ true → RoundCases out s
    unfolding collect_round
    pending_round d c = elim (Bool-cases (has bm top.seq)) [
      | inl r ↦ inr (
        out,
        record s { heap = rest; pending = remove top.seq s.pending },
        record {
          runs = rw (room, e, d, c, read, r) refl;
          progress = received-Progress f now s top rest e v d out below r;
          falls = rw e (omega arith);
        },
      )
      | inr m ↦ inr (
        out ++ top.seq ∷ [],
        record s { heap = push (record { due = re_due; seq = top.seq }) rest },
        record {
          runs = rw (room, e, d, c, read, m) refl;
          progress = collected-Progress f now s top rest e v d out below re_due later c m;
          falls = rw e (
              omega (
                arith,
                below,
                length-append out (top.seq ∷ []),
                length-push (record { due = re_due; seq = top.seq }) rest,
              ));
        },
      )
    ]
      where
        read : is_set bm top.seq ≡ some (has bm top.seq)
        read = is_set_lem bm top.seq (omega (arith, v.covers, v.scan_le, v.in_scan top.seq c))

    top_round : RoundCases out s
    unfolding collect_round
    top_round = elim (Bool-cases (f.lt now (f.from_u64 top.due))) [
      | inl w ↦ inl (
        rw (room, e, w) refl,
        inr (λ j.
            rw e (none_due f now mono top.due j (top ∷ rest) w (ground (arith, v.heap_order, e)))),
      )
      | inr d ↦ elim (Bool-cases (contains top.seq s.pending)) [
        | inl c ↦ pending_round d c
        | inr n ↦ inr (
          out,
          record s { heap = rest },
          record {
            runs = rw (room, e, d, n) refl;
            progress = stale-Progress f now s top rest e v d out below n;
            falls = rw e (omega arith);
          },
        )
      ]
    ]

  round_cases : (out : List ℕ) (s : LossScanner) → Inv bm s → RoundCases out s
  unfolding collect_round
  round_cases out s v = elim (Bool-cases (leb cap (length out))) [
    | inl full ↦ inl (rw full refl, inl (leb→le cap (length out) full))
    | inr room ↦ go s.heap refl room
  ]
    where
      go : (heap : List HeapItem) → s.heap ≡ heap → leb cap (length out) ≡ false → RoundCases out s
      go [] e room = inl (rw (room, e) refl, inr (λ j. rw e refl))
      go (top ∷ rest) e room = top_round out s v room top rest e

  -- With fuel for the measure the loop ends by one of its breaks.
  pub collect_loop-Ends :
      (fuel : ℕ) (out : List ℕ) (s : LossScanner)
      → Inv bm s
      → length out ≤ cap
      → measure out s < suc fuel
      → (out' : List ℕ) × (s' : LossScanner) × (collect_loop f fuel bm now re_due cap out s
          ≡ some (out', s'))
        × Progress f now bm cap out s out' s'
        × Ends out' s'
  unfolding collect_loop
  collect_loop-Ends zero out s v h k = (out, s, refl, Progress-refl f now v h, inl (omega arith))
  collect_loop-Ends (suc fuel) out s v h k = elim (round_cases out s v) [
    | inl (e, ends) ↦ (out, s, rw e refl, Progress-refl f now v h, ends)
    | inr (o1, s1, g) ↦
        let (o2, s2, run, p, ends) =
          collect_loop-Ends fuel o1 s1 g.progress.inv g.progress.fits (omega (arith, g.falls)) in
        (o2, s2, rw g.runs run, Progress-trans f now g.progress p, ends)
  ]

-- What `collect_due` returns and leaves.
pub record Collects (f : Float) (now : f.F64) (bm : RecvBitmap) (cap : ℕ) (s : LossScanner)
    (out : List ℕ) (s' : LossScanner) : Type 0 where
  pub inv : Inv bm s'
  pub within : length out ≤ cap
  pub missing : (j : ℕ) → contains j out ≡ true → has bm j ≡ false
  pub was_due : (j : ℕ) → contains j out ≡ true → due_now f now j s.heap ≡ true
  pub repeats : (j : ℕ) → contains j out ≡ true → contains j s'.pending ≡ true
  pub hi_same : s'.hi_contig ≡ s.hi_contig
  pub total_same : s'.total ≡ s.total
  pub still_pending :
      (j : ℕ) → has bm j ≡ false → contains j s.pending ≡ true → contains j s'.pending ≡ true
  pub all_due :
      (length out ≡ cap)
      ⊎ ((j : ℕ)
          → has bm j ≡ false
          → contains j s.pending ≡ true
          → due_now f now j s.heap ≡ true
          → contains j out ≡ true)

Collects-of :
    (f : Float) (now : f.F64) (bm : RecvBitmap) (cap : ℕ) (s : LossScanner) (out : List ℕ)
    (s' : LossScanner)
    → Progress f now bm cap [] s out s'
    → (cap ≤ length out) ⊎ ((j : ℕ) → due_now f now j s'.heap ≡ false)
    → Collects f now bm cap s out s'
Collects-of f now bm cap s out s' p ends = record {
  inv = p.inv;
  within = p.fits;
  missing = λ j c. ground (arith, p.sound j c);
  was_due = λ j c. ground (arith, p.sound j c);
  repeats = λ j c. ground (arith, p.sound j c);
  hi_same = p.hi_same;
  total_same = p.total_same;
  still_pending = p.pends;
  all_due = elim ends [
    | inl full ↦ inl (omega (arith, p.fits))
    | inr none ↦ inr (λ j m c d. ground (arith, none j, p.complete j m c d))
  ];
}

-- From a scanner in its invariant `collect_due` returns, without an access out of range, at most
-- `max` blocks: each is missing and had a request due in the heap. Where it returns fewer than `max`,
-- it returns every missing pending block with a request due. The invariant holds again and a missing
-- block stays pending, so its request repeats. It is supposed that the conversion of times to floats
-- keeps their order, and that the repeated request is due later than `now`.
pub collect_due-Collects :
    (f : Float) (now rto : f.F64) {bm : RecvBitmap} (max : ℕ) (s : LossScanner)
    → IsMonotone f now
    → f.lt now (f.from_u64 (request_time f now rto)) ≡ true
    → Inv bm s
    → (out : List ℕ) × (s' : LossScanner) × (collect_due f bm now rto max s ≡ some (out, s'))
      × Collects f now bm max s out s'
unfolding collect_due
collect_due-Collects f now rto {bm} max s mono later v =
    let (out, s', run, p, ends) =
      collect_loop-Ends f now mono bm (request_time f now rto) max later (length s.heap + max) [] s
        v (omega arith) (omega arith) in
    (out, s', run, Collects-of f now bm max s out s' p ends)
