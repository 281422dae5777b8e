-- ===== src/LossTracker/Scanner.antt =====
-- src/losstracker.rs: LossScanner. The bitmap is shared with the ingest threads, so each operation is
-- given the bitmap as it stands when the operation runs. `none` is the panic of an access out of range.
pub mod Invariant
pub mod Advance
pub mod Holes
pub mod Due
use girth.Prelude.{
  ℕ, zero, suc, ◌+◌, ◌-◌, ◌≤◌, ◌<◌, Bool, true, false, not, List, [], ◌∷◌, ◌++◌, Option, none, some,
  ◌>>=◌, ltb, leb, ◌==◌, if◌then◌else◌, length,
}
use girth.Shared.Float.{Float}
use girth.Shared.Sets.{contains, insert, remove}
use girth.LossTracker.Bitmap.{RecvBitmap, is_set}
use girth.LossTracker.Heap.{HeapItem, push}

pub record LossScanner : Type 0 where
  pub total : ℕ
  pub hi_contig : ℕ
  pub next_scan : ℕ
  pub pending : List ℕ
  pub heap : List HeapItem

unfoldable pub new : ℕ → LossScanner
new total = record { total = total; hi_contig = 0; next_scan = 0; pending = []; heap = [] }

unfoldable pub pending_count : LossScanner → ℕ
pending_count s = length s.pending

unfoldable pub completed : LossScanner → Bool
completed s = s.hi_contig == s.total

-- The loop of `advance`, on fuel; `advance` gives it one round for each block that is left.
pub advance_loop : ℕ → RecvBitmap → LossScanner → Option LossScanner
advance_loop zero bm s = some s
advance_loop (suc fuel) bm s =
    let moved = record s { pending = remove s.hi_contig s.pending; hi_contig = s.hi_contig + 1 } in
    let next = is_set bm s.hi_contig >>= λ set. elim set [
      | true ↦ advance_loop fuel bm moved
      | false ↦ some s
    ] in
    if ltb s.hi_contig s.total then next else some s

-- The scanner after the call; the number returned is its `hi_contig`.
unfoldable pub advance : RecvBitmap → LossScanner → Option (ℕ × LossScanner)
unfolding advance_loop
advance bm s = do s ← advance_loop (s.total - s.hi_contig) bm s; some (s.hi_contig, s)

-- One round of the loop of `scan_holes`, for block `seq`.
pub scan_one : RecvBitmap → ℕ → ℕ → LossScanner → Option LossScanner
unfolding insert
scan_one bm due seq s = do
  set ← is_set bm seq
  let (new, pending) = insert seq s.pending
  some (
      if not set
      then record s {
        pending = pending;
        heap = if new then push (record { due = due; seq = seq }) s.heap else s.heap;
      }
      else s)

-- The rounds for the `n` blocks from `seq` on.
pub scan_range : ℕ → RecvBitmap → ℕ → ℕ → LossScanner → Option LossScanner
scan_range zero bm due seq s = some s
scan_range (suc n) bm due seq s = do s ← scan_one bm due seq s; scan_range n bm due (seq + 1) s

-- What one round of the loop of `collect_due` does: it breaks, or goes on with the blocks collected
-- so far and the scanner.
pub data Round : Type 0 where
  stop : Round
  again : List ℕ → LossScanner → Round

module _ (f : Float) where
  open f use {F64, lit, from_u64, to_u64, add, lt}

  -- The time of a request, `(now + rto + RTT_PREC_US) as u64`.
  abbrev pub request_time : F64 → F64 → ℕ
  request_time now rto = to_u64 (add (add now rto) (lit 1000 1))

  unfoldable pub scan_holes : RecvBitmap → ℕ → F64 → F64 → LossScanner → Option LossScanner
  unfolding scan_range scan_one
  scan_holes bm max_seen now rto s =
      if s.total == 0
      then some s
      else let last = if leb s.total max_seen then s.total - 1 else max_seen in
        do
          s' ← scan_range (last + 1 - s.next_scan) bm (request_time now rto) s.next_scan s
          some (if ltb s'.next_scan (last + 1) then record s' { next_scan = last + 1 } else s')

  pub collect_round : RecvBitmap → F64 → ℕ → ℕ → List ℕ → LossScanner → Option Round
  collect_round bm now re_due max out s = if leb max (length out) then some stop else elim s.heap [
    | [] ↦ some stop
    | top ∷ rest ↦
        if lt now (from_u64 top.due)
        then some stop
        else (if not (contains top.seq s.pending)
            then some (again out (record s { heap = rest }))
            else do
              set ← is_set bm top.seq
              some (
                  if set
                  then again out (record s { heap = rest; pending = remove top.seq s.pending })
                  else again (out ++ top.seq ∷ [])
                      (record s { heap = push (record { due = re_due; seq = top.seq }) rest })))
  ]

  -- The loop of `collect_due`, on fuel.
  pub collect_loop :
      ℕ → RecvBitmap → F64 → ℕ → ℕ → List ℕ → LossScanner → Option (List ℕ × LossScanner)
  collect_loop zero bm now re_due max out s = some (out, s)
  collect_loop (suc fuel) bm now re_due max out s = collect_round bm now re_due max out s >>= λ r.
      elim r [ stop ↦ some (out, s) | again out' s' ↦ collect_loop fuel bm now re_due max out' s' ]

  -- Each round takes an item off the heap for good, or adds to the result: so many rounds are enough.
  unfoldable pub collect_due :
      RecvBitmap → F64 → F64 → ℕ → LossScanner → Option (List ℕ × LossScanner)
  unfolding collect_round collect_loop
  collect_due bm now rto max s =
      collect_loop (length s.heap + max) bm now (request_time now rto) max [] s
