-- ===== src/Sender/Pacing/Carries.antt =====
-- What the batch that `pacing_loop` (src/sender.rs) builds carries.
pub mod Rounds
pub mod Batch
use girth.Prelude.{
  ℕ, zero, suc, ◌+◌, ◌-◌, ◌≤◌, ◌<◌, ◌^◌, ◌≡◌, ◌⊎◌, inl, inr, refl, sym, ap, subst, ◌∙◌, Bool, true,
  false, not, ◌&&◌, ◌||◌, List, [], ◌∷◌, ◌++◌, Option, none, some, ltb, ◌==◌, arith, if◌then◌else◌,
  length, length-append, length-replicate, get_or, replicate, take, Bool-cases, Option-cases,
}
use girth.Shared.Sets.{contains}
use girth.Sender.Pdu.{SendShared, Built, panics, skipped, pdu, fill_retransmit}
use girth.Sender.Pdu.Wire.{IsSender}
use girth.Sender.Pdu.Layout.{overhead, IsDataPdu}
use girth.Sender.Pdu.Build.{fill_retransmit-IsDataPdu}
use girth.Sender.Queue.{
  RexQueue, queue, IsQueue, Pops, rex_len, pop_retransmit, pop_retransmit-Pops,
}
use girth.Sender.Control.{TickState, attach_tick}
use girth.Sender.Control.Tick.{attach_tick-IsDataPdu}
use girth.Sender.Pacing.{
  Pacer, Round, again, ended, Batched, exhausted, panicked, batched, with_rex, with_scratch,
  add_rex, add_new, retransmit, idle, inject, round, next_round, build_batch, reset,
}
use girth.Sender.Pacing.Bounds.{pop-shorter, left_over, Ends, IsBatch, build_batch-IsBatch}

module _ (crc32c : List ℕ → ℕ) (sh : SendShared) (bytes : List ℕ) where
  -- A list of datagrams that are DATA PDUs of the listed blocks of the file.
  abbrev pub Carry : List ℕ → List (List ℕ) → Type 0
  Carry [] [] = Unit {0}
  Carry [] (p ∷ ps) = ⊥
  Carry (j ∷ js) [] = ⊥
  Carry (j ∷ js) (p ∷ ps) = (j < sh.total_blocks) × IsDataPdu crc32c sh bytes j p × Carry js ps

  -- Prefetched blocks: each a buffer that begins with a DATA PDU of a block.
  abbrev pub Prefetched : List (List ℕ × ℕ) → Type 0
  Prefetched [] = Unit {0}
  Prefetched ((buf, n) ∷ rest) =
      ((j : ℕ) × (j < sh.total_blocks) × IsDataPdu crc32c sh bytes j (take n buf)) × Prefetched rest

  -- What the pacer keeps while it builds a batch: its buffers have their length, the queue is one of
  -- blocks of the file, the datagrams so far are DATA PDUs, and every block of `goal` is still queued or
  -- among them; with `first` blocks queued at the start, they go before new ones.
  pub record Sends (buf_len : ℕ) (goal : ℕ → Bool) (first : ℕ) (s : Pacer) : Type 0 where
    pub room : (i : ℕ) → i < length s.scratch → length (get_or s.scratch i []) ≡ buf_len
    pub at : s.rex_n ≤ length s.scratch
    pub queue_valid : IsQueue s.send.rex
    pub queue_blocks : (j : ℕ) → contains j s.send.rex.set ≡ true → j < sh.total_blocks
    pub tick_u64 : s.send.tick.val < 2 ^ 64
    pub prefetched : Prefetched s.ready
    pub blocks : List ℕ
    pub carried : Carry blocks s.pkts
    pub goal_kept :
        (j : ℕ) → goal j ≡ true → (contains j s.send.rex.set || contains j blocks) ≡ true
    pub rex_first : (s.send.rex.heap ≡ []) ⊎ (s.built + length s.send.rex.heap ≤ first)

  pub Carry-snoc :
      (js : List ℕ) (ps : List (List ℕ)) (j : ℕ) (p : List ℕ)
      → Carry js ps
      → j < sh.total_blocks
      → IsDataPdu crc32c sh bytes j p
      → Carry (js ++ (j ∷ [])) (ps ++ (p ∷ []))
  Carry-snoc [] [] j p c h d = (h, d, tt)
  Carry-snoc [] (q ∷ ps) j p c h d = absurd c
  Carry-snoc (i ∷ js) [] j p c h d = absurd c
  Carry-snoc (i ∷ js) (q ∷ ps) j p (l, e, c) h d = (l, e, Carry-snoc js ps j p c h d)

pub contains-snoc :
    (i j : ℕ) (js : List ℕ) → contains i (js ++ (j ∷ [])) ≡ (contains i js || i == j)
contains-snoc i j [] = ground arith
contains-snoc i j (k ∷ js) = ground (arith, contains-snoc i j js)

-- A buffer more.
pub get_or-snoc :
    (xs : List (List ℕ)) (x : List ℕ) (n : ℕ)
    → ((i : ℕ) → i < length xs → length (get_or xs i []) ≡ n)
    → length x ≡ n
    → (i : ℕ) → i < length (xs ++ (x ∷ []))
    → length (get_or (xs ++ (x ∷ [])) i []) ≡ n
get_or-snoc [] x n all e zero h = e
get_or-snoc [] x n all e (suc i) h = absurd (omega arith)
get_or-snoc (y ∷ xs) x n all e zero h = all 0 (omega arith)
get_or-snoc (y ∷ xs) x n all e (suc i) h =
    get_or-snoc xs x n (λ i h. all (suc i) (omega arith)) e i (omega arith)
