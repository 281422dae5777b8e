-- ===== src/Sender/Pacing/Bounds.antt =====
-- The size of a batch, and the end of the loop that builds it (src/sender.rs).
use girth.Prelude.{
  ℕ, zero, suc, ◌+◌, ◌-◌, ◌≤◌, ◌<◌, ◌≡◌, refl, sym, ap, ◌⊎◌, inl, inr, Bool, true, false, List, [],
  ◌∷◌, Option, none, some, ltb, arith, if◌then◌else◌, length, length-append, Bool-cases, get_or,
}
use girth.Sender.Pdu.{SendShared, Built, panics, skipped, pdu, fill_retransmit}
use girth.Sender.Queue.{RexQueue, pop_retransmit}
use girth.Sender.Control.{TickState, attach_tick}
use girth.Sender.Pacing.{
  Pacer, Round, again, ended, Batched, exhausted, panicked, batched, with_rex, with_scratch,
  add_rex, add_new, retransmit, idle, inject, round, next_round, build_batch, reset,
}

-- The datagrams of a batch are counted, and they fit.
pub record IsCounted (to_send : ℕ) (s : Pacer) : Type 0 where
  pub counted : length s.pkts ≡ s.rex_n + s.new_n
  pub built_le : length s.pkts ≤ s.built
  pub within : length s.pkts ≤ to_send

-- A batch that is done: it is full, the channel of new blocks had none, or everything is sent.
pub record IsBatch (to_send : ℕ) (s : Pacer) : Type 0 where
  pub counts : IsCounted to_send s
  pub full_or_done :
      (to_send ≤ s.built) ⊎ ((pop_retransmit s.send.rex ≡ none) × (s.new_done ≡ true))

-- What is left to do.
abbrev pub left_over : ℕ → Pacer → ℕ
left_over to_send s = length s.send.rex.heap + (to_send - s.built) + (if s.new_done then 0 else 1)

abbrev pub Ends : ℕ → Batched → Type 0
Ends to_send exhausted = ⊥
Ends to_send panicked = Unit {0}
Ends to_send (batched s) = IsBatch to_send s

module _ (crc32c : List ℕ → ℕ) (sh : SendShared) (buf_len now to_send : ℕ) where
  -- A round does a part of what is left, or is the last.
  abbrev Goes : ℕ → Option Round → Type 0
  Goes left none = Unit {0}
  Goes left (some (again s)) = IsCounted to_send s × (left_over to_send s < left)
  Goes left (some (ended s)) = IsBatch to_send s

  add_rex-Goes :
      (s : Pacer) (left n : ℕ) (r : Option (List ℕ × TickState))
      → IsCounted to_send s
      → s.built < to_send
      → left_over to_send s < left
      → Goes left (add_rex crc32c sh buf_len now to_send s n r)
  add_rex-Goes s left n none v h k = tt
  add_rex-Goes s left n (some (buf, tick)) v h k = (
    record {
      counted = omega (arith, v.counted, length-append s.pkts _);
      built_le = omega (arith, v.built_le, length-append s.pkts _);
      within = omega (arith, v.built_le, length-append s.pkts _);
    },
    omega arith,
  )

  add_new-Goes :
      (s : Pacer) (left n : ℕ) (rest : List (List ℕ × ℕ)) (r : Option (List ℕ × TickState))
      → IsCounted to_send s
      → s.built < to_send
      → left_over to_send s ≤ left
      → Goes left (add_new crc32c sh buf_len now to_send s n rest r)
  add_new-Goes s left n rest none v h k = tt
  add_new-Goes s left n rest (some (buf, tick)) v h k = (
    record {
      counted = omega (arith, v.counted, length-append s.pkts _);
      built_le = omega (arith, v.built_le, length-append s.pkts _);
      within = omega (arith, v.built_le, length-append s.pkts _);
    },
    omega arith,
  )

  retransmit-Goes :
      (s : Pacer) (left : ℕ) (b : Built)
      → IsCounted to_send s
      → s.built < to_send
      → left_over to_send s < left
      → Goes left (retransmit crc32c sh buf_len now to_send s b)
  retransmit-Goes s left panics v h k = tt
  retransmit-Goes s left skipped v h k = (v, k)
  retransmit-Goes s left (pdu buf n) v h k =
      add_rex-Goes s left n (attach_tick now s.send.tick buf) v h k

  idle-Goes :
      (s : Pacer) (closed : Bool)
      → IsCounted to_send s
      → s.built < to_send
      → s.new_done ≡ false
      → Goes (left_over to_send s) (some (idle crc32c sh buf_len now to_send s closed))
  idle-Goes s true v h d =
      (record { counted = v.counted; built_le = v.built_le; within = v.within }, rw d (omega arith))
  idle-Goes s false v h d =
      (record { counted = v.counted; built_le = v.within; within = v.within }, omega (arith, h))

  inject-Goes :
      (s : Pacer) (done : Bool) (ready : List (List ℕ × ℕ))
      → IsCounted to_send s
      → s.built < to_send
      → s.new_done ≡ done
      → pop_retransmit s.send.rex ≡ none
      → Goes (left_over to_send s) (inject crc32c sh buf_len now to_send s done ready)
  inject-Goes s true ready v h d q = record { counts = v; full_or_done = inr (q, d) }
  inject-Goes s false ((buf, n) ∷ rest) v h d q =
      add_new-Goes s (left_over to_send s) n rest (attach_tick now s.send.tick buf) v h
        (omega arith)
  inject-Goes s false [] v h d q = idle-Goes s s.closed v h d

  size : Option (ℕ × RexQueue) → ℕ
  size none = 0
  size (some (_, q)) = length q.heap

  -- What a retransmission takes from the queue.
  pub pop-shorter :
      (q q' : RexQueue) (seq : ℕ)
      → pop_retransmit q ≡ some (seq, q')
      → suc (length q'.heap) ≡ length q.heap
  unfolding pop_retransmit size
  pop-shorter q q' seq e = go q.heap e
    where
      go :
          (heap : List ℕ)
          → pop_retransmit (record q { heap = heap }) ≡ some (seq, q')
          → suc (length q'.heap) ≡ length heap
      go [] e = cc
      go (x ∷ rest) e = ap suc (ap size (sym e))

  round-Goes :
      (s : Pacer) (r : Option (ℕ × RexQueue))
      → IsCounted to_send s
      → s.built < to_send
      → pop_retransmit s.send.rex ≡ r
      → Goes (left_over to_send s) (round crc32c sh buf_len now to_send s r)
  round-Goes s none v h q = inject-Goes s s.new_done s.ready v h refl q
  round-Goes s (some (seq, rex)) v h q =
      let s' = with_scratch crc32c sh buf_len now to_send (with_rex s rex) in
      retransmit-Goes s' (left_over to_send s)
        (fill_retransmit crc32c sh (get_or s'.scratch s.rex_n []) seq)
        (record { counted = v.counted; built_le = v.built_le; within = v.within }) h
        (omega (arith, pop-shorter s.send.rex rex seq q))

  next-Ends :
      (loop : Pacer → Batched) (left fuel : ℕ) (r : Option Round)
      → left ≤ fuel
      → ((s : Pacer) → IsCounted to_send s → left_over to_send s < fuel → Ends to_send (loop s))
      → Goes left r
      → Ends to_send (next_round crc32c sh buf_len now to_send loop r)
  next-Ends loop left fuel none k more g = tt
  next-Ends loop left fuel (some (again s)) k more (v, less) = more s v (omega (arith, less, k))
  next-Ends loop left fuel (some (ended s)) k more g = g

  build_batch-Ends :
      (fuel : ℕ) (s : Pacer)
      → IsCounted to_send s
      → left_over to_send s < fuel
      → Ends to_send (build_batch crc32c sh buf_len now to_send fuel s)
  unfolding build_batch
  build_batch-Ends zero s v k = absurd (omega arith)
  build_batch-Ends (suc fuel) s v k = elim (Bool-cases (ltb s.built to_send)) [
    | inr e ↦ rw e (record { counts = v; full_or_done = inl (ground (arith, e)) })
    | inl e ↦ rw e (
        next-Ends (build_batch crc32c sh buf_len now to_send fuel) (left_over to_send s) fuel
          (round crc32c sh buf_len now to_send s (pop_retransmit s.send.rex)) (omega (arith, k))
          (λ s v k. build_batch-Ends fuel s v k)
          (round-Goes s (pop_retransmit s.send.rex) v (ground (arith, e)) refl))
  ]

  -- With fuel for every queued block and every place of the batch, the loop that builds a batch ends, in a
  -- batch of at most `to_send` datagrams where nothing panics; retransmissions and new blocks are all
  -- that it counts; and it is full, gives up its turn with the channel empty, or nothing is left to send.
  pub build_batch-IsBatch :
      (s : Pacer)
      → Ends to_send (
          build_batch crc32c sh buf_len now to_send
            (length s.send.rex.heap + to_send + 2)
            (reset s))
  build_batch-IsBatch s =
      build_batch-Ends (length s.send.rex.heap + to_send + 2) (reset s)
        (record { counted = omega arith; built_le = omega arith; within = omega arith })
        (enough s.new_done)
    where
      enough :
          (b : Bool)
          → length s.send.rex.heap + (to_send - 0) + (if b then 0 else 1)
            < length s.send.rex.heap + to_send + 2
      enough true = omega arith
      enough false = omega arith
