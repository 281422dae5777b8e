-- ===== src/Sender/Pacing/Carries/Batch.antt =====
-- A batch of `pacing_loop` (src/sender.rs) as a whole.
use girth.Prelude.{
  ℕ, ◌+◌, ◌≤◌, ◌<◌, ◌^◌, ◌≡◌, inl, inr, refl, Bool, true, ◌||◌, List, [], ◌∷◌, arith, length,
  get_or,
}
use girth.Shared.Sets.{contains}
use girth.Sender.Pdu.{SendShared}
use girth.Sender.Pdu.Wire.{IsSender}
use girth.Sender.Pdu.Layout.{overhead}
use girth.Sender.Queue.{IsQueue, rex_len}
use girth.Sender.Pacing.{Pacer, batched, build_batch, reset}
use girth.Sender.Pacing.Bounds.{IsBatch, build_batch-IsBatch}
use girth.Sender.Pacing.Carries.{Carry, Prefetched, Sends}
use girth.Sender.Pacing.Carries.Rounds.{no_heap, both, build_batch-Sent}

-- A pacer between batches: its buffers have their length, its queue holds blocks of the file, the tick
-- fits 64 bits, and what is prefetched is the PDUs of blocks.
pub record IsPacer (crc32c : List ℕ → ℕ) (sh : SendShared) (bytes : List ℕ) (buf_len : ℕ)
    (s : Pacer) : Type 0 where
  pub room : (i : ℕ) → i < length s.scratch → length (get_or s.scratch i []) ≡ buf_len
  pub queue_valid : IsQueue s.send.rex
  pub queue_blocks : (j : ℕ) → contains j s.send.rex.set ≡ true → j < sh.total_blocks
  pub tick_u64 : s.send.tick.val < 2 ^ 64
  pub prefetched : Prefetched crc32c sh bytes s.ready

-- A batch built from `s`: its datagrams are DATA PDUs of blocks, every block that was queued is among
-- them or still queued, and none is queued where the batch has a place for each.
pub record CarriesQueue (crc32c : List ℕ → ℕ) (sh : SendShared) (bytes : List ℕ)
    (buf_len to_send : ℕ) (s s' : Pacer) : Type 0 where
  pub valid : IsPacer crc32c sh bytes buf_len s'
  pub blocks : List ℕ
  pub carried : Carry crc32c sh bytes blocks s'.pkts
  pub queue_kept :
      (j : ℕ)
      → contains j s.send.rex.set ≡ true
      → (contains j s'.send.rex.set || contains j blocks) ≡ true
  pub drained : rex_len s.send.rex ≤ to_send → s'.send.rex.heap ≡ []

no_length : (xs : List ℕ) → length xs ≡ 0 → xs ≡ []
no_length [] e = refl
no_length (x ∷ xs) e = absurd (omega arith)

-- The loop of the sender that builds a batch, for a file that fits its types, with buffers that have room
-- for a block, the header and the tag: it ends without a panic, within its fuel; every datagram is a DATA
-- PDU of a block of the file, with a tick or without; no block that was queued is lost, it is sent or
-- still queued; and where the batch has a place for each, all are sent.
pub build_batch-CarriesQueue :
    (crc32c : List ℕ → ℕ)
    → ((b : List ℕ) → crc32c b < 2 ^ 32)
    → (sh : SendShared) → sh.session < 2 ^ 32
    → (bytes : List ℕ) → IsSender sh bytes
    → (buf_len now to_send : ℕ) → 36 + sh.block_size + overhead sh ≤ buf_len
    → (s : Pacer) → IsPacer crc32c sh bytes buf_len s
    → (s' : Pacer) × (build_batch crc32c sh buf_len now to_send
          (length s.send.rex.heap + to_send + 2)
          (reset s)
        ≡ batched s')
      × IsBatch to_send s'
      × CarriesQueue crc32c sh bytes buf_len to_send s s'
unfolding rex_len
build_batch-CarriesQueue crc32c crc_u32 sh session_u32 bytes v buf_len now to_send wide s p =
    let fuel = length s.send.rex.heap + to_send + 2 in
    let start : Sends crc32c sh bytes buf_len goal first (reset s) = record {
      room = p.room;
      at = omega arith;
      queue_valid = p.queue_valid;
      queue_blocks = p.queue_blocks;
      tick_u64 = p.tick_u64;
      prefetched = p.prefetched;
      blocks = [];
      carried = tt;
      goal_kept = λ j g. rw g refl;
      rex_first = inr (omega arith);
    } in
    let (s', run, batch, k) =
      both crc32c crc_u32 sh session_u32 bytes v buf_len now wide to_send goal first
        (build_batch crc32c sh buf_len now to_send fuel (reset s))
        (build_batch-IsBatch crc32c sh buf_len now to_send s)
        (build_batch-Sent crc32c crc_u32 sh session_u32 bytes v buf_len now wide to_send goal first
          fuel (reset s) start) in
    (
      s',
      run,
      batch,
      record {
        valid = record {
          room = k.room;
          queue_valid = k.queue_valid;
          queue_blocks = k.queue_blocks;
          tick_u64 = k.tick_u64;
          prefetched = k.prefetched;
        };
        blocks = k.blocks;
        carried = k.carried;
        queue_kept = k.goal_kept;
        drained = λ few. elim (batch.full_or_done) [
          | inr (e, _) ↦ no_heap s'.send.rex e
          | inl full ↦ elim (k.rex_first) [
            | inl e ↦ e
            | inr l ↦ no_length s'.send.rex.heap (omega (arith, few, full, l))
          ]
        ];
      },
    )
  where
    goal : ℕ → Bool
    goal j = contains j s.send.rex.set

    first : ℕ
    first = length s.send.rex.heap
