-- ===== src/Recovery.antt =====
-- A loss repaired: a FEEDBACK PDU of the receiver (src/receiver.rs) at the sender (src/sender.rs), the batch
-- that follows it, and its datagrams back at the receiver.
pub mod Round
mod Tests
use girth.Prelude.{
  ℕ, ◌+◌, ◌*◌, ◌^◌, ◌≤◌, ◌<◌, ◌≡◌, inl, inr, refl, sym, ap, subst, ◌∙◌, Bool, true, false, ◌||◌,
  List, [], some, arith, length, take-all, Bool-cases,
}
use girth.Shared.Float.{Float}
use girth.Shared.Sets.{contains}
use girth.Protocol.Feedback.{FeedbackHeader, NackEntry, decode_feedback}
use girth.Io.{BlockSink}
use girth.LossTracker.Bitmap.{has}
use girth.Sender.Pdu.{SendShared}
use girth.Sender.Pdu.Wire.{IsSender}
use girth.Sender.Pdu.Layout.{overhead}
use girth.Sender.Queue.{asked, rex_len}
use girth.Sender.Control.{SendPeer, TickState, handle_feedback}
use girth.Sender.Control.Laws.{handle_feedback-Follows}
use girth.Sender.Pacing.{Pacer, batched, build_batch, reset}
use girth.Sender.Pacing.Carries.Batch.{IsPacer, build_batch-CarriesQueue}
use girth.Receiver.{SocketAddr, RecvShared, Receiver}
use girth.Receiver.Accept.{Matches}
use girth.Receiver.Delivery.Arrival.{Waits, deliver, deliver-Waits}

-- The pacer behind a datagram of the receiver.
abbrev pub heard : SendPeer → ℕ → List ℕ → Pacer → Pacer
heard p t2 pkt s = record s { send = handle_feedback p t2 pkt s.send }

-- A FEEDBACK PDU of the session leaves a pacer valid, where it asks for blocks of the file.
heard-IsPacer :
    (crc32c : List ℕ → ℕ) (sh : SendShared) (bytes : List ℕ) (buf_len : ℕ) (p : SendPeer) (t2 : ℕ)
    (pkt : List ℕ) (fh : FeedbackHeader) (nacks : List NackEntry) (s : Pacer)
    → length pkt ≤ 2048
    → decode_feedback pkt ≡ some (fh, nacks)
    → fh.session ≡ p.session
    → fh.tick < 2 ^ 64
    → ((j : ℕ) → asked j nacks ≡ true → j < sh.total_blocks)
    → IsPacer crc32c sh bytes buf_len s
    → IsPacer crc32c sh bytes buf_len (heard p t2 pkt s)
      × ((j : ℕ) → asked j nacks ≡ true → contains j (heard p t2 pkt s).send.rex.set ≡ true)
heard-IsPacer crc32c sh bytes buf_len p t2 pkt fh nacks s short e same tick in_file v =
    let w =
      handle_feedback-Follows p t2 pkt fh nacks s.send (rw (take-all 2048 pkt short) e) same
        v.queue_valid in
    (
      record {
        room = v.room;
        queue_valid = w.queue_valid;
        queue_blocks = λ j c. elim (Bool-cases (asked j nacks)) [
          | inl a ↦ in_file j a
          | inr a ↦ v.queue_blocks j (ground (arith, w.queued j, a, c))
        ];
        tick_u64 = omega (arith, ap (λ (t : TickState). t.val) w.tick_same, tick);
        prefetched = v.prefetched;
      },
      λ j a. w.queued j ∙ rw a refl,
    )

module _ (f : Float) {S : Type 0} (io : BlockSink S) (crc32c : List ℕ → ℕ) (sh : SendShared)
    (rsh : RecvShared) (bytes : List ℕ) (a : SocketAddr) (buf_len now to_send : ℕ) where
  -- What a report leads to where nothing is lost: the batch and the receiver behind it.
  pub record Repairs (clock : ℕ → ℕ) (nacks : List NackEntry) (start : Pacer) (r : Receiver f S)
      : Type 0 where
    pub next : Pacer
    pub built :
        build_batch crc32c sh buf_len now to_send
          (length start.send.rex.heap + to_send + 2)
          (reset start)
        ≡ batched next
    pub pacer : IsPacer crc32c sh bytes buf_len next
    pub after : Receiver f S
    pub delivered : deliver f io rsh a crc32c clock next.pkts r ≡ some after
    pub waits : Waits f io rsh a bytes after
    pub marked : (j : ℕ) → asked j nacks ≡ true → has after.bm j ≡ true
    pub kept : (j : ℕ) → has r.bm j ≡ true → has after.bm j ≡ true

module _ (f : Float) {S : Type 0} (io : BlockSink S) (crc32c : List ℕ → ℕ)
    (crc_u32 : (b : List ℕ) → crc32c b < 2 ^ 32) (sh : SendShared)
    (session_u32 : sh.session < 2 ^ 32) (rsh : RecvShared) (bytes : List ℕ) (v : IsSender sh bytes)
    (same : Matches sh rsh) (small : (j : ℕ) → j < rsh.total_blocks → j * rsh.block_size < 2 ^ 64)
    (a : SocketAddr) (buf_len now to_send : ℕ)
    (wide : 36 + sh.block_size + overhead sh ≤ buf_len) where
  -- A report of the receiver, that the sender's buffer of 2048 bytes takes, asks for lost blocks, and the batch behind it, of a place for each block that
  -- is queued then, arrives: the sender's loop ends without a panic, the receiver takes every datagram,
  -- each block that was asked for is marked at the receiver, and nothing that was marked is lost. Both ends
  -- keep their promises, so that this can be repeated.
  pub report-Repairs :
      (clock : ℕ → ℕ) (p : SendPeer) (t2 : ℕ) (pkt : List ℕ) (fh : FeedbackHeader)
      (nacks : List NackEntry) (s : Pacer) (r : Receiver f S)
      → length pkt ≤ 2048
      → decode_feedback pkt ≡ some (fh, nacks)
      → fh.session ≡ p.session
      → fh.tick < 2 ^ 64
      → ((j : ℕ) → asked j nacks ≡ true → j < sh.total_blocks)
      → IsPacer crc32c sh bytes buf_len s
      → rex_len (heard p t2 pkt s).send.rex ≤ to_send
      → Waits f io rsh a bytes r
      → Repairs f io crc32c sh rsh bytes a buf_len now to_send clock nacks (heard p t2 pkt s) r
  report-Repairs clock p t2 pkt fh nacks s r short e same_session tick in_file ok few w =
      let (ok', queued) =
        heard-IsPacer crc32c sh bytes buf_len p t2 pkt fh nacks s short e same_session tick in_file
          ok in
      let (s', run, _, c) =
        build_batch-CarriesQueue crc32c crc_u32 sh session_u32 bytes v buf_len now to_send wide
          (heard p t2 pkt s) ok' in
      let (r', run', w', marks) =
        deliver-Waits f io crc32c sh rsh bytes v same small a clock c.blocks s'.pkts r c.carried
          w in
      record {
        next = s';
        built = run;
        pacer = c.valid;
        after = r';
        delivered = run';
        waits = w';
        marked = λ j q.
            let unqueued : contains j s'.send.rex.set ≡ false =
              sym (c.valid.queue_valid.same j) ∙ ap (contains j) (c.drained few) in
            marks j ∙ ground (arith, c.queue_kept j (queued j q), unqueued);
        kept = λ j h. marks j ∙ ground (arith, h);
      }
