-- ===== src/Receiver/Delivery/Packet.antt =====
-- The receiver's promise through the part of `handle_packet` (src/receiver.rs) behind the tests.
use Prim.Native.Nat.{bit_and}
use girth.Prelude.{
  none, ℕ, ◌+◌, ◌*◌, ◌^◌, ◌<◌, ◌≡◌, inl, inr, refl, sym, ap, ◌∙◌, Bool, true, false, not, ◌&&◌,
  ◌||◌, List, some, arith, ◌==◌, ==_refl, if◌then◌else◌, length, max, Bool-cases,
}
use girth.Shared.Float.{Float}
use girth.Protocol.Data.{DataHeader, flag_has_tick}
use girth.Io.{BlockSink}
use girth.LossTracker.Bitmap.{RecvBitmap, has, Covers}
use girth.LossTracker.Bitmap.Laws.{set_and_test_marks, new-Covers, has-new}
use girth.Sender.Pdu.Wire.{block}
use girth.Receiver.{RecvShared, RttState, Receiver}
use girth.Receiver.Ingest.{apply_tick, mark_block, take_block}
use girth.Receiver.Setup.{RecvConfig, new_receiver, start_rtt, initial, with_defaults}
use girth.Receiver.Delivery.{Delivery}
use girth.Receiver.Delivery.Steps.{Delivers, store-Delivers}

-- More blocks are marked.
seen_too :
    {S : Type 0} (io : BlockSink S) {size total flushed : ℕ} {bytes : List ℕ}
    {bm bm' ready : RecvBitmap} {stage : List (ℕ × List ℕ)} {s : S}
    → ((j : ℕ) → has bm j ≡ true → has bm' j ≡ true)
    → Delivery io size bytes total bm ready flushed stage s
    → Delivery io size bytes total bm' ready flushed stage s
seen_too io grows d = record {
  covers = d.covers;
  flushed_le = d.flushed_le;
  ready_seen = λ j e. grows j (d.ready_seen j e);
  flushed_ready = d.flushed_ready;
  on_disk = d.on_disk;
  kept = d.kept;
  right = d.right;
}

not-true : (b : Bool) → (b ≡ true → false ≡ true) → b ≡ false
not-true true h = sym (h refl)
not-true false h = refl

module _ (f : Float) {S : Type 0} (io : BlockSink S) (sh : RecvShared) (bytes : List ℕ) where
  -- The promise and the room of the bitmap.
  abbrev pub Keeps : Receiver f S → Type 0
  Keeps r = Delivers io sh bytes r × Covers r.bm sh.total_blocks

  -- A tick changes neither the promise, nor the marks, nor the peer.
  abbrev Unmoved : Receiver f S → Receiver f S → Type 0
  Unmoved r r' = Keeps r' × (r'.bm ≡ r.bm) × (r'.peer ≡ r.peer)

  if_Keeps :
      (t : Bool) (r a b : Receiver f S) → Unmoved r a → Unmoved r b → Unmoved r (if t then a else b)
  if_Keeps true r a b k l = k
  if_Keeps false r a b k l = l

  apply_tick-Keeps :
      (now : ℕ) (h : DataHeader) (r : Receiver f S) → Keeps r → Unmoved r (apply_tick f now h r)
  unfolding apply_tick
  apply_tick-Keeps now h r k =
      let m = f.sub (f.from_u64 now) (f.from_u64 h.echo_tick) in
      elim (Bool-cases (not (f.le (f.lit 0 1) m && f.le m (f.lit 60000000 1)))) [
        | inl e ↦ rw e (k, refl, refl)
        | inr e ↦ elim (Bool-cases (not (bit_and h.flags 2 == 0))) [
          | inl q ↦ rw (e, q) (k, refl, refl)
          | inr q ↦ rw (e, q) (k, refl, refl)
        ]
      ]

  mark_block-Keeps :
      ((j : ℕ) → j < sh.total_blocks → j * sh.block_size < 2 ^ 64)
      → (h : DataHeader) (r : Receiver f S) → h.block_seq < sh.total_blocks
      → Keeps r
      → (r' : Receiver f S) × (mark_block f io sh h (block sh.block_size bytes h.block_seq) r
          ≡ some r')
        × Keeps r'
        × ((j : ℕ) → has r'.bm j ≡ (j == h.block_seq || has r.bm j))
        × (r'.peer ≡ r.peer)
  unfolding mark_block
  mark_block-Keeps small h r in_range (d, c) =
      let seq = h.block_seq in
      let (bm', run, marks, c') = set_and_test_marks r.bm sh.total_blocks seq c in_range in
      let grown : (j : ℕ) → has r.bm j ≡ true → has bm' j ≡ true =
        λ j e. marks j ∙ rw e (ground arith) in
      let now_seen : has bm' seq ≡ true = marks seq ∙ rw (==_refl seq) refl in
      let d' = seen_too io grown d in
      elim (Bool-cases (has r.bm seq)) [
        | inl old ↦ (
          record r {
            seen_any = true;
            max_seen = max r.max_seen seq;
            bm = bm';
            stats = record (r.stats) { dup_recv = r.stats.dup_recv + 1 };
          },
          rw (run, old) refl,
          (d', c'),
          marks,
          refl,
        )
        | inr fresh ↦
            let marked : Receiver f S = record r {
              seen_any = true;
              max_seen = max r.max_seen seq;
              bm = bm';
              stats = record (r.stats) {
                payload_recv = r.stats.payload_recv + length (block sh.block_size bytes seq);
                blocks_written = r.stats.blocks_written + 1;
              };
            } in
            let unready = not-true (has r.ready_bm seq) (λ q. sym fresh ∙ d.ready_seen seq q) in
            let (r', stored, kept, _, same, peer) =
              store-Delivers f io sh bytes small seq marked in_range now_seen unready d' in
            (r', rw (run, fresh) stored, (kept, rw same c'), (λ j. rw same (marks j)), peer)
      ]

  -- A DATA PDU of a block of the file, new or not, behind the receiver's tests: `handle_packet` returns,
  -- that block is marked and no other, the peer stays, and the promise and the room of the bitmap are
  -- kept, whatever tick the PDU carries. Offsets fit 64 bits.
  pub take_block-Keeps :
      ((j : ℕ) → j < sh.total_blocks → j * sh.block_size < 2 ^ 64)
      → (now : ℕ) (h : DataHeader) (r : Receiver f S) → h.block_seq < sh.total_blocks
      → Keeps r
      → (r' : Receiver f S) × (take_block f io sh now h (block sh.block_size bytes h.block_seq) r
          ≡ some r')
        × Keeps r'
        × ((j : ℕ) → has r'.bm j ≡ (j == h.block_seq || has r.bm j))
        × (r'.peer ≡ r.peer)
  unfolding take_block
  take_block-Keeps small now h r in_range k =
      let ticked = if not (bit_and h.flags flag_has_tick == 0) then apply_tick f now h r else r in
      let (k', bm_same, peer_same) =
        if_Keeps (not (bit_and h.flags flag_has_tick == 0)) r (apply_tick f now h r) r
          (apply_tick-Keeps now h r k) (k, refl, refl) in
      let (r', run, kept, marks, peer) = mark_block-Keeps small h ticked in_range k' in
      (
        r',
        run,
        kept,
        (λ j. marks j ∙ ap (λ (b : RecvBitmap). j == h.block_seq || has b j) bm_same),
        peer ∙ peer_same,
      )

  -- A new receiver keeps the promise of every file in its sink's blocks, with nothing flushed and no peer; the block
  -- size is positive, and the rate controller starts.
  pub new_receiver-Keeps :
      (sink : S) (cfg : RecvConfig f) (rtt : RttState f)
      → start_rtt f cfg ≡ some rtt
      → (cfg.shared.block_size == 0) ≡ false
      → with_defaults f cfg.shared ≡ sh
      → (r : Receiver f S) × (new_receiver f sink cfg ≡ some (sh, r))
        × Keeps r
        × (r.flushed_blocks ≡ 0)
        × (r.peer ≡ none)
  unfolding new_receiver
  new_receiver-Keeps sink cfg rtt started positive same =
      let total : cfg.shared.total_blocks ≡ sh.total_blocks =
        ap (λ (t : RecvShared). t.total_blocks) same in
      (
        initial f sink cfg rtt,
        rw (positive, started, same) refl,
        rw (← total) (
            unfold initial in
            (
              record {
                covers = new-Covers cfg.shared.total_blocks;
                flushed_le = omega arith;
                ready_seen = λ j e. e;
                flushed_ready = λ j h. absurd (omega arith);
                on_disk = λ j h. absurd (omega arith);
                kept = λ j e. absurd (no (sym (has-new cfg.shared.total_blocks j) ∙ e));
                right = λ j b e. cc;
              },
              new-Covers cfg.shared.total_blocks,
            )),
        unfold initial in refl,
        unfold initial in refl,
      )
    where
      no : false ≡ true → ⊥
      no e = cc
