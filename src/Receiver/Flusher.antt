-- ===== src/Receiver/Flusher.antt =====
-- src/receiver.rs: `flusher_loop`, which writes staged blocks in ascending order.
use girth.Prelude.{ℕ, ◌+◌, ◌*◌, ◌%◌, ◌^◌, Bool, List, Option, none, some, ◌>>=◌, ltb, if◌then◌else◌}
use girth.Shared.Float.{Float}
use girth.Io.{BlockSink}
use girth.LossTracker.Bitmap.{is_set}
use girth.Receiver.{RecvShared, Receiver, staged, unstage}

module _ (f : Float) {S : Type 0} (io : BlockSink S) where
  -- The write of a staged block; an error is logged only. The buffer goes back to the pool.
  abbrev pub write_staged : RecvShared → ℕ → Option (List ℕ) → Receiver f S → Receiver f S
  write_staged sh seq none r = r
  write_staged sh seq (some bytes) r = record r {
    stage = unstage seq r.stage;
    free = r.free + 1;
    sink = (io.write_all_at r.sink (seq * sh.block_size % 2 ^ 64) bytes).1;
  }

  -- One round of the inner loop at `write_front`, which `flushed_blocks` repeats: it does nothing where
  -- the block is not ready.
  unfoldable pub flush_one : RecvShared → Receiver f S → Option (Receiver f S)
  flush_one sh r =
      let front = r.flushed_blocks in
      let written = write_staged sh front (staged front r.stage) r in
      if ltb front sh.total_blocks
      then is_set r.ready_bm front >>= (λ (set : Bool).
        some (if set then record written { flushed_blocks = front + 1 } else r))
      else some r
