-- ===== src/Receiver/Delivery/Run.antt =====
-- A transfer at the receiver (src/receiver.rs): datagrams arrive and the flusher makes its rounds, in any order.
use girth.Prelude.{
  ℕ, ◌*◌, ◌^◌, ◌<◌, ◌≡◌, ◌⊎◌, inl, inr, refl, sym, subst, true, List, [], ◌∷◌, Option, some, ◌>>=◌,
  arith, ltb, ltb→lt, length, get_or, Bool-cases, false, ◌==◌,
}
use girth.Prelude.Int.{pos}
use girth.Protocol.Blocks.{num_blocks}
use girth.Shared.Float.{Float}
use girth.Io.{BlockSink}
use girth.LossTracker.Bitmap.{Covers}
use girth.Sender.Pdu.{SendShared}
use girth.Sender.Pdu.Wire.{block, IsSender}
use girth.Sender.Pdu.Layout.{IsDataPdu}
use girth.Receiver.{SocketAddr, RecvShared, RttState, Receiver}
use girth.Receiver.Setup.{RecvConfig, start_rtt, with_defaults, new_receiver}
use girth.Receiver.Ingest.{foreign, handle_packet}
use girth.Receiver.Flusher.{flush_one}
use girth.Receiver.Accept.{Matches}
use girth.Receiver.Delivery.Steps.{flush_one-Flushes, all_flushed-holds}
use girth.Receiver.Delivery.Packet.{new_receiver-Keeps}
use girth.Receiver.Delivery.Arrival.{MayBePeer, Waits, one-Waits}

-- A datagram arrives, read at a time, or the flusher makes a round.
pub data Event : Type 0 where
  arrives : ℕ → List ℕ → Event
  flushes : Event

module _ (f : Float) {S : Type 0} (io : BlockSink S) (crc32c : List ℕ → ℕ) (rsh : RecvShared)
    (a : SocketAddr) where
  unfoldable pub run : List Event → Receiver f S → Option (Receiver f S)
  unfolding handle_packet flush_one
  run [] r = some r
  run (arrives now pkt ∷ es) r =
      handle_packet f io crc32c rsh now pkt (some a) r >>= (λ (r : Receiver f S). run es r)
  run (flushes ∷ es) r = flush_one f io rsh r >>= (λ (r : Receiver f S). run es r)

-- What arrives are DATA PDUs of blocks of the file.
abbrev pub Sends : (List ℕ → ℕ) → SendShared → List ℕ → List Event → Type 0
Sends crc32c sh bytes [] = Unit {0}
Sends crc32c sh bytes (arrives now pkt ∷ es) =
    ((seq : ℕ) × (seq < sh.total_blocks) × IsDataPdu crc32c sh bytes seq pkt)
    × Sends crc32c sh bytes es
Sends crc32c sh bytes (flushes ∷ es) = Sends crc32c sh bytes es

module _ (f : Float) {S : Type 0} (io : BlockSink S) (crc32c : List ℕ → ℕ) (sh : SendShared)
    (rsh : RecvShared) (bytes : List ℕ) (v : IsSender sh bytes) (same : Matches sh rsh)
    (small : (j : ℕ) → j < rsh.total_blocks → j * rsh.block_size < 2 ^ 64) (a : SocketAddr)
    (takes : (s : S) (j : ℕ)
      → j < rsh.total_blocks
      → (s' : S) × (io.write_all_at s (j * rsh.block_size) (block rsh.block_size bytes j)
          ≡ (true, s'))) where
  run-Waits :
      (es : List Event) (r : Receiver f S)
      → Sends crc32c sh bytes es
      → Waits f io rsh a bytes r
      → (r' : Receiver f S) × (run f io crc32c rsh a es r ≡ some r') × Waits f io rsh a bytes r'
  unfolding run
  run-Waits [] r c w = (r, refl, w)
  run-Waits (arrives now pkt ∷ es) r ((seq, h, d), c) w =
      let (one, step, w', _) =
        one-Waits f io crc32c sh rsh bytes v same small a now seq pkt r h d w in
      let (r', rest, w'') = run-Waits es one c w' in (r', rw step rest, w'')
  run-Waits (flushes ∷ es) r c ((d, room), peer) =
      let (one, step, x) = flush_one-Flushes f io rsh bytes small r takes d in
      let (r', rest, w'') = run-Waits es one c (
        (x.delivers, subst (λ b. Covers b rsh.total_blocks) (sym x.bm_same) room),
        subst (MayBePeer rsh a) (sym x.peer_same) peer,
      ) in
      (r', rw step rest, w'')

  -- A transfer from its start to some point of it: the receiver stands, and where every block is flushed, the
  -- sink holds the file, each of its bytes at its offset.
  pub record Arrived (sink : S) (cfg : RecvConfig f) (es : List Event) : Type 0 where
    pub start : Receiver f S
    pub starts : new_receiver f sink cfg ≡ some (rsh, start)
    pub after : Receiver f S
    pub runs : run f io crc32c rsh a es start ≡ some after
    pub waits : Waits f io rsh a bytes after
    pub holds :
        (after.flushed_blocks < rsh.total_blocks)
        ⊎ ((i : ℕ) → i < length bytes → io.byte_at after.sink i ≡ get_or bytes i 0)

  -- A new receiver for the sender's file, into a sink that takes every block of it, whatever DATA PDUs of the
  -- file arrive from the peer and whenever the flusher makes its rounds between them, in any order, with any
  -- copies and any left out: nothing panics, the receiver keeps its promise, and where all blocks are
  -- flushed, every byte of the file stands at its offset in the sink. The rate controller starts, the block
  -- size is positive, the blocks cover the file and offsets fit 64 bits.
  pub run-Arrived :
      (sink : S) (cfg : RecvConfig f) (rtt : RttState f) (es : List Event)
      → start_rtt f cfg ≡ some rtt
      → (cfg.shared.block_size == 0) ≡ false
      → with_defaults f cfg.shared ≡ rsh
      → foreign rsh.expected_peer_ip (some a) ≡ false
      → 0 < rsh.block_size
      → rsh.total_blocks ≡ num_blocks (pos (length bytes)) rsh.block_size
      → Sends crc32c sh bytes es
      → Arrived sink cfg es
  run-Arrived sink cfg rtt es started sized defaults near positive total c =
      let (r, starts, k, _, peer) =
        new_receiver-Keeps f io rsh bytes sink cfg rtt started sized defaults in
      let (r', runs, (kept, near')) = run-Waits es r c (k, (near, inl peer)) in
      record {
        start = r;
        starts = starts;
        after = r';
        runs = runs;
        waits = (kept, near');
        holds = elim (Bool-cases (ltb r'.flushed_blocks rsh.total_blocks)) [
          | inl e ↦ inl (ltb→lt r'.flushed_blocks rsh.total_blocks e)
          | inr e ↦ inr (λ i h.
              all_flushed-holds io rsh bytes r' i positive total (kept.0)
                (ground (arith, e, kept.0.flushed_le)) h)
        ];
      }
