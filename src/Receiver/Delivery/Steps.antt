-- ===== src/Receiver/Delivery/Steps.antt =====
-- The receiver's promise is kept by each step of `handle_packet` and `flusher_loop` (src/receiver.rs)
-- that touches the blocks.
use girth.Prelude.{
  ℕ, zero, suc, ◌+◌, ◌-◌, ◌*◌, ◌/◌, ◌%◌, ◌^◌, ◌<◌, ◌≡◌, ◌⊎◌, inl, inr, refl, sym, ap, subst, ◌∙◌,
  true, false, List, [], ◌∷◌, none, some, arith, ltb, ◌==◌, ==_refl, ==_iff, ltb→lt, length, get_or,
  Option-cases, Bool-cases, take, drop, length-take, length-drop,
}
use native.Mathlib.Nat.{div-add-mod', mod-lt}
use girth.Prelude.Int.{pos}
use girth.Protocol.Blocks.{num_blocks, num_blocks_covers}
use girth.Shared.Float.{Float}
use girth.Io.{BlockSink}
use girth.LossTracker.Bitmap.{has}
use girth.LossTracker.Bitmap.Laws.{set_and_test_marks, is_set_lem}
use girth.Sender.Pdu.Wire.{block}
use girth.Receiver.{RecvShared, Receiver, staged, unstage}
use girth.Receiver.Ingest.{store}
use girth.Receiver.Flusher.{flush_one}
use girth.Receiver.Delivery.{
  Written, Delivery, ready_too, stage_too, write_too, fail_too, unstage_too, front_too,
}

none≢some : {A : Type 0} {a : A} → none ≡ some a → ⊥
none≢some e = cc

-- The promise, of a receiver's state.
abbrev pub Delivers :
    {f : Float} {S : Type 0} → BlockSink S → RecvShared → List ℕ → Receiver f S → Type 0
Delivers io sh bytes r =
    Delivery io sh.block_size bytes sh.total_blocks r.bm r.ready_bm r.flushed_blocks r.stage r.sink

module _ (f : Float) {S : Type 0} (io : BlockSink S) (sh : RecvShared) (bytes : List ℕ)
    (small : (j : ℕ) → j < sh.total_blocks → j * sh.block_size < 2 ^ 64) where
  -- No buffer is free and the sink refuses the block.
  abbrev pub Refused : ℕ → Receiver f S → Receiver f S → Type 0
  Refused seq r r' =
      (r.free ≡ 0)
      × (io.write_all_at r.sink (seq * sh.block_size) (block sh.block_size bytes seq)
          ≡ (false, r'.sink))
      × (r' ≡ record r { sink = r'.sink })

  -- Storing a block of the file that is marked but not ready returns and keeps the promise: it is staged
  -- or written, and ready then, unless no buffer is free and the direct write fails, which changes the
  -- sink only. The marks and the peer stay.
  pub store-Delivers :
      (seq : ℕ) (r : Receiver f S)
      → seq < sh.total_blocks
      → has r.bm seq ≡ true
      → has r.ready_bm seq ≡ false
      → Delivers io sh bytes r
      → (r' : Receiver f S) × (store f io sh seq (block sh.block_size bytes seq) r ≡ some r')
        × Delivers io sh bytes r'
        × ((has r'.ready_bm seq ≡ true) ⊎ Refused seq r r')
        × (r'.bm ≡ r.bm)
        × (r'.peer ≡ r.peer)
  unfolding store
  store-Delivers seq r h seen unready d =
      let (ready', run, marks, c) = set_and_test_marks r.ready_bm sh.total_blocks seq d.covers h in
      let off : seq * sh.block_size % 2 ^ 64 ≡ seq * sh.block_size = omega (arith, small seq h) in
      let now_ready : has ready' seq ≡ true = marks seq ∙ rw (==_refl seq) refl in
      elim (Bool-cases (r.free == 0)) [
        | inr some_free ↦
            let b = block sh.block_size bytes seq in
            let at_top : staged seq ((seq, b) ∷ unstage seq r.stage) ≡ some b =
              rw (==_refl seq) refl in
            (
              record r {
                free = r.free - 1;
                stage = (seq, b) ∷ unstage seq r.stage;
                ready_bm = ready';
              },
              rw (some_free, run) refl,
              ready_too io sh.block_size bytes (stage_too io sh.block_size bytes d seq unready) seq
                  ready' marks c seen (inl at_top),
              inl now_ready,
              refl,
              refl,
            )
        | inl none_free ↦
            let (wrote, s) =
              io.write_all_at r.sink (seq * sh.block_size) (block sh.block_size bytes seq) in
            elim (Bool-cases wrote) [
              | inr failed ↦ (
                record r { sink = s },
                rw (none_free, off, failed) refl,
                fail_too io sh.block_size bytes d seq s (λ i. (failed i, s)) unready,
                inr ((==_iff r.free 0).0 none_free, (λ i. (failed i, s)), refl),
                refl,
                refl,
              )
              | inl w ↦
                  let (d', k) = write_too io sh.block_size bytes d seq s (λ i. (w i, s)) in
                  (
                    record r { sink = s; ready_bm = ready' },
                    rw (none_free, off, w, run) refl,
                    ready_too io sh.block_size bytes d' seq ready' marks c seen (inr k),
                    inl now_ready,
                    refl,
                    refl,
                  )
            ]
      ]

  -- What a round of the flusher at the front leaves.
  pub record Flushes (r r' : Receiver f S) : Type 0 where
    pub delivers : Delivers io sh bytes r'
    pub bm_same : r'.bm ≡ r.bm
    pub peer_same : r'.peer ≡ r.peer
    pub moves :
        (r'.flushed_blocks ≡ r.flushed_blocks + 1)
        ⊎ ((r' ≡ r)
            × ((r.flushed_blocks ≡ sh.total_blocks) ⊎ (has r.ready_bm r.flushed_blocks ≡ false)))

  -- A round of the flusher returns and keeps the promise, in a sink that takes every block of the file:
  -- the front moves by one block, which is in the sink then, unless all blocks are flushed or the block
  -- at the front is not ready, where nothing changes; the marks and the peer stay.
  pub flush_one-Flushes :
      (r : Receiver f S)
      → ((s : S) (j : ℕ)
          → j < sh.total_blocks
          → (s' : S) × (io.write_all_at s (j * sh.block_size) (block sh.block_size bytes j)
              ≡ (true, s')))
      → Delivers io sh bytes r
      → (r' : Receiver f S) × (flush_one f io sh r ≡ some r') × Flushes r r'
  unfolding flush_one
  flush_one-Flushes r takes d = elim (Bool-cases (ltb r.flushed_blocks sh.total_blocks)) [
    | inr e ↦ (
      r,
      rw e refl,
      record {
        delivers = d;
        bm_same = refl;
        peer_same = refl;
        moves = inr (refl, inl (ground (arith, e, d.flushed_le)));
      },
    )
    | inl e ↦
        let front = r.flushed_blocks in
        let h = ltb→lt front sh.total_blocks e in
        let read = is_set_lem r.ready_bm front (omega (arith, h, d.covers)) in
        elim (Bool-cases (has r.ready_bm front)) [
          | inr q ↦ (
            r,
            rw (e, read, q) refl,
            record { delivers = d; bm_same = refl; peer_same = refl; moves = inr (refl, inr q) },
          )
          | inl q ↦ elim (Option-cases (staged front r.stage)) [
            | inl n ↦ (
              record r { flushed_blocks = front + 1 },
              rw (e, read, q, n) refl,
              record {
                delivers =
                    front_too io sh.block_size bytes d front h q (in_sink d n (d.kept front q));
                bm_same = refl;
                peer_same = refl;
                moves = inl refl;
              },
            )
            | inr (b, t) ↦
                let (s', w) = takes r.sink front h in
                let off : front * sh.block_size % 2 ^ 64 ≡ front * sh.block_size =
                  omega (arith, small front h) in
                let same = d.right front b t in
                let (d', k) = write_too io sh.block_size bytes d front s' w in
                let d'' = unstage_too io sh.block_size bytes d' front k in
                (
                  record r {
                    stage = unstage front r.stage;
                    free = r.free + 1;
                    sink = s';
                    flushed_blocks = front + 1;
                  },
                  rw (e, read, q, t, same, off, w) refl,
                  record {
                    delivers = front_too io sh.block_size bytes d'' front h q k;
                    bm_same = refl;
                    peer_same = refl;
                    moves = inl refl;
                  },
                )
          ]
        ]
  ]
    where
      in_sink :
          Delivers io sh bytes r
          → staged r.flushed_blocks r.stage ≡ none
          → (staged r.flushed_blocks r.stage ≡ some (block sh.block_size bytes r.flushed_blocks))
            ⊎ Written io sh.block_size bytes r.sink r.flushed_blocks
          → Written io sh.block_size bytes r.sink r.flushed_blocks
      in_sink d n (inl k) = absurd (none≢some (sym n ∙ k))
      in_sink d n (inr k) = k

-- A byte of the file, found in its block.
pub get_or-drop : (n i : ℕ) (xs : List ℕ) → get_or (drop n xs) i 0 ≡ get_or xs (n + i) 0
get_or-drop zero i xs = ap (λ k. get_or xs k 0) (omega arith)
get_or-drop (suc n) i [] = refl
get_or-drop (suc n) i (x ∷ xs) =
    get_or-drop n i xs ∙ ap (λ k. get_or (x ∷ xs) k 0) {x = suc (n + i)} (omega arith)

pub get_or-take : (n i : ℕ) (xs : List ℕ) → i < n → get_or (take n xs) i 0 ≡ get_or xs i 0
get_or-take zero i xs h = absurd (omega arith)
get_or-take (suc n) i [] h = refl
get_or-take (suc n) zero (x ∷ xs) h = refl
get_or-take (suc n) (suc i) (x ∷ xs) h = get_or-take n i xs (omega arith)

module _ {f : Float} {S : Type 0} (io : BlockSink S) (sh : RecvShared) (bytes : List ℕ) where
  -- Once every block is flushed, the sink of a receiver that keeps the promise holds the file: each of
  -- its bytes stands at its offset. The block size is positive and the blocks cover the file.
  pub all_flushed-holds :
      (r : Receiver f S) (i : ℕ)
      → 0 < sh.block_size
      → sh.total_blocks ≡ num_blocks (pos (length bytes)) sh.block_size
      → Delivers io sh bytes r
      → r.flushed_blocks ≡ sh.total_blocks
      → i < length bytes
      → io.byte_at r.sink i ≡ get_or bytes i 0
  all_flushed-holds r i p total d all h =
      subst (λ m. io.byte_at r.sink m ≡ get_or bytes m 0) (div-add-mod' i sh.block_size)
        (d.on_disk j (rw all in_range) k (
            omega (
              arith,
              k_lt,
              at_i,
              h,
              length-take sh.block_size (drop (j * sh.block_size) bytes),
              length-drop (j * sh.block_size) bytes,
            ))
          ∙ get_or-take sh.block_size k (drop (j * sh.block_size) bytes) k_lt
          ∙ get_or-drop (j * sh.block_size) k bytes)
    where
      j : ℕ
      j = i / sh.block_size

      k : ℕ
      k = i % sh.block_size

      k_lt : k < sh.block_size
      k_lt = mod-lt i p

      at_i : j * sh.block_size + k ≡ i
      at_i = div-add-mod' i sh.block_size

      in_range : j < sh.total_blocks
      in_range =
          rw total ((num_blocks_covers (length bytes) sh.block_size j p).1 (omega (arith, at_i, h)))
