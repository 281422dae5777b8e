-- ===== src/Sender/Pacing/Carries/Rounds.antt =====
-- The rounds of the loop that builds a batch in `pacing_loop` (src/sender.rs).
use girth.Prelude.{
  ℕ, zero, suc, ◌+◌, ◌≤◌, ◌<◌, ◌^◌, ◌≡◌, ◌⊎◌, inl, inr, refl, ap, subst, Bool, true, false, List,
  [], ◌∷◌, ◌++◌, Option, none, some, ltb, ◌==◌, arith, length, length-append, length-replicate,
  get_or, replicate, take, Bool-cases,
}
use girth.Sender.Pdu.{SendShared}
use girth.Sender.Pdu.Wire.{IsSender}
use girth.Sender.Pdu.Layout.{overhead}
use girth.Sender.Pdu.Build.{fill_retransmit-IsDataPdu}
use girth.Sender.Queue.{RexQueue, queue, Pops, pop_retransmit, pop_retransmit-Pops}
use girth.Sender.Control.Tick.{attach_tick-IsDataPdu}
use girth.Sender.Pacing.{
  Pacer, Round, again, ended, Batched, exhausted, panicked, batched, with_rex, with_scratch, idle,
  inject, round, next_round, build_batch,
}
use girth.Sender.Pacing.Bounds.{pop-shorter, Ends, IsBatch}
use girth.Sender.Pacing.Carries.{Prefetched, Sends, Carry-snoc, contains-snoc, get_or-snoc}

pub no_heap : (q : RexQueue) → pop_retransmit q ≡ none → q.heap ≡ []
unfolding pop_retransmit
no_heap q e = go q.heap e
  where
    go : (heap : List ℕ) → pop_retransmit (record q { heap = heap }) ≡ none → heap ≡ []
    go [] e = refl
    go (x ∷ rest) e = cc

module _ (crc32c : List ℕ → ℕ) (crc_u32 : (b : List ℕ) → crc32c b < 2 ^ 32) (sh : SendShared)
    (session_u32 : sh.session < 2 ^ 32) (bytes : List ℕ) (v : IsSender sh bytes) (buf_len now : ℕ)
    (wide : 36 + sh.block_size + overhead sh ≤ buf_len) (to_send : ℕ) (goal : ℕ → Bool)
    (first : ℕ) where
  abbrev pub Keep : Pacer → Type 0
  Keep = Sends crc32c sh bytes buf_len goal first

  -- No panic, and the promise.
  abbrev Fine : Option Round → Type 0
  Fine none = ⊥
  Fine (some (again s)) = Keep s
  Fine (some (ended s)) = Keep s

  -- Once no block is queued, the counts do not matter.
  turned :
      (s : Pacer) (new_done : Bool) (built : ℕ)
      → Keep s
      → s.send.rex.heap ≡ []
      → Keep (record s { new_done = new_done; built = built })
  turned s new_done built k e = record {
    room = k.room;
    at = k.at;
    queue_valid = k.queue_valid;
    queue_blocks = k.queue_blocks;
    tick_u64 = k.tick_u64;
    prefetched = k.prefetched;
    blocks = k.blocks;
    carried = k.carried;
    goal_kept = k.goal_kept;
    rex_first = inl e;
  }

  -- With no block queued: a new block, the end, or a turn given up.
  inject-Fine :
      (s : Pacer) (done : Bool) (ready : List (List ℕ × ℕ))
      → Keep s
      → s.send.rex.heap ≡ []
      → s.ready ≡ ready
      → Fine (inject crc32c sh buf_len now to_send s done ready)
  inject-Fine s true ready k e r = k
  inject-Fine s false [] k e r = given_up s.closed
    where
      given_up : (b : Bool) → Fine (some (idle crc32c sh buf_len now to_send s b))
      given_up true = turned s true s.built k e
      given_up false = turned s s.new_done to_send k e
  inject-Fine s false ((buf, n) ∷ rest) k e r =
      let ((j, h, d), more) = subst (Prefetched crc32c sh bytes) r k.prefetched in
      let (buf', tick, run, val, d') =
        attach_tick-IsDataPdu crc32c sh bytes j now s.send.tick buf n k.tick_u64 d in
      rw run (record {
        room = k.room;
        at = k.at;
        queue_valid = k.queue_valid;
        queue_blocks = k.queue_blocks;
        tick_u64 = omega (arith, val, k.tick_u64);
        prefetched = more;
        blocks = k.blocks ++ (j ∷ []);
        carried = Carry-snoc crc32c sh bytes k.blocks s.pkts j (take n buf') k.carried h d';
        goal_kept = λ i g. ground (arith, k.goal_kept i g, contains-snoc i j k.blocks);
        rex_first = inl e;
      })

  -- The scratch buffers with one for the next retransmission.
  scratch_room :
      (s : Pacer)
      → Keep s
      → ((i : ℕ)
          → i < length (with_scratch crc32c sh buf_len now to_send s).scratch
          → length (get_or (with_scratch crc32c sh buf_len now to_send s).scratch i []) ≡ buf_len)
        × (s.rex_n < length (with_scratch crc32c sh buf_len now to_send s).scratch)
  scratch_room s k = elim (Bool-cases (s.rex_n == length s.scratch)) [
    | inl e ↦ rw e (
      get_or-snoc s.scratch (replicate buf_len 0) buf_len k.room (length-replicate buf_len 0),
      omega (arith, k.at, length-append s.scratch (replicate buf_len 0 ∷ [])),
    )
    | inr e ↦ rw e (k.room, ground (arith, e, k.at))
  ]

  -- A queued block leaves the queue as the next datagram.
  retransmit-Fine :
      (s : Pacer) (seq : ℕ) (heap set : List ℕ)
      → Keep s
      → pop_retransmit s.send.rex ≡ some (seq, queue heap set)
      → Pops s.send.rex seq (queue heap set)
      → s.built + suc (length heap) ≤ first
      → Fine (round crc32c sh buf_len now to_send s (some (seq, queue heap set)))
  retransmit-Fine s seq heap set k e p less =
      let (room, next) = scratch_room s k in
      let h = k.queue_blocks seq p.member in
      let s' = with_scratch crc32c sh buf_len now to_send (with_rex s (queue heap set)) in
      let buf = get_or s'.scratch s.rex_n [] in
      let (out, n, run, d) =
        fill_retransmit-IsDataPdu crc32c crc_u32 sh session_u32 bytes v buf seq h
          (omega (arith, room s.rex_n next, wide)) in
      let (buf', tick, run', val, d') =
        attach_tick-IsDataPdu crc32c sh bytes seq now s.send.tick out n k.tick_u64 d in
      rw (run, run')
        (record {
          room = room;
          at = omega (arith, next);
          queue_valid = p.valid;
          queue_blocks = λ j c. k.queue_blocks j (ground (arith, p.leaves j, c));
          tick_u64 = omega (arith, val, k.tick_u64);
          prefetched = k.prefetched;
          blocks = k.blocks ++ (seq ∷ []);
          carried = Carry-snoc crc32c sh bytes k.blocks s.pkts seq (take n buf') k.carried h d';
          goal_kept =
              λ j g. ground (arith, k.goal_kept j g, contains-snoc j seq k.blocks, p.leaves j);
          rex_first = inr (omega (arith, less));
        })

  round-Fine :
      (s : Pacer)
      → Keep s
      → Fine (round crc32c sh buf_len now to_send s (pop_retransmit s.send.rex))
  round-Fine s k = elim (pop_retransmit-Pops s.send.rex.heap s.send.rex.set k.queue_valid) [
    | inl (e, _) ↦ rw e (inject-Fine s s.new_done s.ready k (no_heap s.send.rex e) refl)
    | inr (seq, rest, e, p) ↦
        rw e (retransmit-Fine s seq rest.heap rest.set k e p (less rest seq e k.rex_first))
  ]
    where
      less :
          (rest : RexQueue) (seq : ℕ)
          → pop_retransmit s.send.rex ≡ some (seq, rest)
          → (s.send.rex.heap ≡ []) ⊎ (s.built + length s.send.rex.heap ≤ first)
          → s.built + suc (length rest.heap) ≤ first
      less rest seq e f =
          let shorter = pop-shorter crc32c sh buf_len now to_send s.send.rex rest seq e in
          elim f [
            | inl none_left ↦
                absurd (omega (arith, shorter, ap (λ (t : List ℕ). length t) none_left))
            | inr l ↦ omega (arith, shorter, l)
          ]

  -- What a batch that is built leaves.
  abbrev pub Sent : Batched → Type 0
  Sent exhausted = Unit {0}
  Sent panicked = ⊥
  Sent (batched s) = Keep s

  next-Sent :
      (loop : Pacer → Batched) (r : Option Round)
      → ((s : Pacer) → Keep s → Sent (loop s))
      → Fine r
      → Sent (next_round crc32c sh buf_len now to_send loop r)
  next-Sent loop none more g = absurd g
  next-Sent loop (some (again s)) more g = more s g
  next-Sent loop (some (ended s)) more g = g

  pub build_batch-Sent :
      (fuel : ℕ) (s : Pacer) → Keep s → Sent (build_batch crc32c sh buf_len now to_send fuel s)
  unfolding build_batch
  build_batch-Sent zero s k = tt
  build_batch-Sent (suc fuel) s k = elim (Bool-cases (ltb s.built to_send)) [
    | inr e ↦ rw e k
    | inl e ↦ rw e (
        next-Sent (build_batch crc32c sh buf_len now to_send fuel)
          (round crc32c sh buf_len now to_send s (pop_retransmit s.send.rex))
          (λ s k. build_batch-Sent fuel s k) (round-Fine s k))
  ]

  pub both :
      (b : Batched)
      → Ends to_send b
      → Sent b
      → (s : Pacer) × (b ≡ batched s) × IsBatch to_send s × Keep s
  both exhausted e k = absurd e
  both panicked e k = absurd k
  both (batched s) e k = (s, refl, e, k)
