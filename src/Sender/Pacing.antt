-- ===== src/Sender/Pacing.antt =====
-- src/sender.rs: `pacing_loop`, the size of a batch and how a batch is built. Batches of `BatchSender`
-- are lists of datagrams, and a send that fails is as a lost datagram.
pub mod Bounds
pub mod Carries
mod Tests
use girth.Prelude.{
  ℕ, zero, suc, ◌+◌, ◌*◌, ◌/◌, ◌^◌, Bool, true, false, ◌||◌, List, [], ◌∷◌, ◌++◌, Option, none,
  some, ◌>>=◌, ltb, ◌==◌, max, if◌then◌else◌, length, get_or, replicate, take,
}
use girth.Shared.Float.{Float}
use girth.Protocol.Data.{data_header_size}
use girth.Runtime.{TransferControl, effective_rate}
use girth.Sender.Pdu.{SendShared, Built, panics, skipped, pdu, fill_retransmit}
use girth.Sender.Queue.{RexQueue, pop_retransmit, rex_len}
use girth.Sender.Control.{SendState, TickState, attach_tick, send_fin}

abbrev pub max_batch : ℕ
max_batch = 64

-- What `recompute` sets.
pub record Pace (f : Float) : Type 0 where
  pub cur_rate : ℕ
  pub ipd_us : f.F64
  pub batch : f.F64

module _ (f : Float) where
  open f use {F64, lit, from_u64, to_u64, add, mul, div, lt}

  -- The quotient is positive, where `as i64` and `as u64` agree up to the cap.
  abbrev capped : F64 → F64
  capped b = if lt (from_u64 max_batch) b then from_u64 max_batch else b

  unfoldable pub recompute : ℕ → ℕ → Pace f
  recompute block_size target =
      let rate = max target 1 in
      let block_bits = mul (from_u64 (block_size + data_header_size)) (lit 8 1) in
      let ipd = mul (div block_bits (from_u64 rate)) (lit 1000000 1) in
      let batch = capped (add (from_u64 (to_u64 (div (lit 5000 1) ipd))) (lit 1 1)) in
      if lt ipd (lit 5000 1)
      then record {
        cur_rate = rate;
        ipd_us = mul (div (mul block_bits batch) (from_u64 rate)) (lit 1000000 1);
        batch = batch;
      }
      else record { cur_rate = rate; ipd_us = ipd; batch = lit 1 1 }

-- What a turn of the loop does before it builds a batch: it returns, or waits, or goes on at a rate.
pub data Turn : Type 0 where
  finished stopped waits : Turn
  sends : ℕ → Turn

abbrev pub is_cancelled : Option TransferControl → Bool
is_cancelled none = false
is_cancelled (some c) = c.cancelled

abbrev pub is_paused : Option TransferControl → Bool
is_paused none = false
is_paused (some c) = c.paused

unfoldable pub turn : Bool → Option TransferControl → SendState → Turn
unfolding effective_rate
turn stop control s =
    if s.done
    then finished
    else (if stop || is_cancelled control
        then stopped
        else (if is_paused control then waits else sends (effective_rate control s.target_bps)))

-- The deadline behind a batch: the next one, or the present where the loop fell too far behind.
unfoldable pub next_deadline : (f : Float) → f.F64 → f.F64 → f.F64 → f.F64
next_deadline f deadline ipd_us now =
    let next = f.add deadline ipd_us in
    if f.lt now next
    then next
    else (if f.lt (f.mul (f.lit 100 1) ipd_us) (f.sub now next) then now else next)

-- The variables of the loop that a batch changes: the shared state, the channel of prefetched blocks
-- and whether its producer is gone, the scratch buffers, and the batch with its counts.
pub record Pacer : Type 0 where
  pub send : SendState
  pub ready : List (List ℕ × ℕ)
  pub closed : Bool
  pub new_done : Bool
  pub scratch : List (List ℕ)
  pub pkts : List (List ℕ)
  pub rex_n : ℕ
  pub new_n : ℕ
  pub bytes : ℕ
  pub built : ℕ

-- `bs.reset()` and the counts at zero.
abbrev pub reset : Pacer → Pacer
reset s = record s { pkts = []; rex_n = 0; new_n = 0; bytes = 0; built = 0 }

-- A round of the loop that builds a batch: the next one, or its end. `none` is a panic.
pub data Round : Type 0 where
  again : Pacer → Round
  ended : Pacer → Round

-- What the loop gives: its fuel did not reach, a panic, or the batch.
pub data Batched : Type 0 where
  exhausted : Batched
  panicked : Batched
  batched : Pacer → Batched

abbrev pub with_rex : Pacer → RexQueue → Pacer
with_rex s q = record s { send = record s.send { rex = q } }

module _ (crc32c : List ℕ → ℕ) (sh : SendShared) (buf_len now to_send : ℕ) where
  abbrev pub with_scratch : Pacer → Pacer
  with_scratch s = record s {
    scratch =
        if s.rex_n == length s.scratch then s.scratch ++ (replicate buf_len 0 ∷ []) else s.scratch;
  }

  -- A datagram with the tick attached joins the batch.
  abbrev pub add_rex : Pacer → ℕ → Option (List ℕ × TickState) → Option Round
  add_rex s n none = none
  add_rex s n (some (buf, tick)) = some (
      again (record s {
        send = record s.send { tick = tick };
        pkts = s.pkts ++ (take n buf ∷ []);
        rex_n = s.rex_n + 1;
        bytes = s.bytes + n;
        built = s.built + 1;
      }))

  abbrev pub add_new : Pacer → ℕ → List (List ℕ × ℕ) → Option (List ℕ × TickState) → Option Round
  add_new s n rest none = none
  add_new s n rest (some (buf, tick)) = some (
      again (record s {
        send = record s.send { tick = tick };
        ready = rest;
        pkts = s.pkts ++ (take n buf ∷ []);
        new_n = s.new_n + 1;
        bytes = s.bytes + n;
        built = s.built + 1;
      }))

  -- A retransmission: the block leaves the queue, and a block that gives no PDU is passed over.
  abbrev pub retransmit : Pacer → Built → Option Round
  retransmit s panics = none
  retransmit s skipped = some (again s)
  retransmit s (pdu buf n) = add_rex s n (attach_tick now s.send.tick buf)

  -- With no new block at hand, the producer is gone, or the batch goes out as it is.
  abbrev pub idle : Pacer → Bool → Round
  idle s true = again (record s { new_done = true })
  idle s false = again (record s { built = to_send })

  -- A new block, behind all retransmissions.
  abbrev pub inject : Pacer → Bool → List (List ℕ × ℕ) → Option Round
  inject s true ready = some (ended s)
  inject s false ((buf, n) ∷ rest) = add_new s n rest (attach_tick now s.send.tick buf)
  inject s false [] = some (idle s s.closed)

  abbrev pub round : Pacer → Option (ℕ × RexQueue) → Option Round
  round s none = inject s s.new_done s.ready
  round s (some (seq, q)) =
      let s' = with_scratch (with_rex s q) in
      retransmit s' (fill_retransmit crc32c sh (get_or s'.scratch s.rex_n []) seq)

  abbrev pub next_round : (Pacer → Batched) → Option Round → Batched
  next_round loop none = panicked
  next_round loop (some (again s)) = loop s
  next_round loop (some (ended s)) = batched s

  -- The loop, on fuel.
  unfoldable pub build_batch : ℕ → Pacer → Batched
  unfolding pop_retransmit fill_retransmit attach_tick
  build_batch zero s = exhausted
  build_batch (suc fuel) s =
      let rest = next_round (build_batch fuel) (round s (pop_retransmit s.send.rex)) in
      if ltb s.built to_send then rest else batched s

  -- What goes out behind a batch: the FIN once every new block is injected and nothing is queued.
  unfoldable pub finish_batch : Pacer → Option (List ℕ)
  unfolding rex_len send_fin
  finish_batch s =
      if s.new_done
      then (if rex_len s.send.rex == 0 then send_fin sh.session sh.total_blocks else none)
      else none
