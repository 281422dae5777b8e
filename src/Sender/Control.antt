-- ===== src/Sender/Control.antt =====
-- src/sender.rs: the sender's state, `feedback_loop`, `attach_tick`, `send_fin`, and what `Sender::new`
-- and `wait_for_peer` compute. The threads share the state; each function here runs to its end.
pub mod Laws
pub mod Tick
use Prim.Native.Nat.{bit_and, bit_or}
use girth.Prelude.{
  ℕ, ◌+◌, ◌-◌, ◌*◌, ◌%◌, ◌^◌, Bool, true, false, not, ◌&&◌, ◌||◌, List, [], ◌∷◌, Option, none, some,
  ◌>>=◌, ltb, ◌==◌, min, if◌then◌else◌, length, get_elem?, set, replicate, take,
}
use girth.Protocol.Bytes.{put}
use girth.Protocol.Data.{flag_has_tick, flag_tick_n, put_echo_tick}
use girth.Protocol.Feedback.{FeedbackHeader, NackEntry, decode_feedback, pdu_feedback}
use girth.Protocol.Marks.{pdu_type, encode_fin, decode_start}
use girth.Rate.{RateMode, fixed, adaptive, is_fixed, RateWarmStart}
use girth.Runtime.{TransferControl, effective_rate}
use girth.Sender.Queue.{RexQueue, push_retransmits}

pub record TickState : Type 0 where
  pub pending : Bool
  pub val : ℕ
  pub is_net : Bool
  pub t2 : ℕ

-- The fields of `Shared` that change, with the counters of `Stats` that the feedback thread writes.
pub record SendState : Type 0 where
  pub target_bps : ℕ
  pub done : Bool
  pub rex : RexQueue
  pub tick : TickState
  pub nacks_recv : ℕ
  pub rex_queue_len : ℕ
  pub shown_rate_bps : ℕ
  pub hi_contig : ℕ

-- What the feedback thread reads besides.
pub record SendPeer : Type 0 where
  pub session : ℕ
  pub rate_mode : RateMode
  pub configured_target_bps : ℕ
  pub control : Option TransferControl

-- The rate that `Sender::new` starts at.
unfoldable pub initial_rate : RateMode → ℕ → ℕ → Option RateWarmStart → ℕ
initial_rate mode target max_bps warm =
    let init = if target == 0 then max_bps else target in
    let cap = if max_bps == 0 then 2 ^ 64 - 1 else max_bps in
    if is_fixed mode
    then init
    else elim warm [ none ↦ init | some w ↦ if w.rate_bps == 0 then init else min w.rate_bps cap ]

-- `push_retransmits` where there are NACKs, with the statistics.
unfoldable pub queue_nacks : List NackEntry → SendState → SendState
unfolding push_retransmits
queue_nacks [] s = s
queue_nacks (n ∷ ns) s =
    let q = push_retransmits s.rex (n ∷ ns) in
    record s { nacks_recv = s.nacks_recv + length (n ∷ ns); rex = q; rex_queue_len = length q.set }

-- The receiver's target: taken in the adaptive mode, and in the fixed one never above the sender's own.
unfoldable pub adopt_rate : SendPeer → ℕ → SendState → SendState
unfolding effective_rate
adopt_rate p rate s =
    let target = if is_fixed p.rate_mode then min rate p.configured_target_bps else rate in
    if rate == 0
    then s
    else record s { target_bps = target; shown_rate_bps = effective_rate p.control target }

-- A datagram from the peer, read at time `t2` into `pkt`.
unfoldable pub handle_report : SendPeer → ℕ → List ℕ → SendState → SendState
unfolding queue_nacks adopt_rate
handle_report p t2 pkt s = elim (decode_feedback pkt) [
  | none ↦ s
  | some (fh, nacks) ↦
      let ticked = record s {
        tick = record { pending = true; val = fh.tick; is_net = fh.tick_is_network; t2 = t2 };
      } in
      let rated = adopt_rate p fh.target_rate (queue_nacks nacks ticked) in
      if not (pdu_type pkt == pdu_feedback) || not (fh.session == p.session)
      then s
      else record rated { hi_contig = fh.hi_contig; done = rated.done || fh.done }
]

-- A datagram from the peer: the buffer takes 2048 bytes of it.
unfoldable pub handle_feedback : SendPeer → ℕ → List ℕ → SendState → SendState
unfolding handle_report
handle_feedback p t2 datagram s = handle_report p t2 (take 2048 datagram) s

-- The flags of a PDU that carries a tick back; `!FLAG_TICK_N` of a byte is 253.
unfoldable pub tick_flags : Bool → ℕ → ℕ
tick_flags is_net flags =
    if is_net
    then bit_or (bit_or flags flag_has_tick) flag_tick_n
    else bit_and (bit_or flags flag_has_tick) 253

-- `attach_tick` at time `now`: the tick taken, and the buffer stamped; `none` is a buffer too short.
unfoldable pub attach_tick : ℕ → TickState → List ℕ → Option (List ℕ × TickState)
unfolding tick_flags
attach_tick now t buf =
    let echo = if t.is_net then (t.val + (now + 2 ^ 64 - t.t2) % 2 ^ 64) % 2 ^ 64 else t.val in
    let stamped = (do
      flags ← get_elem? buf 1
      buf ← put 1 (tick_flags t.is_net flags ∷ []) buf
      buf ← put_echo_tick buf echo
      some (buf, record t { pending = false })) in
    if t.pending then stamped else some (buf, t)

-- The datagram of `send_fin`.
unfoldable pub send_fin : ℕ → ℕ → Option (List ℕ)
send_fin session total_blocks = do
  (buf, n) ← encode_fin (replicate {A = ℕ} 16 0) session total_blocks
  some (take n buf)

-- Whether `wait_for_peer` takes the sender of a datagram for the peer; addresses are compared as
-- numbers.
unfoldable pub is_start : ℕ → Option ℕ → ℕ → List ℕ → Bool
is_start session expected_ip ip pkt =
    let foreign = elim expected_ip as (λ _. Bool) [ none ↦ false | some e ↦ not (ip == e) ] in
    let right = elim (decode_start pkt) as (λ _. Bool) [ none ↦ false | some s ↦ s == session ] in
    not foreign && right
