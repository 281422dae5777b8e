-- ===== src/Recovery/Tests.antt =====
-- A loss repaired, at concrete inputs: a file of 5 bytes in blocks of 4, of which the receiver has block 1
-- and asks for block 0.
use girth.Prelude.{
  ℕ, ◌+◌, ◌*◌, ◌^◌, ◌<◌, length-replicate, inr, ◌≤◌, ◌≡◌, ◌||◌, inl, refl, true, false, List, [],
  ◌∷◌, Option, some, none, ap, arith, length,
}
use girth.Prelude.Int.{pos}
use girth.Shared.Float.{whole}
use girth.Shared.Sets.{contains}
use girth.Protocol.Feedback.{FeedbackHeader, NackEntry, decode_feedback}
use girth.Io.Memory.{MemSink, mem_sink}
use girth.LossTracker.Bitmap.{has}
use girth.Rate.{fixed}
use girth.Sender.Queue.{empty, rex_len}
use girth.Sender.Control.{SendPeer, SendState, handle_feedback}
use girth.Sender.Pacing.{Pacer, batched, build_batch, reset}
use girth.Sender.Pacing.Bounds.{IsBatch}
use girth.Sender.Pacing.Carries.Batch.{IsPacer, CarriesQueue, build_batch-CarriesQueue}
use girth.Receiver.{SocketAddr, Receiver}
use girth.Receiver.Delivery.Arrival.{Waits, deliver, deliver-Waits}
use girth.Receiver.Tests.{
  file, shared, sender, sender-IsSender, last_pdu, last_pdu-IsDataPdu, crc, arrived,
  arrived-Delivers, small,
}
use girth.Runtime.{effective_rate}
use girth.Rate.{RateController, rto, update, new_estimator}
use girth.LossTracker.Scanner
use girth.LossTracker.Scanner.{request_time}
use girth.LossTracker.Scanner.Invariant.{Inv, new-Inv}
use girth.Receiver.Feedback.{Clock, new_loop}
use girth.Receiver.Feedback.Reports.{Reports, feedback_round-Reports}
use girth.Recovery.Round.{Recovers, round-Recovers}
use girth.Recovery.{Repairs, heard, report-Repairs}

abbrev peer : SendPeer
peer = record { session = 42; rate_mode = fixed; configured_target_bps = 5000000; control = none }

abbrev state : SendState
state = record {
  target_bps = 5000000;
  done = false;
  rex = empty;
  tick = record { pending = false; val = 0; is_net = false; t2 = 0 };
  nacks_recv = 0;
  rex_queue_len = 0;
  shown_rate_bps = 0;
  hi_contig = 0;
}

-- Block 1 is prefetched.
abbrev pacer : Pacer
pacer = record {
  send = state;
  ready = (last_pdu, length last_pdu) ∷ [];
  closed = true;
  new_done = false;
  scratch = [];
  pkts = [];
  rex_n = 0;
  new_n = 0;
  bytes = 0;
  built = 0;
}

pacer-IsPacer : IsPacer crc sender file 60 pacer
pacer-IsPacer = record {
  room = λ i h. absurd (omega arith);
  queue_valid = record { order = tt; same = λ j. refl };
  queue_blocks = λ j c. cc;
  tick_u64 = omega arith;
  prefetched = ((1, omega arith, last_pdu-IsDataPdu), tt);
}

build_batch-CarriesQueue_example :
    (s' : Pacer) × (build_batch crc sender 60 900 8 (0 + 8 + 2) (reset pacer) ≡ batched s')
    × IsBatch 8 s'
    × CarriesQueue crc sender file 60 8 pacer s'
build_batch-CarriesQueue_example =
    build_batch-CarriesQueue crc (λ b. omega arith) sender (omega arith) file sender-IsSender 60 900
      8 (omega arith) pacer pacer-IsPacer

abbrev address : SocketAddr
address = record { ip = 5; port = 7400 }

arrived-Waits : Waits whole mem_sink shared address file arrived
arrived-Waits = ((arrived-Delivers, omega arith), (refl, inl refl))

abbrev clock : ℕ → ℕ
clock n = 900 + n

-- Block 1 arrives twice.
deliver-Waits_example :
    (r' : Receiver whole MemSink) × (deliver whole mem_sink shared address crc clock
        (last_pdu ∷ last_pdu ∷ [])
        arrived
      ≡ some r')
    × Waits whole mem_sink shared address file r'
    × ((j : ℕ) → has r'.bm j ≡ (contains j (1 ∷ 1 ∷ []) || has arrived.bm j))
deliver-Waits_example =
    deliver-Waits whole mem_sink crc sender shared file sender-IsSender
      (record { session_same = refl; total_same = refl; block_same = refl; crypto_same = refl })
      small address clock (1 ∷ 1 ∷ []) (last_pdu ∷ last_pdu ∷ []) arrived
      (omega arith, last_pdu-IsDataPdu, (omega arith, last_pdu-IsDataPdu, tt)) arrived-Waits

-- A report of session 42 with one NACK, for block 0.
abbrev datagram : List ℕ
datagram =
    2 ∷ 0 ∷ 1 ∷ 0 ∷ 42 ∷ 0 ∷ 0 ∷ 0 ∷ 100 ∷ 0 ∷ 0 ∷ 0 ∷ 0 ∷ 0 ∷ 0 ∷ 0 ∷ 1 ∷ 0 ∷ 0 ∷ 0 ∷ 0 ∷ 0 ∷ 0 ∷ 0
    ∷ 0 ∷ 0 ∷ 0 ∷ 0 ∷ 0 ∷ 0 ∷ 0 ∷ 0 ∷ 0 ∷ 0 ∷ 0 ∷ 0 ∷ 0 ∷ 0 ∷ 0 ∷ 0 ∷ 0 ∷ 0 ∷ 0 ∷ 0 ∷ 0 ∷ 0 ∷ 0 ∷ 0
    ∷ 0 ∷ 0 ∷ 0 ∷ 0 ∷ []

abbrev told : FeedbackHeader
told = record {
  tick_is_network = false;
  nack_count = 1;
  session = 42;
  tick = 100;
  target_rate = 1;
  hi_contig = 0;
  done = false;
}

abbrev nacks : List NackEntry
nacks = record { block_seq = 0; rex_index = pos 0 } ∷ []

decoded : decode_feedback datagram ≡ some (told, nacks)
unfolding decode_feedback
decoded = refl

one_place : rex_len (heard peer 800 datagram pacer).send.rex ≤ 8
unfolding rex_len handle_feedback girth.Sender.Control.handle_report decode_feedback
    girth.Protocol.Marks.pdu_type
one_place = omega arith

report-Repairs_example :
    Repairs whole mem_sink crc sender shared file address 60 900 8 clock nacks
      (heard peer 800 datagram pacer)
      arrived
report-Repairs_example =
    report-Repairs whole mem_sink crc (λ b. omega arith) sender (omega arith) shared file
      sender-IsSender
      (record { session_same = refl; total_same = refl; block_same = refl; crypto_same = refl })
      small address 60 900 8 (omega arith) clock peer 800 datagram told nacks pacer arrived
      (omega arith) decoded refl (omega arith) (λ j a. ground arith) pacer-IsPacer one_place
      arrived-Waits

-- The receiver reports to the address that block 1 came from.
abbrev known : Receiver whole MemSink
known = record arrived { peer = some address }

known-Waits : Waits whole mem_sink shared address file known
known-Waits = ((arrived-Delivers, omega arith), (refl, inr refl))

abbrev times : Clock
times = record { now = 5000; cur_now = 5001; tick = 5002 }

new_loop-Inv : Inv known.bm (new_loop shared).scanner
unfolding new_loop
new_loop-Inv = new-Inv known.bm 2 (omega arith)

total_lem : (new_loop shared).scanner.total ≡ 2
unfolding new_loop Scanner.new
total_lem = refl

room_lem : 36 + 16 * 90 ≤ length (new_loop shared).buf
unfolding new_loop
room_lem = omega (arith, length-replicate {A = ℕ} 1476 0)

later : whole.lt 5000 (request_time whole 5000 (rto whole known.rtt.path)) ≡ true
unfolding rto new_estimator
later = refl

own_rate : Option (ℕ × RateController whole) → ℕ
own_rate none = 0
own_rate (some (own, c)) = own

rate_lem :
    (own : ℕ) (c : RateController whole)
    → update whole known.rtt.rate known.rtt.net.srtt known.rtt.net.min_rtt ≡ some (own, c)
    → effective_rate none own < 2 ^ 64
unfolding effective_rate update new_estimator own_rate
rate_lem own c q = omega (arith, ap own_rate q)

feedback_round-Reports_example :
    Reports whole shared none times true address (new_loop shared) known
feedback_round-Reports_example =
    feedback_round-Reports whole shared none times true address (new_loop shared) known refl
      (λ a b h e. ground arith) later new_loop-Inv total_lem (omega arith) (omega arith)
      (omega arith) (omega arith) (inl refl) rate_lem (omega arith) room_lem

round-Recovers_example :
    (q : Reports whole shared none times true address (new_loop shared) known) × Recovers whole
      mem_sink crc sender shared file address 60 900
      (rex_len (heard peer 800 q.asks.pkt pacer).send.rex + 3)
      clock
      peer
      800
      none
      times
      true
      (new_loop shared)
      pacer
      known
      q
round-Recovers_example =
    round-Recovers whole mem_sink crc (λ b. omega arith) sender (omega arith) shared file
      sender-IsSender
      (record { session_same = refl; total_same = refl; block_same = refl; crypto_same = refl })
      small address 60 900 (omega arith) clock 3 peer 800 none times true (new_loop shared) pacer
      known refl refl (λ a b h e. ground arith) later new_loop-Inv total_lem (omega arith)
      (omega arith) (omega arith) (inl refl) rate_lem (omega arith) room_lem pacer-IsPacer
      known-Waits
