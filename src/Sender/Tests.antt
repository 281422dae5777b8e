-- ===== src/Sender/Tests.antt =====
-- src/sender.rs at concrete inputs: a file of 5 bytes in blocks of 4, sealed by a cipher that changes
-- nothing.
use girth.Prelude.{ℕ, ◌≡◌, refl, subst, true, false, List, [], ◌∷◌, none, some, arith, replicate}
use girth.Prelude.Int.{pos}
use girth.Protocol.Feedback.{FeedbackHeader, NackEntry, decode_feedback}
use girth.Protocol.Blocks.{num_blocks}
use girth.Crypto.Payload.{Aead, IsAead}
use girth.Crypto.Tests.{plain_box, plain_box-IsAead}
use girth.Io.Memory.{mem_source, mem_source-Holds}
use girth.Rate.{fixed}
use girth.Sender.Pdu.{SendShared}
use girth.Sender.Pdu.Wire.{IsSender}
use girth.Sender.Queue.{queue, empty, IsQueue}
use girth.Sender.Control.{SendPeer, SendState, handle_feedback}
use girth.Sender.Control.Laws.{Follows, handle_feedback-Follows}

abbrev five : List ℕ
five = 7 ∷ 8 ∷ 9 ∷ 1 ∷ 2 ∷ []

abbrev shared : SendShared
shared = record {
  source = mem_source five;
  file_size = 5;
  block_size = 4;
  total_blocks = 2;
  session = 42;
  crypto = some plain_box;
}

two_blocks : 2 ≡ num_blocks (pos 5) 4
unfolding num_blocks
two_blocks = refl

some_lem : (c : Aead) → some plain_box ≡ some c → plain_box ≡ c
some_lem c e = cc

shared-IsSender : IsSender shared five
shared-IsSender = record {
  holds = mem_source-Holds five (omega arith);
  size_same = refl;
  size_i64 = omega arith;
  block_pos = omega arith;
  block_u16 = omega arith;
  blocks = two_blocks;
  cipher = λ c e. subst IsAead (some_lem c e) plain_box-IsAead;
}

abbrev crc : List ℕ → ℕ
crc b = 77

abbrev buffer : List ℕ
buffer = replicate {A = ℕ} 60 0

abbrev two_nacks : List NackEntry
two_nacks =
    record { block_seq = 9; rex_index = pos 9 } ∷ record { block_seq = 3; rex_index = pos 3 } ∷ []

empty-IsQueue : IsQueue empty
empty-IsQueue = record { order = tt; same = λ j. refl }

two-IsQueue : IsQueue (queue (3 ∷ 9 ∷ []) (3 ∷ 9 ∷ []))
two-IsQueue = record { order = ((λ j h. ground arith), ((λ j h. cc), tt)); same = λ j. refl }

abbrev peer : SendPeer
peer = record { session = 42; rate_mode = fixed; configured_target_bps = 5000000; control = none }

abbrev state : SendState
state = record {
  target_bps = 5000000;
  done = false;
  rex = empty;
  tick = record { pending = false; val = 0; is_net = false; t2 = 0 };
  nacks_recv = 0;
  rex_queue_len = 0;
  shown_rate_bps = 0;
  hi_contig = 0;
}

-- A report of session 42 with one NACK, for block 3, at a target of 1 bit/s.
abbrev datagram : List ℕ
datagram =
    2 ∷ 0 ∷ 1 ∷ 0 ∷ 42 ∷ 0 ∷ 0 ∷ 0 ∷ 100 ∷ 0 ∷ 0 ∷ 0 ∷ 0 ∷ 0 ∷ 0 ∷ 0 ∷ 1 ∷ 0 ∷ 0 ∷ 0 ∷ 0 ∷ 0 ∷ 0 ∷ 0
    ∷ 2 ∷ 0 ∷ 0 ∷ 0 ∷ 0 ∷ 0 ∷ 0 ∷ 0 ∷ 1 ∷ 0 ∷ 0 ∷ 0 ∷ 3 ∷ 0 ∷ 0 ∷ 0 ∷ 0 ∷ 0 ∷ 0 ∷ 0 ∷ 3 ∷ 0 ∷ 0 ∷ 0
    ∷ 0 ∷ 0 ∷ 0 ∷ 0 ∷ []

abbrev report : FeedbackHeader
report = record {
  tick_is_network = false;
  nack_count = 1;
  session = 42;
  tick = 100;
  target_rate = 1;
  hi_contig = 2;
  done = true;
}

abbrev one_nack : List NackEntry
one_nack = record { block_seq = 3; rex_index = pos 3 } ∷ []

decoded : decode_feedback datagram ≡ some (report, one_nack)
unfolding decode_feedback
decoded = refl

handle_feedback-Follows_example :
    Follows peer 555 report one_nack state (handle_feedback peer 555 datagram state)
handle_feedback-Follows_example =
    handle_feedback-Follows peer 555 datagram report one_nack state decoded refl empty-IsQueue
