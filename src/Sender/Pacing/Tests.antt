-- ===== src/Sender/Pacing/Tests.antt =====
-- A batch of the pacing loop (src/sender.rs) at a concrete state: one block queued for retransmission and one
-- prefetched, with the producer gone.
use girth.Prelude.{ℕ, ◌≡◌, refl, true, false, List, [], ◌∷◌, none, length, replicate, map}
use girth.Io.Memory.{mem_source}
use girth.Sender.Pdu.{SendShared}
use girth.Sender.Control.{SendState}
use girth.Sender.Pacing.{Pacer, Batched, exhausted, panicked, batched, build_batch, reset}

abbrev shared : SendShared
unfolding mem_source
shared = record {
  source = mem_source (7 ∷ 8 ∷ 9 ∷ 1 ∷ 2 ∷ []);
  file_size = 5;
  block_size = 4;
  total_blocks = 2;
  session = 42;
  crypto = none;
}

abbrev crc : List ℕ → ℕ
crc b = 77

abbrev state : SendState
state = record {
  target_bps = 1000;
  done = false;
  rex = record { heap = 1 ∷ []; set = 1 ∷ [] };
  tick = record { pending = false; val = 0; is_net = false; t2 = 0 };
  nacks_recv = 1;
  rex_queue_len = 1;
  shown_rate_bps = 1000;
  hi_contig = 0;
}

abbrev pacer : Pacer
pacer = record {
  send = state;
  ready = (replicate {A = ℕ} 40 0, 40) ∷ [];
  closed = true;
  new_done = false;
  scratch = [];
  pkts = [];
  rex_n = 0;
  new_n = 0;
  bytes = 0;
  built = 0;
}

-- The sizes of the datagrams of a batch.
sizes : Batched → List ℕ
sizes exhausted = []
sizes panicked = []
sizes (batched s) = map length s.pkts

retransmission_first : sizes (build_batch crc shared 60 0 8 11 (reset pacer)) ≡ 37 ∷ 40 ∷ []
unfolding sizes build_batch shared girth.Protocol.Data.encode_data_header
retransmission_first = refl
