-- ===== src/Receiver/Tests.antt =====
-- src/receiver.rs at concrete inputs: a file of 5 bytes in blocks of 4, in a memory sink.
use girth.Prelude.{
  ℕ, ◌*◌, ◌^◌, ◌<◌, ◌≡◌, ◌⊎◌, refl, sym, subst, ◌∙◌, true, false, List, [], ◌∷◌, ◌++◌, none, some,
  arith, drop, length-take,
}
use girth.Prelude.Int.{pos}
use girth.Shared.Float.{whole}
use girth.Protocol.Blocks.{num_blocks}
use girth.Protocol.Data.{DataHeader, header_bytes}
use girth.Crypto.Payload.{Aead, IsAead}
use girth.Crypto.Tests.{plain_box, plain_box-IsAead}
use girth.Io.Memory.{MemSink, mem_sink, mem_source, mem_source-Holds, write_all_at-total}
use girth.LossTracker.Bitmap
use girth.LossTracker.Bitmap.{RecvBitmap, has, Covers}
use girth.LossTracker.Bitmap.Laws.{has-new}
use girth.Rate.{new_estimator, fixed}
use girth.Sender.Pdu.{SendShared}
use girth.Sender.Pdu.Wire.{block, on_wire, IsSender}
use girth.Sender.Pdu.Layout.{IsDataPdu}
use girth.Receiver.{RecvShared, RecvStats, Receiver}
use girth.Receiver.Accept.{Accepts, IsDataPdu-Accepts}
use girth.Receiver.Ingest.{store}
use girth.Receiver.Setup.{RecvConfig, with_defaults}
use girth.Receiver.Flusher.{flush_one}
use girth.Receiver.Delivery.Steps.{Delivers, Refused, store-Delivers, Flushes, flush_one-Flushes}

abbrev pub file : List ℕ
file = 7 ∷ 8 ∷ 9 ∷ 1 ∷ 2 ∷ []

abbrev pub shared : RecvShared
shared = record {
  file_size = 5;
  block_size = 4;
  total_blocks = 2;
  session = 42;
  expected_peer_ip = none;
  crypto = some plain_box;
  feedback_interval_us = 5000;
  net_tick_interval_us = 10000;
  max_nacks_per_pdu = 90;
}

abbrev pub sender : SendShared
sender = record {
  source = mem_source file;
  file_size = 5;
  block_size = 4;
  total_blocks = 2;
  session = 42;
  crypto = some plain_box;
}

pub two_blocks : 2 ≡ num_blocks (pos 5) 4
unfolding num_blocks
two_blocks = refl

only_box : (c : Aead) → some plain_box ≡ some c → plain_box ≡ c
only_box c e = cc

pub sender-IsSender : IsSender sender file
sender-IsSender = record {
  holds = mem_source-Holds file (omega arith);
  size_same = refl;
  size_i64 = omega arith;
  block_pos = omega arith;
  block_u16 = omega arith;
  blocks = two_blocks;
  cipher = λ c e. subst IsAead (only_box c e) plain_box-IsAead;
}

abbrev last_header : DataHeader
last_header = record {
  flags = 8;
  payload_len = 1;
  session = 42;
  block_seq = 1;
  echo_tick = 0;
  rex_index = pos 0;
  payload_crc = 0;
}

abbrev pub last_pdu : List ℕ
last_pdu = header_bytes last_header ++ on_wire (some plain_box) 1 (block 4 file 1)

abbrev pub crc : List ℕ → ℕ
crc b = 77

pub last_pdu-IsDataPdu : IsDataPdu crc sender file 1 last_pdu
last_pdu-IsDataPdu = record {
  head = last_header;
  head_ok = record {
    flags_u8 = omega arith;
    payload_len_u16 = omega arith;
    session_u32 = omega arith;
    block_seq_u64 = omega arith;
    echo_tick_u64 = omega arith;
    rex_index_i64 = omega arith;
    payload_crc_u32 = omega arith;
  };
  session_same = refl;
  seq_same = refl;
  len_same = refl;
  crc_same = λ e. cc;
  layout = refl;
}

IsDataPdu-Accepts_example : Accepts crc shared none last_pdu 1 (2 ∷ [])
IsDataPdu-Accepts_example =
    IsDataPdu-Accepts crc sender shared file 1 last_pdu none sender-IsSender
      (record { session_same = refl; total_same = refl; block_same = refl; crypto_same = refl })
      (omega arith) refl last_pdu-IsDataPdu

abbrev no_stats : RecvStats
no_stats = record {
  corrupt_recv = 0;
  dup_recv = 0;
  payload_recv = 0;
  blocks_written = 0;
  nacks_sent = 0;
  hi_contig = 0;
  rex_queue_len = 0;
  target_rate_bps = 0;
  srtt_net_us = 0;
  base_rtt_us = 0;
  srtt_path_us = 0;
  rto_us = 0;
}

-- Block 1 is marked, and neither staged nor written.
abbrev pub arrived : Receiver whole MemSink
arrived = record {
  bm = record { words = 2 ∷ []; total = 2 };
  ready_bm = record { words = 0 ∷ []; total = 2 };
  max_seen = 1;
  seen_any = true;
  all_sent = false;
  flushed_blocks = 0;
  done = false;
  peer = none;
  rtt = record {
    path = new_estimator whole;
    net = new_estimator whole;
    rate = record {
      cfg = record { mode = fixed; target_bps = 5; min_bps = 1; max_bps = 9; alpha = 1 };
      rate = 5;
    };
  };
  stage = [];
  free = 1;
  sink = [];
  stats = no_stats;
}

nothing_ready : (j : ℕ) → has (record { words = 0 ∷ []; total = 2 }) j ≡ false
nothing_ready j = unfold Bitmap.new in has-new 2 j

pub arrived-Delivers : Delivers mem_sink shared file arrived
arrived-Delivers = record {
  covers = omega arith;
  flushed_le = omega arith;
  ready_seen = λ j e. cc (nothing_ready j);
  flushed_ready = λ j h. absurd (omega arith);
  on_disk = λ j h. absurd (omega arith);
  kept = λ j e. absurd (no (sym (nothing_ready j) ∙ e));
  right = λ j b e. cc;
}
  where
    no : false ≡ true → ⊥
    no e = cc

pub small : (j : ℕ) → j < 2 → j * 4 < 2 ^ 64
small j h = omega arith

one_marked : has (record { words = 2 ∷ []; total = 2 }) 1 ≡ true
unfolding has
one_marked = refl

store-Delivers_example :
    (r' : Receiver whole MemSink) × (store whole mem_sink shared 1 (block 4 file 1) arrived
      ≡ some r')
    × Delivers mem_sink shared file r'
    × ((has r'.ready_bm 1 ≡ true) ⊎ Refused whole mem_sink shared file small 1 arrived r')
    × (r'.bm ≡ arrived.bm)
    × (r'.peer ≡ arrived.peer)
store-Delivers_example =
    store-Delivers whole mem_sink shared file small 1 arrived (omega arith) one_marked
      (nothing_ready 1) arrived-Delivers

pub takes :
    (s : MemSink) (j : ℕ)
    → j < 2
    → (s' : MemSink) × (mem_sink.write_all_at s (j * 4) (block 4 file j) ≡ (true, s'))
unfolding mem_sink
takes s j h =
    let (s', w) =
      write_all_at-total s (j * 4) (block 4 file j)
        (omega (arith, length-take 4 (drop (j * 4) file))) in
    (s', rw w refl)

flush_one-Flushes_example :
    (r' : Receiver whole MemSink) × (flush_one whole mem_sink shared arrived ≡ some r')
    × Flushes whole mem_sink shared file small arrived r'
flush_one-Flushes_example =
    flush_one-Flushes whole mem_sink shared file small arrived takes arrived-Delivers

-- Block 0 arrives with a tick, after block 1.
abbrev first_header : DataHeader
first_header = record last_header { flags = 4; payload_len = 4; block_seq = 0; echo_tick = 100 }

abbrev pub first_pdu : List ℕ
first_pdu = header_bytes first_header ++ on_wire (some plain_box) 0 (block 4 file 0)

pub first_pdu-IsDataPdu : IsDataPdu crc sender file 0 first_pdu
first_pdu-IsDataPdu = record {
  head = first_header;
  head_ok = record {
    flags_u8 = omega arith;
    payload_len_u16 = omega arith;
    session_u32 = omega arith;
    block_seq_u64 = omega arith;
    echo_tick_u64 = omega arith;
    rex_index_i64 = omega arith;
    payload_crc_u32 = omega arith;
  };
  session_same = refl;
  seq_same = refl;
  len_same = refl;
  crc_same = λ e. cc;
  layout = refl;
}

abbrev pub config : RecvConfig whole
config = record {
  shared = shared;
  rate = record { mode = fixed; target_bps = 5; min_bps = 1; max_bps = 9; alpha = 1 };
  control = none;
  warm_start = none;
  start_peer = none;
}

pub defaults_lem : with_defaults whole shared ≡ shared
unfolding with_defaults
defaults_lem = refl
