-- ===== src/Protocol/Tests.antt =====
-- The codecs and the number of blocks of src/protocol.rs at concrete inputs.
use girth.Prelude.{
  ℕ, ◌+◌, ◌*◌, ◌≡◌, refl, true, false, List, [], ◌∷◌, some, none, arith, length, take, drop,
  replicate,
}
use girth.Prelude.Int.{pos, negsuc}
use girth.Protocol.Data.{
  DataHeader, encode_data_header, decode_data_header, decode-encode_data_header,
}
use girth.Protocol.Feedback.{FeedbackHeader, NackEntry, encode_feedback, decode_feedback}
use girth.Protocol.Feedback.RoundTrip.{decode-encode_feedback}
use girth.Protocol.Marks.{decode_start}
use girth.Protocol.Blocks.{num_blocks}

abbrev buffer : List ℕ
buffer = replicate {A = ℕ} 70 9

abbrev last_header : DataHeader
last_header = record {
  flags = 9;
  payload_len = 1400;
  session = 0xdeadbeef;
  block_seq = 77;
  echo_tick = 123456789;
  rex_index = negsuc 4;
  payload_crc = 0xffffffff;
}

decode-encode_data_header_example :
    (out : List ℕ) × (encode_data_header buffer last_header ≡ some out)
    × (decode_data_header out ≡ some last_header)
    × (drop 36 out ≡ drop 36 buffer)
decode-encode_data_header_example =
    decode-encode_data_header buffer last_header (omega arith) (omega arith)

abbrev report : FeedbackHeader
report = record {
  tick_is_network = true;
  nack_count = 0;
  session = 7;
  tick = 1000;
  target_rate = 100000000;
  hi_contig = 3;
  done = false;
}

abbrev two_nacks : List NackEntry
two_nacks =
    record { block_seq = 3; rex_index = pos 3 }
    ∷ record { block_seq = 8; rex_index = negsuc 0 }
    ∷ []

decode-encode_feedback_example :
    (out : List ℕ) × (n : ℕ) × (encode_feedback buffer report two_nacks ≡ some (out, n))
    × (n ≡ 36 + 16 * length two_nacks)
    × (decode_feedback (take n out) ≡ some (record report { nack_count = 2 }, two_nacks))
decode-encode_feedback_example =
    decode-encode_feedback buffer report two_nacks (omega arith) (omega arith) (omega arith)
      (omega arith)

-- A datagram of another type is no START.
fin_is_no_start : decode_start (4 ∷ 0 ∷ 0 ∷ 0 ∷ 42 ∷ 0 ∷ 0 ∷ 0 ∷ []) ≡ none
unfolding decode_start
fin_is_no_start = refl

three_blocks : num_blocks (pos 3000) 1400 ≡ 3
unfolding num_blocks
three_blocks = refl
