-- ===== src/Sender/Pdu.antt =====
-- src/sender.rs: how a block becomes a DATA PDU, in `prefetch` (first transmission) and in
-- `fill_retransmit`. Integers wrap as in a release build.
pub mod Wire
pub mod Layout
pub mod Build
use Prim.Native.Nat.{bit_or}
use girth.Prelude.{
  ℕ, ◌+◌, ◌-◌, ◌*◌, ◌%◌, ◌^◌, Bool, true, false, ◌||◌, List, Option, none, some, ◌>>=◌, ltb, leb,
  ◌==◌, if◌then◌else◌, length, is_some,
}
use girth.Prelude.Int.{ℤ, pos, negsuc, as_u64, as_i64}
use girth.Protocol.Bytes.{put, slice}
use girth.Protocol.Data.{
  DataHeader, data_header_size, encode_data_header, flag_retransmit, flag_last_block,
}
use girth.Crypto.Payload.{Aead, seal_data}
use girth.Io.{BlockSource}

-- The fields of `Shared` that building a PDU reads. `file_size` is an `i64` that is not negative.
pub record SendShared : Type 0 where
  pub source : BlockSource
  pub file_size : ℕ
  pub block_size : ℕ
  pub total_blocks : ℕ
  pub session : ℕ
  pub crypto : Option Aead

-- What becomes of a block: a panic, no PDU (the source's error, or a block outside the file), or the
-- buffer with the length of the PDU in it.
pub data Built : Type 0 where
  panics : Built
  skipped : Built
  pdu : List ℕ → ℕ → Built

abbrev built : Option (List ℕ × ℕ) → Built
built none = panics
built (some (buf, size)) = pdu buf size

abbrev pub is_less : ℤ → ℕ → Bool
is_less (pos r) n = ltb r n
is_less (negsuc r) n = true

module _ (sh : SendShared) where
  abbrev pub offset : ℕ → ℕ
  offset seq = seq * sh.block_size % 2 ^ 64

  -- `sh.file_size - off as i64`, as the 64 bits of the difference.
  abbrev pub rem_bits : ℕ → ℕ
  rem_bits seq = (sh.file_size + 2 ^ 64 - offset seq) % 2 ^ 64

  -- `plen`: the block size, or `rem as usize` where `rem` is less.
  abbrev pub payload_len : ℕ → ℕ
  payload_len seq =
      if is_less (as_i64 (rem_bits seq)) sh.block_size then rem_bits seq else sh.block_size

  finish : List ℕ → ℕ → ℕ → Option (List ℕ × ℕ)
  finish buf plen seq = elim sh.crypto [
    | none ↦ some (buf, data_header_size + plen)
    | some c ↦ seal_data c buf data_header_size plen seq
  ]

module _ (crc32c : List ℕ → ℕ) (sh : SendShared) where
  header : List ℕ → ℕ → ℕ → ℕ → ℤ → DataHeader
  header buf plen seq flags rex_index = record {
    flags = if seq == sh.total_blocks - 1 then bit_or flags flag_last_block else flags;
    payload_len = plen % 2 ^ 16;
    session = sh.session;
    block_seq = seq;
    echo_tick = 0;
    rex_index = rex_index;
    payload_crc =
        if is_some sh.crypto
        then 0
        else crc32c (slice data_header_size (data_header_size + plen) buf);
  }

  pub write_pdu : List ℕ → ℕ → ℕ → ℤ → List ℕ → Option (List ℕ × ℕ)
  unfolding header finish
  write_pdu buf seq flags rex_index bytes = do
    buf ← put data_header_size bytes buf
    buf ← encode_data_header buf (header buf (payload_len sh seq) seq flags rex_index)
    finish sh buf (payload_len sh seq) seq

  -- The part that `prefetch` and `fill_retransmit` share: read, header with checksum, seal.
  build : List ℕ → ℕ → ℕ → ℤ → Built
  unfolding write_pdu
  build buf seq flags rex_index =
      if ltb (length buf) (data_header_size + payload_len sh seq)
      then panics
      else elim (sh.source.read_exact_at (offset sh seq) (payload_len sh seq)) [
        | none ↦ skipped
        | some bytes ↦ built (write_pdu buf seq flags rex_index bytes)
      ]

  -- The body of the loop of `prefetch`, with the borrowed buffer.
  unfoldable pub prefetch_block : List ℕ → ℕ → Built
  unfolding build
  prefetch_block buf seq = build buf seq 0 (pos 0)

  unfoldable pub fill_retransmit : List ℕ → ℕ → Built
  unfolding build
  fill_retransmit buf seq =
      if payload_len sh seq == 0 || is_less (as_i64 (rem_bits sh seq)) 1
      then skipped
      else build buf seq flag_retransmit (as_i64 seq)
