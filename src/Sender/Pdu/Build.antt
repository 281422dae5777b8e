-- ===== src/Sender/Pdu/Build.antt =====
-- What `prefetch` and `fill_retransmit` build (src/sender.rs) is a DATA PDU of the block.
use Prim.Native.Nat.{bit_or}
use girth.Prelude.{
  ℕ, zero, suc, ◌+◌, ◌*◌, ◌%◌, ◌^◌, ◌≤◌, ◌<◌, ◌≡◌, refl, false, ◌||◌, List, ◌++◌, arith, ltb, ◌==◌,
  length, take, drop, le→ltb, length-take,
}
use girth.Prelude.Int.{ℤ, pos, as_i64, IsI64, as_i64-IsI64}
use girth.Protocol.Data.{DataHeader, header_bytes}
use girth.Sender.Pdu.{
  SendShared, pdu, payload_len, build, prefetch_block, fill_retransmit, is_less, rem_bits,
}
use girth.Sender.Pdu.Wire.{
  block, on_wire, IsSender, in_file, rem-pos, payload_len_lem, length-block, read_block,
}
use girth.Sender.Pdu.Layout.{overhead, IsDataPdu, wire_header, write_pdu_lem}

le-mul : (a b : ℕ) → 0 < b → a ≤ a * b
le-mul a zero h = absurd (omega arith)
le-mul a (suc b) h = omega arith

module _ (crc32c : List ℕ → ℕ) (crc_u32 : (b : List ℕ) → crc32c b < 2 ^ 32) (sh : SendShared)
    (session_u32 : sh.session < 2 ^ 32) (bytes : List ℕ) (v : IsSender sh bytes) where
  build-IsDataPdu :
      (buf : List ℕ) (seq flags : ℕ) (rex_index : ℤ)
      → seq < sh.total_blocks
      → 36 + sh.block_size + overhead sh ≤ length buf
      → flags < 256
      → bit_or flags 8 < 256
      → IsI64 rex_index
      → (out : List ℕ) × (n : ℕ) × (build crc32c sh buf seq flags rex_index ≡ pdu out n)
        × IsDataPdu crc32c sh bytes seq (take n out)
  unfolding build
  build-IsDataPdu buf seq flags rex_index h room f f8 x =
      let (out, n, run, cut) =
        write_pdu_lem crc32c sh buf plain seq flags rex_index v.cipher l
          (omega (arith, small, room)) in
      (out, n, rw (fits, read_block sh bytes v seq h, run) refl, data_pdu out n cut)
    where
      plain : List ℕ
      plain = block sh.block_size bytes seq

      l : length plain ≡ payload_len sh seq
      l = length-block sh bytes v seq h

      small : length plain ≤ sh.block_size
      small = omega (arith, length-take sh.block_size (drop (seq * sh.block_size) bytes))

      fits : ltb (length buf) (36 + payload_len sh seq) ≡ false
      fits = le→ltb (length buf) (36 + payload_len sh seq) (omega (arith, l, small, room))

      head : DataHeader
      head = wire_header crc32c sh plain seq flags rex_index

      len_same : length plain % 2 ^ 16 ≡ length plain
      len_same = omega (arith, small, v.block_u16)

      flags_u8 : head.flags < 256
      flags_u8 = ground (arith, f, f8)

      crc_ok : head.payload_crc < 2 ^ 32
      crc_ok = ground (arith, crc_u32 plain)

      seq_u64 : seq < 2 ^ 64
      seq_u64 =
          omega (arith, le-mul seq sh.block_size v.block_pos, in_file sh bytes v seq h, v.size_i64)

      data_pdu :
          (out : List ℕ) (n : ℕ)
          → take n out ≡ header_bytes head ++ on_wire sh.crypto seq plain
          → IsDataPdu crc32c sh bytes seq (take n out)
      data_pdu out n cut = record {
        head = head;
        head_ok = record {
          flags_u8 = flags_u8;
          payload_len_u16 = omega arith;
          session_u32 = session_u32;
          block_seq_u64 = seq_u64;
          echo_tick_u64 = omega arith;
          rex_index_i64 = x;
          payload_crc_u32 = crc_ok;
        };
        session_same = refl;
        seq_same = refl;
        len_same = len_same;
        crc_same = λ e. rw e refl;
        layout = cut;
      }

  -- A block of the file has a first byte.
  positive :
      (seq : ℕ)
      → seq < sh.total_blocks
      → (payload_len sh seq == 0 || is_less (as_i64 (rem_bits sh seq)) 1) ≡ false
  positive seq h =
      rw (rem-pos sh bytes v seq h)
        (ground (arith, payload_len_lem sh bytes v seq h, in_file sh bytes v seq h, v.block_pos))

  -- The retransmission of a block of the file, in a borrowed buffer that has room for a block, the
  -- header and the tag, is a PDU that carries the block.
  pub fill_retransmit-IsDataPdu :
      (buf : List ℕ) (seq : ℕ)
      → seq < sh.total_blocks
      → 36 + sh.block_size + overhead sh ≤ length buf
      → (out : List ℕ) × (n : ℕ) × (fill_retransmit crc32c sh buf seq ≡ pdu out n)
        × IsDataPdu crc32c sh bytes seq (take n out)
  unfolding fill_retransmit
  fill_retransmit-IsDataPdu buf seq h room =
      let r = build-IsDataPdu buf seq 1 (as_i64 seq) h room (omega arith) (omega arith) (
        as_i64-IsI64 seq (
          omega
            (arith, le-mul seq sh.block_size v.block_pos, in_file sh bytes v seq h, v.size_i64))) in
      rw (positive seq h) r

  -- So is the first transmission.
  pub prefetch_block-IsDataPdu :
      (buf : List ℕ) (seq : ℕ)
      → seq < sh.total_blocks
      → 36 + sh.block_size + overhead sh ≤ length buf
      → (out : List ℕ) × (n : ℕ) × (prefetch_block crc32c sh buf seq ≡ pdu out n)
        × IsDataPdu crc32c sh bytes seq (take n out)
  unfolding prefetch_block
  prefetch_block-IsDataPdu buf seq h room =
      build-IsDataPdu buf seq 0 (pos 0) h room (omega arith) (omega arith) (omega arith)
