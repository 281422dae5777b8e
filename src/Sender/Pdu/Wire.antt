-- ===== src/Sender/Pdu/Wire.antt =====
-- The PDU that the sender builds for a block of the file (src/sender.rs).
use girth.Prelude.{
  ℕ, zero, suc, ◌+◌, ◌-◌, ◌*◌, ◌^◌, ◌<◌, ◌≡◌, refl, sym, ap, ◌∙◌, List, [], ◌∷◌, ◌++◌, Option, none,
  some, arith, min, length, take, drop, length-take, length-drop,
}
use girth.Io.Crc.{take-nil}
use girth.Prelude.Int.{pos, as_i64}
use girth.Protocol.Bytes.{slice}
use girth.Protocol.Blocks.{num_blocks, num_blocks_covers}
use girth.Crypto.Payload.{Aead, IsAead, block_nonce}
use girth.Io.{Holds}
use girth.Sender.Pdu.{SendShared, offset, rem_bits, payload_len}

-- Block `seq` of a file: its bytes from `seq * size` on, at most `size` of them.
abbrev pub block : ℕ → List ℕ → ℕ → List ℕ
block size bytes seq = take size (drop (seq * size) bytes)

-- The payload as it travels: in the clear, or the ciphertext and the tag.
abbrev pub on_wire : Option Aead → ℕ → List ℕ → List ℕ
on_wire none seq plain = plain
on_wire (some c) seq plain = let (ct, tag) = c.encrypt (block_nonce seq) plain in ct ++ tag

-- The sender of a file that holds `bytes`, all of whose sizes fit their types.
pub record IsSender (sh : SendShared) (bytes : List ℕ) : Type 0 where
  pub holds : Holds sh.source bytes
  pub size_same : sh.file_size ≡ length bytes
  pub size_i64 : length bytes < 2 ^ 62
  pub block_pos : 0 < sh.block_size
  pub block_u16 : sh.block_size < 2 ^ 16
  pub blocks : sh.total_blocks ≡ num_blocks (pos (length bytes)) sh.block_size
  pub cipher : (c : Aead) → sh.crypto ≡ some c → IsAead c

take-min : (n m : ℕ) (xs : List ℕ) → m ≡ min n (length xs) → take m xs ≡ take n xs
take-min n zero [] e = sym (take-nil n)
take-min n (suc m) [] e = absurd (omega arith)
take-min zero zero (x ∷ xs) e = refl
take-min zero (suc m) (x ∷ xs) e = absurd (omega arith)
take-min (suc n) zero (x ∷ xs) e = absurd (omega arith)
take-min (suc n) (suc m) (x ∷ xs) e = ap (◌∷◌ x) (take-min n m xs (omega arith))

module _ (sh : SendShared) (bytes : List ℕ) (v : IsSender sh bytes) (seq : ℕ)
    (h : seq < sh.total_blocks) where
  pub in_file : seq * sh.block_size < length bytes
  in_file = (num_blocks_covers (length bytes) sh.block_size seq v.block_pos).0 (rw (← v.blocks) h)

  offset_lem : offset sh seq ≡ seq * sh.block_size
  offset_lem = omega (arith, in_file, v.size_i64)

  rem_bits_lem : rem_bits sh seq ≡ length bytes - seq * sh.block_size
  rem_bits_lem = omega (arith, in_file, v.size_i64, v.size_same, offset_lem)

  pub rem-pos : as_i64 (rem_bits sh seq) ≡ pos (length bytes - seq * sh.block_size)
  rem-pos = rw rem_bits_lem (ground (arith, v.size_i64))

  pub payload_len_lem : payload_len sh seq ≡ min sh.block_size (length bytes - seq * sh.block_size)
  payload_len_lem = rw (rem-pos, rem_bits_lem) (ground arith)

  -- What the source gives is the block.
  pub length-block : length (block sh.block_size bytes seq) ≡ payload_len sh seq
  length-block =
      length-take sh.block_size (drop (seq * sh.block_size) bytes)
      ∙ ap (min sh.block_size) (length-drop (seq * sh.block_size) bytes)
      ∙ sym payload_len_lem

  pub read_block :
      sh.source.read_exact_at (offset sh seq) (payload_len sh seq)
      ≡ some (block sh.block_size bytes seq)
  read_block =
      v.holds.reads (offset sh seq) (payload_len sh seq)
        (omega (arith, offset_lem, payload_len_lem, in_file))
      ∙ ap some part
    where
      part :
          slice (offset sh seq) (offset sh seq + payload_len sh seq) bytes
          ≡ block sh.block_size bytes seq
      part =
          ap (λ k. take (offset sh seq + payload_len sh seq - offset sh seq) (drop k bytes))
            offset_lem
          ∙ take-min sh.block_size _ (drop (seq * sh.block_size) bytes)
              (omega (arith, payload_len_lem, length-drop (seq * sh.block_size) bytes))
