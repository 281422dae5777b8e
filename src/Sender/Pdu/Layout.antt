-- ===== src/Sender/Pdu/Layout.antt =====
-- The layout of the DATA PDU that `prefetch` and `fill_retransmit` (src/sender.rs) leave in a buffer.
use Prim.Native.Nat.{bit_or}
use mathlib.Core.List.{append_assoc}
use girth.Prelude.{
  ℕ, ◌+◌, ◌-◌, ◌%◌, ◌^◌, ◌≤◌, ◌≡◌, refl, sym, ap, ◌∙◌, List, ◌++◌, none, some, ◌>>=◌, arith, ◌==◌,
  if◌then◌else◌, length, take, drop, is_some, length-append, length-take, length-drop, take_left,
  drop_left, take-append-drop, Option-cases, inl, inr,
}
use girth.Prelude.Int.{ℤ}
use girth.Protocol.Bytes.{put, put-append}
use girth.Protocol.Data.{
  DataHeader, IsHeader, encode_data_header, encode_data_header_lem, header_bytes,
}
use girth.Crypto.Payload.{Aead, IsAead, block_nonce}
use girth.Crypto.Payload.RoundTrip.{seal_data_lem}
use girth.Sender.Pdu.{SendShared, payload_len, finish, header, write_pdu}
use girth.Sender.Pdu.Wire.{block, on_wire}

-- The room for the tag, `overhead`.
abbrev pub overhead : SendShared → ℕ
overhead sh = if is_some sh.crypto then 16 else 0

-- A DATA PDU of block `seq`: any flags, echo tick and loss-table index, and the block's payload.
pub record IsDataPdu (crc32c : List ℕ → ℕ) (sh : SendShared) (bytes : List ℕ) (seq : ℕ)
    (pkt : List ℕ) : Type 0 where
  pub head : DataHeader
  pub head_ok : IsHeader head
  pub session_same : head.session ≡ sh.session
  pub seq_same : head.block_seq ≡ seq
  pub len_same : head.payload_len ≡ length (block sh.block_size bytes seq)
  pub crc_same : sh.crypto ≡ none → head.payload_crc ≡ crc32c (block sh.block_size bytes seq)
  pub layout : pkt ≡ header_bytes head ++ on_wire sh.crypto seq (block sh.block_size bytes seq)

take_three :
    (xs ys zs ws : List ℕ) (n : ℕ)
    → n ≡ length xs + length ys + length zs
    → take n (xs ++ (ys ++ (zs ++ ws))) ≡ xs ++ (ys ++ zs)
take_three xs ys zs ws n e =
    ap (take n) (
      ap (λ (t : List ℕ). xs ++ t) (sym (append_assoc ys zs ws))
      ∙ sym (append_assoc xs (ys ++ zs) ws))
    ∙ take_left n (xs ++ (ys ++ zs)) ws
        (omega (arith, length-append xs (ys ++ zs), length-append ys zs))

module _ (crc32c : List ℕ → ℕ) (sh : SendShared) where
  -- The buffer behind the header, once the block is in it.
  module _ (plain rest : List ℕ) (head : DataHeader) (seq : ℕ)
      (ok : (c : Aead) → sh.crypto ≡ some c → IsAead c) (room : overhead sh ≤ length rest) where
    finish_lem :
        (out : List ℕ) × (n : ℕ) × (finish sh
            (header_bytes head ++ (plain ++ rest))
            (length plain)
            seq
          ≡ some (out, n))
        × (take n out ≡ header_bytes head ++ on_wire sh.crypto seq plain)
    unfolding finish
    finish_lem = elim (Option-cases sh.crypto) [
      | inl e ↦ (
        header_bytes head ++ (plain ++ rest),
        36 + length plain,
        rw e refl,
        rw e (
            ap (take (36 + length plain)) (sym (append_assoc (header_bytes head) plain rest))
            ∙ take_left (36 + length plain) (header_bytes head ++ plain) rest
                (omega (arith, length-append (header_bytes head) plain))),
      )
      | inr (c, e) ↦
          let ct = (c.encrypt (block_nonce seq) plain).0 in
          let tag = (c.encrypt (block_nonce seq) plain).1 in
          (
            header_bytes head ++ (ct ++ (tag ++ drop 16 rest)),
            36 + length plain + 16,
            rw e (seal_data_lem c (header_bytes head) plain rest seq (ok c e) (rw e at room)),
            rw e (
                take_three (header_bytes head) ct tag (drop 16 rest) _ (
                  omega (
                    arith,
                    (ok c e).length_same (block_nonce seq) plain,
                    (ok c e).tag_length (block_nonce seq) plain,
                  ))),
          )
    ]

  -- The header that is written once block bytes `plain` are in the buffer.
  abbrev pub wire_header : List ℕ → ℕ → ℕ → ℤ → DataHeader
  wire_header plain seq flags rex_index = record {
    flags = if seq == sh.total_blocks - 1 then bit_or flags 8 else flags;
    payload_len = length plain % 2 ^ 16;
    session = sh.session;
    block_seq = seq;
    echo_tick = 0;
    rex_index = rex_index;
    payload_crc = if is_some sh.crypto then 0 else crc32c plain;
  }

  header_lem :
      (front plain rest : List ℕ) (seq flags : ℕ) (rex_index : ℤ)
      → length front ≡ 36
      → header crc32c sh (front ++ (plain ++ rest)) (length plain) seq flags rex_index
        ≡ wire_header plain seq flags rex_index
  unfolding header
  header_lem front plain rest seq flags rex_index e =
      ap
        (λ (t : List ℕ). record (wire_header plain seq flags rex_index) {
          payload_crc = if is_some sh.crypto then 0 else crc32c t;
        })
        (rw (drop_left 36 front (plain ++ rest) (sym e)) (take_left _ plain rest (omega arith)))

  pub write_pdu_lem :
      (buf plain : List ℕ) (seq flags : ℕ) (rex_index : ℤ)
      → ((c : Aead) → sh.crypto ≡ some c → IsAead c)
      → length plain ≡ payload_len sh seq
      → 36 + length plain + overhead sh ≤ length buf
      → (out : List ℕ) × (n : ℕ) × (write_pdu crc32c sh buf seq flags rex_index plain
          ≡ some (out, n))
        × (take n out
            ≡ header_bytes (wire_header plain seq flags rex_index) ++ on_wire sh.crypto seq plain)
  unfolding write_pdu
  write_pdu_lem buf plain seq flags rex_index ok l room =
      let (out, n, run, cut) = finish_lem plain r head seq ok room' in
      (
        out,
        n,
        rw first (
            ap (λ h. encode_data_header mid h >>= λ b. finish sh b (payload_len sh seq) seq)
              head_same
            ∙ ap (λ o. o >>= λ b. finish sh b (payload_len sh seq) seq) second
            ∙ ap (λ k. finish sh (header_bytes head ++ (plain ++ r)) k seq) (sym l)
            ∙ run),
        cut,
      )
    where
      r : List ℕ
      r = drop (length plain) (drop 36 buf)

      mid : List ℕ
      mid = take 36 buf ++ (plain ++ r)

      head : DataHeader
      head = wire_header plain seq flags rex_index

      front : length (take 36 buf) ≡ 36
      front = omega (arith, length-take 36 buf)

      room' : overhead sh ≤ length r
      room' = omega (arith, length-drop (length plain) (drop 36 buf), length-drop 36 buf)

      first : put 36 plain buf ≡ some mid
      first =
          ap (put 36 plain) (sym (take-append-drop 36 buf))
          ∙ put-append (take 36 buf) 36 plain (drop 36 buf) (sym front)
              (omega (arith, length-drop 36 buf))

      head_same : header crc32c sh mid (payload_len sh seq) seq flags rex_index ≡ head
      head_same =
          ap (λ k. header crc32c sh mid k seq flags rex_index) (sym l)
          ∙ header_lem (take 36 buf) plain r seq flags rex_index front

      second : encode_data_header mid head ≡ some (header_bytes head ++ (plain ++ r))
      second =
          encode_data_header_lem mid head
            (omega (arith, front, length-append (take 36 buf) (plain ++ r)))
          ∙ ap (λ (t : List ℕ). some (header_bytes head ++ t))
              (drop_left 36 (take 36 buf) (plain ++ r) (sym front))
