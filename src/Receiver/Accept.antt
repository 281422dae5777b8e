-- ===== src/Receiver/Accept.antt =====
-- A DATA PDU of the sender (src/sender.rs) at the receiver's checks (src/receiver.rs).
use mathlib.Core.List.{append-nil}
use girth.Prelude.{
  ℕ, ◌+◌, ◌-◌, ◌*◌, ◌≤◌, ◌<◌, ◌≡◌, refl, sym, ap, subst, ◌∙◌, true, false, List, [], ◌++◌, Option,
  none, some, arith, ==_refl, le→ltb, length, take, drop, drop_left, length-append, length-take,
  Option-cases, inl, inr,
}
use girth.Io.Crc.{take_all}
use girth.Protocol.Bytes.{slice}
use girth.Protocol.Data.{DataHeader, header_bytes, decode_data_header, decode_header_bytes}
use girth.Crypto.Payload.{Aead, IsAead, block_nonce, open_data}
use girth.Crypto.Payload.RoundTrip.{open_data-sealed}
use girth.Sender.Pdu.{SendShared}
use girth.Sender.Pdu.Wire.{block, on_wire, IsSender}
use girth.Sender.Pdu.Layout.{IsDataPdu}
use girth.Receiver.{SocketAddr, RecvShared}
use girth.Receiver.Ingest.{payload, check_payload, in_session, foreign}

-- The two ends agree on the handshake.
pub record Matches (sh : SendShared) (rsh : RecvShared) : Type 0 where
  pub session_same : rsh.session ≡ sh.session
  pub total_same : rsh.total_blocks ≡ sh.total_blocks
  pub block_same : rsh.block_size ≡ sh.block_size
  pub crypto_same : rsh.crypto ≡ sh.crypto

-- What the receiver makes of a datagram: block `seq` with payload `bytes`.
pub record Accepts (crc32c : List ℕ → ℕ) (rsh : RecvShared) (addr : Option SocketAddr)
    (pkt : List ℕ) (seq : ℕ) (bytes : List ℕ) : Type 0 where
  pub head : DataHeader
  pub decoded : decode_data_header pkt ≡ some head
  pub seq_same : head.block_seq ≡ seq
  pub tests_pass : in_session rsh addr head ≡ true
  pub opened : check_payload crc32c rsh pkt head ≡ payload bytes

module _ (crc32c : List ℕ → ℕ) (rsh : RecvShared) (head : DataHeader) (plain : List ℕ) (seq : ℕ)
    (len_same : head.payload_len ≡ length plain) (seq_same : head.block_seq ≡ seq) where
  -- The payload behind a header opens, sealed or in the clear.
  opens_sealed :
      (c : Aead)
      → rsh.crypto ≡ some c
      → IsAead c
      → check_payload crc32c rsh (header_bytes head ++ on_wire (some c) seq plain) head
        ≡ payload plain
  unfolding check_payload
  opens_sealed c e v =
      let ct = (c.encrypt (block_nonce seq) plain).0 in
      let tag = (c.encrypt (block_nonce seq) plain).1 in
      let open_plain =
        ap (λ (t : List ℕ). open_data c (ct ++ t) (length plain) seq) (sym (append-nil tag))
        ∙ open_data-sealed c plain [] seq v in
      rw (e, drop_left 36 (header_bytes head) (ct ++ tag) refl, len_same, seq_same, open_plain) refl

  opens_clear :
      rsh.crypto ≡ none
      → head.payload_crc ≡ crc32c plain
      → check_payload crc32c rsh (header_bytes head ++ on_wire none seq plain) head ≡ payload plain
  unfolding check_payload
  opens_clear e crc =
      let fits : 36 + length plain ≤ length (header_bytes head ++ plain) =
        omega (arith, length-append (header_bytes head) plain) in
      let read : slice 36 (36 + length plain) (header_bytes head ++ plain) ≡ plain =
        ap (take (36 + length plain - 36)) (drop_left 36 (header_bytes head) plain refl)
        ∙ take_all (36 + length plain - 36) plain (omega arith) in
      rw (e, len_same, le→ltb _ _ fits, read, crc, ==_refl (crc32c plain)) refl

-- A DATA PDU that the sender builds of a block passes the checks of a receiver that agreed with it in
-- the handshake, from an address that is not foreign: it decodes, belongs to the session, and opens,
-- with the checksum or under the cipher, to the bytes of that block of the file.
pub IsDataPdu-Accepts :
    (crc32c : List ℕ → ℕ) (sh : SendShared) (rsh : RecvShared) (bytes : List ℕ) (seq : ℕ)
    (pkt : List ℕ) (addr : Option SocketAddr)
    → IsSender sh bytes
    → Matches sh rsh
    → seq < sh.total_blocks
    → foreign rsh.expected_peer_ip addr ≡ false
    → IsDataPdu crc32c sh bytes seq pkt
    → Accepts crc32c rsh addr pkt seq (block sh.block_size bytes seq)
unfolding in_session
IsDataPdu-Accepts crc32c sh rsh bytes seq pkt addr v same h near d = record {
  head = d.head;
  decoded = rw d.layout (decode_header_bytes d.head _ d.head_ok);
  seq_same = d.seq_same;
  tests_pass = tests;
  opened = opens;
}
  where
    plain : List ℕ
    plain = block sh.block_size bytes seq

    small : length plain ≤ sh.block_size
    small = omega (arith, length-take sh.block_size (drop (seq * sh.block_size) bytes))

    tests : in_session rsh addr d.head ≡ true
    tests = rw near (ground (arith, small, d.len_same, d.seq_same, d.session_same, h))

    Opens : List ℕ → Type 0
    Opens p = check_payload crc32c rsh p d.head ≡ payload plain

    wire : (k : Option Aead) → sh.crypto ≡ k → pkt ≡ header_bytes d.head ++ on_wire k seq plain
    wire k e = d.layout ∙ ap (λ o. header_bytes d.head ++ on_wire o seq plain) e

    opens : check_payload crc32c rsh pkt d.head ≡ payload plain
    opens = elim (Option-cases sh.crypto) [
      | inl e ↦ subst Opens (sym (wire none e)) (
          opens_clear crc32c rsh d.head plain seq d.len_same d.seq_same (same.crypto_same ∙ e)
            (d.crc_same e))
      | inr (c, e) ↦ subst Opens (sym (wire (some c) e)) (
          opens_sealed crc32c rsh d.head plain seq d.len_same d.seq_same c (same.crypto_same ∙ e)
            (v.cipher c e))
    ]
