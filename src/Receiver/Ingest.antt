-- ===== src/Receiver/Ingest.antt =====
-- src/receiver.rs: `handle_packet`, what an ingest thread does with a datagram.
use Prim.Native.Nat.{bit_and}
use girth.Prelude.{
  ℕ, ◌+◌, ◌-◌, ◌*◌, ◌%◌, ◌^◌, Bool, true, false, not, ◌&&◌, ◌||◌, List, ◌∷◌, Option, none, some,
  ◌>>=◌, ltb, leb, ◌==◌, max, if◌then◌else◌, length, drop,
}
use girth.Shared.Float.{Float}
use girth.Protocol.Bytes.{slice}
use girth.Protocol.Data.{
  DataHeader, data_header_size, decode_data_header, flag_has_tick, flag_tick_n, pdu_data,
}
use girth.Protocol.Marks.{pdu_type, pdu_fin, decode_fin}
use girth.Crypto.Payload.{open_data}
use girth.Io.{BlockSink}
use girth.LossTracker.Bitmap.{set_and_test}
use girth.Rate.{sample}
use girth.Receiver.{SocketAddr, RecvShared, Receiver, unstage}

abbrev same_addr : SocketAddr → SocketAddr → Bool
same_addr a b = a.ip == b.ip && a.port == b.port

-- Whether an address is known not to be the expected peer's.
abbrev pub foreign : Option ℕ → Option SocketAddr → Bool
foreign none addr = false
foreign (some ip) none = false
foreign (some ip) (some a) = not (a.ip == ip)

-- `learn_peer`: whether the datagram counts as the peer's, and the peer after it.
unfoldable pub learn_peer :
    RecvShared → Option SocketAddr → Option SocketAddr → Bool × Option SocketAddr
learn_peer sh peer none = (elim peer [ none ↦ false | some _ ↦ true ], peer)
learn_peer sh none (some a) =
    if foreign sh.expected_peer_ip (some a) then (false, none) else (true, some a)
learn_peer sh (some p) (some a) =
    if foreign sh.expected_peer_ip (some a) then (false, some p) else (same_addr p a, some p)

-- The payload of a DATA PDU: dropped without a trace, counted as corrupt, or opened.
pub data Opened : Type 0 where
  ignored corrupt : Opened
  payload : List ℕ → Opened

abbrev pub decrypted : Option (List ℕ) → Opened
decrypted none = corrupt
decrypted (some plain) = payload plain

-- The checksum of the payload in the clear.
abbrev pub checked : Bool → List ℕ → Opened
checked true bytes = payload bytes
checked false bytes = corrupt

unfoldable pub check_payload : (List ℕ → ℕ) → RecvShared → List ℕ → DataHeader → Opened
check_payload crc32c sh pkt h = elim sh.crypto [
  | some c ↦ decrypted (open_data c (drop data_header_size pkt) h.payload_len h.block_seq)
  | none ↦
      let bytes = slice data_header_size (data_header_size + h.payload_len) pkt in
      if ltb (length pkt) (data_header_size + h.payload_len)
      then ignored
      else checked (crc32c bytes == h.payload_crc) bytes
]

-- The tests in front of the payload's.
unfoldable pub in_session : RecvShared → Option SocketAddr → DataHeader → Bool
in_session sh addr h =
    h.session == sh.session
    && ltb h.block_seq sh.total_blocks
    && leb h.payload_len sh.block_size
    && not (foreign sh.expected_peer_ip addr)

module _ (f : Float) where
  open f use {F64, lit, from_u64, to_u64, sub, le}

  -- `apply_tick` at time `now`.
  unfoldable pub apply_tick : {S : Type 0} → ℕ → DataHeader → Receiver f S → Receiver f S
  apply_tick now h r =
      let measured = sub (from_u64 now) (from_u64 h.echo_tick) in
      let (net_rto, net) = sample f r.rtt.net measured in
      let (path_rto, path) = sample f r.rtt.path measured in
      if not (le (lit 0 1) measured && le measured (lit 60000000 1))
      then r
      else (if not (bit_and h.flags flag_tick_n == 0)
          then record r {
            rtt = record (r.rtt) { net = net };
            stats = record (r.stats) {
              srtt_net_us = to_u64 net.srtt;
              base_rtt_us = to_u64 net.min_rtt;
            };
          }
          else record r {
            rtt = record (r.rtt) { path = path };
            stats = record (r.stats) { srtt_path_us = to_u64 path.srtt; rto_us = to_u64 path_rto };
          })

  -- `handle_packet` from the FIN's tests on.
  unfoldable pub handle_fin :
      {S : Type 0} → RecvShared → List ℕ → Option SocketAddr → Receiver f S → Receiver f S
  unfolding learn_peer
  handle_fin sh pkt addr r = elim (decode_fin pkt) [
    | none ↦ r
    | some (session, total_blocks) ↦
        let (known, peer) = learn_peer sh r.peer addr in
        if not (session == sh.session) || not (total_blocks == sh.total_blocks)
        then r
        else (if known then record r { peer = peer; all_sent = true } else r)
  ]

  module _ {S : Type 0} (io : BlockSink S) where
    -- A new block: staged where a buffer of the pool is free, and written where none is. `ready_bm` is
    -- set last, and not where the write fails.
    unfoldable pub store : RecvShared → ℕ → List ℕ → Receiver f S → Option (Receiver f S)
    store sh seq bytes r =
        let ready : Receiver f S → Option (Receiver f S) =
          λ r'. set_and_test r'.ready_bm seq >>= λ x. some (record r' { ready_bm = x.1 }) in
        let (wrote, sink) = io.write_all_at r.sink (seq * sh.block_size % 2 ^ 64) bytes in
        let direct : Option (Receiver f S) =
          if wrote then ready (record r { sink = sink }) else some (record r { sink = sink }) in
        if r.free == 0
        then direct
        else ready (record r { free = r.free - 1; stage = (seq, bytes) ∷ unstage seq r.stage })

    -- From `seen_any` on: the block is marked, and stored where it is new.
    unfoldable pub mark_block :
        RecvShared → DataHeader → List ℕ → Receiver f S → Option (Receiver f S)
    unfolding store
    mark_block sh h bytes given =
        let r : Receiver f S = record given {
          seen_any = true;
          max_seen = max given.max_seen h.block_seq;
        } in
        do
          (new, bm) ← set_and_test r.bm h.block_seq
          if new
              then store sh h.block_seq bytes (record r {
                bm = bm;
                stats = record (r.stats) {
                  payload_recv = r.stats.payload_recv + length bytes;
                  blocks_written = r.stats.blocks_written + 1;
                };
              })
              else some (record r {
                bm = bm;
                stats = record (r.stats) { dup_recv = r.stats.dup_recv + 1 };
              })

    -- What follows the payload's tests and `learn_peer`.
    unfoldable pub take_block :
        RecvShared → ℕ → DataHeader → List ℕ → Receiver f S → Option (Receiver f S)
    unfolding apply_tick mark_block
    take_block sh now h bytes r =
        mark_block sh h bytes
          (if not (bit_and h.flags flag_has_tick == 0) then apply_tick now h r else r)

    -- A payload from the peer, which may have been learnt from it.
    unfoldable pub from_peer :
        RecvShared
        → ℕ
        → DataHeader
        → List ℕ
        → Receiver f S
        → Bool × Option SocketAddr
        → Option (Receiver f S)
    unfolding take_block
    from_peer sh now h bytes r (true, peer) = take_block sh now h bytes (record r { peer = peer })
    from_peer sh now h bytes r (false, peer) = some r

    unfoldable pub handle_data :
        (List ℕ → ℕ)
        → RecvShared
        → ℕ
        → List ℕ
        → Option SocketAddr
        → Receiver f S
        → Option (Receiver f S)
    unfolding check_payload in_session learn_peer from_peer
    handle_data crc32c sh now pkt addr r = elim (decode_data_header pkt) [
      | none ↦ some r
      | some h ↦
          if in_session sh addr h
          then elim (check_payload crc32c sh pkt h) [
            | ignored ↦ some r
            | corrupt ↦
                some (record r {
                  stats = record (r.stats) { corrupt_recv = r.stats.corrupt_recv + 1 };
                })
            | payload bytes ↦ from_peer sh now h bytes r (learn_peer sh r.peer addr)
          ]
          else some r
    ]

    unfoldable pub handle_packet :
        (List ℕ → ℕ)
        → RecvShared
        → ℕ
        → List ℕ
        → Option SocketAddr
        → Receiver f S
        → Option (Receiver f S)
    unfolding handle_fin handle_data
    handle_packet crc32c sh now pkt addr r =
        if pdu_type pkt == pdu_fin
        then some (handle_fin sh pkt addr r)
        else (if pdu_type pkt == pdu_data then handle_data crc32c sh now pkt addr r else some r)
