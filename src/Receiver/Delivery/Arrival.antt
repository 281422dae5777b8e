-- ===== src/Receiver/Delivery/Arrival.antt =====
-- Datagrams of the sender (src/sender.rs) that arrive at `handle_packet` (src/receiver.rs), one after the
-- other.
use girth.Prelude.{
  ℕ, ◌+◌, ◌*◌, ◌^◌, ◌<◌, ◌≡◌, ◌⊎◌, inl, inr, refl, sym, ap, subst, ◌∙◌, true, false, ◌||◌, List, [],
  ◌∷◌, Option, none, some, ◌>>=◌, arith, ◌==◌, ==_refl,
}
use girth.Shared.Float.{Float}
use girth.Shared.Sets.{contains}
use girth.Protocol.Data.{DataHeader, decode_data_header, pdu_data}
use girth.Protocol.Marks.{pdu_type}
use girth.Io.{BlockSink}
use girth.LossTracker.Bitmap.{has}
use girth.Sender.Pdu.{SendShared}
use girth.Sender.Pdu.Wire.{block, IsSender}
use girth.Sender.Pdu.Layout.{IsDataPdu}
use girth.Sender.Pacing.Carries.{Carry}
use girth.Receiver.{SocketAddr, RecvShared, Receiver}
use girth.Receiver.Ingest.{
  foreign, learn_peer, in_session, payload, check_payload, take_block, from_peer, handle_data,
  handle_packet,
}
use girth.Receiver.Accept.{Matches, Accepts, IsDataPdu-Accepts}
use girth.Receiver.Delivery.Packet.{Keeps, take_block-Keeps}

-- An address that is the peer's, or may become it.
abbrev pub MayBePeer : RecvShared → SocketAddr → Option SocketAddr → Type 0
MayBePeer rsh a peer =
    (foreign rsh.expected_peer_ip (some a) ≡ false) × ((peer ≡ none) ⊎ (peer ≡ some a))

learn_peer-known :
    (rsh : RecvShared) (a : SocketAddr) (peer : Option SocketAddr)
    → MayBePeer rsh a peer
    → learn_peer rsh peer (some a) ≡ (true, some a)
unfolding learn_peer
learn_peer-known rsh a none (near, _) = rw near refl
learn_peer-known rsh a (some p) (near, inl e) = cc
learn_peer-known rsh a (some p) (near, inr e) =
    subst (λ q. learn_peer rsh q (some a) ≡ (true, some a)) (sym e)
      (rw (near, ==_refl a.ip, ==_refl a.port) refl)

pdu_type-IsDataPdu :
    (crc32c : List ℕ → ℕ) (sh : SendShared) (bytes : List ℕ) (seq : ℕ) (pkt : List ℕ)
    → IsDataPdu crc32c sh bytes seq pkt
    → pdu_type pkt ≡ pdu_data
unfolding pdu_type
pdu_type-IsDataPdu crc32c sh bytes seq pkt d = ap pdu_type d.layout

module _ (f : Float) {S : Type 0} (io : BlockSink S) (rsh : RecvShared) (a : SocketAddr) where
  -- A receiver that keeps its promise, and for which `a` is the peer or may become it.
  abbrev pub Waits : List ℕ → Receiver f S → Type 0
  Waits bytes r = Keeps f io rsh bytes r × MayBePeer rsh a r.peer

  -- Datagrams that arrive one after the other, each read at its own time.
  unfoldable pub deliver :
      (List ℕ → ℕ) → (ℕ → ℕ) → List (List ℕ) → Receiver f S → Option (Receiver f S)
  unfolding handle_packet
  deliver crc32c clock [] r = some r
  deliver crc32c clock (p ∷ ps) r = do
    r ← handle_packet f io crc32c rsh (clock 0) p (some a) r
    deliver crc32c (λ n. clock (n + 1)) ps r

module _ (f : Float) {S : Type 0} (io : BlockSink S) (crc32c : List ℕ → ℕ) (sh : SendShared)
    (rsh : RecvShared) (bytes : List ℕ) (v : IsSender sh bytes) (same : Matches sh rsh)
    (small : (j : ℕ) → j < rsh.total_blocks → j * rsh.block_size < 2 ^ 64) (a : SocketAddr) where
  handle_data-takes :
      (now : ℕ) (h : DataHeader) (pkt plain : List ℕ) (r : Receiver f S)
      → decode_data_header pkt ≡ some h
      → in_session rsh (some a) h ≡ true
      → check_payload crc32c rsh pkt h ≡ payload plain
      → learn_peer rsh r.peer (some a) ≡ (true, some a)
      → handle_data f io crc32c rsh now pkt (some a) r
        ≡ take_block f io rsh now h plain (record r { peer = some a })
  unfolding handle_data from_peer
  handle_data-takes now h pkt plain r e tests opened known =
      rw (handle_data, e, tests, opened, known) refl

  accepted :
      (now seq : ℕ) (pkt : List ℕ) (r : Receiver f S)
      → seq < rsh.total_blocks
      → pdu_type pkt ≡ pdu_data
      → Accepts crc32c rsh (some a) pkt seq (block rsh.block_size bytes seq)
      → Waits f io rsh a bytes r
      → (r' : Receiver f S) × (handle_packet f io crc32c rsh now pkt (some a) r ≡ some r')
        × Waits f io rsh a bytes r'
        × ((j : ℕ) → has r'.bm j ≡ (j == seq || has r.bm j))
  unfolding handle_packet
  accepted now seq pkt r h typ acc (k, (near, p)) =
      let known = learn_peer-known rsh a r.peer (near, p) in
      let (r', run, kept, marks, peer) =
        take_block-Keeps f io rsh bytes small now acc.head (record r { peer = some a })
          (subst (λ n. n < rsh.total_blocks) (sym acc.seq_same) h) k in
      let run' =
        subst
          (λ n.
            take_block f io rsh now acc.head (block rsh.block_size bytes n)
              (record r { peer = some a })
            ≡ some r')
          acc.seq_same run in
      (
        r',
        rw typ (
            handle_data-takes now acc.head pkt (block rsh.block_size bytes seq) r acc.decoded
              acc.tests_pass acc.opened known
            ∙ run'),
        (kept, (near, inr peer)),
        λ j. marks j ∙ ap (λ n. j == n || has r.bm j) acc.seq_same,
      )

  pub one-Waits :
      (now seq : ℕ) (pkt : List ℕ) (r : Receiver f S)
      → seq < sh.total_blocks
      → IsDataPdu crc32c sh bytes seq pkt
      → Waits f io rsh a bytes r
      → (r' : Receiver f S) × (handle_packet f io crc32c rsh now pkt (some a) r ≡ some r')
        × Waits f io rsh a bytes r'
        × ((j : ℕ) → has r'.bm j ≡ (j == seq || has r.bm j))
  one-Waits now seq pkt r h d w =
      let acc = IsDataPdu-Accepts crc32c sh rsh bytes seq pkt (some a) v same h (w.1.0) d in
      accepted now seq pkt r (subst (λ n. seq < n) (sym same.total_same) h)
        (pdu_type-IsDataPdu crc32c sh bytes seq pkt d)
        (subst (λ n. Accepts crc32c rsh (some a) pkt seq (block n bytes seq)) (sym same.block_same)
          acc)
        w

  -- DATA PDUs of the sender, in any order and with any copies, arrive from the peer at a receiver that
  -- keeps its promise: the receiver takes them all without a panic, keeps its promise, and marks the
  -- blocks they carry besides those it had, and no others.
  pub deliver-Waits :
      (clock : ℕ → ℕ) (js : List ℕ) (ps : List (List ℕ)) (r : Receiver f S)
      → Carry crc32c sh bytes js ps
      → Waits f io rsh a bytes r
      → (r' : Receiver f S) × (deliver f io rsh a crc32c clock ps r ≡ some r')
        × Waits f io rsh a bytes r'
        × ((j : ℕ) → has r'.bm j ≡ (contains j js || has r.bm j))
  unfolding deliver
  deliver-Waits clock [] [] r c w = (r, refl, w, λ j. refl)
  deliver-Waits clock [] (p ∷ ps) r c w = absurd c
  deliver-Waits clock (i ∷ js) [] r c w = absurd c
  deliver-Waits clock (i ∷ js) (p ∷ ps) r (h, d, c) w =
      let (one, run, w', marks) = one-Waits (clock 0) i p r h d w in
      let (r', run', w'', marks') = deliver-Waits (λ n. clock (n + 1)) js ps one c w' in
      (r', rw run run', w'', λ j. ground (arith, marks' j, marks j))
