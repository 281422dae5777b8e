-- ===== src/Sender/Peer.antt =====
-- src/sender.rs: `wait_for_peer`, which waits for the receiver's START.
mod Tests
use girth.Prelude.{
  ℕ, ◌≡◌, ◌⊎◌, refl, sym, ap, subst, ◌∙◌, inl, inr, Bool, true, false, not, ◌&&◌, List, [], ◌∷◌,
  Option, none, some, arith, ◌==◌, ==_iff, if◌then◌else◌, Bool-cases, Option-cases,
}
use girth.Shared.Result.{Result, ok, err}
use girth.Shared.Text.{text}
use girth.Error.{IoError, other_error}
use girth.Protocol.Marks.{decode_start}
use girth.Receiver.{SocketAddr}
use girth.Sender.Control.{is_start}

-- What `recv_from` gives: a datagram, a timeout of the socket, or another error.
pub data Got : Type 0 where
  datagram : SocketAddr → List ℕ → Got
  timeout : Got
  failed : IoError → Got

-- A round of the loop: whether the transfer is stopped, whether the deadline has passed, and the datagram.
pub record Turn : Type 0 where
  pub stop : Bool
  pub late : Bool
  pub got : Got

abbrev pub take_start :
    ℕ → Option ℕ → Option (Result IoError SocketAddr) → Got → Option (Result IoError SocketAddr)
take_start session expected_ip later (datagram addr pkt) =
    if is_start session expected_ip addr.ip pkt then some (ok addr) else later
take_start session expected_ip later timeout = later
take_start session expected_ip later (failed e) = some (err e)

-- The loop, over the rounds to come; `none` waits on.
unfoldable pub wait_for_peer : ℕ → Option ℕ → List Turn → Option (Result IoError SocketAddr)
unfolding is_start
wait_for_peer session expected_ip [] = none
wait_for_peer session expected_ip (t ∷ turns) =
    let later = wait_for_peer session expected_ip turns in
    if t.stop
    then some (err (other_error (text "stopped while waiting for receiver")))
    else (if t.late
        then some (err (other_error (text "timed out waiting for receiver START")))
        else take_start session expected_ip later t.got)

-- The peer that is found: a round before the end of the wait read a START of the session from its address,
-- which is the expected one where one is expected.
pub data Found (session : ℕ) (expected_ip : Option ℕ) (addr : SocketAddr) : List Turn → Type 0 where
  here :
      {t : Turn} {turns : List Turn} (pkt : List ℕ)
      → t.stop ≡ false
      → t.late ≡ false
      → t.got ≡ datagram addr pkt
      → decode_start pkt ≡ some session
      → (expected_ip ≡ none) ⊎ (expected_ip ≡ some addr.ip)
      → Found session expected_ip addr (t ∷ turns)
  there :
      {t : Turn} {turns : List Turn}
      → t.stop ≡ false
      → t.late ≡ false
      → Found session expected_ip addr turns
      → Found session expected_ip addr (t ∷ turns)

started :
    (session ip : ℕ) (expected_ip : Option ℕ) (pkt : List ℕ)
    → is_start session expected_ip ip pkt ≡ true
    → (decode_start pkt ≡ some session) × ((expected_ip ≡ none) ⊎ (expected_ip ≡ some ip))
unfolding is_start
started session ip none pkt e = elim (Option-cases (decode_start pkt)) [
  | inl q ↦ cc (rw (is_start, q) at e)
  | inr (s, q) ↦
      let same : (s == session) ≡ true = rw (is_start, q) at e in
      (q ∙ ap some ((==_iff s session).0 same), inl refl)
]
started session ip (some x) pkt e = elim (Bool-cases (ip == x)) [
  | inr far ↦ cc (rw (is_start, far) at e)
  | inl near ↦ elim (Option-cases (decode_start pkt)) [
    | inl q ↦ cc (rw (is_start, near, q) at e)
    | inr (s, q) ↦
        let same : (s == session) ≡ true = rw (is_start, near, q) at e in
        (q ∙ ap some ((==_iff s session).0 same), inr (ap some (sym ((==_iff ip x).0 near))))
  ]
]

module _ (session : ℕ) (expected_ip : Option ℕ) (addr : SocketAddr) where
  take_start-Found :
      (t : Turn) (turns : List Turn) (g : Got)
      → t.stop ≡ false
      → t.late ≡ false
      → t.got ≡ g
      → (wait_for_peer session expected_ip turns ≡ some (ok addr)
          → Found session expected_ip addr turns)
      → take_start session expected_ip (wait_for_peer session expected_ip turns) g ≡ some (ok addr)
      → Found session expected_ip addr (t ∷ turns)
  take_start-Found t turns timeout a b c more e = there a b (more e)
  take_start-Found t turns (failed x) a b c more e = cc
  take_start-Found t turns (datagram from pkt) a b c more e =
      elim (Bool-cases (is_start session expected_ip from.ip pkt)) [
        | inr q ↦ there a b (more (rw (take_start, q) at e))
        | inl q ↦
            let got : some (ok from) ≡ some (ok addr) = rw (take_start, q) at e in
            let same : from ≡ addr = ap (sender_of from) got in
            let (start, ip) = started session from.ip expected_ip pkt q in
            subst (λ s. Found session expected_ip s (t ∷ turns)) same (here pkt a b c start ip)
      ]
    where
      sender_of : SocketAddr → Option (Result IoError SocketAddr) → SocketAddr
      sender_of d (some (ok s)) = s
      sender_of d (some (err x)) = d
      sender_of d none = d

  -- Whatever arrives, the wait gives an address only where, before it is stopped and before its deadline, a
  -- datagram from that address decoded to a START of the session, and the address is the expected one where
  -- one is expected.
  pub wait_for_peer-Found :
      (turns : List Turn)
      → wait_for_peer session expected_ip turns ≡ some (ok addr)
      → Found session expected_ip addr turns
  unfolding wait_for_peer
  wait_for_peer-Found [] e = cc
  wait_for_peer-Found (t ∷ turns) e = elim (Bool-cases t.stop) [
    | inl a ↦ cc (rw (wait_for_peer, a) at e)
    | inr a ↦ elim (Bool-cases t.late) [
      | inl b ↦ cc (rw (wait_for_peer, a, b) at e)
      | inr b ↦
          take_start-Found t turns t.got a b refl (λ k. wait_for_peer-Found turns k)
            (rw (wait_for_peer, a, b) at e)
    ]
  ]
