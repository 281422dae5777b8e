-- ===== src/Sender/Peer/Tests.antt =====
-- `wait_for_peer` (src/sender.rs): a timeout, a START from another address, and the one of the session.
use girth.Prelude.{ℕ, ◌≡◌, refl, false, List, [], ◌∷◌, some}
use girth.Shared.Result.{ok}
use girth.Receiver.{SocketAddr}
use girth.Sender.Peer.{Got, datagram, timeout, Turn, Found, wait_for_peer, wait_for_peer-Found}

abbrev start : List ℕ
start = 5 ∷ 0 ∷ 0 ∷ 0 ∷ 42 ∷ 0 ∷ 0 ∷ 0 ∷ []

abbrev near : SocketAddr
near = record { ip = 7; port = 7400 }

abbrev reads : Got → Turn
reads g = record { stop = false; late = false; got = g }

abbrev turns : List Turn
turns =
    reads timeout
    ∷ reads (datagram (record { ip = 8; port = 7400 }) start)
    ∷ reads (datagram near start)
    ∷ []

found : wait_for_peer 42 (some 7) turns ≡ some (ok near)
unfolding wait_for_peer girth.Protocol.Marks.decode_start
found = refl

wait_for_peer-Found_example : Found 42 (some 7) near turns
wait_for_peer-Found_example = wait_for_peer-Found 42 (some 7) near turns found
