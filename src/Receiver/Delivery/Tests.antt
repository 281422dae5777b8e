-- ===== src/Receiver/Delivery/Tests.antt =====
-- A transfer at the receiver, at concrete inputs: block 1 arrives before block 0, with rounds of the flusher between.
use girth.Prelude.{◌≡◌, refl, [], ◌∷◌, List, some, arith}
use girth.Shared.Float.{whole}
use girth.Io.Memory.{mem_sink}
use girth.Rate.{new_estimator, new_controller}
use girth.Receiver.{SocketAddr, RttState}
use girth.Receiver.Setup.{start_rtt}
use girth.Receiver.Delivery.Run.{Event, arrives, flushes, Arrived, run-Arrived}
use girth.Receiver.Tests.{
  file, shared, sender, sender-IsSender, crc, first_pdu, first_pdu-IsDataPdu, last_pdu,
  last_pdu-IsDataPdu, small, takes, config, defaults_lem, two_blocks,
}

abbrev address : SocketAddr
address = record { ip = 5; port = 7400 }

abbrev events : List Event
events = arrives 200 last_pdu ∷ flushes ∷ arrives 300 first_pdu ∷ flushes ∷ flushes ∷ []

abbrev cold : RttState whole
cold = record {
  path = new_estimator whole;
  net = new_estimator whole;
  rate = new_controller whole config.rate;
}

started : start_rtt whole config ≡ some cold
unfolding start_rtt
started = refl

run-Arrived_example :
    Arrived whole mem_sink crc sender shared file sender-IsSender
      (record { session_same = refl; total_same = refl; block_same = refl; crypto_same = refl })
      small
      address
      takes
      []
      config
      events
run-Arrived_example =
    run-Arrived whole mem_sink crc sender shared file sender-IsSender
      (record { session_same = refl; total_same = refl; block_same = refl; crypto_same = refl })
      small address takes [] config cold events started refl defaults_lem refl (omega arith)
      two_blocks ((1, omega arith, last_pdu-IsDataPdu), ((0, omega arith, first_pdu-IsDataPdu), tt))
