-- ===== src/Receiver.antt =====
-- src/receiver.rs: the receiving data plane. The threads share one state; each handler here runs
-- to its end, and the threads' work is an interleaving of handlers. A panic is `none`.
pub mod Ingest
pub mod Flusher
pub mod Setup
pub mod Feedback
pub mod Accept
pub mod Delivery
pub mod Tests
use girth.Prelude.{ℕ, Bool, Option, List, [], ◌∷◌, ◌==◌, none, some, if◌then◌else◌}
use girth.Shared.Float.{Float}
use girth.Crypto.Payload.{Aead}
use girth.LossTracker.Bitmap.{RecvBitmap}
use girth.Rate.{RttEstimator, RateController}

-- `SocketAddr` of the standard library, by its address and its port.
pub record SocketAddr : Type 0 where
  pub ip : ℕ
  pub port : ℕ

-- The fields of `Shared` that do not change.
pub record RecvShared : Type 0 where
  pub file_size : ℕ
  pub block_size : ℕ
  pub total_blocks : ℕ
  pub session : ℕ
  pub expected_peer_ip : Option ℕ
  pub crypto : Option Aead
  pub feedback_interval_us : ℕ
  pub net_tick_interval_us : ℕ
  pub max_nacks_per_pdu : ℕ

-- The counters of `Stats` that the receiver writes.
pub record RecvStats : Type 0 where
  pub corrupt_recv : ℕ
  pub dup_recv : ℕ
  pub payload_recv : ℕ
  pub blocks_written : ℕ
  pub nacks_sent : ℕ
  pub hi_contig : ℕ
  pub rex_queue_len : ℕ
  pub target_rate_bps : ℕ
  pub srtt_net_us : ℕ
  pub base_rtt_us : ℕ
  pub srtt_path_us : ℕ
  pub rto_us : ℕ

-- `RttState`.
pub record RttState (f : Float) : Type 0 where
  pub path : RttEstimator f
  pub net : RttEstimator f
  pub rate : RateController f

-- The fields of `Shared` that change, over the state `S` of the sink. `stage` is the map of staged
-- blocks, and `free` the number of buffers in the pool's channel, whose contents do not matter.
pub record Receiver (f : Float) (S : Type 0) : Type 0 where
  pub bm : RecvBitmap
  pub ready_bm : RecvBitmap
  pub max_seen : ℕ
  pub seen_any : Bool
  pub all_sent : Bool
  pub flushed_blocks : ℕ
  pub done : Bool
  pub peer : Option SocketAddr
  pub rtt : RttState f
  pub stage : List (ℕ × List ℕ)
  pub free : ℕ
  pub sink : S
  pub stats : RecvStats

-- `stage.remove(&seq)`: the entry, and the map without it.
abbrev pub staged : ℕ → List (ℕ × List ℕ) → Option (List ℕ)
staged seq [] = none
staged seq ((k, bytes) ∷ rest) = if k == seq then some bytes else staged seq rest

abbrev pub unstage : ℕ → List (ℕ × List ℕ) → List (ℕ × List ℕ)
unstage seq [] = []
unstage seq ((k, bytes) ∷ rest) =
    if k == seq then unstage seq rest else (k, bytes) ∷ unstage seq rest
