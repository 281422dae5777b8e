-- ===== src/Sender/Prefetch/Tests.antt =====
-- `prefetch` (src/sender.rs) of a file of 5 bytes in blocks of 4, with buffers of 60 bytes.
use girth.Prelude.{
  ℕ, ◌+◌, ◌≤◌, ◌≡◌, ap, Bool, true, List, Option, some, arith, length, replicate, length-replicate,
}
use girth.Sender.Prefetch.{Publishes, prefetch-Publishes}
use girth.Receiver.Tests.{file, sender, sender-IsSender, crc}

abbrev pool : ℕ → Option (List ℕ)
pool j = some (replicate 60 0)

abbrev open_channel : ℕ → Bool
open_channel j = true

size_of : Option (List ℕ) → ℕ
size_of (some b) = length b
size_of Option.none = 60

pool_room : (j : ℕ) (buf : List ℕ) → pool j ≡ some buf → 36 + 4 + 16 ≤ length buf
unfolding size_of
pool_room j buf e = omega (arith, ap size_of e, length-replicate {A = ℕ} 60 0)

prefetch-Publishes_example : Publishes crc sender file pool open_channel 2 0
prefetch-Publishes_example =
    prefetch-Publishes crc (λ b. omega arith) sender (omega arith) file sender-IsSender pool
      open_channel pool_room 2 0 (omega arith)
