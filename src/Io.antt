-- ===== src/Io.antt =====
-- src/io.rs: sources and sinks with positional access. An `io::Error` is `none`.
pub mod Crc
pub mod Memory
mod Tests
use girth.Prelude.{
  ℕ, ◌+◌, ◌-◌, ◌≤◌, ◌<◌, ◌≡◌, ◌&&◌, Bool, true, false, List, Option, some, length, get_or,
  if◌then◌else◌, leb, ltb,
}
use girth.Protocol.Bytes.{slice}

-- `BlockSource`: `read_exact_at off n` fills a buffer of `n` bytes.
pub record BlockSource : Type 0 where
  pub len : ℕ
  pub read_exact_at : ℕ → ℕ → Option (List ℕ)

-- What the program relies on: a source holds `bytes`, and gives any part of them.
pub record Holds (src : BlockSource) (bytes : List ℕ) : Type 0 where
  pub len_same : src.len ≡ length bytes
  pub reads :
      (off n : ℕ)
      → off + n ≤ length bytes
      → src.read_exact_at off n ≡ some (slice off (off + n) bytes)

-- `BlockSink`, over the state of the sink: `write_all_at` gives whether it succeeded, and the state behind it;
-- `byte_at` is the byte that stands at an offset. What the program relies on: a write that succeeds puts its
-- bytes in place, and one that fails may have written a part of them; neither changes a byte elsewhere.
pub record BlockSink (S : Type 0) : Type 0 where
  pub write_all_at : S → ℕ → List ℕ → Bool × S
  pub byte_at : S → ℕ → ℕ
  pub writes :
      (s s' : S) (off i : ℕ) (bs : List ℕ)
      → write_all_at s off bs ≡ (true, s')
      → byte_at s' i
        ≡ (if leb off i && ltb i (off + length bs) then get_or bs (i - off) 0 else byte_at s i)
  pub fails :
      (s s' : S) (off i : ℕ) (bs : List ℕ)
      → write_all_at s off bs ≡ (false, s')
      → (leb off i && ltb i (off + length bs)) ≡ false
      → byte_at s' i ≡ byte_at s i
