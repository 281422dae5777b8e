-- ===== src/LossTracker/Bitmap.antt =====
-- src/losstracker.rs: RecvBitmap. The words are `AtomicU64`s, each operation one atomic access, so that
-- concurrent calls are an interleaving of the calls here. An index out of range panics: `none`.
pub mod Laws
use Prim.Native.Nat.{bit_and, bit_or}
use girth.Prelude.{
  ℕ, ◌*◌, ◌/◌, ◌^◌, ◌≤◌, ◌%◌, Bool, not, Option, none, some, ◌>>=◌, List, ◌==◌, length, get_elem?,
  get_or, set, replicate,
}
use girth.Prelude.Bits.{bit}
use girth.Protocol.Blocks.{div_ceil}

pub record RecvBitmap : Type 0 where
  pub words : List ℕ
  pub total : ℕ

unfoldable pub new : ℕ → RecvBitmap
unfolding div_ceil
new total = record { words = replicate (div_ceil total 64) 0; total = total }

-- `1u64 << (seq & 63)`
abbrev pub mask : ℕ → ℕ
mask seq = 2 ^ bit_and seq 63

-- `prev` is the word before `fetch_or`; the result tells whether the bit was clear.
unfoldable pub set_and_test : RecvBitmap → ℕ → Option (Bool × RecvBitmap)
set_and_test bm seq = do
  prev ← get_elem? bm.words (seq / 64)
  some (
    bit_and prev (mask seq) == 0,
    record bm { words = set bm.words (seq / 64) (bit_or prev (mask seq)) },
  )

unfoldable pub is_set : RecvBitmap → ℕ → Option Bool
is_set bm seq = do w ← get_elem? bm.words (seq / 64); some (not (bit_and w (mask seq) == 0))

-- What a bitmap stands for: the set of the blocks marked in it.
unfoldable pub has : RecvBitmap → ℕ → Bool
has bm seq = bit (get_or bm.words (seq / 64) 0) (seq % 64) == 1

-- Room for `n` blocks.
abbrev pub Covers : RecvBitmap → ℕ → Type 0
Covers bm n = n ≤ 64 * length bm.words
