-- ===== src/Protocol/Blocks.antt =====
-- src/protocol.rs: the number of fixed-size blocks of a file.
use girth.Prelude.{ℕ, ◌+◌, ◌*◌, ◌/◌, ◌%◌, ◌<◌, arith, ltb, if◌then◌else◌}
use native.Mathlib.Nat.{div-add-mod', mod-lt, mul-le-mul_right}
use girth.Prelude.Int.{ℤ, pos, negsuc}

-- `u64::div_ceil`. The divisor is at least 1: a block size of 0 panics in the source.
unfoldable pub div_ceil : ℕ → ℕ → ℕ
div_ceil a b = if ltb 0 (a % b) then a / b + 1 else a / b

unfoldable pub num_blocks : ℤ → ℕ → ℕ
unfolding div_ceil
num_blocks (pos size) block_size = div_ceil size block_size
num_blocks (negsuc n) block_size = 0

-- The blocks cover the file, and one fewer do not: what lies in block `seq` is within the file
-- exactly for the `seq` below the number of blocks.
pub num_blocks_covers :
    (size block_size seq : ℕ)
    → 0 < block_size
    → (seq < num_blocks (pos size) block_size → seq * block_size < size)
      × (seq * block_size < size → seq < num_blocks (pos size) block_size)
unfolding num_blocks
num_blocks_covers size block_size seq h = (below, above)
  where
    q : ℕ
    q = size / block_size

    below : seq < div_ceil size block_size → seq * block_size < size
    below k = ground (
      arith,
      div-add-mod' size block_size,
      mul-le-mul_right {m = seq + 1} {n = q} block_size,
      mul-le-mul_right {m = seq} {n = q} block_size,
    )

    above : seq * block_size < size → seq < div_ceil size block_size
    above k = ground (
      arith,
      div-add-mod' size block_size,
      mod-lt size h,
      mul-le-mul_right {m = q + 1} {n = seq} block_size,
      mul-le-mul_right {m = q} {n = seq} block_size,
    )
