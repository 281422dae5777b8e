-- ===== src/Stats/Tests.antt =====
-- The figures of src/stats.rs at concrete counters, with whole numbers in place of floats.
use girth.Prelude.{ℕ, ◌-◌, ◌^◌, ◌≡◌, refl, [], ◌∷◌, some, arith}
use girth.Shared.Float.{whole}
use girth.Shared.Text.{text}
use girth.Stats.{Stats, new_stats, snapshot, scale, human_bytes}
use girth.Stats.Laws.{IsProgress, snapshot-IsProgress, IsScaled, scale-IsScaled}

abbrev half_way : Stats
half_way = record new_stats {
  total_bytes = 5000;
  total_blocks = 4;
  block_size = 1350;
  hi_contig = 2;
  blocks_written = 3;
}

abbrev seconds : ℕ → ℕ
seconds n = n

half_way_bytes : (snapshot whole seconds 7 half_way).progress_bytes ≡ 4050
unfolding snapshot
half_way_bytes = refl

snapshot-IsProgress_example :
    IsProgress half_way
      (snapshot whole seconds 7 half_way).progress_bytes
      (snapshot whole seconds 7 half_way).progress_blocks
snapshot-IsProgress_example = snapshot-IsProgress whole seconds 7 half_way

scale-IsScaled_example : IsScaled 5000000 (scale 5000000)
scale-IsScaled_example = scale-IsScaled 5000000 (omega arith) (omega arith)

largest : human_bytes whole (λ x. x ∷ []) (2 ^ 64 - 1) ≡ some (15 ∷ text " EiB")
unfolding human_bytes
largest = refl
