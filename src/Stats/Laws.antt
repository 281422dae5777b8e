-- ===== src/Stats/Laws.antt =====
-- Bounds of the figures that src/stats.rs shows.
use girth.Prelude.{
  ℕ, zero, suc, ◌+◌, ◌*◌, ◌/◌, ◌^◌, ◌≤◌, ◌<◌, ◌≡◌, refl, inl, inr, List, ◌∷◌, ◌++◌, some, arith,
  ltb, lt→ltb, Bool-cases, get_elem?,
}
use girth.Shared.Float.{Float}
use girth.Shared.Text.{text, show_u64}
use girth.Stats.{
  Stats, StatsSnapshot, progress_blocks, progress_bytes, snapshot, Scale, scale_loop, scale,
  human_bytes,
}

-- Progress is within the transfer, and counts what is contiguous; a receiver with the whole payload and a
-- sender whose peer has every block show all bytes.
pub record IsProgress (s : Stats) (bytes blocks : ℕ) : Type 0 where
  pub blocks_le : blocks ≤ s.total_blocks
  pub bytes_le : bytes ≤ s.total_bytes
  pub contiguous : s.hi_contig ≤ s.total_blocks → s.hi_contig ≤ blocks
  pub received_all : s.payload_recv ≡ s.total_bytes → 0 < s.total_bytes → bytes ≡ s.total_bytes
  pub sent_all :
      s.payload_recv ≡ 0
      → s.total_blocks ≤ s.hi_contig
      → s.total_bytes < 2 ^ 64
      → s.total_bytes ≤ s.total_blocks * s.block_size
      → bytes ≡ s.total_bytes

-- The progress of a snapshot, whatever the counters are.
pub snapshot-IsProgress :
    (f : Float) (as_secs : ℕ → f.F64) (elapsed : ℕ) (s : Stats)
    → let x : StatsSnapshot f = snapshot f as_secs elapsed s in
      IsProgress s x.progress_bytes x.progress_blocks
unfolding snapshot progress_bytes
snapshot-IsProgress f as_secs elapsed s = record {
  blocks_le = omega arith;
  bytes_le = ground arith;
  contiguous = λ h. omega arith;
  received_all = λ e h. ground arith;
  sent_all = λ e h small all.
      let blocks : progress_blocks s ≡ s.total_blocks = omega arith in
      elim (Bool-cases (ltb 0 s.total_bytes)) [
        | inr q ↦ rw (e, q) (ground (arith, q))
        | inl q ↦ elim (Bool-cases (ltb 0 s.block_size)) [
          | inr r ↦
              let none_left : s.block_size ≡ 0 = ground (arith, r) in
              absurd (ground (arith, q, rw none_left at all))
          | inl r ↦ rw (e, q, r, blocks) (omega (arith, all, small))
        ]
      ];
}

-- A number in the unit of the prefix: from 1 up to 1024 of it.
pub record IsScaled (b : ℕ) (s : Scale) : Type 0 where
  pub exp_lt : s.exp < 6
  pub unit_lem : s.unit ≡ 1024 ^ (s.exp + 1)
  pub n_pos : 1 ≤ s.n
  pub n_lt : s.n < 1024
  pub low : s.unit * s.n ≤ b
  pub high : b < s.unit * (s.n + 1)

-- Every number of 64 bits finds its unit, within the fuel and without a product that wraps.
pub scale-IsScaled : (b : ℕ) → 1024 ≤ b → b < 2 ^ 64 → IsScaled b (scale b)
unfolding scale scale_loop
scale-IsScaled b low high = elim (Bool-cases (ltb (b / 1024) 1024)) [
  | inl e0 ↦ rw (e0) (record {
    exp_lt = omega arith;
    unit_lem = refl;
    n_pos = ground (arith, low);
    n_lt = ground (arith, e0);
    low = omega arith;
    high = omega arith;
  })
  | inr e0 ↦ elim (Bool-cases (ltb (b / 1024 / 1024) 1024)) [
    | inl e1 ↦
        rw (e0, e1)
          (record {
            exp_lt = omega arith;
            unit_lem = refl;
            n_pos = ground (arith, e0);
            n_lt = ground (arith, e1);
            low = omega arith;
            high = omega arith;
          })
    | inr e1 ↦ elim (Bool-cases (ltb (b / 1024 / 1024 / 1024) 1024)) [
      | inl e2 ↦
          rw (e0, e1, e2)
            (record {
              exp_lt = omega arith;
              unit_lem = refl;
              n_pos = ground (arith, e0, e1);
              n_lt = ground (arith, e2);
              low = omega arith;
              high = omega arith;
            })
      | inr e2 ↦ elim (Bool-cases (ltb (b / 1024 / 1024 / 1024 / 1024) 1024)) [
        | inl e3 ↦
            rw (e0, e1, e2, e3)
              (record {
                exp_lt = omega arith;
                unit_lem = refl;
                n_pos = ground (arith, e0, e1, e2);
                n_lt = ground (arith, e3);
                low = omega arith;
                high = omega arith;
              })
        | inr e3 ↦ elim (Bool-cases (ltb (b / 1024 / 1024 / 1024 / 1024 / 1024) 1024)) [
          | inl e4 ↦
              rw (e0, e1, e2, e3, e4)
                (record {
                  exp_lt = omega arith;
                  unit_lem = refl;
                  n_pos = ground (arith, e0, e1, e2, e3);
                  n_lt = ground (arith, e4);
                  low = omega arith;
                  high = omega arith;
                })
          | inr e4 ↦
              rw
                (
                  e0,
                  e1,
                  e2,
                  e3,
                  e4,
                  lt→ltb (b / 1024 / 1024 / 1024 / 1024 / 1024 / 1024) 1024 (omega (arith, high)),
                )
                (record {
                  exp_lt = omega arith;
                  unit_lem = refl;
                  n_pos = ground (arith, e4);
                  n_lt = omega (arith, high);
                  low = omega arith;
                  high = omega arith;
                })
        ]
      ]
    ]
  ]
]

prefix-some : (i : ℕ) → i < 6 → (c : ℕ) × (get_elem? (text "KMGTPE") i ≡ some c)
prefix-some zero h = (75, refl)
prefix-some (suc zero) h = (77, refl)
prefix-some (suc (suc zero)) h = (71, refl)
prefix-some (suc (suc (suc zero))) h = (84, refl)
prefix-some (suc (suc (suc (suc zero)))) h = (80, refl)
prefix-some (suc (suc (suc (suc (suc zero))))) h = (69, refl)
prefix-some (suc (suc (suc (suc (suc (suc i)))))) h = absurd (omega arith)

-- A number of 64 bits is shown, with no index out of range, and in words of its unit: below 1024 as it is, and
-- else by its quotient with the unit, whose prefix is the one at the power.
pub human_bytes-shows :
    (f : Float) (two_places : f.F64 → List ℕ) (b : ℕ)
    → b < 2 ^ 64
    → (t : List ℕ) × (human_bytes f two_places b ≡ some t)
unfolding human_bytes
human_bytes-shows f two_places b high = elim (Bool-cases (ltb b 1024)) [
  | inl e ↦ (show_u64 b ++ text " B", rw e refl)
  | inr e ↦
      let k = scale-IsScaled b (ground (arith, e)) high in
      let (c, found) = prefix-some (scale b).exp k.exp_lt in
      (
        two_places (f.div (f.from_u64 b) (f.from_u64 (scale b).unit)) ++ (32 ∷ c ∷ text "iB"),
        rw (e, found) refl,
      )
]
