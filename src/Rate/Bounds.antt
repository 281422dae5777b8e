-- ===== src/Rate/Bounds.antt =====
-- The bounds that src/rate.rs keeps: on the retransmission timeout, and on the rate.
use girth.Prelude.{
  ℕ, ◌≡◌, ◌⊎◌, inl, inr, refl, ◌==◌, Bool-cases, Option-cases, true, false, arith, List, [], ◌∷◌,
  some,
}
use girth.Shared.Float.{Float}
use girth.Rate.{
  RateMode, fixed, adaptive, RttEstimator, new_estimator, clamp, rto, sample, seed, RateController,
  update, set_rate,
}

module _ (f : Float) where
  open f use {F64, lt, le, eq, add, mul, from_u64, lit}

  -- What IEEE arithmetic says of comparisons: a number that is not below another is at least that one, a
  -- number is at least itself, and what is not a number is not below or above anything.
  pub record IsOrder : Type 0 where
    pub total : (x y : F64) → eq x x ≡ true → eq y y ≡ true → lt x y ≡ false → le y x ≡ true
    pub reflexive : (x : F64) → eq x x ≡ true → le x x ≡ true
    pub unordered : (x y : F64) → eq x x ≡ false → (lt x y ≡ false) × (lt y x ≡ false)

  -- What `clamp` makes of `x`: a number within the bounds of a number, and what is not one stays so.
  pub data Clamped (lo hi x : F64) : F64 → Type 0 where
    within : {y : F64} → eq x x ≡ true → le lo y ≡ true → le y hi ≡ true → Clamped lo hi x y
    not_a_number : eq x x ≡ false → Clamped lo hi x x

  clamp-Clamped :
      IsOrder
      → (lo hi x : F64) → eq lo lo ≡ true
      → eq hi hi ≡ true
      → le lo hi ≡ true
      → Clamped lo hi x (clamp f x lo hi)
  clamp-Clamped o lo hi x a b h = elim (Bool-cases (eq x x)) [
    | inr n ↦ rw ((o.unordered x lo n).0, (o.unordered x hi n).1) (not_a_number n)
    | inl n ↦ elim (Bool-cases (lt x lo)) [
      | inl p ↦ rw p (within n (o.reflexive lo a) h)
      | inr p ↦ elim (Bool-cases (lt hi x)) [
        | inl q ↦ rw (p, q) (within n h (o.reflexive hi b))
        | inr q ↦ rw (p, q) (within n (o.total x lo n a p) (o.total hi x b n q))
      ]
    ]
  ]

  -- A change of the estimator.
  pub data Measure : Type 0 where
    samples : F64 → Measure
    seeds : ℕ → ℕ → Measure

  abbrev pub measure : RttEstimator f → List Measure → RttEstimator f
  measure e [] = e
  measure e (samples x ∷ ms) = measure (sample f e x).1 ms
  measure e (seeds a b ∷ ms) = measure (seed f e a b) ms

  measure-bounds :
      (ms : List Measure) (e : RttEstimator f)
      → ((measure e ms).min_rto ≡ e.min_rto) × ((measure e ms).max_rto ≡ e.max_rto)
  unfolding sample seed
  measure-bounds [] e = (refl, refl)
  measure-bounds (samples x ∷ ms) e = ground (arith, measure-bounds ms (sample f e x).1)
  measure-bounds (seeds a b ∷ ms) e = ground (arith, measure-bounds ms (seed f e a b))

  -- Whatever was measured or seeded, the timeout lies between 2 ms and 4 s where the smoothed round trip
  -- time and four times its variation add to a number, and is that sum, not a number, where they do not.
  -- The bounds are numbers and in order, and the comparisons those of IEEE arithmetic.
  pub rto-measure-Clamped :
      IsOrder
      → eq (lit 2000 1) (lit 2000 1) ≡ true
      → eq (lit 4000000 1) (lit 4000000 1) ≡ true
      → le (lit 2000 1) (lit 4000000 1) ≡ true
      → (ms : List Measure)
      → let e = measure (new_estimator f) ms in
        Clamped (lit 2000 1) (lit 4000000 1) (add e.srtt (mul (lit 4 1) e.vrtt)) (rto f e)
  unfolding rto
  rto-measure-Clamped o a b h ms =
      let e = measure (new_estimator f) ms in
      let (lo, hi) = measure-bounds ms (new_estimator f) in
      let lo' : e.min_rto ≡ lit 2000 1 = unfold new_estimator in lo in
      let hi' : e.max_rto ≡ lit 4000000 1 = unfold new_estimator in hi in
      rw (lo', hi')
        (clamp-Clamped o (lit 2000 1) (lit 4000000 1) (add e.srtt (mul (lit 4 1) e.vrtt)) a b h)

  -- A controller whose limits are in order, which the fixed mode does not need.
  abbrev pub IsLimited : RateController f → Type 0
  IsLimited c = (c.cfg.mode ≡ fixed) ⊎ (le (from_u64 c.cfg.min_bps) (from_u64 c.cfg.max_bps) ≡ true)

  pub update-runs :
      (c : RateController f) (srtt base : F64)
      → IsLimited c
      → (own : ℕ) × (c' : RateController f) × (update f c srtt base ≡ some (own, c'))
  unfolding update
  update-runs c srtt base limited = elim (Option-cases (update f c srtt base)) [
    | inr ((own, c'), q) ↦ (own, c', q)
    | inl q ↦ absurd (elim limited [
      | inl m ↦ cc (rw (update, m) at q)
      | inr h ↦ elim (mode-cases c.cfg.mode) [
        | inl m ↦ cc (rw (update, m) at q)
        | inr m ↦ elim (Bool-cases (le srtt (lit 0 1))) [
          | inl z ↦ cc (rw (update, m, z) at q)
          | inr z ↦ cc (rw (update, m, z, h) at q)
        ]
      ]
    ])
  ]
    where
      mode-cases : (m : RateMode) → (m ≡ fixed) ⊎ (m ≡ adaptive)
      mode-cases fixed = inl refl
      mode-cases adaptive = inr refl

  pub set_rate-runs :
      (c : RateController f) (bps : ℕ)
      → le (from_u64 c.cfg.min_bps) (from_u64 c.cfg.max_bps) ≡ true
      → (c' : RateController f) × (set_rate f c bps ≡ some c')
  unfolding set_rate
  set_rate-runs c bps h = elim (Bool-cases (bps == 0)) [
    | inl z ↦ (c, rw z refl)
    | inr z ↦ (
      record c { rate = clamp f (from_u64 bps) (from_u64 c.cfg.min_bps) (from_u64 c.cfg.max_bps) },
      rw (z, h) refl,
    )
  ]
