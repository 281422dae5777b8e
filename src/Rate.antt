-- ===== src/Rate.antt =====
-- src/rate.rs: the RTT estimator and the injection-rate controller, over floats as an interface.
pub mod Bounds
mod Tests
use girth.Prelude.{
  ℕ, Bool, true, false, not, ◌&&◌, ◌||◌, Option, none, some, ◌>>=◌, min, ◌==◌, if◌then◌else◌,
}
use girth.Shared.Float.{Float}

pub data RateMode : Type 0 where
  fixed adaptive : RateMode

pub record RateWarmStart : Type 0 where
  pub rate_bps : ℕ
  pub srtt_net_us : ℕ
  pub base_rtt_us : ℕ

unfoldable pub is_empty : RateWarmStart → Bool
is_empty w = w.rate_bps == 0 && w.srtt_net_us == 0 && w.base_rtt_us == 0

abbrev pub is_fixed : RateMode → Bool
is_fixed fixed = true
is_fixed adaptive = false

module _ (f : Float) where
  open f use {F64, lit, from_u64, to_u64, add, sub, mul, div, lt, le, eq, abs}

  pub record RttEstimator : Type 0 where
    pub srtt : F64
    pub vrtt : F64
    pub min_rtt : F64
    pub have_any : Bool
    pub min_rto : F64
    pub max_rto : F64

  unfoldable pub new_estimator : RttEstimator
  new_estimator = record {
    srtt = lit 0 1;
    vrtt = lit 0 1;
    min_rtt = lit 0 1;
    have_any = false;
    min_rto = lit 2000 1;
    max_rto = lit 4000000 1;
  }

  -- `x.clamp(lo, hi)` between bounds that are in order, as those of the timeout and of the ratio are.
  abbrev pub clamp : F64 → F64 → F64 → F64
  clamp x lo hi = if lt x lo then lo else if lt hi x then hi else x

  -- `x.max(y)`, where neither is not a number: `seed` takes it of two converted integers.
  abbrev pub f64_max : F64 → F64 → F64
  f64_max x y = if lt x y then y else x

  unfoldable pub rto : RttEstimator → F64
  rto e = clamp (add e.srtt (mul (lit 4 1) e.vrtt)) e.min_rto e.max_rto

  -- The estimator after a measurement; the value returned is its `rto`.
  unfoldable pub sample : RttEstimator → F64 → F64 × RttEstimator
  unfolding rto
  sample e measured =
      let rtt = if lt measured (lit 0 1) then lit 0 1 else measured in
      let err = sub rtt e.srtt in
      let e' =
        if not e.have_any
        then record e { srtt = rtt; vrtt = div rtt (lit 2 1); min_rtt = rtt; have_any = true }
        else record e {
          srtt = add e.srtt (mul (lit 125 1000) err);
          vrtt = add e.vrtt (div (sub (abs err) e.vrtt) (lit 4 1));
          min_rtt = if lt rtt e.min_rtt then rtt else e.min_rtt;
        } in
      (rto e', e')

  unfoldable pub seed : RttEstimator → ℕ → ℕ → RttEstimator
  seed e srtt_us min_rtt_us = if srtt_us == 0 then e else record e {
    srtt = from_u64 srtt_us;
    vrtt = f64_max (div (from_u64 srtt_us) (lit 4 1)) (lit 1 1);
    min_rtt = if min_rtt_us == 0 then from_u64 srtt_us else from_u64 (min min_rtt_us srtt_us);
    have_any = true;
  }

  pub record RateConfig : Type 0 where
    pub mode : RateMode
    pub target_bps : ℕ
    pub min_bps : ℕ
    pub max_bps : ℕ
    pub alpha : F64

  pub record RateController : Type 0 where
    pub cfg : RateConfig
    pub rate : F64

  -- The configuration with the defaults put in for zeros.
  unfoldable pub defaults : RateConfig → RateConfig
  defaults cfg = record cfg {
    min_bps = if cfg.min_bps == 0 then 64000 else cfg.min_bps;
    max_bps = if cfg.max_bps == 0 then 10000000000 else cfg.max_bps;
    alpha = if eq cfg.alpha (lit 0 1) then lit 30000000 1 else cfg.alpha;
  }

  -- Where the adaptive mode starts: a twentieth of the target, at least the minimum.
  unfoldable pub adaptive_start : RateConfig → F64
  adaptive_start cfg =
      let target = from_u64 cfg.target_bps in
      let start =
        if eq target (lit 0 1) || lt (from_u64 cfg.max_bps) target
        then from_u64 cfg.max_bps
        else target in
      let slow = mul start (lit 5 100) in
      if lt slow (from_u64 cfg.min_bps) then from_u64 cfg.min_bps else slow

  unfoldable pub new_controller : RateConfig → RateController
  unfolding defaults adaptive_start
  new_controller given =
      let cfg = defaults given in
      record {
        cfg = cfg;
        rate = if is_fixed cfg.mode then from_u64 cfg.target_bps else adaptive_start cfg;
      }

  -- `x.clamp(lo, hi)` with the limits of the configuration: it panics, which is `none`, where they are
  -- not in order.
  abbrev pub bound : RateConfig → F64 → Option F64
  bound cfg x =
      if le (from_u64 cfg.min_bps) (from_u64 cfg.max_bps)
      then some (clamp x (from_u64 cfg.min_bps) (from_u64 cfg.max_bps))
      else none

  -- The controller after the call, and the target.
  unfoldable pub update : RateController → F64 → F64 → Option (ℕ × RateController)
  update c srtt_net_us base_us =
      let fixed_rate = from_u64 c.cfg.target_bps in
      let base_avg =
        if not (lt base_us (lit 5000 1) && lt srtt_net_us (lit 20000 1))
        then clamp (div base_us srtt_net_us) (lit 0 1) (lit 1 1)
        else lit 1 1 in
      let next = mul (lit 5 10) (add (add (mul c.rate base_avg) c.rate) c.cfg.alpha) in
      if is_fixed c.cfg.mode
      then some (to_u64 fixed_rate, record c { rate = fixed_rate })
      else (if le srtt_net_us (lit 0 1)
          then some (to_u64 c.rate, c)
          else bound c.cfg next >>= λ rate. some (to_u64 rate, record c { rate = rate }))

  unfoldable pub set_rate : RateController → ℕ → Option RateController
  set_rate c rate_bps =
      if rate_bps == 0
      then some c
      else bound c.cfg (from_u64 rate_bps) >>= λ rate. some (record c { rate = rate })
