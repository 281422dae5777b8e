-- ===== src/Rate/Tests.antt =====
-- src/rate.rs at concrete inputs, with whole numbers in place of floats.
use girth.Prelude.{==_refl, refl, List, [], ◌∷◌, arith, none, ◌≡◌}
use girth.Shared.Float.{whole}
use girth.Rate.{adaptive, RateController, new_estimator, rto, update}
use girth.Rate.Bounds.{IsOrder, Clamped, Measure, samples, seeds, measure, rto-measure-Clamped}

order : IsOrder whole
order = record {
  total = λ x y a b h. ground arith;
  reflexive = λ x h. ground arith;
  unordered = λ x y h. ground (arith, ==_refl x);
}

abbrev measures : List (Measure whole)
measures = seeds 8000 5000 ∷ samples 9000 ∷ samples 30 ∷ []

rto-measure-Clamped_example :
    Clamped whole 2000 4000000
      (whole.add
        (measure whole (new_estimator whole) measures).srtt
        (whole.mul (whole.lit 4 1) (measure whole (new_estimator whole) measures).vrtt))
      (rto whole (measure whole (new_estimator whole) measures))
rto-measure-Clamped_example = rto-measure-Clamped whole order refl refl refl measures

abbrev growing : RateController whole
growing = record {
  cfg = record {
    mode = adaptive;
    target_bps = 5000000;
    min_bps = 64000;
    max_bps = 10000;
    alpha = 30000;
  };
  rate = 64000;
}

-- A maximum below the minimum ends the thread at the first measurement.
panics : update whole growing 30000 20000 ≡ none
unfolding update
panics = refl
