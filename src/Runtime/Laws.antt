-- ===== src/Runtime/Laws.antt =====
-- The effective rate and the phases (src/runtime.rs).
use girth.Prelude.{ℕ, ◌≤◌, ◌<◌, ◌≡◌, refl, List, none, some, arith}
use girth.Runtime.{
  TransferPhase, queued, connecting, transferring, verifying, complete, failed, as_u8, from_u8,
  TransferControl, pause, resume, set_rate_limit, rate_limit_bps, effective_rate_bps,
  TransferHandle, phase, set_phase, set_failed,
}

-- Whatever a control holds, the effective rate of a positive rate is positive and no more than that
-- rate; it is at most 1 Mbit/s while paused, and at most a limit that was set while not.
pub record Limits (c : TransferControl) (limit base : ℕ) : Type 0 where
  pub positive : 0 < effective_rate_bps c base
  pub at_most : effective_rate_bps c base ≤ base
  pub paused_rate : effective_rate_bps (pause c) base ≤ 1000000
  pub limited : effective_rate_bps (resume (set_rate_limit c (some limit))) base ≤ limit
  pub lifted : effective_rate_bps (resume (set_rate_limit c none)) base ≡ base

positive_lem : (c : TransferControl) (base : ℕ) → 0 < base → 0 < effective_rate_bps c base
unfolding effective_rate_bps rate_limit_bps
positive_lem c base h = ground arith

at_most_lem : (c : TransferControl) (base : ℕ) → 0 < base → effective_rate_bps c base ≤ base
unfolding effective_rate_bps rate_limit_bps
at_most_lem c base h = ground arith

-- A control never raises the rate and never stops it: for a positive rate and a positive limit, the
-- rate in force is positive and at most the rate; it is at most 1 Mbit/s while paused, at most the
-- limit once one is set and the transfer resumed, and the rate itself once the limit is lifted.
pub effective_rate_bps-Limits :
    (c : TransferControl) (limit base : ℕ) → 0 < limit → 0 < base → Limits c limit base
unfolding effective_rate_bps rate_limit_bps pause resume set_rate_limit
effective_rate_bps-Limits c limit base k h = record {
  positive = positive_lem c base h;
  at_most = at_most_lem c base h;
  paused_rate = ground arith;
  limited = ground arith;
  lifted = refl;
}

from_u8-as_u8 : (p : TransferPhase) → from_u8 (as_u8 p) ≡ p
unfolding from_u8 as_u8
from_u8-as_u8 queued = refl
from_u8-as_u8 connecting = refl
from_u8-as_u8 transferring = refl
from_u8-as_u8 verifying = refl
from_u8-as_u8 complete = refl
from_u8-as_u8 failed = refl

-- A handle reports the phase that was set; setting a phase other than the failed one forgets the
-- error, and a failure is reported with its error, which setting the failed phase keeps.
pub phase-set_phase :
    (h : TransferHandle) (p : TransferPhase) (err : List ℕ)
    → (phase (set_phase h p) ≡ p)
      × (phase (set_failed h err) ≡ failed)
      × ((set_failed h err).last_error ≡ some err)
      × ((set_phase (set_failed h err) failed).last_error ≡ some err)
      × ((set_phase (set_failed h err) complete).last_error ≡ none)
unfolding phase set_phase set_failed
phase-set_phase h p err = (same p, refl, refl, refl, refl)
  where
    same : (p : TransferPhase) → phase (set_phase h p) ≡ p
    same queued = from_u8-as_u8 queued
    same connecting = from_u8-as_u8 connecting
    same transferring = from_u8-as_u8 transferring
    same verifying = from_u8-as_u8 verifying
    same complete = from_u8-as_u8 complete
    same failed = from_u8-as_u8 failed
