-- ===== src/Runtime.antt =====
-- src/runtime.rs: the phases of a transfer, its control and its handle. The fields are atomics; each
-- operation is one access of each field it names, so that calls interleave as the calls here do.
pub mod Laws
mod Tests
use girth.Prelude.{ℕ, Bool, true, false, List, Option, none, some, ◌==◌, min, max, if◌then◌else◌}

pub data TransferPhase : Type 0 where
  queued connecting transferring verifying complete failed : TransferPhase

abbrev pub paused_rate_bps : ℕ
paused_rate_bps = 1000000

unfoldable pub as_u8 : TransferPhase → ℕ
as_u8 queued = 0
as_u8 connecting = 1
as_u8 transferring = 2
as_u8 verifying = 3
as_u8 complete = 4
as_u8 failed = 5

unfoldable pub from_u8 : ℕ → TransferPhase
from_u8 v =
    if v == 1
    then connecting
    else if v == 2
    then transferring
    else if v == 3
    then verifying
    else if v == 4
    then complete
    else if v == 5
    then failed
    else queued

pub record TransferControl : Type 0 where
  pub rate_limit : ℕ
  pub paused : Bool
  pub cancelled : Bool

unfoldable pub new_control : TransferControl
new_control = record { rate_limit = 0; paused = false; cancelled = false }

unfoldable pub set_rate_limit : TransferControl → Option ℕ → TransferControl
set_rate_limit c none = record c { rate_limit = 0 }
set_rate_limit c (some bps) = record c { rate_limit = bps }

unfoldable pub rate_limit_bps : TransferControl → Option ℕ
rate_limit_bps c = if c.rate_limit == 0 then none else some c.rate_limit

unfoldable pub pause : TransferControl → TransferControl
pause c = record c { paused = true }

unfoldable pub resume : TransferControl → TransferControl
resume c = record c { paused = false }

unfoldable pub cancel : TransferControl → TransferControl
cancel c = record c { cancelled = true }

unfoldable pub effective_rate_bps : TransferControl → ℕ → ℕ
unfolding rate_limit_bps
effective_rate_bps c base =
    if c.paused
    then min paused_rate_bps (max base 1)
    else elim (rate_limit_bps c) [ some limit ↦ min base (max limit 1) | none ↦ base ]

-- `effective_rate` of the data planes: without a control the rate stays.
unfoldable pub effective_rate : Option TransferControl → ℕ → ℕ
unfolding effective_rate_bps
effective_rate none rate = rate
effective_rate (some c) rate = effective_rate_bps c rate

-- The error's text is its bytes.
pub record TransferHandle : Type 0 where
  pub control : TransferControl
  pub phase_bits : ℕ
  pub last_error : Option (List ℕ)

unfoldable pub new_handle : TransferHandle
unfolding new_control
new_handle = record { control = new_control; phase_bits = 0; last_error = none }

unfoldable pub phase : TransferHandle → TransferPhase
unfolding from_u8
phase h = from_u8 h.phase_bits

unfoldable pub set_phase : TransferHandle → TransferPhase → TransferHandle
unfolding as_u8
set_phase h failed = record h { phase_bits = as_u8 failed }
set_phase h p = record h { phase_bits = as_u8 p; last_error = none }

unfoldable pub set_failed : TransferHandle → List ℕ → TransferHandle
set_failed h err = record h { phase_bits = 5; last_error = some err }
