-- ===== src/Control.antt =====
-- src/control.rs: the control messages, their framing, and the knobs of a transfer. Strings are their
-- bytes, and the JSON of a message is serde's, a parameter.
pub mod Framing
mod Tests
use girth.Prelude.{ℕ, ◌*◌, Bool, true, false, List, [], ◌∷◌, Option, none, some, if◌then◌else◌}
use girth.Prelude.Int.{ℤ, pos, negsuc}
use girth.Shared.Float.{Float}
use girth.Shared.Text.{text}
use girth.Rate.{RateConfig, fixed, adaptive}

abbrev pub mode_send : List ℕ
mode_send = text "send"

abbrev pub mode_recv : List ℕ
mode_recv = text "recv"

pub record Hello : Type 0 where
  pub version : ℤ
  pub mode : List ℕ
  pub name : List ℕ
  pub size : ℤ
  pub block_size : ℤ
  pub rate_bps : ℕ
  pub max_bps : ℕ
  pub adaptive : Bool
  pub alpha_bps : ℕ
  pub crc32c : ℕ
  pub warm_rate_bps : ℕ
  pub warm_srtt_net_us : ℕ
  pub warm_base_rtt_us : ℕ
  pub encrypt : Bool
  pub ciphers : Option (List (List ℕ))
  pub pub_key : Option (List ℕ)
  pub auth_mac : Option (List ℕ)

pub record Ack : Type 0 where
  pub ok : Bool
  pub err : List ℕ
  pub udp_port : ℤ
  pub session : ℕ
  pub size : ℤ
  pub crc32c : ℕ
  pub name : List ℕ
  pub encrypt : Bool
  pub cipher : List ℕ
  pub pub_key : Option (List ℕ)
  pub auth_required : Bool
  pub auth_mac : Option (List ℕ)

-- `Ack::default()`
abbrev pub default_ack : Ack
default_ack = record {
  ok = false;
  err = [];
  udp_port = pos 0;
  session = 0;
  size = pos 0;
  crc32c = 0;
  name = [];
  encrypt = false;
  cipher = [];
  pub_key = none;
  auth_required = false;
  auth_mac = none;
}

-- The report interval is in seconds.
pub record TransferParams : Type 0 where
  pub block_size : ℕ
  pub rate_bps : ℕ
  pub max_bps : ℕ
  pub adaptive : Bool
  pub alpha_bps : ℕ
  pub read_workers : ℕ
  pub feedback_interval_us : ℕ
  pub net_tick_interval_us : ℕ
  -- In milliseconds.
  pub report_interval : ℕ
  pub verbose : Bool
  pub encrypt : Bool

abbrev pub default_params : TransferParams
default_params = record {
  block_size = 1350;
  rate_bps = 100000000;
  max_bps = 10000000000;
  adaptive = false;
  alpha_bps = 30000000;
  read_workers = 0;
  feedback_interval_us = 5000;
  net_tick_interval_us = 10000;
  report_interval = 1000;
  verbose = false;
  encrypt = false;
}

abbrev pub bytes_or_none : Option (List ℕ) → List ℕ
bytes_or_none none = []
bytes_or_none (some b) = b

abbrev pub magnitude : ℤ → ℕ
magnitude (pos n) = n
magnitude (negsuc n) = 0

unfoldable pub rate_config : (f : Float) → TransferParams → ℕ → RateConfig f
rate_config f p target = record {
  mode = if p.adaptive then adaptive else fixed;
  target_bps = target;
  min_bps = 0;
  max_bps = p.max_bps;
  alpha = f.from_u64 p.alpha_bps;
}
