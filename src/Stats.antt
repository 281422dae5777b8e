-- ===== src/Stats.antt =====
-- src/stats.rs: the counters of a transfer and what is shown of them. A duration is its nanoseconds.
pub mod Laws
pub mod Lines
mod Tests
use girth.Prelude.{
  ℕ, zero, suc, ◌+◌, ◌-◌, ◌*◌, ◌/◌, ◌%◌, ◌^◌, Bool, List, [], ◌∷◌, ◌++◌, Option, some, ◌>>=◌, ltb,
  ◌==◌, min, max, ◌&&◌, if◌then◌else◌, get_elem?,
}
use girth.Prelude.Int.{ℤ, pos}
use girth.Shared.Float.{Float}
use girth.Shared.Text.{text, show_u64}

-- The counters and gauges, without the start of the clock.
pub record Stats : Type 0 where
  pub bytes_sent : ℕ
  pub packets_sent : ℕ
  pub retrans_sent : ℕ
  pub bytes_recv : ℕ
  pub packets_recv : ℕ
  pub payload_recv : ℕ
  pub dup_recv : ℕ
  pub corrupt_recv : ℕ
  pub nacks_sent : ℕ
  pub nacks_recv : ℕ
  pub blocks_written : ℕ
  pub target_rate_bps : ℕ
  pub srtt_path_us : ℕ
  pub srtt_net_us : ℕ
  pub base_rtt_us : ℕ
  pub rto_us : ℕ
  pub rex_queue_len : ℤ
  pub hi_contig : ℕ
  pub total_bytes : ℕ
  pub total_blocks : ℕ
  pub block_size : ℕ

abbrev pub new_stats : Stats
new_stats = record {
  bytes_sent = 0;
  packets_sent = 0;
  retrans_sent = 0;
  bytes_recv = 0;
  packets_recv = 0;
  payload_recv = 0;
  dup_recv = 0;
  corrupt_recv = 0;
  nacks_sent = 0;
  nacks_recv = 0;
  blocks_written = 0;
  target_rate_bps = 0;
  srtt_path_us = 0;
  srtt_net_us = 0;
  base_rtt_us = 0;
  rto_us = 0;
  rex_queue_len = pos 0;
  hi_contig = 0;
  total_bytes = 0;
  total_blocks = 0;
  block_size = 0;
}

-- The counters that are copied, with what is derived from them.
pub record StatsSnapshot (f : Float) : Type 0 where
  pub elapsed : ℕ
  pub counters : Stats
  pub progress_bytes : ℕ
  pub progress_blocks : ℕ
  pub percent_complete : f.F64
  pub retrans_percent : f.F64
  pub duplicate_percent : f.F64
  pub queue_delay_us : ℕ
  pub average_send_wire_mbps : f.F64
  pub average_recv_wire_mbps : f.F64
  pub average_recv_goodput_mbps : f.F64

abbrev pub progress_blocks : Stats → ℕ
progress_blocks s = min (max s.hi_contig s.blocks_written) s.total_blocks

-- `saturating_mul` stops at the largest 64-bit number.
unfoldable pub progress_bytes : Stats → ℕ
progress_bytes s =
    if ltb 0 s.payload_recv
    then min s.payload_recv s.total_bytes
    else if ltb 0 s.total_bytes && ltb 0 s.block_size
    then min (min (progress_blocks s * s.block_size) (2 ^ 64 - 1)) s.total_bytes
    else 0

module _ (f : Float) (as_secs : ℕ → f.F64) where
  open f use {F64, lit, from_u64, mul, div, lt}

  unfoldable pub mbps : ℕ → F64 → F64
  mbps delta_bytes dt = div (div (mul (from_u64 delta_bytes) (lit 8 1)) (lit 1000000 1)) dt

  unfoldable pub pct : ℕ → ℕ → F64
  pct a b = if b == 0 then lit 0 1 else mul (div (from_u64 a) (from_u64 b)) (lit 100 1)

  unfoldable pub qdelay_ms : ℕ → ℕ → F64
  qdelay_ms srtt_net base =
      if ltb srtt_net base then lit 0 1 else div (from_u64 (srtt_net - base)) (lit 1000 1)

  abbrev at_least : F64 → F64 → F64
  at_least x low = if lt x low then low else x

  abbrev pub percent_complete : Stats → F64
  percent_complete s =
      if ltb 0 s.total_bytes
      then mul (div (from_u64 (progress_bytes s)) (from_u64 s.total_bytes)) (lit 100 1)
      else if s.total_blocks == 0
      then lit 100 1
      else lit 0 1

  -- `snapshot`, `elapsed` after the start; the counters are read as they stand.
  unfoldable pub snapshot : ℕ → Stats → StatsSnapshot f
  unfolding progress_bytes mbps pct
  snapshot elapsed s =
      let secs = at_least (as_secs elapsed) (lit 1 1000000000) in
      record {
        elapsed = elapsed;
        counters = s;
        progress_bytes = progress_bytes s;
        progress_blocks = progress_blocks s;
        percent_complete = percent_complete s;
        retrans_percent = pct s.retrans_sent s.packets_sent;
        duplicate_percent = pct s.dup_recv s.packets_recv;
        queue_delay_us = s.srtt_net_us - s.base_rtt_us;
        average_send_wire_mbps = mbps s.bytes_sent secs;
        average_recv_wire_mbps = mbps s.bytes_recv secs;
        average_recv_goodput_mbps = mbps s.payload_recv secs;
      }

  -- `delta_secs`: a billionth of a second where no time passed, or the clock went back.
  unfoldable pub delta_secs : StatsSnapshot f → StatsSnapshot f → F64
  delta_secs cur prev =
      let d = as_secs (cur.elapsed - prev.elapsed) in
      if ltb cur.elapsed prev.elapsed
      then lit 1 1000000000
      else if lt (lit 0 1) d
      then d
      else lit 1 1000000000

  unfoldable pub send_wire_mbps_since : StatsSnapshot f → StatsSnapshot f → F64
  unfolding mbps delta_secs
  send_wire_mbps_since cur prev =
      mbps (cur.counters.bytes_sent - prev.counters.bytes_sent) (delta_secs cur prev)

  unfoldable pub recv_wire_mbps_since : StatsSnapshot f → StatsSnapshot f → F64
  unfolding mbps delta_secs
  recv_wire_mbps_since cur prev =
      mbps (cur.counters.bytes_recv - prev.counters.bytes_recv) (delta_secs cur prev)

  unfoldable pub recv_goodput_mbps_since : StatsSnapshot f → StatsSnapshot f → F64
  unfolding mbps delta_secs
  recv_goodput_mbps_since cur prev =
      mbps (cur.counters.payload_recv - prev.counters.payload_recv) (delta_secs cur prev)

-- The variables `div`, `exp` and `n` of `human_bytes`.
pub record Scale : Type 0 where
  pub unit : ℕ
  pub exp : ℕ
  pub n : ℕ

-- The loop, on fuel; each round takes ten bits, so six are enough for 64 bits.
pub scale_loop : ℕ → Scale → Scale
scale_loop zero s = s
scale_loop (suc fuel) s =
    let rest =
      scale_loop fuel (record { unit = s.unit * 1024 % 2 ^ 64; exp = s.exp + 1; n = s.n / 1024 }) in
    if ltb s.n 1024 then s else rest

unfoldable pub scale : ℕ → Scale
unfolding scale_loop
scale b = scale_loop 6 (record { unit = 1024; exp = 0; n = b / 1024 })

-- `two_places` is the format `{:.2}`; `none` is an index out of range.
unfoldable pub human_bytes : (f : Float) → (f.F64 → List ℕ) → ℕ → Option (List ℕ)
unfolding scale
human_bytes f two_places b =
    let scaled = (do
      prefix ← get_elem? (text "KMGTPE") (scale b).exp
      some (
          two_places (f.div (f.from_u64 b) (f.from_u64 (scale b).unit))
          ++ (32 ∷ prefix ∷ text "iB"))) in
    if ltb b 1024 then some (show_u64 b ++ text " B") else scaled
