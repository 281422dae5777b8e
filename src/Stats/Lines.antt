-- ===== src/Stats/Lines.antt =====
-- src/stats.rs: `format_line` and `summary`, the lines that show the counters. The formats `{:.1}` and `{:.2}`
-- of the standard library are parameters.
use girth.Prelude.{ℕ, ◌+◌, ◌-◌, ◌%◌, ◌^◌, List, ◌++◌, Option, some, ◌>>=◌, ltb, if◌then◌else◌}
use girth.Auth.{same_bytes}
use girth.Shared.Float.{Float}
use girth.Shared.Text.{text, show_u64, show_i64}
use girth.Stats.{Stats, mbps, pct, qdelay_ms, human_bytes}

-- `Snapshot`, the time in nanoseconds.
pub record Snapshot : Type 0 where
  pub t : ℕ
  pub bytes_sent : ℕ
  pub bytes_recv : ℕ
  pub payload_recv : ℕ

unfoldable pub snap : ℕ → Stats → Snapshot
snap now s = record {
  t = now;
  bytes_sent = s.bytes_sent;
  bytes_recv = s.bytes_recv;
  payload_recv = s.payload_recv;
}

-- The difference of two 64-bit counters, as in a release build.
abbrev delta : ℕ → ℕ → ℕ
delta a b = (a + 2 ^ 64 - b) % 2 ^ 64

module _ (f : Float) (as_secs : ℕ → f.F64) (one_place two_places : f.F64 → List ℕ) where
  open f use {F64, lit, from_u64, mul, div, le}

  abbrev thousandths : ℕ → List ℕ
  thousandths us = one_place (div (from_u64 us) (lit 1000 1))

  abbrev millionths : ℕ → List ℕ
  millionths bps = one_place (div (from_u64 bps) (lit 1000000 1))

  abbrev send_line : F64 → F64 → Snapshot → Snapshot → Stats → List ℕ
  send_line el dt prev cur s =
      text "t="
      ++ (one_place el
          ++ (text " role=send wire_mbps="
              ++ (one_place (mbps f as_secs (delta cur.bytes_sent prev.bytes_sent) dt)
                  ++ (text " target_mbps="
                      ++ (millionths s.target_rate_bps
                          ++ (text " pkts="
                              ++ (show_u64 s.packets_sent
                                  ++ (text " retrans="
                                      ++ (show_u64 s.retrans_sent
                                          ++ (text " nacks_in="
                                              ++ (show_u64 s.nacks_recv
                                                  ++ (text " rexq="
                                                      ++ (show_i64 s.rex_queue_len
                                                          ++ (text " hicontig="
                                                            ++ (show_u64 s.hi_contig
                                                            ++ (text "/"
                                                            ++ show_u64
                                                            s.total_blocks))))))))))))))))

  abbrev rates : F64 → Snapshot → Snapshot → List ℕ
  rates dt prev cur =
      text " role=recv wire_mbps="
      ++ (one_place (mbps f as_secs (delta cur.bytes_recv prev.bytes_recv) dt)
          ++ (text " goodput_mbps="
              ++ one_place (mbps f as_secs (delta cur.payload_recv prev.payload_recv) dt)))

  abbrev losses : Stats → List ℕ
  losses s =
      text " pkts="
      ++ (show_u64 s.packets_recv
          ++ (text " dup="
              ++ (show_u64 s.dup_recv
                  ++ (text "("
                      ++ (two_places (
                            if ltb 0 s.packets_recv
                            then mul (div (from_u64 s.dup_recv) (from_u64 s.packets_recv))
                                (lit 100 1)
                            else lit 0 1)
                          ++ (text "%) corrupt="
                              ++ (show_u64 s.corrupt_recv
                                  ++ (text " nacks_out="
                                      ++ (show_u64 s.nacks_sent
                                          ++ (text " losstab=" ++ show_i64 s.rex_queue_len))))))))))

  abbrev delays : Stats → List ℕ
  delays s =
      text " srtt_path_ms="
      ++ (thousandths s.srtt_path_us
          ++ (text " srtt_net_ms="
              ++ (thousandths s.srtt_net_us
                  ++ (text " base_ms="
                      ++ (thousandths s.base_rtt_us
                          ++ (text " rto_ms="
                              ++ (thousandths s.rto_us
                                  ++ (text " qdelay_ms="
                                      ++ one_place
                                          (qdelay_ms f as_secs s.srtt_net_us s.base_rtt_us)))))))))

  -- The line of the reporter, `el` seconds after the start and `dt` after the last line.
  unfoldable pub format_line : List ℕ → F64 → F64 → Snapshot → Snapshot → Stats → List ℕ
  unfolding mbps qdelay_ms
  format_line role el dt prev cur s =
      if same_bytes role (text "send")
      then send_line el dt prev cur s
      else text "t="
        ++ (one_place el
            ++ (rates dt prev cur
                ++ (losses s
                    ++ (delays s
                        ++ (text " target_mbps="
                            ++ (millionths s.target_rate_bps
                                ++ (text " hicontig="
                                    ++ (show_u64 s.hi_contig
                                        ++ (text "/" ++ show_u64 s.total_blocks)))))))))

  -- The line at the end, `secs` after the start; `none` is the panic of `human_bytes`.
  unfoldable pub summary : List ℕ → F64 → Stats → Option (List ℕ)
  unfolding human_bytes pct
  summary role secs s =
      let el = if le secs (lit 0 1) then lit 1 1000000000 else secs in
      let speed : ℕ → List ℕ =
        λ n. one_place (div (div (mul (from_u64 n) (lit 8 1)) (lit 1000000 1)) el) in
      do
        size ← human_bytes f two_places s.total_bytes
        some (
            if same_bytes role (text "send")
            then text "girth send complete: "
              ++ (size
                  ++ (text " in "
                      ++ (two_places el
                          ++ (text "s (wire "
                              ++ (speed s.bytes_sent
                                  ++ (text " Mbps) | pkts="
                                      ++ (show_u64 s.packets_sent
                                          ++ (text " retrans="
                                              ++ (show_u64 s.retrans_sent
                                                  ++ (text " ("
                                                      ++ (two_places (
                                                            pct f as_secs s.retrans_sent
                                                            s.packets_sent)
                                                          ++ (text "%) nacks_in="
                                                            ++ show_u64 s.nacks_recv))))))))))))
            else text "girth recv complete: "
              ++ (size
                  ++ (text " in "
                      ++ (two_places el
                          ++ (text "s (goodput "
                              ++ (speed s.payload_recv
                                  ++ (text " Mbps, wire "
                                      ++ (speed s.bytes_recv
                                          ++ (text " Mbps) | pkts="
                                              ++ (show_u64 s.packets_recv
                                                  ++ (text " dup="
                                                      ++ (show_u64 s.dup_recv
                                                          ++ (text " ("
                                                            ++ (two_places (
                                                            pct f as_secs s.dup_recv s.packets_recv)
                                                            ++ (text "%) corrupt="
                                                            ++ (show_u64 s.corrupt_recv
                                                            ++ (text " nacks_out="
                                                            ++ show_u64
                                                            s.nacks_sent)))))))))))))))))
