-- ===== src/Receiver/Setup.antt =====
-- src/receiver.rs: `new_receiver`.
use girth.Prelude.{
  ℕ, ◌/◌, ◌*◌, false, ◌&&◌, [], Option, none, some, ◌>>=◌, min, ltb, ◌==◌, if◌then◌else◌,
}
use girth.Shared.Float.{Float}
use girth.LossTracker.Bitmap.{new}
use girth.Rate.{RateConfig, RateWarmStart, new_estimator, new_controller, set_rate, seed}
use girth.Runtime.{TransferControl}
use girth.Receiver.{SocketAddr, RecvShared, RecvStats, RttState, Receiver}

module _ (f : Float) where
  -- `RecvConfig`, less the socket, the sink, the statistics and `read_workers`, the number of threads.
  pub record RecvConfig : Type 0 where
    pub shared : RecvShared
    pub rate : RateConfig f
    pub control : Option TransferControl
    pub warm_start : Option RateWarmStart
    pub start_peer : Option SocketAddr

  -- The defaults for zeros.
  unfoldable pub with_defaults : RecvShared → RecvShared
  with_defaults sh = record sh {
    feedback_interval_us = if sh.feedback_interval_us == 0 then 5000 else sh.feedback_interval_us;
    net_tick_interval_us = if sh.net_tick_interval_us == 0 then 10000 else sh.net_tick_interval_us;
    max_nacks_per_pdu = if sh.max_nacks_per_pdu == 0 then 90 else sh.max_nacks_per_pdu;
  }

  -- The depth of the staging pool: 96 MiB of blocks, at most all of them, at least one.
  unfoldable pub pool_depth : RecvShared → ℕ
  pool_depth sh =
      let depth = 96 * 1048576 / sh.block_size in
      let depth' =
        if ltb 0 sh.total_blocks && ltb sh.total_blocks depth then sh.total_blocks else depth in
      if ltb depth' 1 then 1 else depth'

  -- The estimators and the controller: `set_rate` panics on limits that are not in order.
  unfoldable pub warm_rtt : RateWarmStart → RttState f → Option (RttState f)
  warm_rtt w s = do
    rate ← set_rate f s.rate w.rate_bps
    some (record s { rate = rate; net = seed f s.net w.srtt_net_us w.base_rtt_us })

  unfoldable pub start_rtt : RecvConfig → Option (RttState f)
  unfolding warm_rtt
  start_rtt cfg =
      let cold : RttState f = record {
        path = new_estimator f;
        net = new_estimator f;
        rate = new_controller f cfg.rate;
      } in
      elim cfg.warm_start [ none ↦ some cold | some w ↦ warm_rtt w cold ]

  -- The rate that the statistics show for a warm start.
  unfoldable pub warm_target : RateConfig f → RateWarmStart → ℕ → ℕ
  warm_target cfg w shown =
      if w.rate_bps == 0
      then shown
      else (if cfg.max_bps == 0 then w.rate_bps else min w.rate_bps cfg.max_bps)

  abbrev cold_stats : ℕ → RecvStats
  cold_stats target = record {
    corrupt_recv = 0;
    dup_recv = 0;
    payload_recv = 0;
    blocks_written = 0;
    nacks_sent = 0;
    hi_contig = 0;
    rex_queue_len = 0;
    target_rate_bps = target;
    srtt_net_us = 0;
    base_rtt_us = 0;
    srtt_path_us = 0;
    rto_us = 0;
  }

  -- The state that `Shared` is built with.
  unfoldable pub initial : {S : Type 0} → S → RecvConfig → RttState f → Receiver f S
  unfolding pool_depth warm_target
  initial sink cfg rtt =
      let total = cfg.shared.total_blocks in
      record {
        bm = new total;
        ready_bm = new total;
        max_seen = 0;
        seen_any = false;
        all_sent = false;
        flushed_blocks = 0;
        done = false;
        peer = none;
        rtt = rtt;
        stage = [];
        free = pool_depth cfg.shared;
        sink = sink;
        stats = elim cfg.warm_start [
          | none ↦ cold_stats cfg.rate.target_bps
          | some w ↦ record (cold_stats (warm_target cfg.rate w cfg.rate.target_bps)) {
            srtt_net_us = w.srtt_net_us;
            base_rtt_us = w.base_rtt_us;
          }
        ];
      }

  -- A block size of zero panics too.
  unfoldable pub new_receiver : {S : Type 0} → S → RecvConfig → Option (RecvShared × Receiver f S)
  unfolding with_defaults initial start_rtt
  new_receiver sink cfg =
      if cfg.shared.block_size == 0
      then none
      else start_rtt cfg >>= λ rtt. some (with_defaults cfg.shared, initial sink cfg rtt)
