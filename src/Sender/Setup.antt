-- ===== src/Sender/Setup.antt =====
-- src/sender.rs: the configuration of a sender, and the state that `Sender::new` and `run` start with.
use girth.Prelude.{ℕ, false, [], Option}
use girth.Shared.Float.{Float}
use girth.Runtime.{TransferControl}
use girth.Rate.{RateConfig, RateWarmStart}
use girth.Receiver.{SocketAddr}
use girth.Sender.Pdu.{SendShared}
use girth.Sender.Control.{SendState, SendPeer, initial_rate}

module _ (f : Float) where
  -- `SendConfig`, less the socket, the statistics and `read_workers`, the number of threads.
  pub record SendConfig : Type 0 where
    pub peer : Option SocketAddr
    pub expected_peer_ip : Option ℕ
    pub shared : SendShared
    pub rate : RateConfig f
    pub control : Option TransferControl
    pub warm_start : Option RateWarmStart

  -- The rate in the statistics, which `run` starts from.
  unfoldable pub start_rate : SendConfig → ℕ
  unfolding initial_rate
  start_rate cfg = initial_rate cfg.rate.mode cfg.rate.target_bps cfg.rate.max_bps cfg.warm_start

  unfoldable pub feedback_peer : SendConfig → SendPeer
  unfolding start_rate
  feedback_peer cfg = record {
    session = cfg.shared.session;
    rate_mode = cfg.rate.mode;
    configured_target_bps = start_rate cfg;
    control = cfg.control;
  }

  -- The state that the threads share at the start.
  unfoldable pub new_sender : SendConfig → SendState
  unfolding start_rate
  new_sender cfg = record {
    target_bps = start_rate cfg;
    done = false;
    rex = record { heap = []; set = [] };
    tick = record { pending = false; val = 0; is_net = false; t2 = 0 };
    nacks_recv = 0;
    rex_queue_len = 0;
    shown_rate_bps = start_rate cfg;
    hi_contig = 0;
  }
