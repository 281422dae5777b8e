-- ===== src/Transfer/Serve.antt =====
-- src/transfer.rs: `recv_from_client` and `send_to_client`, the server's side of a push and of a pull. The
-- threads of the data plane are `run`, which gives the result of `Receiver::run` or `Sender::run`.
use girth.Prelude.{
  ℕ, ◌^◌, ◌≡◌, refl, true, false, List, ◌++◌, Option, none, some, ltb, leb, ◌==◌, if◌then◌else◌,
}
use girth.Prelude.Int.{as_i64}
use girth.Shared.Float.{Float}
use girth.Shared.Result.{Result, ok, err, ◌>>=◌}
use girth.Shared.Text.{text, show_u64}
use girth.Error.{IoError, other_error}
use girth.Control.{Hello, Ack, TransferParams, magnitude, rate_config}
use girth.Protocol.Blocks.{num_blocks}
use girth.Io.{BlockSource}
use girth.Io.Crc.{source_crc32c}
use girth.Crypto.Negotiate.{Negotiated}
use girth.Sender.Setup.{SendConfig}
use girth.Receiver.Setup.{RecvConfig}
use girth.Transfer.{AuthState, ServerLimits, warm_from_hello}
use girth.Transfer.Names.{served_object_name, bind_data_socket}
use girth.Transfer.Client.{Crates, SinkCalls, or_error}
use girth.Transfer.Server.{ServerNet, ack_err, negotiate, accept_ack}

-- What comes of a hello before the data plane: the text of a refusal, which is sent with `ack_err`, an
-- error that ends the connection, or the answer with what the data plane takes.
pub data Offer {ℓ} (C : Type ℓ) : Type ℓ where
  refuse : List ℕ → Offer C
  broken : IoError → Offer C
  offer : Ack → C → Offer C

-- A step whose error is sent to the client, and one whose error ends the connection.
unfoldable pub or_refuse : {A C : Type 0} → Result IoError A → (A → Offer C) → Offer C
or_refuse (ok a) f = f a
or_refuse (err e) f = refuse e.message

unfoldable pub or_broken : {A C : Type 0} → Result IoError A → (A → Offer C) → Offer C
or_broken (ok a) f = f a
or_broken (err e) f = broken e

unfoldable pub or_no_crypto : {A C : Type 0} → List ℕ → Option A → (A → Offer C) → Offer C
or_no_crypto message (some a) f = f a
or_no_crypto message none f = refuse message

pub or_refuse-offer :
    {A C : Type 0} {m : Result IoError A} {g : A → Offer C} {a : Ack} {c : C}
    → or_refuse m g ≡ offer a c
    → (x : A) × (m ≡ ok x) × (g x ≡ offer a c)
unfolding or_refuse
or_refuse-offer {m = ok x} e = (x, refl, e)
or_refuse-offer {m = err b} e = cc

pub or_broken-offer :
    {A C : Type 0} {m : Result IoError A} {g : A → Offer C} {a : Ack} {c : C}
    → or_broken m g ≡ offer a c
    → (x : A) × (m ≡ ok x) × (g x ≡ offer a c)
unfolding or_broken
or_broken-offer {m = ok x} e = (x, refl, e)
or_broken-offer {m = err b} e = cc

pub or_no_crypto-offer :
    {A C : Type 0} (message : List ℕ) {m : Option A} {g : A → Offer C} {a : Ack} {c : C}
    → or_no_crypto message m g ≡ offer a c
    → (x : A) × (m ≡ some x) × (g x ≡ offer a c)
unfolding or_no_crypto
or_no_crypto-offer message {m = some x} e = (x, refl, e)
or_no_crypto-offer message {m = none} e = cc

pub offer_inj : {C : Type 0} {a b : Ack} {c d : C} → offer a c ≡ offer b d → (a ≡ b) × (c ≡ d)
offer_inj e = (cc, cc)

-- What both directions of a transfer of the server are given, besides the hello.
pub record Job : Type 0 where
  pub session : ℕ
  pub params : TransferParams
  pub peer_ip : ℕ
  pub udp_range : Option (ℕ × ℕ)
  pub auth_state : Option AuthState

module _ (lib : Crates) (f : Float) {S : Type 0} (net : ServerNet S) (h : Hello) (job : Job) where
  unfoldable pub served_recv_config : Negotiated lib.crypto → RecvConfig f
  unfolding rate_config warm_from_hello
  served_recv_config n = record {
    shared = record {
      file_size = magnitude h.size;
      block_size = job.params.block_size;
      total_blocks = num_blocks h.size job.params.block_size;
      session = job.session;
      expected_peer_ip = some job.peer_ip;
      crypto = n.box;
      feedback_interval_us = job.params.feedback_interval_us;
      net_tick_interval_us = job.params.net_tick_interval_us;
      max_nacks_per_pdu = 0;
    };
    rate = rate_config f job.params h.rate_bps;
    control = none;
    warm_start = warm_from_hello h;
    start_peer = none;
  }

  unfoldable pub served_send_config : BlockSource → Negotiated lib.crypto → SendConfig f
  unfolding rate_config warm_from_hello
  served_send_config source n = record {
    peer = none;
    expected_peer_ip = some job.peer_ip;
    shared = record {
      source = source;
      file_size = magnitude (as_i64 source.len);
      block_size = job.params.block_size;
      total_blocks = num_blocks (as_i64 source.len) job.params.block_size;
      session = job.session;
      crypto = n.box;
    };
    rate = rate_config f job.params h.rate_bps;
    control = none;
    warm_start = warm_from_hello h;
  }

  -- `open_sink` is the resolver, or `open_served_sink` in the server's directory. The sink comes back as
  -- `allocate` left it.
  unfoldable pub offer_recv :
      {K : Type 0} → (List ℕ → Result IoError K) → SinkCalls K → Offer (RecvConfig f × K)
  unfolding served_object_name bind_data_socket negotiate accept_ack served_recv_config
  offer_recv open_sink sinks = or_refuse (served_object_name h.name) λ object_name.
      or_refuse (open_sink object_name) λ sink.
        let (allocated, sink') = sinks.allocate (magnitude h.size) sink in
        or_refuse allocated λ _.
          or_broken (bind_data_socket net.new_udp_socket job.udp_range true) λ port.
            or_no_crypto lib.crypto_failed (negotiate lib net h job.session) λ n.
              offer (accept_ack lib net h job.session port job.auth_state n)
                (served_recv_config n, sink')

  abbrev too_large : ℕ → ServerLimits → List ℕ
  too_large len l =
      text "object too large: " ++ (show_u64 len ++ (text " > " ++ show_u64 l.max_object_size))

  -- The answer and the configuration for a source of a size that fits.
  unfoldable pub offer_source : IoError → BlockSource → Offer (SendConfig f)
  unfolding source_crc32c bind_data_socket negotiate accept_ack served_send_config
  offer_source source_error source =
      or_refuse (or_error source_error (source_crc32c lib.crc32c_append source)) λ crc.
        or_broken (bind_data_socket net.new_udp_socket job.udp_range false) λ port.
          or_no_crypto lib.crypto_failed (negotiate lib net h job.session) λ n.
            offer
              (record (accept_ack lib net h job.session port job.auth_state n) {
                size = as_i64 source.len;
                crc32c = crc;
              })
              (served_send_config source n)

  -- `open_source` is the resolver, or `open_served_source` and `FileSource::from_file`.
  unfoldable pub offer_send :
      (List ℕ → Result IoError BlockSource) → IoError → ServerLimits → Offer (SendConfig f)
  unfolding served_object_name offer_source show_u64
  offer_send open_source source_error l = or_refuse (served_object_name h.name) λ object_name.
      or_refuse (open_source object_name) λ source.
        let sized = offer_source source_error source in
        if ltb l.max_object_size source.len
        then refuse (too_large source.len l)
        else (if leb (2 ^ 63) source.len
            then refuse (text "object too large for protocol size field")
            else sized)

  -- Behind the run of a push: the file is finished and read back.
  abbrev pub check_read_back : S → Result IoError (Option ℕ) → Result IoError S
  check_read_back s (err e) = err e
  check_read_back s (ok none) = ok s
  check_read_back s (ok (some got)) =
      if got == h.crc32c then ok s else err (other_error (lib.integrity_text h.name got h.crc32c))

  abbrev pub finish_recv :
      {K : Type 0} → SinkCalls K → S → Result IoError (Unit {0}) × K → Result IoError S
  finish_recv sinks s (err e, sink) = err e
  finish_recv sinks s (ok _, sink) =
      let (finalized, sink') = sinks.finalize sink in
      finalized >>= λ _. check_read_back s (sinks.read_crc32c sink')

  abbrev pub answer_recv :
      {K : Type 0}
      → (RecvConfig f → K → Result IoError (Unit {0}) × K)
      → SinkCalls K
      → S
      → Offer (RecvConfig f × K)
      → Result IoError S
  answer_recv run sinks s (refuse message) = ok (ack_err net message false s)
  answer_recv run sinks s (broken e) = err e
  answer_recv run sinks s (offer a (cfg, sink)) =
      net.write_json a s >>= λ s'. finish_recv sinks s' (run cfg sink)

  unfoldable pub recv_from_client :
      {K : Type 0}
      → (RecvConfig f → K → Result IoError (Unit {0}) × K)
      → (List ℕ → Result IoError K)
      → SinkCalls K
      → S
      → Result IoError S
  unfolding offer_recv ack_err
  recv_from_client run open_sink sinks s = answer_recv run sinks s (offer_recv open_sink sinks)

  abbrev answer_send :
      (SendConfig f → Result IoError (Unit {0})) → S → Offer (SendConfig f) → Result IoError S
  answer_send run s (refuse message) = ok (ack_err net message false s)
  answer_send run s (broken e) = err e
  answer_send run s (offer a cfg) = net.write_json a s >>= λ s'. run cfg >>= λ _. ok s'

  unfoldable pub send_to_client :
      (SendConfig f → Result IoError (Unit {0}))
      → (List ℕ → Result IoError BlockSource)
      → IoError
      → ServerLimits
      → S
      → Result IoError S
  unfolding offer_send ack_err
  send_to_client run open_source source_error l s =
      answer_send run s (offer_send open_source source_error l)
