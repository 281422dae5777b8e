-- ===== src/Transfer/Agreement/Pull.antt =====
-- src/transfer.rs: a pull, from the client's hello to both configurations of the data plane.
use girth.Prelude.{
  ℕ, ◌≡◌, refl, sym, ap, ap₂, subst, ◌∙◌, List, Option, none, some, inl, inr, ltb, leb, ◌^◌,
  Bool-cases,
}
use girth.Prelude.Int.{pos, as_i64}
use girth.Shared.Float.{Float}
use girth.Shared.Result.{Result, ok}
use girth.Error.{IoError}
use girth.Control.{Hello, Ack, TransferParams, mode_recv}
use girth.Protocol.Blocks.{num_blocks}
use girth.Io.{BlockSource}
use girth.Io.Crc.{source_crc32c}
use girth.Crypto.Negotiate.{IsCrypto, Negotiated}
use girth.Rate.{RateWarmStart}
use girth.Runtime.{TransferControl}
use girth.Sender.Setup.{SendConfig}
use girth.Receiver.{SocketAddr}
use girth.Receiver.Accept.{Matches}
use girth.Transfer.{AuthState, ServerLimits, admitted, admit}
use girth.Transfer.Laws.{admit-IsAdmitted, admitted_mac}
use girth.Transfer.Client.{
  Crates, ClientNet, make_request, SinkCalls, option_map, exchange, check_ack, or_error,
}
use girth.Transfer.Pull.{pull_request, pull_config, greet}
use girth.Transfer.Server.{ServerNet, negotiate, accept_ack}
use girth.Transfer.Serve.{
  offer, or_refuse-offer, or_broken-offer, or_no_crypto-offer, offer_inj, Job, served_send_config,
  offer_send, offer_source,
}
use girth.Transfer.Agreement.{check_ack-accepts, block_size_lem}

or_error-ok : {A : Type 0} (e : IoError) (m : Option A) (x : A) → or_error e m ≡ ok x → m ≡ some x
or_error-ok e none x h = cc
or_error-ok e (some y) x h = cc

module _ (lib : Crates) (f : Float) {T : Type 0} (snet : ServerNet T) (h : Hello) (job : Job)
    (open_source : List ℕ → Result IoError BlockSource) (source_error : IoError)
    (l : ServerLimits) where
  -- What stands behind an offer of the server.
  pub record Offered (a : Ack) (scfg : SendConfig f) : Type 0 where
    pub source : BlockSource
    pub crc : ℕ
    pub port : ℕ
    pub answer : Negotiated lib.crypto
    pub sum : source_crc32c lib.crc32c_append source ≡ some crc
    pub negotiated : negotiate lib snet h job.session ≡ some answer
    pub ack_same :
        record (accept_ack lib snet h job.session port job.auth_state answer) {
          size = as_i64 source.len;
          crc32c = crc;
        }
        ≡ a
    pub config_same : served_send_config lib f snet h job source answer ≡ scfg

  offer_source-inv :
      (source : BlockSource) (a : Ack) (scfg : SendConfig f)
      → offer_source lib f snet h job source_error source ≡ offer a scfg
      → Offered a scfg
  unfolding offer_source
  offer_source-inv source a scfg e =
      let (crc, q, e1) = or_refuse-offer e in
      let (port, _, e2) = or_broken-offer e1 in
      let (n, k, e3) = or_no_crypto-offer _ e2 in
      record {
        source = source;
        crc = crc;
        port = port;
        answer = n;
        sum = or_error-ok source_error (source_crc32c lib.crc32c_append source) crc q;
        negotiated = k;
        ack_same = (offer_inj e3).0;
        config_same = (offer_inj e3).1;
      }

  offer_send-inv :
      (a : Ack) (scfg : SendConfig f)
      → offer_send lib f snet h job open_source source_error l ≡ offer a scfg
      → Offered a scfg
  unfolding offer_send
  offer_send-inv a scfg e =
      let (name, _, e1) = or_refuse-offer e in
      let (source, _, e2) = or_refuse-offer e1 in
      elim (Bool-cases (ltb l.max_object_size source.len)) [
        | inl q ↦ cc (rw q at e2)
        | inr q ↦ elim (Bool-cases (leb (2 ^ 63) source.len)) [
          | inl q1 ↦ cc (rw (q, q1) at e2)
          | inr q1 ↦ offer_source-inv source a scfg (rw (q, q1) at e2)
        ]
      ]

module _ (lib : Crates) (f : Float) {S T K : Type 0} (cnet : ClientNet S) (snet : ServerNet T)
    (sinks : SinkCalls K) (server_addr : List ℕ) (p : TransferParams)
    (warm_start : Option RateWarmStart) (auth_token : Option (List ℕ)) (name : List ℕ) where
  -- Where the server admits the hello of a pull and makes an offer, the client that reads the answer, with
  -- the token of the identity, takes it; whatever peer it finds, its receiver's configuration agrees with
  -- the one of the server's sender in session, blocks and cipher; and the answer carries the checksum of
  -- the source that the server sends.
  pub pull-Matches :
      (authorizer : Option (List ℕ → List ℕ → Result (List ℕ) (List ℕ))) (l : ServerLimits)
      (params : TransferParams) (job : Job) (open_source : List ℕ → Result IoError BlockSource)
      (source_error : IoError) (a : Ack) (scfg : SendConfig f) (s s' : S)
      → IsCrypto lib.crypto
      → exchange cnet
          (pull_request lib f cnet sinks server_addr p warm_start auth_token name).hello
          s
        ≡ ok (a, s')
      → admit lib.hmac authorizer l params
          (pull_request lib f cnet sinks server_addr p warm_start auth_token name).hello
        ≡ admitted job.params job.auth_state
      → auth_token ≡ option_map (λ (x : AuthState). x.token) job.auth_state
      → offer_send lib f snet
          (pull_request lib f cnet sinks server_addr p warm_start auth_token name).hello
          job
          open_source
          source_error
          l
        ≡ offer a scfg
      → (greet lib f cnet sinks server_addr p warm_start auth_token name s
          ≡ ok ((a, s'), scfg.shared.crypto))
        × ((peer : SocketAddr) (control : Option TransferControl)
            → Matches scfg.shared
                (pull_config lib f cnet sinks server_addr p warm_start auth_token
                  (pull_request lib f cnet sinks server_addr p warm_start auth_token name)
                  a
                  scfg.shared.crypto
                  peer
                  control).shared)
        × (source_crc32c lib.crc32c_append scfg.shared.source ≡ some a.crc32c)
  unfolding greet pull_request pull_config served_send_config accept_ack make_request
  pull-Matches authorizer l params job open_source source_error a scfg s s' v sent allowed token
        offered =
      let admission =
        admit-IsAdmitted lib.hmac l params
          (pull_request lib f cnet sinks server_addr p warm_start auth_token name).hello authorizer
          job.params job.auth_state allowed in
      let o =
        offer_send-inv lib f snet
          (pull_request lib f cnet sinks server_addr p warm_start auth_token name).hello job
          open_source source_error l a scfg offered in
      let box : scfg.shared.crypto ≡ o.answer.box =
        ap (λ (c : SendConfig f). c.shared.crypto) (sym o.config_same) in
      let accepted : check_ack lib p auth_token
            (pull_request lib f cnet sinks server_addr p warm_start auth_token name) a
          ≡ ok o.answer.box =
        subst
          (λ t.
            check_ack lib p auth_token
              (pull_request lib f cnet sinks server_addr p warm_start auth_token name) t
            ≡ ok o.answer.box)
          o.ack_same
          (check_ack-accepts lib cnet snet mode_recv name (pos 0) 0 p warm_start auth_token
            job.session o.port job.auth_state o.answer (as_i64 o.source.len) o.crc v o.negotiated
            token
            (admitted_mac lib.hmac authorizer l
              (pull_request lib f cnet sinks server_addr p warm_start auth_token name).hello
              job.params job.auth_state admission)) in
      let block : job.params.block_size ≡ p.block_size =
        block_size_lem p.block_size job.params.block_size admission.limits.block_pos
          admission.block_size_same in
      let size : a.size ≡ as_i64 o.source.len = ap (λ (t : Ack). t.size) (sym o.ack_same) in
      (
        rw (sent, accepted, box) refl,
        λ peer control. record {
          session_same =
              ap (λ (t : Ack). t.session) (sym o.ack_same)
              ∙ ap (λ (c : SendConfig f). c.shared.session) o.config_same;
          total_same =
              ap₂ num_blocks size (sym block)
              ∙ ap (λ (c : SendConfig f). c.shared.total_blocks) o.config_same;
          block_same = sym block ∙ ap (λ (c : SendConfig f). c.shared.block_size) o.config_same;
          crypto_same = refl;
        },
        ap (λ (c : SendConfig f). source_crc32c lib.crc32c_append c.shared.source)
              (sym o.config_same)
            ∙ o.sum
            ∙ ap (λ (t : Ack). some t.crc32c) o.ack_same,
      )
