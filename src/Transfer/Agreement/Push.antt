-- ===== src/Transfer/Agreement/Push.antt =====
-- src/transfer.rs: a push, from the client's hello to both configurations of the data plane.
use girth.Prelude.{ℕ, ◌≡◌, refl, ap, subst, false, List, Option, some}
use girth.Prelude.Int.{pos, as_i64}
use girth.Shared.Float.{Float}
use girth.Shared.Result.{Result, ok}
use girth.Error.{IoError}
use girth.Control.{Hello, Ack, TransferParams, mode_send}
use girth.Protocol.Blocks.{num_blocks}
use girth.Io.{BlockSource}
use girth.Io.Crc.{source_crc32c}
use girth.Crypto.Negotiate.{IsCrypto, Negotiated}
use girth.Rate.{RateWarmStart}
use girth.Runtime.{TransferControl}
use girth.Sender.Setup.{SendConfig}
use girth.Receiver.{SocketAddr}
use girth.Receiver.Setup.{RecvConfig}
use girth.Receiver.Accept.{Matches}
use girth.Transfer.{AuthState, ServerLimits, admitted, admit}
use girth.Transfer.Laws.{admit-IsAdmitted, admitted_mac}
use girth.Transfer.Client.{
  Crates, ClientNet, make_request, SinkCalls, option_map, exchange, open_socket, check_ack,
}
use girth.Transfer.Push.{push_request, push_config, prepare_send}
use girth.Transfer.Server.{ServerNet, negotiate, accept_ack}
use girth.Transfer.Serve.{
  offer, or_refuse-offer, or_broken-offer, or_no_crypto-offer, Job, served_recv_config, offer_recv,
}
use girth.Transfer.Agreement.{check_ack-accepts, block_size_lem}

module _ (lib : Crates) (f : Float) {T K : Type 0} (snet : ServerNet T) (h : Hello) (job : Job)
    (open_sink : List ℕ → Result IoError K) (sinks : SinkCalls K) where
  -- What stands behind an offer of the server.
  offer_recv-inv :
      (a : Ack) (rcfg : RecvConfig f) (sink : K)
      → offer_recv lib f snet h job open_sink sinks ≡ offer a (rcfg, sink)
      → (port : ℕ) × (n : Negotiated lib.crypto) × (negotiate lib snet h job.session ≡ some n)
        × (accept_ack lib snet h job.session port job.auth_state n ≡ a)
        × (served_recv_config lib f snet h job n ≡ rcfg)
  unfolding offer_recv
  offer_recv-inv a rcfg sink e =
      let (name, _, e1) = or_refuse-offer e in
      let (opened, _, e2) = or_refuse-offer e1 in
      let (_, _, e3) = or_refuse-offer e2 in
      let (port, _, e4) = or_broken-offer e3 in
      let (n, k, e5) = or_no_crypto-offer _ e4 in (port, n, k, cc e5, cc e5)

module _ (lib : Crates) (f : Float) {S T K : Type 0} (cnet : ClientNet S) (snet : ServerNet T)
    (server_addr : List ℕ) (p : TransferParams) (warm_start : Option RateWarmStart)
    (auth_token : Option (List ℕ)) (source : BlockSource) (name : List ℕ) (crc : ℕ) where
  -- Where the server admits the hello of a push and makes an offer, the client that reads the answer, with
  -- the token of the identity, goes on where its system finds the peer and a socket: it has the sender's
  -- configuration, which agrees with the one of the server's receiver in session, blocks and cipher.
  pub push-Matches :
      (authorizer : Option (List ℕ → List ℕ → Result (List ℕ) (List ℕ))) (l : ServerLimits)
      (params : TransferParams) (job : Job) (open_sink : List ℕ → Result IoError K)
      (sinks : SinkCalls K) (a : Ack) (rcfg : RecvConfig f) (sink : K)
      (control : Option TransferControl) (peer : SocketAddr) (s s' : S)
      → IsCrypto lib.crypto
      → source_crc32c lib.crc32c_append source ≡ some crc
      → exchange cnet
          (push_request lib f cnet server_addr p warm_start auth_token source name crc).hello
          s
        ≡ ok (a, s')
      → admit lib.hmac authorizer l params
          (push_request lib f cnet server_addr p warm_start auth_token source name crc).hello
        ≡ admitted job.params job.auth_state
      → auth_token ≡ option_map (λ (x : AuthState). x.token) job.auth_state
      → offer_recv lib f snet
          (push_request lib f cnet server_addr p warm_start auth_token source name crc).hello
          job
          open_sink
          sinks
        ≡ offer a (rcfg, sink)
      → open_socket cnet server_addr a false ≡ ok peer
      → (cfg : SendConfig f) × (prepare_send lib f cnet server_addr p warm_start auth_token source
            name control s
          ≡ ok (s', cfg))
        × Matches cfg.shared rcfg.shared
  unfolding prepare_send push_request push_config served_recv_config accept_ack make_request
  push-Matches authorizer l params job open_sink sinks a rcfg sink control peer s s' v sum sent
        allowed token offered found =
      let config : Ack → Negotiated lib.crypto → SendConfig f = λ a n.
        push_config lib f cnet server_addr p warm_start auth_token source
          (push_request lib f cnet server_addr p warm_start auth_token source name crc) a n.box peer
          control in
      let admission =
        admit-IsAdmitted lib.hmac l params
          (push_request lib f cnet server_addr p warm_start auth_token source name crc).hello
          authorizer job.params job.auth_state allowed in
      let (port, n, k, e1, e2) =
        offer_recv-inv lib f snet
          (push_request lib f cnet server_addr p warm_start auth_token source name crc).hello job
          open_sink sinks a rcfg sink offered in
      let accepted : check_ack lib p auth_token
            (push_request lib f cnet server_addr p warm_start auth_token source name crc) a
          ≡ ok n.box =
        subst
          (λ t.
            check_ack lib p auth_token
              (push_request lib f cnet server_addr p warm_start auth_token source name crc) t
            ≡ ok n.box)
          e1
          (check_ack-accepts lib cnet snet mode_send name (as_i64 source.len) crc p warm_start
            auth_token job.session port job.auth_state n (pos 0) 0 v k token
            (admitted_mac lib.hmac authorizer l
              (push_request lib f cnet server_addr p warm_start auth_token source name crc).hello
              job.params job.auth_state admission)) in
      let block : job.params.block_size ≡ p.block_size =
        block_size_lem p.block_size job.params.block_size admission.limits.block_pos
          admission.block_size_same in
      (
        config a n,
        rw (sum, sent, accepted, found) refl,
        subst (λ (c : RecvConfig f). Matches (config a n).shared c.shared) e2
            (record {
              session_same = ap (λ (t : Ack). t.session) e1;
              total_same = ap (num_blocks (as_i64 source.len)) block;
              block_same = block;
              crypto_same = refl;
            }),
      )
