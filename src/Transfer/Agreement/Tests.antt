-- ===== src/Transfer/Agreement/Tests.antt =====
-- The agreement of a push and of a pull at a concrete handshake (src/transfer.rs).
use girth.Prelude.{◌≡◌, refl, false, [], ◌∷◌, Option, none, some}
use girth.Shared.Float.{whole}
use girth.Shared.Result.{ok}
use girth.Shared.Text.{text}
use girth.Error.{other_error}
use girth.Control.{default_params}
use girth.Crypto.Tests.{toy-IsCrypto}
use girth.Io.Crc.{source_crc32c}
use girth.Receiver.{SocketAddr}
use girth.Receiver.Accept.{Matches}
use girth.Runtime.{TransferControl}
use girth.Sender.Setup.{SendConfig}
use girth.Transfer.{default_limits, admit, admitted}
use girth.Transfer.Client.{open_socket}
use girth.Transfer.Push.{prepare_send, push_request}
use girth.Transfer.Pull.{greet, pull_config, pull_request}
use girth.Transfer.Serve.{offer, offer_recv, offer_send, or_refuse, or_broken, or_no_crypto}
use girth.Transfer.Samples.{
  crates, token, source, object, params, peer, client, server_net, authorizer, sinks, open_sink,
  open_source, push_hello, pull_hello, push_job, pull_job, push_answer, pull_answer, recv_config,
  send_config,
}
use girth.Transfer.Agreement.Push.{push-Matches}
use girth.Transfer.Agreement.Pull.{pull-Matches}

push_admitted :
    admit crates.hmac authorizer default_limits default_params push_hello
    ≡ admitted push_job.params push_job.auth_state
unfolding admit push_hello push_job girth.Auth.verify_client_mac girth.Auth.client_transcript
push_admitted = refl

push_offered :
    offer_recv crates whole server_net push_hello push_job open_sink sinks
    ≡ offer push_answer (recv_config, 0 ∷ 0 ∷ 0 ∷ 0 ∷ 0 ∷ [])
unfolding offer_recv or_refuse or_broken or_no_crypto sinks push_answer recv_config push_hello
    push_job
push_offered = refl

summed : source_crc32c crates.crc32c_append source ≡ some 5
unfolding source_crc32c source
summed = refl

found : open_socket (client push_answer) (text "host:7400") push_answer false ≡ ok peer
unfolding girth.Transfer.Names.resolve_peer
found = refl

push-Matches_example :
    (cfg : SendConfig whole) × (prepare_send crates whole
        (client push_answer)
        (text "host:7400")
        params
        none
        (some token)
        source
        object
        none
        0
      ≡ ok (0, cfg))
    × Matches cfg.shared recv_config.shared
unfolding push_request push_hello push_job
push-Matches_example =
    push-Matches crates whole (client push_answer) server_net (text "host:7400") params none
      (some token) source object 5 authorizer default_limits default_params push_job open_sink sinks
      push_answer recv_config (0 ∷ 0 ∷ 0 ∷ 0 ∷ 0 ∷ []) none peer 0 0 toy-IsCrypto summed refl
      push_admitted refl push_offered found

pull_admitted :
    admit crates.hmac authorizer default_limits default_params pull_hello
    ≡ admitted pull_job.params pull_job.auth_state
unfolding admit pull_hello pull_job girth.Auth.verify_client_mac girth.Auth.client_transcript
pull_admitted = refl

pull_offered :
    offer_send crates whole server_net pull_hello pull_job open_source
      (other_error [])
      default_limits
    ≡ offer pull_answer send_config
unfolding offer_send or_refuse or_broken or_no_crypto pull_answer send_config pull_hello pull_job
    source
pull_offered = refl

pull-Matches_example :
    (greet crates whole
        (client pull_answer)
        sinks
        (text "host:7400")
        params
        none
        (some token)
        object
        0
      ≡ ok ((pull_answer, 0), send_config.shared.crypto))
    × ((at : SocketAddr) (control : Option TransferControl)
        → Matches send_config.shared
            (pull_config crates whole
              (client pull_answer)
              sinks
              (text "host:7400")
              params
              none
              (some token)
              (pull_request crates whole
                (client pull_answer)
                sinks
                (text "host:7400")
                params
                none
                (some token)
                object)
              pull_answer
              send_config.shared.crypto
              at
              control).shared)
    × (source_crc32c crates.crc32c_append send_config.shared.source ≡ some pull_answer.crc32c)
unfolding pull_request pull_hello pull_job
pull-Matches_example =
    pull-Matches crates whole (client pull_answer) server_net sinks (text "host:7400") params none
      (some token) object authorizer default_limits default_params pull_job open_source
      (other_error []) pull_answer send_config 0 0 toy-IsCrypto refl pull_admitted refl pull_offered
