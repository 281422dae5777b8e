-- ===== src/Transfer/Connection/Tests.antt =====
-- A connection of the server, its listener and the checksums at concrete inputs (src/transfer.rs).
use girth.Prelude.{ℕ, ◌≤◌, ◌≡◌, refl, true, false, [], ◌∷◌, Option, none, some, length}
use girth.Shared.Float.{whole}
use girth.Shared.Result.{ok}
use girth.Shared.Text.{text}
use girth.Error.{other_error}
use girth.Control.{Ack, default_params}
use girth.Crypto.Payload.{Aead}
use girth.Io.Memory.{MemSink}
use girth.Transfer.Pull.{greet, recv_core_with_stream}
use girth.Transfer.Serve.{recv_from_client, offer, offer_recv, or_refuse, or_broken, or_no_crypto}
use girth.Transfer.Integrity.{Intact, pull-Intact, recv_from_client-Intact}
use girth.Transfer.Samples.{
  crates, token, source, object, params, client, server_net, sinks, open_sink, push_hello, push_job,
  push_answer, pull_answer, recv_config, run_send, run_recv,
}
use girth.Transfer.Connection.{Server, Files, Round, new_server, with_authorizer, handle_conn}
use girth.Transfer.Connection.Laws.{AllAdmitted, handle_conn-AllAdmitted}
use girth.Transfer.Connection.Listen.{
  Listener, serving, accept, reap, count, is_serving, is_finished, accepts, Reach, start, after,
}
use girth.Transfer.Connection.Listen.Bounds.{listen-bounded}

abbrev server : Server MemSink
server =
    with_authorizer (new_server (text ":7400") (text "objects") default_params)
      (λ mode name. ok token)

-- A server's files that all have the sink's type.
abbrev files : Files MemSink MemSink
files = record {
  open_file = λ options path. ok [];
  is_file = λ file. ok true;
  source_from_file = λ file. ok source;
  sink_from_file = λ file. file;
  source_error = other_error [];
}

abbrev round : Round ℕ
round = record { stop = false; net = server_net; session = 99 }

handle_conn-AllAdmitted_example :
    AllAdmitted crates.hmac server
      (handle_conn crates whole files sinks server 9
        (λ s. ok (push_hello, s))
        run_recv
        run_send
        (round ∷ round ∷ [])
        0).0
handle_conn-AllAdmitted_example =
    handle_conn-AllAdmitted crates whole files sinks server 9 (λ s. ok (push_hello, s)) run_recv
      run_send (round ∷ round ∷ []) 0

abbrev one : Listener
one = record { active = 1; workers = serving ∷ [] }

one-Reach : Reach 1 one
unfolding accept
one-Reach = after start (accepts (record { active = 0; workers = [] }))

listen-bounded_example :
    (count is_serving one.workers ≤ 1)
    × (1 ≡ count is_serving one.workers)
    × (count is_serving (reap (length one.workers) 0 one.workers) ≡ count is_serving one.workers)
    × (count is_finished (reap (length one.workers) 0 one.workers) ≡ 0)
listen-bounded_example = listen-bounded 1 one one-Reach

pulled :
    (recv_core_with_stream crates whole
      (client pull_answer)
      sinks
      (text "host:7400")
      params
      none
      (some token)
      run_recv
      object
      []
      none
      0).result
    ≡ ok 0
unfolding recv_core_with_stream pull_answer sinks girth.Auth.verify_server_mac girth.Auth.server_mac
    girth.Auth.server_transcript girth.Auth.client_transcript
pulled = refl

pull-Intact_example :
    (a : Ack) × (s1 : ℕ) × (crypto : Option Aead) × (greet crates whole
        (client pull_answer)
        sinks
        (text "host:7400")
        params
        none
        (some token)
        object
        0
      ≡ ok ((a, s1), crypto))
    × Intact sinks
        (recv_core_with_stream crates whole
          (client pull_answer)
          sinks
          (text "host:7400")
          params
          none
          (some token)
          run_recv
          object
          []
          none
          0).sink
        a.crc32c
pull-Intact_example =
    pull-Intact crates whole (client pull_answer) sinks (text "host:7400") params none (some token)
      run_recv object [] none 0 0 pulled

offered :
    offer_recv crates whole server_net push_hello push_job open_sink sinks
    ≡ offer push_answer (recv_config, 0 ∷ 0 ∷ 0 ∷ 0 ∷ 0 ∷ [])
unfolding offer_recv or_refuse or_broken or_no_crypto sinks push_answer recv_config push_hello
    push_job
offered = refl

received :
    recv_from_client crates whole server_net push_hello push_job run_recv open_sink sinks 0 ≡ ok 0
unfolding recv_from_client offer_recv or_refuse or_broken or_no_crypto sinks push_hello push_job
received = refl

recv_from_client-Intact_example :
    Intact sinks
      (sinks.finalize (run_recv recv_config (0 ∷ 0 ∷ 0 ∷ 0 ∷ 0 ∷ [])).1).1
      push_hello.crc32c
recv_from_client-Intact_example =
    recv_from_client-Intact crates whole server_net push_hello push_job run_recv open_sink sinks
      push_answer recv_config (0 ∷ 0 ∷ 0 ∷ 0 ∷ 0 ∷ []) 0 0 offered received
