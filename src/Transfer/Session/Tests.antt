-- ===== src/Transfer/Session/Tests.antt =====
-- Sessions and handles of the client at concrete transfers (src/transfer.rs).
use girth.Prelude.{ℕ, [], some}
use girth.Shared.Float.{whole}
use girth.Shared.Result.{err}
use girth.Shared.Text.{text}
use girth.Error.{IoError, ErrorKind}
use girth.Runtime.{new_handle}
use girth.Transfer.Samples.{
  crates, token, source, object, params, client, sinks, run_send, run_recv, tcp_connect,
  push_answer,
}
use girth.Transfer.Session.{
  ClientSession, Snapshot, new_session, get_or_connect, send_from, send_from_with_handle,
}
use girth.Transfer.Session.Recv.{recv_into, recv_into_with_handle}
use girth.Transfer.Session.Laws.{Settled, session-Settled}
use girth.Transfer.Session.Reports.{Shows, session-Shows}

abbrev session : ClientSession ℕ
unfolding new_session
session = new_session (text "host:7400")

abbrev snapshot : Snapshot
snapshot = record { target_rate_bps = 8000; srtt_net_us = 20; base_rtt_us = 10 }

session-Settled_example :
    (let out =
        send_from crates whole
          (client push_answer)
          tcp_connect
          run_send
          params
          (some token)
          session
          source
          object
          snapshot in
      Settled params session out.1 out.0)
    × (let out =
          send_from_with_handle crates whole
            (client push_answer)
            tcp_connect
            run_send
            params
            (some token)
            session
            source
            object
            snapshot
            new_handle in
        Settled params session out.1 out.0)
    × (let out =
          recv_into crates whole
            (client push_answer)
            sinks
            tcp_connect
            run_recv
            params
            (some token)
            session
            object
            []
            snapshot in
        Settled params session out.0.1 out.0.0)
    × (let out =
          recv_into_with_handle crates whole
            (client push_answer)
            sinks
            tcp_connect
            run_recv
            params
            (some token)
            session
            object
            []
            snapshot
            new_handle in
        Settled params session out.0.1 out.0.0)
session-Settled_example =
    session-Settled crates whole (client push_answer) sinks tcp_connect run_send run_recv params
      (some token) session source object [] snapshot new_handle

abbrev timed_out : IoError
timed_out = record { kind = ErrorKind.timed_out; message = text "connection timed out" }

session-Shows_example :
    (let out =
        send_from_with_handle crates whole
          (client push_answer)
          (λ at seconds. err timed_out)
          run_send
          params
          (some token)
          session
          source
          object
          snapshot
          new_handle in
      Shows crates whole
        (client push_answer)
        sinks
        (λ at seconds. err timed_out)
        run_send
        run_recv
        params
        (some token)
        source
        object
        []
        new_handle
        (get_or_connect (client push_answer) (λ at seconds. err timed_out) session).0
        out.0
        out.2)
    × (let out =
          recv_into_with_handle crates whole
            (client push_answer)
            sinks
            (λ at seconds. err timed_out)
            run_recv
            params
            (some token)
            session
            object
            []
            snapshot
            new_handle in
        Shows crates whole
          (client push_answer)
          sinks
          (λ at seconds. err timed_out)
          run_send
          run_recv
          params
          (some token)
          source
          object
          []
          new_handle
          (get_or_connect (client push_answer) (λ at seconds. err timed_out) session).0
          out.0.0
          out.0.2)
session-Shows_example =
    session-Shows crates whole (client push_answer) sinks (λ at seconds. err timed_out) run_send
      run_recv params (some token) source object [] new_handle session snapshot
