-- ===== src/Transfer/Session/Recv.antt =====
-- src/transfer.rs: the pulls of the client, on a connection of their own and in a session.
use girth.Prelude.{ℕ, List, Option, none, some}
use girth.Shared.Float.{Float}
use girth.Shared.Result.{Result, ok, err}
use girth.Error.{IoError, GirthError, io, from_io}
use girth.Control.{TransferParams}
use girth.Rate.{RateWarmStart}
use girth.Runtime.{TransferHandle, connecting}
use girth.Receiver.{SocketAddr}
use girth.Receiver.Setup.{RecvConfig}
use girth.Transfer.Names.{connect_control}
use girth.Transfer.Client.{Crates, ClientNet, SinkCalls, mark_phase, mark_result}
use girth.Transfer.Pull.{Pulled, recv_core_with_stream}
use girth.Transfer.Session.{
  ClientSession, Snapshot, get_or_connect, warm_for, put_stream, record_warm_start, settle,
  settle_handle, drop_stream, Handled,
}

module _ (lib : Crates) (f : Float) {S K : Type 0} (net : ClientNet S) (sinks : SinkCalls K)
    (tcp_connect : SocketAddr → ℕ → Result IoError S)
    (run_recv : RecvConfig f → K → Result IoError (Unit {0}) × K) (p : TransferParams)
    (auth_token : Option (List ℕ)) where
  abbrev recv_on :
      List ℕ
      → List ℕ
      → K
      → Option TransferHandle
      → Option RateWarmStart
      → Result IoError S
      → Pulled S K
  recv_on server_addr name sink handle warm (err e) = record {
    result = err (from_io e);
    handle = handle;
    sink = sink;
  }
  recv_on server_addr name sink handle warm (ok stream) =
      recv_core_with_stream lib f net sinks server_addr p warm auth_token run_recv name sink handle
        stream

  unfoldable pub recv_core : List ℕ → List ℕ → K → Option TransferHandle → Pulled S K
  unfolding recv_core_with_stream mark_phase connect_control
  recv_core server_addr name sink handle =
      recv_on server_addr name sink (mark_phase handle connecting) none
        (connect_control net.to_socket_addrs tcp_connect server_addr)

  unfoldable pub client_recv_into : List ℕ → List ℕ → K → Result GirthError (Unit {0}) × K
  unfolding recv_core
  client_recv_into server_addr name sink =
      let out = recv_core server_addr name sink none in (drop_stream out.result, out.sink)

  unfoldable pub client_recv_into_with_handle :
      List ℕ
      → List ℕ
      → K
      → TransferHandle
      → Result GirthError (Unit {0}) × Option TransferHandle × K
  unfolding recv_core mark_result
  client_recv_into_with_handle server_addr name sink handle =
      let out = recv_core server_addr name sink (some handle) in
      (drop_stream out.result, mark_result out.handle out.result, out.sink)

  -- `ClientSession::recv_into`
  unfoldable pub recv_into :
      ClientSession S → List ℕ → K → Snapshot → (Result GirthError (Unit {0}) × ClientSession S) × K
  unfolding get_or_connect warm_for recv_core_with_stream put_stream record_warm_start
  recv_into c name sink snap =
      let taken = get_or_connect net tcp_connect c in
      elim taken.0 as (λ _. (Result GirthError (Unit {0}) × ClientSession S) × K) [
        | err e ↦ ((err (io e), taken.1), sink)
        | ok stream ↦
            let out =
              recv_core_with_stream lib f net sinks c.server_addr p (warm_for taken.1 p) auth_token
                run_recv name sink none stream in
            (settle taken.1 p snap out.result, out.sink)
      ]

  unfoldable pub recv_into_with_handle :
      ClientSession S → List ℕ → K → Snapshot → TransferHandle → Handled S × K
  unfolding get_or_connect warm_for recv_core_with_stream mark_phase mark_result put_stream
      record_warm_start
  recv_into_with_handle c name sink snap handle =
      let taken = get_or_connect net tcp_connect c in
      let handle' = mark_phase (some handle) connecting in
      elim taken.0 as (λ _. Handled S × K) [
        | err e ↦ ((err (io e), taken.1, handle'), sink)
        | ok stream ↦
            let out =
              recv_core_with_stream lib f net sinks c.server_addr p (warm_for taken.1 p) auth_token
                run_recv name sink handle' stream in
            (settle_handle taken.1 p snap out.result out.handle, out.sink)
      ]
