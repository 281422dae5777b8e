-- ===== src/Transfer/Session/Reports.antt =====
-- What a transfer's handle reports at its end (src/transfer.rs).
use girth.Prelude.{ℕ, ◌≡◌, refl, List, Option, none, some, inl, inr}
use girth.Shared.Float.{Float}
use girth.Shared.Result.{Result, ok, err, Result-cases}
use girth.Error.{IoError, GirthError, io, from_io, display}
use girth.Control.{TransferParams}
use girth.Io.{BlockSource}
use girth.Runtime.{TransferHandle, connecting, complete, failed, phase, set_phase, set_failed}
use girth.Sender.Setup.{SendConfig}
use girth.Receiver.{SocketAddr}
use girth.Receiver.Setup.{RecvConfig}
use girth.Transfer.Names.{connect_control}
use girth.Transfer.Client.{Crates, ClientNet, SinkCalls, mark_phase, mark_result}
use girth.Transfer.Session.{
  ClientSession, Snapshot, get_or_connect, settle, warm_for, send_core, drop_stream,
  client_send_from_with_handle, send_from_with_handle,
}
use girth.Transfer.Session.Recv.{recv_core, client_recv_into_with_handle, recv_into_with_handle}
use girth.Transfer.Session.Progress.{IsPhase, Progress, stopped_at, send-Progress, recv-Ends}

-- A failure shows the phase and the text of the error, and a success the phase.
pub record Reported (r : Result GirthError (Unit {0})) (h : Option TransferHandle) : Type 0 where
  pub on_failure :
      (e : GirthError)
      → r ≡ err e
      → (h' : TransferHandle) × (h ≡ some h')
        × (phase h' ≡ failed)
        × (h'.last_error ≡ some (display e))
  pub on_success : r ≡ ok tt → IsPhase complete h

mark_result-Reported :
    {S : Type 0} (r : Result GirthError S) (h : Option TransferHandle)
    → Progress r h
    → Reported (drop_stream r) (mark_result h r)
unfolding mark_result set_failed phase
mark_result-Reported (ok s) h v = record {
  on_failure = λ e k. cc;
  on_success = λ k. v.finished s refl;
}
mark_result-Reported (err e) none v = let (h', q) = v.alive in absurd (cc q)
mark_result-Reported (err e) (some h) v = record {
  on_failure = λ e k. (set_failed h (display _), refl, refl, cc);
  on_success = λ k. cc;
}

settle-Reported :
    {S : Type 0} (c : ClientSession S) (p : TransferParams) (snap : Snapshot)
    (r : Result GirthError S) (h : Option TransferHandle)
    → Progress r h
    → Reported (settle c p snap r).0 (mark_result h r)
settle-Reported c p snap (ok s) h v = mark_result-Reported (ok s) h v
settle-Reported c p snap (err e) h v = mark_result-Reported (err e) h v

module _ (lib : Crates) (f : Float) {S K : Type 0} (net : ClientNet S) (sinks : SinkCalls K)
    (tcp_connect : SocketAddr → ℕ → Result IoError S)
    (run_send : SendConfig f → Result IoError (Unit {0}))
    (run_recv : RecvConfig f → K → Result IoError (Unit {0}) × K) (p : TransferParams)
    (auth_token : Option (List ℕ)) (source : BlockSource) (name : List ℕ) (sink : K)
    (handle : TransferHandle) where
  -- A push or a pull on a connection of its own shows in its handle how it ended: the phase is `failed`,
  -- with the text of the error, where it fails in any way, and `complete` where it succeeds.
  pub own_connection-Reported :
      (server_addr : List ℕ)
      → (let out =
            client_send_from_with_handle lib f net tcp_connect run_send p auth_token server_addr
              source name handle in
          Reported out.0 out.1)
        × (let out =
              client_recv_into_with_handle lib f net sinks tcp_connect run_recv p auth_token
                server_addr name sink handle in
            Reported out.0 out.1)
  unfolding client_send_from_with_handle client_recv_into_with_handle send_core recv_core mark_phase
  own_connection-Reported server_addr =
      let h = set_phase handle connecting in
      elim (Result-cases (connect_control net.to_socket_addrs tcp_connect server_addr)) [
        | inr (e, q) ↦ rw q (
          mark_result-Reported {S = S} (err (from_io e)) (some h) (stopped_at (from_io e) h),
          mark_result-Reported {S = S} (err (from_io e)) (some h) (stopped_at (from_io e) h),
        )
        | inl (s, q) ↦ rw q (
          mark_result-Reported _ _
              (send-Progress lib f net server_addr p none auth_token run_send source name h s),
          mark_result-Reported _ _
              (recv-Ends lib f net sinks server_addr p none auth_token run_recv name sink h s),
        )
      ]

  -- In a session it is the same, once there is a connection.
  pub session-Reported :
      (c : ClientSession S) (snap : Snapshot) (stream : S)
      → (get_or_connect net tcp_connect c).0 ≡ ok stream
      → (let out =
            send_from_with_handle lib f net tcp_connect run_send p auth_token c source name snap
              handle in
          Reported out.0 out.2)
        × (let out =
              recv_into_with_handle lib f net sinks tcp_connect run_recv p auth_token c name sink
                snap handle in
            Reported out.0.0 out.0.2)
  unfolding send_from_with_handle recv_into_with_handle mark_phase set_phase
  session-Reported c snap stream q =
      let h = set_phase handle connecting in
      let c' : ClientSession S = record c { tcp = none } in
      let warm = warm_for c' p in
      rw q (
        settle-Reported c' p snap _ _
            (send-Progress lib f net c.server_addr p warm auth_token run_send source name h stream),
        settle-Reported c' p snap _ _
            (recv-Ends lib f net sinks c.server_addr p warm auth_token run_recv name sink h stream),
      )

  -- Where a session has no connection and cannot make one, both calls with a handle give the error of
  -- the system as an I/O error, and the handle stays in the phase `connecting`.
  session_unconnected :
      (c : ClientSession S) (snap : Snapshot) (e : IoError)
      → (get_or_connect net tcp_connect c).0 ≡ err e
      → (let out =
            send_from_with_handle lib f net tcp_connect run_send p auth_token c source name snap
              handle in
          (out.0 ≡ err (io e)) × IsPhase connecting out.2)
        × (let out =
              recv_into_with_handle lib f net sinks tcp_connect run_recv p auth_token c name sink
                snap handle in
            (out.0.0 ≡ err (io e)) × IsPhase connecting out.0.2)
  unfolding send_from_with_handle recv_into_with_handle mark_phase set_phase phase
  session_unconnected c snap e q =
      let h = set_phase handle connecting in rw q ((refl, (h, refl, refl)), (refl, (h, refl, refl)))

  -- What the handle shows of a call in a session whose connection is `got`: how the call ended, or, where
  -- there is no connection, the phase `connecting`, although the call gives the error.
  pub data Shows (got : Result IoError S) (res : Result GirthError (Unit {0}))
      (h : Option TransferHandle) : Type 0 where
    connected : (stream : S) → got ≡ ok stream → Reported res h → Shows got res h
    unconnected :
        (e : IoError) → got ≡ err e → res ≡ err (io e) → IsPhase connecting h → Shows got res h

  -- A push or a pull with a handle in a session, whatever its connection does: where the session has a
  -- connection or makes one, the handle shows how the call ended, `complete` where it succeeds and `failed`
  -- with the text of the error where it fails in any way; and only where it cannot make one the handle stays
  -- in the phase `connecting`, and the call gives the error of the system.
  pub session-Shows :
      (c : ClientSession S) (snap : Snapshot)
      → (let out =
            send_from_with_handle lib f net tcp_connect run_send p auth_token c source name snap
              handle in
          Shows (get_or_connect net tcp_connect c).0 out.0 out.2)
        × (let out =
              recv_into_with_handle lib f net sinks tcp_connect run_recv p auth_token c name sink
                snap handle in
            Shows (get_or_connect net tcp_connect c).0 out.0.0 out.0.2)
  session-Shows c snap = elim (Result-cases (get_or_connect net tcp_connect c).0) [
    | inl (s, q) ↦
        let (push, pull) = session-Reported c snap s q in (connected s q push, connected s q pull)
    | inr (e, q) ↦
        let ((a, b), (a', b')) = session_unconnected c snap e q in
        (unconnected e q a b, unconnected e q a' b')
  ]
