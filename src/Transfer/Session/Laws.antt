-- ===== src/Transfer/Session/Laws.antt =====
-- What a transfer leaves in the client's session (src/transfer.rs).
use girth.Prelude.{ℕ, ◌≡◌, refl, true, false, List, Option, none, is_some, inl, inr, Bool-cases}
use girth.Shared.Float.{Float}
use girth.Shared.Result.{Result, ok, err, Result-cases}
use girth.Error.{IoError, GirthError, io}
use girth.Control.{TransferParams}
use girth.Io.{BlockSource}
use girth.Runtime.{TransferHandle}
use girth.Sender.Setup.{SendConfig}
use girth.Receiver.{SocketAddr}
use girth.Receiver.Setup.{RecvConfig}
use girth.Transfer.Client.{Crates, ClientNet, SinkCalls}
use girth.Transfer.Session.{
  ClientSession, Snapshot, get_or_connect, put_stream, record_warm_start, settle, send_from,
  send_from_with_handle,
}
use girth.Transfer.Session.Recv.{recv_into, recv_into_with_handle}

-- A transfer that ends leaves a stream in the session exactly where it succeeded, and what was measured
-- only where it succeeded in the adaptive mode.
pub record Settled {S : Type 0} (p : TransferParams) (c c' : ClientSession S)
    (r : Result GirthError (Unit {0})) : Type 0 where
  pub addr_same : c'.server_addr ≡ c.server_addr
  pub stream_kept : r ≡ ok tt → is_some c'.tcp ≡ true
  pub stream_dropped :
      (e : GirthError) → r ≡ err e → (c'.tcp ≡ none) × (c'.warm_start ≡ c.warm_start)
  pub fixed_same : p.adaptive ≡ false → c'.warm_start ≡ c.warm_start

module _ {S : Type 0} (p : TransferParams) (snap : Snapshot) where
  -- The session that a transfer takes the stream of.
  abbrev taken : ClientSession S → ClientSession S
  taken c = record c { tcp = none }

  settle-Settled :
      (c : ClientSession S) (r : Result GirthError S)
      → Settled p c (settle (taken c) p snap r).1 (settle (taken c) p snap r).0
  unfolding put_stream record_warm_start
  settle-Settled c (err e) = record {
    addr_same = refl;
    stream_kept = λ k. cc;
    stream_dropped = λ e k. (refl, refl);
    fixed_same = λ k. refl;
  }
  settle-Settled c (ok stream) = record {
    addr_same = elim (Bool-cases p.adaptive) [ inl k ↦ rw k refl | inr k ↦ rw k refl ];
    stream_kept = λ k. refl;
    stream_dropped = λ e k. cc;
    fixed_same = λ k. rw k refl;
  }

  failed-Settled : (c : ClientSession S) (e : GirthError) → Settled p c (taken c) (err e)
  failed-Settled c e = record {
    addr_same = refl;
    stream_kept = λ k. cc;
    stream_dropped = λ e k. (refl, refl);
    fixed_same = λ k. refl;
  }

module _ (lib : Crates) (f : Float) {S K : Type 0} (net : ClientNet S) (sinks : SinkCalls K)
    (tcp_connect : SocketAddr → ℕ → Result IoError S)
    (run_send : SendConfig f → Result IoError (Unit {0}))
    (run_recv : RecvConfig f → K → Result IoError (Unit {0}) × K) (p : TransferParams)
    (auth_token : Option (List ℕ)) where
  -- Every call of a session, a push or a pull, with or without a handle, keeps the server's address; a
  -- call that succeeds leaves a connection, one that fails leaves none and what was measured before; and
  -- what was measured stays in the fixed mode.
  pub session-Settled :
      (c : ClientSession S) (source : BlockSource) (name : List ℕ) (sink : K) (snap : Snapshot)
      (handle : TransferHandle)
      → (let out = send_from lib f net tcp_connect run_send p auth_token c source name snap in
          Settled p c out.1 out.0)
        × (let out =
              send_from_with_handle lib f net tcp_connect run_send p auth_token c source name snap
                handle in
            Settled p c out.1 out.0)
        × (let out = recv_into lib f net sinks tcp_connect run_recv p auth_token c name sink snap in
            Settled p c out.0.1 out.0.0)
        × (let out =
              recv_into_with_handle lib f net sinks tcp_connect run_recv p auth_token c name sink
                snap handle in
            Settled p c out.0.1 out.0.0)
  unfolding send_from send_from_with_handle recv_into recv_into_with_handle get_or_connect
  session-Settled c source name sink snap handle =
      elim (Result-cases (get_or_connect net tcp_connect c).0) [
        | inr (e, q) ↦ rw q (
          failed-Settled p snap c (io e),
          failed-Settled p snap c (io e),
          failed-Settled p snap c (io e),
          failed-Settled p snap c (io e),
        )
        | inl (stream, q) ↦ rw q (
          settle-Settled p snap c _,
          settle-Settled p snap c _,
          settle-Settled p snap c _,
          settle-Settled p snap c _,
        )
      ]
