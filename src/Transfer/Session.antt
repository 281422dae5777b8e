-- ===== src/Transfer/Session.antt =====
-- src/transfer.rs: the entry points of the client, and `ClientSession`, which keeps the control
-- connection and what a transfer measured for the next one. A mutex is held for one access.
pub mod Recv
pub mod Laws
pub mod Progress
pub mod Reports
mod Tests
use girth.Prelude.{ℕ, Bool, true, false, not, List, Option, none, some, ltb, if◌then◌else◌}
use girth.Shared.Float.{Float}
use girth.Shared.Result.{Result, ok, err, ◌>>=◌}
use girth.Error.{IoError, GirthError, io, from_io}
use girth.Control.{TransferParams}
use girth.Io.{BlockSource}
use girth.Rate.{RateWarmStart}
use girth.Runtime.{TransferHandle, connecting}
use girth.Sender.Setup.{SendConfig}
use girth.Receiver.{SocketAddr}
use girth.Receiver.Setup.{RecvConfig}
use girth.Transfer.Names.{connect_control}
use girth.Transfer.Client.{Crates, ClientNet, SinkCalls, mark_phase, mark_result, warm_for_params}
use girth.Transfer.Push.{send_core_with_stream}
use girth.Transfer.Pull.{Pulled, recv_core_with_stream}

abbrev pub no_warm_start : RateWarmStart
no_warm_start = record { rate_bps = 0; srtt_net_us = 0; base_rtt_us = 0 }

-- Over the state `S` of a connection.
pub record ClientSession (S : Type 0) : Type 0 where
  pub server_addr : List ℕ
  pub tcp : Option S
  pub warm_start : RateWarmStart

-- What a session reads of a snapshot of the statistics.
pub record Snapshot : Type 0 where
  pub target_rate_bps : ℕ
  pub srtt_net_us : ℕ
  pub base_rtt_us : ℕ

-- What a call with a handle leaves: the result, the session and the handle.
abbrev pub Handled : Type 0 → Type 0
Handled S = Result GirthError (Unit {0}) × ClientSession S × Option TransferHandle

abbrev positive_or : ℕ → ℕ → ℕ
positive_or new old = if ltb 0 new then new else old

module _ {S : Type 0} where
  unfoldable pub new_session : List ℕ → ClientSession S
  new_session server_addr = record {
    server_addr = server_addr;
    tcp = none;
    warm_start = no_warm_start;
  }

  unfoldable pub put_stream : ClientSession S → S → ClientSession S
  put_stream c stream = record c { tcp = some stream }

  unfoldable pub warm_for : ClientSession S → TransferParams → Option RateWarmStart
  unfolding warm_for_params
  warm_for c p = warm_for_params p (some c.warm_start)

  unfoldable pub record_warm_start : ClientSession S → TransferParams → Snapshot → ClientSession S
  record_warm_start c p snap = if not p.adaptive then c else record c {
    warm_start = record {
      rate_bps = positive_or snap.target_rate_bps c.warm_start.rate_bps;
      srtt_net_us = positive_or snap.srtt_net_us c.warm_start.srtt_net_us;
      base_rtt_us = positive_or snap.base_rtt_us c.warm_start.base_rtt_us;
    };
  }

  -- The end of every transfer of a session: on success what was measured and the stream are kept, and
  -- else the stream is dropped.
  abbrev pub settle :
      ClientSession S
      → TransferParams
      → Snapshot
      → Result GirthError S
      → Result GirthError (Unit {0}) × ClientSession S
  settle c p snap (ok stream) = (ok tt, put_stream (record_warm_start c p snap) stream)
  settle c p snap (err e) = (err e, c)

  abbrev pub drop_stream : Result GirthError S → Result GirthError (Unit {0})
  drop_stream (ok stream) = ok tt
  drop_stream (err e) = err e

  abbrev pub settle_handle :
      ClientSession S
      → TransferParams
      → Snapshot
      → Result GirthError S
      → Option TransferHandle
      → Handled S
  settle_handle c p snap r handle =
      let settled = settle c p snap r in (settled.0, settled.1, mark_result handle r)

-- The system's connection besides the rest of the client's system.
module _ {S : Type 0} (net : ClientNet S) (tcp_connect : SocketAddr → ℕ → Result IoError S) where
  unfoldable pub connect : List ℕ → Result IoError (ClientSession S)
  unfolding connect_control
  connect server_addr = connect_control net.to_socket_addrs tcp_connect server_addr >>= λ stream.
      ok (record { server_addr = server_addr; tcp = some stream; warm_start = no_warm_start })

  -- The stream is taken out of the session.
  unfoldable pub get_or_connect : ClientSession S → Result IoError S × ClientSession S
  unfolding connect_control
  get_or_connect c = (
    elim c.tcp [
      | some stream ↦ ok stream
      | none ↦ connect_control net.to_socket_addrs tcp_connect c.server_addr
    ],
    record c { tcp = none },
  )

module _ (lib : Crates) (f : Float) {S : Type 0} (net : ClientNet S)
    (tcp_connect : SocketAddr → ℕ → Result IoError S)
    (run_send : SendConfig f → Result IoError (Unit {0})) (p : TransferParams)
    (auth_token : Option (List ℕ)) where
  abbrev send_on :
      List ℕ
      → BlockSource
      → List ℕ
      → Option TransferHandle
      → Option RateWarmStart
      → Result IoError S
      → Result GirthError S × Option TransferHandle
  send_on server_addr source name handle warm (err e) = (err (from_io e), handle)
  send_on server_addr source name handle warm (ok stream) =
      send_core_with_stream lib f net server_addr p warm auth_token run_send source name handle
        stream

  -- `send_core`: a push on a connection of its own.
  unfoldable pub send_core :
      List ℕ
      → BlockSource
      → List ℕ
      → Option TransferHandle
      → Result GirthError S × Option TransferHandle
  unfolding send_core_with_stream mark_phase connect_control
  send_core server_addr source name handle =
      send_on server_addr source name (mark_phase handle connecting) none
        (connect_control net.to_socket_addrs tcp_connect server_addr)

  unfoldable pub client_send_from : List ℕ → BlockSource → List ℕ → Result GirthError (Unit {0})
  unfolding send_core
  client_send_from server_addr source name = drop_stream (send_core server_addr source name none).0

  unfoldable pub client_send_from_with_handle :
      List ℕ
      → BlockSource
      → List ℕ
      → TransferHandle
      → Result GirthError (Unit {0}) × Option TransferHandle
  unfolding send_core mark_result
  client_send_from_with_handle server_addr source name handle =
      let out = send_core server_addr source name (some handle) in
      (drop_stream out.0, mark_result out.1 out.0)

  -- `ClientSession::send_from`
  unfoldable pub send_from :
      ClientSession S
      → BlockSource
      → List ℕ
      → Snapshot
      → Result GirthError (Unit {0}) × ClientSession S
  unfolding get_or_connect warm_for send_core_with_stream put_stream record_warm_start
  send_from c source name snap =
      let taken = get_or_connect net tcp_connect c in
      elim taken.0 as (λ _. Result GirthError (Unit {0}) × ClientSession S) [
        | err e ↦ (err (io e), taken.1)
        | ok stream ↦
            settle taken.1 p snap
              (send_core_with_stream lib f net c.server_addr p (warm_for taken.1 p) auth_token
                run_send source name none stream).0
      ]

  unfoldable pub send_from_with_handle :
      ClientSession S → BlockSource → List ℕ → Snapshot → TransferHandle → Handled S
  unfolding get_or_connect warm_for send_core_with_stream mark_phase mark_result put_stream
      record_warm_start
  send_from_with_handle c source name snap handle =
      let taken = get_or_connect net tcp_connect c in
      let handle' = mark_phase (some handle) connecting in
      elim taken.0 as (λ _. Handled S) [
        | err e ↦ (err (io e), taken.1, handle')
        | ok stream ↦
            let out =
              send_core_with_stream lib f net c.server_addr p (warm_for taken.1 p) auth_token
                run_send source name handle' stream in
            settle_handle taken.1 p snap out.0 out.1
      ]
