-- ===== src/Transfer/Connection.antt =====
-- src/transfer.rs: the server and a control connection of it, with the transfers that it runs.
pub mod Laws
pub mod Listen
mod Tests
use girth.Prelude.{
  ℕ, Bool, true, false, not, List, [], ◌∷◌, ◌++◌, Option, none, some, if◌then◌else◌,
}
use girth.Shared.Float.{Float}
use girth.Shared.Result.{Result, ok, err, ◌>>=◌}
use girth.Shared.Text.{text}
use girth.Error.{IoError, ErrorKind}
use girth.Control.{Hello, TransferParams, mode_send, mode_recv}
use girth.Io.{BlockSource}
use girth.Auth.{same_bytes}
use girth.Sender.Setup.{SendConfig}
use girth.Receiver.Setup.{RecvConfig}
use girth.Transfer.{
  AuthState, ServerLimits, Admission, version_mismatch, refused, auth_error, admitted, admit,
  default_limits, refusal_text,
}
use girth.Transfer.Client.{Crates, SinkCalls}
use girth.Transfer.Server.{OpenOptions, open_served_source, open_served_sink, ServerNet}
use girth.Transfer.Serve.{Job, recv_from_client, send_to_client}

abbrev pub Authorizer : Type 0
Authorizer = List ℕ → List ℕ → Result (List ℕ) (List ℕ)

-- `K` is the type of a sink.
pub record Server (K : Type 0) : Type 0 where
  pub addr : List ℕ
  pub dir : List ℕ
  pub params : TransferParams
  pub authorizer : Option Authorizer
  pub udp_port_range : Option (ℕ × ℕ)
  pub limits : ServerLimits
  pub source_resolver : Option (List ℕ → Result IoError BlockSource)
  pub sink_resolver : Option (List ℕ → Result IoError K)

module _ {K : Type 0} where
  abbrev pub new_server : List ℕ → List ℕ → TransferParams → Server K
  new_server addr dir params = record {
    addr = addr;
    dir = dir;
    params = params;
    authorizer = none;
    udp_port_range = none;
    limits = default_limits;
    source_resolver = none;
    sink_resolver = none;
  }

  abbrev pub with_authorizer : Server K → Authorizer → Server K
  with_authorizer server authorizer = record server { authorizer = some authorizer }

  abbrev pub with_udp_port_range : Server K → ℕ × ℕ → Server K
  with_udp_port_range server range = record server { udp_port_range = some range }

  abbrev pub with_limits : Server K → ServerLimits → Server K
  with_limits server limits = record server { limits = limits }

  abbrev pub with_source_resolver : Server K → (List ℕ → Result IoError BlockSource) → Server K
  with_source_resolver server resolver = record server { source_resolver = some resolver }

  abbrev pub with_sink_resolver : Server K → (List ℕ → Result IoError K) → Server K
  with_sink_resolver server resolver = record server { sink_resolver = some resolver }

-- The file system: `open_file` and `is_file`, and the sources and sinks over an open file.
pub record Files (F K : Type 0) : Type 0 where
  pub open_file : OpenOptions → List ℕ → Result IoError F
  pub is_file : F → Result IoError Bool
  pub source_from_file : F → Result IoError BlockSource
  pub sink_from_file : F → K
  pub source_error : IoError

module _ {F K : Type 0} (files : Files F K) (server : Server K) where
  abbrev pub source_for : List ℕ → Result IoError BlockSource
  source_for name = elim server.source_resolver [
    | some resolver ↦ resolver name
    | none ↦
        open_served_source files.open_file files.is_file server.dir name >>= files.source_from_file
  ]

  abbrev pub sink_for : List ℕ → Result IoError K
  sink_for name = elim server.sink_resolver [
    | some resolver ↦ resolver name
    | none ↦ open_served_sink files.open_file files.is_file server.dir name >>= λ file.
        ok (files.sink_from_file file)
  ]

-- A transfer that the server runs.
pub record Run : Type 0 where
  pub hello : Hello
  pub params : TransferParams
  pub auth_state : Option AuthState

-- What the connection does: it runs a transfer, or tells the client an error with its flag
-- `auth_required`, in `ack_err`.
pub data Event : Type 0 where
  ran : Run → Event
  told : List ℕ → Bool → Event

-- What a round of the connection's loop ends with: the next round, or the connection's result.
pub data Next (S : Type 0) : Type 0 where
  next : S → Next S
  done : Result IoError (Unit {0}) → Next S

abbrev pub continue_with : {S : Type 0} → Result IoError S → Next S
continue_with (ok s) = next s
continue_with (err e) = done (err e)

-- What a round finds: whether the server stops, the system, and the session's number.
pub record Round (S : Type 0) : Type 0 where
  pub stop : Bool
  pub net : ServerNet S
  pub session : ℕ

-- The ends of a connection that are no error.
abbrev pub is_end : ErrorKind → Bool
is_end ErrorKind.unexpected_eof = true
is_end ErrorKind.connection_reset = true
is_end _ = false

module _ (lib : Crates) (f : Float) {S F K : Type 0} (files : Files F K) (sinks : SinkCalls K)
    (server : Server K) (peer_ip : ℕ) (read_json : S → Result IoError (Hello × S))
    (run_recv : RecvConfig f → K → Result IoError (Unit {0}) × K)
    (run_send : SendConfig f → Result IoError (Unit {0})) where
  -- An admitted hello, by its mode.
  abbrev pub transfer :
      Round S → Hello → TransferParams → Option AuthState → S → List Event × Next S
  transfer t h p st s =
      let job : Job = record {
        session = t.session;
        params = p;
        peer_ip = peer_ip;
        udp_range = server.udp_port_range;
        auth_state = st;
      } in
      let run : Event = ran (record { hello = h; params = p; auth_state = st }) in
      if same_bytes h.mode mode_send
      then (
        run ∷ [],
        continue_with (recv_from_client lib f t.net h job run_recv (sink_for files server) sinks s),
      )
      else (if same_bytes h.mode mode_recv
          then (
            run ∷ [],
            continue_with (
                send_to_client lib f t.net h job run_send (source_for files server)
                  files.source_error server.limits s),
          )
          else (told (text "unknown mode") false ∷ [], done (ok tt)))

  -- A round behind the hello: a hello that is not admitted ends the connection.
  abbrev pub serve : Round S → Hello → S → Admission → List Event × Next S
  serve t h s version_mismatch = (told (text "protocol version mismatch") false ∷ [], done (ok tt))
  serve t h s (refused r) = (told (refusal_text h server.limits r) false ∷ [], done (ok tt))
  serve t h s (auth_error message) = (told message true ∷ [], done (ok tt))
  serve t h s (admitted p st) = transfer t h p st s

  -- The rounds are those that the client's messages start; the connection waits behind the last.
  unfoldable pub handle_conn : List (Round S) → S → List Event × Next S
  unfolding admit refusal_text recv_from_client send_to_client open_served_source open_served_sink
  handle_conn [] s = ([], next s)
  handle_conn (t ∷ ts) s =
      let rest : List Event × Next S = elim (read_json s) [
        | err e ↦ ([], done (if is_end e.kind then ok tt else err e))
        | ok (h, s') ↦
            let (events, n) =
              serve t h s' (admit lib.hmac server.authorizer server.limits server.params h) in
            elim n as (λ _. List Event × Next S) [
              | done r ↦ (events, done r)
              | next s'' ↦ let (more, end) = handle_conn ts s'' in (events ++ more, end)
            ]
      ] in
      if t.stop then ([], done (ok tt)) else rest
