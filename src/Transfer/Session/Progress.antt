-- ===== src/Transfer/Session/Progress.antt =====
-- How far a transfer's handle has come when its result is marked (src/transfer.rs).
use girth.Prelude.{ℕ, ◌≡◌, refl, true, List, Option, some, inl, inr}
use girth.Shared.Float.{Float}
use girth.Shared.Result.{Result, ok, err, Result-cases}
use girth.Error.{IoError, GirthError, from_io}
use girth.Control.{Ack, TransferParams, magnitude}
use girth.Io.{BlockSource}
use girth.Crypto.Payload.{Aead}
use girth.Rate.{RateWarmStart}
use girth.Runtime.{
  TransferHandle, TransferPhase, transferring, verifying, complete, phase, set_phase,
}
use girth.Sender.Setup.{SendConfig}
use girth.Receiver.{SocketAddr}
use girth.Receiver.Setup.{RecvConfig}
use girth.Transfer.Client.{Crates, ClientNet, SinkCalls, Request, mark_phase, open_socket}
use girth.Transfer.Push.{prepare_send, send_core_with_stream, run_send}
use girth.Transfer.Pull.{
  Pulled, checked, conclude, greet, begin, receive, connected, after_run, finish, pull_request,
  pull_config, recv_core_with_stream,
}

abbrev pub IsPhase : TransferPhase → Option TransferHandle → Type 0
IsPhase q h = (h' : TransferHandle) × (h ≡ some h') × (phase h' ≡ q)

-- A handle before its result is marked.
pub record Progress {S : Type 0} (r : Result GirthError S) (h : Option TransferHandle)
    : Type 0 where
  pub alive : (h' : TransferHandle) × (h ≡ some h')
  pub finished : (s : S) → r ≡ ok s → IsPhase complete h

pub stopped_at :
    {S : Type 0} (e : GirthError) (h : TransferHandle) → Progress {S = S} (err e) (some h)
stopped_at e h = record { alive = (h, refl); finished = λ s k. cc }

pub completed :
    {S : Type 0} (s : S) (h : TransferHandle) → Progress (ok s) (mark_phase (some h) complete)
unfolding mark_phase set_phase phase
completed s h = record {
  alive = (set_phase h complete, refl);
  finished = λ s k. (set_phase h complete, refl, refl);
}

module _ (lib : Crates) (f : Float) {S : Type 0} (net : ClientNet S) (addr : List ℕ)
    (p : TransferParams) (warm : Option RateWarmStart) (token : Option (List ℕ))
    (run : SendConfig f → Result IoError (Unit {0})) where
  run_send-Progress :
      (h : TransferHandle) (r : Result GirthError (S × SendConfig f))
      → Progress
          (run_send lib f net addr p warm token run (some h) r).0
          (run_send lib f net addr p warm token run (some h) r).1
  unfolding mark_phase
  run_send-Progress h (err e) = stopped_at e h
  run_send-Progress h (ok (s, cfg)) = elim (Result-cases (run cfg)) [
    | inl (_, q) ↦ rw q (completed s (set_phase h transferring))
    | inr (e, q) ↦ rw q (stopped_at (from_io e) (set_phase h transferring))
  ]

  pub send-Progress :
      (source : BlockSource) (name : List ℕ) (h : TransferHandle) (s : S)
      → Progress
          (send_core_with_stream lib f net addr p warm token run source name (some h) s).0
          (send_core_with_stream lib f net addr p warm token run source name (some h) s).1
  unfolding send_core_with_stream
  send-Progress source name h s =
      run_send-Progress h (prepare_send lib f net addr p warm token source name (some h.control) s)

module _ (lib : Crates) (f : Float) {S K : Type 0} (net : ClientNet S) (sinks : SinkCalls K)
    (addr : List ℕ) (p : TransferParams) (warm : Option RateWarmStart) (token : Option (List ℕ))
    (run : RecvConfig f → K → Result IoError (Unit {0}) × K) where
  abbrev Ends : Pulled S K → Type 0
  Ends o = Progress o.result o.handle

  conclude-Ends :
      (h : TransferHandle) (s : S) (sink : K) (r : Result GirthError (Unit {0}))
      → Ends (conclude lib f net sinks addr p warm token (some h) s sink r)
  conclude-Ends h s sink (err e) = stopped_at e h
  conclude-Ends h s sink (ok _) = completed s h

  finish-Ends :
      (h : TransferHandle) (s : S) (a : Ack) (sink : K)
      → Ends (finish lib f net sinks addr p warm token (some h) s a sink)
  finish-Ends h s a sink =
      let sink' = (sinks.finalize sink).1 in
      conclude-Ends h s sink'
        (checked lib f net sinks addr p warm token a sink' (sinks.finalize sink).0)

  after_run-Ends :
      (h : TransferHandle) (s : S) (a : Ack) (r : Result IoError (Unit {0}) × K)
      → Ends (after_run lib f net sinks addr p warm token (some h) s a r)
  unfolding mark_phase
  after_run-Ends h s a (err e, sink) = stopped_at (from_io e) h
  after_run-Ends h s a (ok _, sink) = finish-Ends (set_phase h verifying) s a sink

  connected-Ends :
      (h : TransferHandle) (q : Request) (g : (Ack × S) × Option Aead) (sink : K)
      (peer : Result GirthError SocketAddr)
      → Ends (connected lib f net sinks addr p warm token run (some h) q g sink peer)
  unfolding mark_phase
  connected-Ends h q (r, crypto) sink (err e) = stopped_at e h
  connected-Ends h q (r, crypto) sink (ok peer) =
      after_run-Ends (set_phase h transferring) r.1 r.0 (
        run (pull_config lib f net sinks addr p warm token q r.0 crypto peer (some h.control)) sink)

  receive-Ends :
      (h : TransferHandle) (q : Request) (g : (Ack × S) × Option Aead)
      (allocated : Result IoError (Unit {0}) × K)
      → Ends (receive lib f net sinks addr p warm token run (some h) q g allocated)
  receive-Ends h q g (err e, sink) = stopped_at (from_io e) h
  receive-Ends h q g (ok _, sink) = connected-Ends h q g sink (open_socket net addr g.0.0 true)

  begin-Ends :
      (h : TransferHandle) (q : Request) (sink : K)
      (g : Result GirthError ((Ack × S) × Option Aead))
      → Ends (begin lib f net sinks addr p warm token run (some h) q sink g)
  begin-Ends h q sink (err e) = stopped_at e h
  begin-Ends h q sink (ok g) = receive-Ends h q g (sinks.allocate (magnitude g.0.0.size) sink)

  pub recv-Ends :
      (name : List ℕ) (sink : K) (h : TransferHandle) (s : S)
      → Ends (recv_core_with_stream lib f net sinks addr p warm token run name sink (some h) s)
  unfolding recv_core_with_stream
  recv-Ends name sink h s =
      begin-Ends h (pull_request lib f net sinks addr p warm token name) sink
        (greet lib f net sinks addr p warm token name s)
