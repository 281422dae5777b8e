-- ===== src/Transfer/Integrity.antt =====
-- The checksum at the end of a transfer (src/transfer.rs), on both sides.
use girth.Prelude.{
  ℕ, ◌≡◌, refl, ap, ◌⊎◌, inl, inr, true, List, Option, none, some, ==_iff, ◌==◌, Bool-cases,
}
use girth.Shared.Float.{Float}
use girth.Shared.Result.{Result, ok, err, Result-cases, >>=-succeeds}
use girth.Error.{IoError, GirthError}
use girth.Control.{Hello, Ack, TransferParams, magnitude}
use girth.Crypto.Payload.{Aead}
use girth.Rate.{RateWarmStart}
use girth.Runtime.{TransferHandle, transferring, verifying}
use girth.Receiver.{SocketAddr}
use girth.Receiver.Setup.{RecvConfig}
use girth.Transfer.Client.{
  Crates, ClientNet, SinkCalls, Request, open_socket, control_of, mark_phase,
}
use girth.Transfer.Pull.{
  Pulled, verify_crc, checked, conclude, after_run, connected, receive, greet, pull_request,
  pull_config, recv_core_with_stream,
}
use girth.Transfer.Server.{ServerNet}
use girth.Transfer.Serve.{Job, offer, offer_recv, finish_recv, check_read_back, recv_from_client}

-- What a sink reads back is the checksum, or it does not read back.
abbrev pub Intact : {K : Type 0} → SinkCalls K → K → ℕ → Type 0
Intact sinks sink crc =
    (sinks.read_crc32c sink ≡ ok none) ⊎ (sinks.read_crc32c sink ≡ ok (some crc))

verify_crc-ok :
    (want : ℕ) (r : Result IoError (Option ℕ))
    → verify_crc want r ≡ ok tt
    → (r ≡ ok none) ⊎ (r ≡ ok (some want))
verify_crc-ok want (err e) h = cc
verify_crc-ok want (ok none) h = inl refl
verify_crc-ok want (ok (some got)) h = elim (Bool-cases (got == want)) [
  | inl k ↦ inr (ap (λ n. ok (some n)) ((==_iff got want).0 k))
  | inr k ↦ cc (rw k at h)
]

module _ (lib : Crates) (f : Float) {S K : Type 0} (net : ClientNet S) (sinks : SinkCalls K)
    (addr : List ℕ) (p : TransferParams) (warm : Option RateWarmStart) (token : Option (List ℕ))
    (run : RecvConfig f → K → Result IoError (Unit {0}) × K) where
  -- A pull that succeeds.
  abbrev Sound : ℕ → Pulled S K → Type 0
  Sound crc o = (s : S) → o.result ≡ ok s → Intact sinks o.sink crc

  conclude-Sound :
      (h : Option TransferHandle) (s : S) (a : Ack) (sink : K) (fin : Result IoError (Unit {0}))
      → Sound a.crc32c (
          conclude lib f net sinks addr p warm token h s sink
            (checked lib f net sinks addr p warm token a sink fin))
  conclude-Sound h s a sink (err e) s' k = cc
  conclude-Sound h s a sink (ok _) s' k =
      elim (Result-cases (verify_crc a.crc32c (sinks.read_crc32c sink))) [
        | inr (e, q) ↦ cc (rw q at k)
        | inl (_, q) ↦ rw q (verify_crc-ok a.crc32c (sinks.read_crc32c sink) q)
      ]

  after_run-Sound :
      (h : Option TransferHandle) (s : S) (a : Ack) (r : Result IoError (Unit {0}) × K)
      → Sound a.crc32c (after_run lib f net sinks addr p warm token h s a r)
  after_run-Sound h s a (err e, sink) s' k = cc
  after_run-Sound h s a (ok _, sink) s' k =
      conclude-Sound (mark_phase h verifying) s a (sinks.finalize sink).1 (sinks.finalize sink).0 s'
        k

  connected-Sound :
      (h : Option TransferHandle) (q : Request) (g : (Ack × S) × Option Aead) (sink : K)
      (peer : Result GirthError SocketAddr)
      → Sound g.0.0.crc32c (connected lib f net sinks addr p warm token run h q g sink peer)
  connected-Sound h q (r, crypto) sink (err e) s' k = cc
  connected-Sound h q (r, crypto) sink (ok peer) s' k =
      let config = pull_config lib f net sinks addr p warm token q r.0 crypto peer (control_of h) in
      after_run-Sound (mark_phase h transferring) r.1 r.0 (run config sink) s' k

  receive-Sound :
      (h : Option TransferHandle) (q : Request) (g : (Ack × S) × Option Aead)
      (allocated : Result IoError (Unit {0}) × K)
      → Sound g.0.0.crc32c (receive lib f net sinks addr p warm token run h q g allocated)
  receive-Sound h q g (err e, sink) s' k = cc
  receive-Sound h q g (ok _, sink) s' k =
      connected-Sound h q g sink (open_socket net addr g.0.0 true) s' k

  -- A pull succeeds only behind an answer of the server that passes the client's checks, and where the
  -- sink reads its bytes back, only with the checksum of that answer.
  pub pull-Intact :
      (name : List ℕ) (sink : K) (handle : Option TransferHandle) (s s' : S)
      → (recv_core_with_stream lib f net sinks addr p warm token run name sink handle s).result
        ≡ ok s'
      → (a : Ack) × (s1 : S) × (crypto : Option Aead) × (greet lib f net sinks addr p warm token
            name s
          ≡ ok ((a, s1), crypto))
        × Intact sinks
            (recv_core_with_stream lib f net sinks addr p warm token run name sink handle s).sink
            a.crc32c
  unfolding recv_core_with_stream
  pull-Intact name sink handle s s' k =
      let q = pull_request lib f net sinks addr p warm token name in
      elim (Result-cases (greet lib f net sinks addr p warm token name s)) [
        | inr (e, r) ↦ cc (rw r at k)
        | inl (((a, s1), crypto), r) ↦ (
          a,
          s1,
          crypto,
          r,
          rw r (
              receive-Sound handle q ((a, s1), crypto) (sinks.allocate (magnitude a.size) sink) s'
                (rw r at k)),
        )
      ]

module _ (lib : Crates) (f : Float) {S K : Type 0} (net : ServerNet S) (h : Hello) (job : Job)
    (run : RecvConfig f → K → Result IoError (Unit {0}) × K) (open_sink : List ℕ → Result IoError K)
    (sinks : SinkCalls K) where
  read_back-Intact :
      (s s' : S) (sink : K)
      → check_read_back lib f net h job s (sinks.read_crc32c sink) ≡ ok s'
      → Intact sinks sink h.crc32c
  read_back-Intact s s' sink k = go (sinks.read_crc32c sink) k
    where
      go :
          (r : Result IoError (Option ℕ))
          → check_read_back lib f net h job s r ≡ ok s'
          → (r ≡ ok none) ⊎ (r ≡ ok (some h.crc32c))
      go (err e) k = cc
      go (ok none) k = inl refl
      go (ok (some got)) k = elim (Bool-cases (got == h.crc32c)) [
        | inl e ↦ inr (ap (λ n. ok (some n)) ((==_iff got h.crc32c).0 e))
        | inr e ↦ cc (rw e at k)
      ]

  finish-Intact :
      (s s' : S) (r : Result IoError (Unit {0}) × K)
      → finish_recv lib f net h job sinks s r ≡ ok s'
      → Intact sinks (sinks.finalize r.1).1 h.crc32c
  finish-Intact s s' (err e, sink) k = cc
  finish-Intact s s' (ok _, sink) k = elim (Result-cases (sinks.finalize sink).0) [
    | inr (e, q) ↦ cc (rw q at k)
    | inl (_, q) ↦ read_back-Intact s s' (sinks.finalize sink).1 (rw q at k)
  ]

  -- On the server a push that goes on to the data plane ends without an error only where the sink, once
  -- it is finished, reads back the checksum of the hello, or does not read back.
  pub recv_from_client-Intact :
      (a : Ack) (cfg : RecvConfig f) (sink : K) (s s' : S)
      → offer_recv lib f net h job open_sink sinks ≡ offer a (cfg, sink)
      → recv_from_client lib f net h job run open_sink sinks s ≡ ok s'
      → Intact sinks (sinks.finalize (run cfg sink).1).1 h.crc32c
  unfolding recv_from_client
  recv_from_client-Intact a cfg sink s s' o k =
      let (s1, _, e) =
        >>=-succeeds (λ s1. finish_recv lib f net h job sinks s1 (run cfg sink))
          (net.write_json a s) {out = s'} (rw o at k) in
      finish-Intact s1 s' (run cfg sink) e
