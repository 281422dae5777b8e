-- ===== src/Transfer/Connection/Laws.antt =====
-- What a control connection of the server runs (src/transfer.rs).
use girth.Prelude.{◌≡◌, refl, List, [], ◌∷◌, ◌++◌, ℕ, inl, inr, Bool-cases}
use girth.Shared.Float.{Float}
use girth.Shared.Result.{Result, Result-cases}
use girth.Error.{IoError}
use girth.Control.{Hello, mode_send, mode_recv}
use girth.Auth.{same_bytes}
use girth.Sender.Setup.{SendConfig}
use girth.Receiver.Setup.{RecvConfig}
use girth.Transfer.{Admission, version_mismatch, refused, auth_error, admitted, admit}
use girth.Transfer.Laws.{IsAdmitted, admit-IsAdmitted}
use girth.Transfer.Client.{Crates, SinkCalls}
use girth.Transfer.Connection.{
  Server, Files, Event, ran, told, Next, next, done, Round, serve, handle_conn,
}

-- Every transfer among the events is admitted.
abbrev pub AllAdmitted : {K : Type 0} → (List ℕ → List ℕ → List ℕ) → Server K → List Event → Type 0
AllAdmitted hmac server [] = Unit {0}
AllAdmitted hmac server (told m b ∷ rest) = AllAdmitted hmac server rest
AllAdmitted hmac server (ran r ∷ rest) =
    IsAdmitted hmac server.authorizer server.limits r.hello r.params r.auth_state
    × AllAdmitted hmac server rest

AllAdmitted-append :
    {K : Type 0} (hmac : List ℕ → List ℕ → List ℕ) (server : Server K) (xs ys : List Event)
    → AllAdmitted hmac server xs
    → AllAdmitted hmac server ys
    → AllAdmitted hmac server (xs ++ ys)
AllAdmitted-append hmac server [] ys a b = b
AllAdmitted-append hmac server (told m f ∷ xs) ys a b = AllAdmitted-append hmac server xs ys a b
AllAdmitted-append hmac server (ran r ∷ xs) ys (i, a) b =
    (i, AllAdmitted-append hmac server xs ys a b)

module _ (lib : Crates) (f : Float) {S F K : Type 0} (files : Files F K) (sinks : SinkCalls K)
    (server : Server K) (peer_ip : ℕ) (read_json : S → Result IoError (Hello × S))
    (run_recv : RecvConfig f → K → Result IoError (Unit {0}) × K)
    (run_send : SendConfig f → Result IoError (Unit {0})) where
  abbrev conn : List (Round S) → S → List Event × Next S
  conn = handle_conn lib f files sinks server peer_ip read_json run_recv run_send

  serve-AllAdmitted :
      (t : Round S) (h : Hello) (s : S) (a : Admission)
      → admit lib.hmac server.authorizer server.limits server.params h ≡ a
      → AllAdmitted lib.hmac server
          (serve lib f files sinks server peer_ip read_json run_recv run_send t h s a).0
  serve-AllAdmitted t h s version_mismatch e = tt
  serve-AllAdmitted t h s (refused r) e = tt
  serve-AllAdmitted t h s (auth_error m) e = tt
  serve-AllAdmitted t h s (admitted p st) e = elim (Bool-cases (same_bytes h.mode mode_send)) [
    | inl k ↦ rw k (admission, tt)
    | inr k ↦ elim (Bool-cases (same_bytes h.mode mode_recv)) [
      | inl k1 ↦ rw (k, k1) (admission, tt)
      | inr k1 ↦ rw (k, k1) tt
    ]
  ]
    where
      admission : IsAdmitted lib.hmac server.authorizer server.limits h p st
      admission = admit-IsAdmitted lib.hmac server.limits server.params h server.authorizer p st e

  go_on :
      (ts : List (Round S)) (events : List Event) (n : Next S)
      → AllAdmitted lib.hmac server events
      → ((s : S) → AllAdmitted lib.hmac server (conn ts s).0)
      → AllAdmitted lib.hmac server
          (elim n as (λ _. List Event × Next S) [
            | done r ↦ (events, done r)
            | next s ↦ (events ++ (conn ts s).0, (conn ts s).1)
          ]).0
  go_on ts events (done r) a more = a
  go_on ts events (next s) a more =
      AllAdmitted-append lib.hmac server events (conn ts s).0 a (more s)

  -- Whatever messages a connection gets, in any number of rounds, every transfer that it runs is of a
  -- hello that the server admits: its version, limits and, behind an authorizer, its proof are right.
  pub handle_conn-AllAdmitted :
      (ts : List (Round S)) (s : S)
      → AllAdmitted lib.hmac server
          (handle_conn lib f files sinks server peer_ip read_json run_recv run_send ts s).0
  unfolding handle_conn
  handle_conn-AllAdmitted [] s = tt
  handle_conn-AllAdmitted (t ∷ ts) s = elim (Bool-cases t.stop) [
    | inl k ↦ rw k tt
    | inr k ↦ elim (Result-cases (read_json s)) [
      | inr (e, q) ↦ rw (k, q) tt
      | inl ((h, s'), q) ↦
          let a = admit lib.hmac server.authorizer server.limits server.params h in
          let round : List Event × Next S =
            serve lib f files sinks server peer_ip read_json run_recv run_send t h s' a in
          rw (k, q)
            (go_on ts round.0 round.1 (serve-AllAdmitted t h s' a refl)
              (handle_conn-AllAdmitted ts))
    ]
  ]
