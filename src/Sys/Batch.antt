-- ===== src/Sys/Batch.antt =====
-- src/sys/linux.rs: `BatchSender`, which hands a batch of datagrams to the kernel in as few calls as it takes.
-- The socket is a parameter with what its documentation says of a call.
pub mod Order
mod Tests
use girth.Prelude.{
  ℕ, zero, suc, ◌+◌, ◌-◌, ◌≤◌, ◌<◌, ◌≡◌, ◌⊎◌, refl, sym, ap, ◌∙◌, inl, inr, Bool, true, false, List,
  [], ◌∷◌, ◌++◌, arith, leb, length, length-append, length-drop, length-take, take, drop,
  take-append-drop, max, if◌then◌else◌, Bool-cases,
}

pub record BatchSender : Type 0 where
  pub cap : ℕ
  pub queued : List (List ℕ)
  pub bad : Bool

unfoldable pub new_batch : ℕ → Bool → BatchSender
new_batch cap_hint no_batch = record { cap = max cap_hint 8; queued = []; bad = no_batch }

abbrev pub reset : BatchSender → BatchSender
reset b = record b { queued = [] }

-- A datagram beyond the capacity is dropped.
unfoldable pub add : BatchSender → List ℕ → BatchSender
add b p = if leb b.cap (length b.queued) then b else record b { queued = b.queued ++ (p ∷ []) }

-- The result of `sendmmsg`: how many were taken, `EINTR`, or another error.
pub data Sent : Type 0 where
  taken : ℕ → Sent
  interrupted : Sent
  broke : Sent

-- `wire` is what the kernel has taken, and `patience` bounds how often calls are interrupted from a state on.
pub record Socket (S : Type 0) : Type 0 where
  pub sendmmsg : S → List (List ℕ) → Sent × S
  pub send_to : S → List ℕ → Bool × S
  pub wire : S → List (List ℕ)
  pub patience : S → ℕ
  pub took_within :
      (s s' : S) (ps : List (List ℕ)) (n : ℕ) → sendmmsg s ps ≡ (taken n, s') → n ≤ length ps
  pub took :
      (s s' : S) (ps : List (List ℕ)) (n : ℕ)
      → sendmmsg s ps ≡ (taken n, s')
      → (wire s' ≡ wire s ++ take n ps) × (patience s' ≤ patience s)
  pub took_none :
      (s s' : S) (ps : List (List ℕ))
      → sendmmsg s ps ≡ (interrupted, s')
      → (wire s' ≡ wire s) × (patience s' < patience s)
  pub took_broken : (s s' : S) (ps : List (List ℕ)) → sendmmsg s ps ≡ (broke, s') → wire s' ≡ wire s
  pub sent_one : (s s' : S) (p : List ℕ) → send_to s p ≡ (true, s') → wire s' ≡ wire s ++ (p ∷ [])
  pub sent_none : (s s' : S) (p : List ℕ) → send_to s p ≡ (false, s') → wire s' ≡ wire s

-- How the loop of `sendmmsg` ends: its fuel did not reach, or what is left, whether the socket is bad, and the
-- state.
pub data Looped (S : Type 0) : Type 0 where
  spins : Looped S
  left : List (List ℕ) → Bool → S → Looped S

module _ {S : Type 0} (sock : Socket S) where
  -- What follows a call, with `go` for the next round.
  abbrev pub after_call : (S → List (List ℕ) → Looped S) → List (List ℕ) → Sent × S → Looped S
  after_call go ps (taken zero, s) = left ps false s
  after_call go ps (taken (suc n), s) = go s (drop (suc n) ps)
  after_call go ps (interrupted, s) = go s ps
  after_call go ps (broke, s) = left ps true s

  pub send_loop : ℕ → S → List (List ℕ) → Looped S
  send_loop fuel s [] = left [] false s
  send_loop zero s (p ∷ ps) = spins
  send_loop (suc fuel) s (p ∷ ps) =
      after_call (λ s ps. send_loop fuel s ps) (p ∷ ps) (sock.sendmmsg s (p ∷ ps))

  -- One datagram at a time: how many were taken.
  abbrev count : Bool → ℕ × S → ℕ × S
  count true (n, s) = (suc n, s)
  count false (n, s) = (n, s)

  pub fallback : S → List (List ℕ) → ℕ × S
  fallback s [] = (0, s)
  fallback s (p ∷ ps) = let (ok, s') = sock.send_to s p in count ok (fallback s' ps)

  -- The number of datagrams sent, the batch behind the call, and the state; `spins` does not occur.
  abbrev finish : BatchSender → Looped S → Looped S ⊎ (ℕ × BatchSender × S)
  finish b spins = inl spins
  finish b (left ps bad s) =
      let (n, s') = fallback s ps in
      inr (length b.queued - length ps + n, record b { bad = bad }, s')

  unfoldable pub flush : BatchSender → S → Looped S ⊎ (ℕ × BatchSender × S)
  unfolding send_loop fallback
  flush b s =
      if b.bad
      then finish b (left b.queued true s)
      else finish b (send_loop (length b.queued + sock.patience s) s b.queued)
