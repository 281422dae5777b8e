-- ===== src/Sys/Batch/Tests.antt =====
-- `flush` (src/sys/linux.rs) on a socket that takes one datagram in a call.
use girth.Prelude.{
  ℕ, ◌≤◌, ◌≡◌, refl, sym, ap, ◌∙◌, inr, Bool, true, false, List, [], ◌∷◌, ◌++◌, arith, length, take,
}
use mathlib.Core.List.{append-nil}
use girth.Sys.Batch.{BatchSender, Sent, taken, interrupted, broke, Socket, flush}
use girth.Sys.Batch.Order.{Hands, flush-Hands}

abbrev Wire : Type 0
Wire = List (List ℕ)

abbrev send_first : Wire → List (List ℕ) → Sent × Wire
send_first w [] = (taken 0, w)
send_first w (p ∷ ps) = (taken 1, w ++ (p ∷ []))

abbrev number : Sent → ℕ
number (taken n) = n
number interrupted = 0
number broke = 0

sent_lem :
    (w w' : Wire) (ps : List (List ℕ)) (r : Sent)
    → send_first w ps ≡ (r, w')
    → ((n : ℕ) × (r ≡ taken n)) × (number r ≤ length ps) × (w' ≡ w ++ take (number r) ps)
sent_lem w w' [] r e =
    let same = sym (ap (λ (p : Sent × Wire). p.0) e) in
    rw same ((0, refl), omega arith, sym (ap (λ (p : Sent × Wire). p.1) e) ∙ sym (append-nil w))
sent_lem w w' (p ∷ ps) r e =
    let same = sym (ap (λ (p : Sent × Wire). p.0) e) in
    rw same ((1, refl), omega arith, sym (ap (λ (p : Sent × Wire). p.1) e))

abbrev one_call : Socket Wire
one_call = record {
  sendmmsg = send_first;
  send_to = λ w p. (true, w ++ (p ∷ []));
  wire = λ w. w;
  patience = λ w. 0;
  took_within = λ s s' ps n e. (sent_lem s s' ps (taken n) e).1;
  took = λ s s' ps n e. ((sent_lem s s' ps (taken n) e).2, omega arith);
  took_none = λ s s' ps e. absurd (cc (sent_lem s s' ps interrupted e).0.1);
  took_broken = λ s s' ps e. absurd (cc (sent_lem s s' ps broke e).0.1);
  sent_one = λ s s' p e. sym (ap (λ (x : Bool × Wire). x.1) e);
  sent_none = λ s s' p e. cc;
}

abbrev two : BatchSender
two = record { cap = 8; queued = (1 ∷ []) ∷ (2 ∷ []) ∷ []; bad = false }

flush-Hands_example :
    (n : ℕ) × (b' : BatchSender) × (s' : Wire) × (flush one_call two [] ≡ inr (n, b', s'))
    × Hands one_call [] two.queued n s'
flush-Hands_example = flush-Hands one_call two []
