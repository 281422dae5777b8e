-- ===== src/Sys/Batch/Order.antt =====
-- `BatchSender::flush` (src/sys/linux.rs) keeps the order of a batch.
use mathlib.Core.List.{append-nil, append_assoc}
use girth.Prelude.{
  ℕ, zero, suc, ◌+◌, ◌-◌, ◌≤◌, ◌≡◌, refl, sym, ap, subst, ◌∙◌, inl, inr, Bool, true, false, List,
  [], ◌∷◌, ◌++◌, arith, length, length-append, length-drop, take, drop, take-append-drop,
  Bool-cases,
}
use girth.Sys.Batch.{
  BatchSender, Sent, taken, interrupted, broke, Socket, Looped, spins, left, after_call, send_loop,
  count, fallback, finish, flush,
}

-- Some of the datagrams, in their order, each at most once.
pub data Kept : List (List ℕ) → List (List ℕ) → Type 0 where
  none_left : Kept [] []
  keep : {p : List ℕ} {out ps : List (List ℕ)} → Kept out ps → Kept (p ∷ out) (p ∷ ps)
  skip : {p : List ℕ} {out ps : List (List ℕ)} → Kept out ps → Kept out (p ∷ ps)

behind :
    (front : List (List ℕ)) {out ps : List (List ℕ)}
    → Kept out ps
    → Kept (front ++ out) (front ++ ps)
behind [] k = k
behind (p ∷ front) k = keep (behind front k)

module _ {S : Type 0} (sock : Socket S) where
  -- What a call hands on: some of the datagrams, which it counts.
  pub record Hands (s : S) (ps : List (List ℕ)) (n : ℕ) (s' : S) : Type 0 where
    pub out : List (List ℕ)
    pub kept : Kept out ps
    pub counted : n ≡ length out
    pub on_wire : sock.wire s' ≡ sock.wire s ++ out

  fallback-Hands :
      (s : S) (ps : List (List ℕ)) → Hands s ps (fallback sock s ps).0 (fallback sock s ps).1
  unfolding fallback
  fallback-Hands s [] = record {
    out = [];
    kept = none_left;
    counted = refl;
    on_wire = sym (append-nil (sock.wire s));
  }
  fallback-Hands s (p ∷ ps) =
      one (sock.send_to s p).0 (sock.send_to s p).1 refl (λ s1. fallback-Hands s1 ps)
    where
      one :
          (ok : Bool) (s1 : S)
          → sock.send_to s p ≡ (ok, s1)
          → ((s2 : S) → Hands s2 ps (fallback sock s2 ps).0 (fallback sock s2 ps).1)
          → Hands s
              (p ∷ ps)
              (count sock ok (fallback sock s1 ps)).0
              (count sock ok (fallback sock s1 ps)).1
      one true s1 e more =
          let h = more s1 in
          record {
            out = p ∷ h.out;
            kept = keep h.kept;
            counted = ap suc h.counted;
            on_wire =
                h.on_wire
                ∙ ap (λ (w : List (List ℕ)). w ++ h.out) (sock.sent_one s s1 p e)
                ∙ append_assoc (sock.wire s) (p ∷ []) h.out;
          }
      one false s1 e more =
          let h = more s1 in
          record {
            out = h.out;
            kept = skip h.kept;
            counted = h.counted;
            on_wire = h.on_wire ∙ ap (λ (w : List (List ℕ)). w ++ h.out) (sock.sent_none s s1 p e);
          }

  -- How the loop leaves a batch: a front of it is sent.
  abbrev Leaves : S → List (List ℕ) → Looped S → Type 0
  Leaves s ps spins = ⊥
  Leaves s ps (left rest bad s') =
      (front : List (List ℕ)) × (front ++ rest ≡ ps) × (sock.wire s' ≡ sock.wire s ++ front)

  abbrev Promises : ℕ → Type 0
  Promises fuel =
      (s : S) (ps : List (List ℕ))
      → length ps + sock.patience s ≤ fuel
      → Leaves s ps (send_loop sock fuel s ps)

  further :
      (s s1 : S) (ps : List (List ℕ)) (n : ℕ) (x : Looped S)
      → sock.wire s1 ≡ sock.wire s ++ take n ps
      → Leaves s1 (drop n ps) x
      → Leaves s ps x
  further s s1 ps n spins e l = l
  further s s1 ps n (left rest bad s') e (front, parts, on_wire) = (
    take n ps ++ front,
    append_assoc (take n ps) front rest
        ∙ ap (λ (t : List (List ℕ)). take n ps ++ t) parts
        ∙ take-append-drop n ps,
    on_wire
        ∙ ap (λ (w : List (List ℕ)). w ++ front) e
        ∙ append_assoc (sock.wire s) (take n ps) front,
  )

  unchanged :
      (s s1 : S) (ps : List (List ℕ)) (x : Looped S)
      → sock.wire s1 ≡ sock.wire s
      → Leaves s1 ps x
      → Leaves s ps x
  unchanged s s1 ps spins e l = l
  unchanged s s1 ps (left rest bad s') e (front, parts, on_wire) =
      (front, parts, on_wire ∙ ap (λ (w : List (List ℕ)). w ++ front) e)

  after_call-Leaves :
      (fuel : ℕ) (s : S) (p : List ℕ) (ps : List (List ℕ)) (r : Sent) (s1 : S)
      → Promises fuel
      → sock.sendmmsg s (p ∷ ps) ≡ (r, s1)
      → length (p ∷ ps) + sock.patience s ≤ suc fuel
      → Leaves s (p ∷ ps) (after_call sock (λ s ps. send_loop sock fuel s ps) (p ∷ ps) (r, s1))
  after_call-Leaves fuel s p ps (taken zero) s1 more e enough =
      ([], refl, (sock.took s s1 (p ∷ ps) 0 e).0)
  after_call-Leaves fuel s p ps (taken (suc n)) s1 more e enough =
      let (w, calm) = sock.took s s1 (p ∷ ps) (suc n) e in
      further s s1 (p ∷ ps) (suc n) _ w (
        more s1 (drop (suc n) (p ∷ ps)) (
          omega (
            arith,
            calm,
            enough,
            length-drop (suc n) (p ∷ ps),
            sock.took_within s s1 (p ∷ ps) (suc n) e,
          )))
  after_call-Leaves fuel s p ps interrupted s1 more e enough =
      let (w, less) = sock.took_none s s1 (p ∷ ps) e in
      unchanged s s1 (p ∷ ps) _ w (more s1 (p ∷ ps) (omega (arith, less, enough)))
  after_call-Leaves fuel s p ps broke s1 more e enough =
      ([], refl, sock.took_broken s s1 (p ∷ ps) e ∙ sym (append-nil (sock.wire s)))

  send_loop-Leaves : (fuel : ℕ) → Promises fuel
  unfolding send_loop
  send_loop-Leaves fuel s [] enough = ([], refl, sym (append-nil (sock.wire s)))
  send_loop-Leaves zero s (p ∷ ps) enough = absurd (omega arith)
  send_loop-Leaves (suc fuel) s (p ∷ ps) enough =
      after_call-Leaves fuel s p ps (sock.sendmmsg s (p ∷ ps)).0 (sock.sendmmsg s (p ∷ ps)).1
        (send_loop-Leaves fuel) refl enough

  finish-Hands :
      (b : BatchSender) (s : S) (x : Looped S)
      → Leaves s b.queued x
      → (n : ℕ) × (b' : BatchSender) × (s' : S) × (finish sock b x ≡ inr (n, b', s'))
        × Hands s b.queued n s'
  finish-Hands b s spins l = absurd l
  finish-Hands b s (left rest bad s1) (front, parts, on_wire) =
      let h = fallback-Hands s1 rest in
      let sizes : length b.queued ≡ length front + length rest =
        ap (λ (t : List (List ℕ)). length t) (sym parts) ∙ length-append front rest in
      (
        length b.queued - length rest + (fallback sock s1 rest).0,
        record b { bad = bad },
        (fallback sock s1 rest).1,
        refl,
        record {
          out = front ++ h.out;
          kept = subst (Kept (front ++ h.out)) parts (behind front h.kept);
          counted = omega (arith, sizes, h.counted, length-append front h.out);
          on_wire =
              h.on_wire
              ∙ ap (λ (w : List (List ℕ)). w ++ h.out) on_wire
              ∙ append_assoc (sock.wire s) front h.out;
        },
      )

  -- Whatever part of a batch the kernel takes in a call, and however often the call is interrupted or refused,
  -- `flush` returns, hands on datagrams of the batch in their order and each at most once, and counts them.
  pub flush-Hands :
      (b : BatchSender) (s : S)
      → (n : ℕ) × (b' : BatchSender) × (s' : S) × (flush sock b s ≡ inr (n, b', s'))
        × Hands s b.queued n s'
  unfolding flush
  flush-Hands b s = elim (Bool-cases b.bad) [
    | inl e ↦
        rw e (finish-Hands b s (left b.queued true s) ([], refl, sym (append-nil (sock.wire s))))
    | inr e ↦ rw e (
        finish-Hands b s (send_loop sock (length b.queued + sock.patience s) s b.queued)
          (send_loop-Leaves (length b.queued + sock.patience s) s b.queued (omega arith)))
  ]
