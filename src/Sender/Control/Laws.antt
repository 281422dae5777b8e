-- ===== src/Sender/Control/Laws.antt =====
-- What a datagram of the receiver does to the sender (src/sender.rs).
use girth.Prelude.{
  ℕ, ◌≤◌, ◌≡◌, refl, sym, ap, ◌∙◌, Bool, true, false, not, ◌||◌, List, [], ◌∷◌, Option, none, some,
  arith, ◌==◌, ==_refl, ==_iff, Bool-cases, inl, inr, subst, if◌then◌else◌, take,
}
use girth.Shared.Sets.{contains}
use girth.Protocol.Feedback.{FeedbackHeader, NackEntry, decode_feedback, pdu_feedback}
use girth.Protocol.Marks.{pdu_type}
use girth.Rate.{is_fixed}
use girth.Sender.Queue.{IsQueue, asked, push_retransmits, push_retransmits-IsQueue}
use girth.Sender.Control.{
  SendState, SendPeer, handle_report, handle_feedback, queue_nacks, adopt_rate,
}

-- The sender after a report: the blocks asked for join those queued, the tick is to be echoed, the
-- receiver's mark is taken over, and so is the end.
pub record Follows (p : SendPeer) (t2 : ℕ) (fh : FeedbackHeader) (nacks : List NackEntry)
    (s s' : SendState) : Type 0 where
  pub queue_valid : IsQueue s'.rex
  pub queued : (j : ℕ) → contains j s'.rex.set ≡ (asked j nacks || contains j s.rex.set)
  pub tick_same :
      s'.tick ≡ record { pending = true; val = fh.tick; is_net = fh.tick_is_network; t2 = t2 }
  pub hi_same : s'.hi_contig ≡ fh.hi_contig
  pub done_same : s'.done ≡ (s.done || fh.done)
  pub rate_kept : fh.target_rate ≡ 0 → s'.target_bps ≡ s.target_bps
  pub rate_bounded :
      is_fixed p.rate_mode ≡ true
      → s.target_bps ≤ p.configured_target_bps
      → s'.target_bps ≤ p.configured_target_bps

queue_nacks-rex :
    (ns : List NackEntry) (s : SendState)
    → ((queue_nacks ns s).rex ≡ push_retransmits s.rex ns)
      × ((queue_nacks ns s).tick ≡ s.tick)
      × ((queue_nacks ns s).done ≡ s.done)
      × ((queue_nacks ns s).target_bps ≡ s.target_bps)
unfolding queue_nacks push_retransmits
queue_nacks-rex [] s = (refl, refl, refl, refl)
queue_nacks-rex (n ∷ ns) s = (refl, refl, refl, refl)

adopt_rate-rex :
    (p : SendPeer) (rate : ℕ) (s : SendState)
    → ((adopt_rate p rate s).rex ≡ s.rex)
      × ((adopt_rate p rate s).tick ≡ s.tick)
      × ((adopt_rate p rate s).done ≡ s.done)
      × (rate ≡ 0 → (adopt_rate p rate s).target_bps ≡ s.target_bps)
      × (is_fixed p.rate_mode ≡ true
          → s.target_bps ≤ p.configured_target_bps
          → (adopt_rate p rate s).target_bps ≤ p.configured_target_bps)
unfolding adopt_rate
adopt_rate-rex p rate s = elim (Bool-cases (rate == 0)) [
  | inl e ↦ rw e (refl, refl, refl, (λ k. refl), λ k l. l)
  | inr e ↦ rw e (refl, refl, refl, (λ k. absurd (ground arith)), λ k l. ground arith)
]

guarded :
    {A : Type 0} (l t : Bool) (o : Option A) (x : A)
    → (if l || not t then none else o) ≡ some x
    → t ≡ true
guarded true t o x e = cc
guarded false true o x e = refl
guarded false false o x e = cc

decode_feedback-pdu_type :
    (pkt : List ℕ) (x : FeedbackHeader × List NackEntry)
    → decode_feedback pkt ≡ some x
    → pdu_type pkt ≡ pdu_feedback
unfolding decode_feedback pdu_type
decode_feedback-pdu_type [] x e = cc
decode_feedback-pdu_type (b ∷ bs) x e = (==_iff b 2).0 (guarded _ (b == 2) _ x e)

handle_report-Follows :
    (p : SendPeer) (t2 : ℕ) (pkt : List ℕ) (fh : FeedbackHeader) (nacks : List NackEntry)
    (s : SendState)
    → decode_feedback pkt ≡ some (fh, nacks)
    → fh.session ≡ p.session
    → IsQueue s.rex
    → Follows p t2 fh nacks s (handle_report p t2 pkt s)
unfolding handle_report
handle_report-Follows p t2 pkt fh nacks s e same v =
    let queued = queue_nacks-rex nacks ticked in
    let rated = adopt_rate-rex p fh.target_rate (queue_nacks nacks ticked) in
    subst (Follows p t2 fh nacks s) (sym run) (record {
      queue_valid = subst IsQueue (sym rex) (queue.0);
      queued = λ j. ap (λ q. contains j q.set) rex ∙ (queue.1) j;
      tick_same = rated.1 ∙ queued.1;
      hi_same = refl;
      done_same = ap (λ b. b || fh.done) (rated.2 ∙ queued.2);
      rate_kept = λ z. rated.3 z ∙ queued.3;
      rate_bounded = λ m l. rated.4 m (subst (λ t. t ≤ p.configured_target_bps) (sym (queued.3)) l);
    })
  where
    ticked : SendState
    ticked = record s {
      tick = record { pending = true; val = fh.tick; is_net = fh.tick_is_network; t2 = t2 };
    }

    queue :
        IsQueue (push_retransmits s.rex nacks)
        × ((j : ℕ)
            → contains j (push_retransmits s.rex nacks).set
              ≡ (asked j nacks || contains j s.rex.set))
    queue = push_retransmits-IsQueue s.rex nacks v

    rex :
        (adopt_rate p fh.target_rate (queue_nacks nacks ticked)).rex ≡ push_retransmits s.rex nacks
    rex =
        (adopt_rate-rex p fh.target_rate (queue_nacks nacks ticked)).0
        ∙ (queue_nacks-rex nacks ticked).0

    run :
        handle_report p t2 pkt s ≡ record (adopt_rate p fh.target_rate (queue_nacks nacks ticked)) {
          hi_contig = fh.hi_contig;
          done = (adopt_rate p fh.target_rate (queue_nacks nacks ticked)).done || fh.done;
        }
    run =
        rw (handle_report, e, decode_feedback-pdu_type pkt (fh, nacks) e, same, ==_refl p.session)
          refl

-- A FEEDBACK PDU of the session in the bytes that the buffer takes, whatever it reports: the queue holds what it held and what the NACKs
-- ask for, each block once; the tick waits to be echoed; the mark and the end are taken over; and the
-- target stays where the report gives none, and stays within the sender's own in the fixed mode.
pub handle_feedback-Follows :
    (p : SendPeer) (t2 : ℕ) (pkt : List ℕ) (fh : FeedbackHeader) (nacks : List NackEntry)
    (s : SendState)
    → decode_feedback (take 2048 pkt) ≡ some (fh, nacks)
    → fh.session ≡ p.session
    → IsQueue s.rex
    → Follows p t2 fh nacks s (handle_feedback p t2 pkt s)
unfolding handle_feedback
handle_feedback-Follows p t2 pkt fh nacks s e same v =
    handle_report-Follows p t2 (take 2048 pkt) fh nacks s e same v
