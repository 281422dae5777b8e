-- ===== src/Sender/Prefetch.antt =====
-- src/sender.rs: `prefetch`, the thread that builds the DATA PDUs of all blocks in order.
mod Tests
use girth.Prelude.{
  ℕ, zero, suc, ◌+◌, ◌≤◌, ◌<◌, ◌^◌, ◌≡◌, refl, sym, ap, ◌∙◌, inl, inr, Bool, true, false, List, [],
  ◌∷◌, Option, none, some, ◌>>=◌, arith, length, take, Option-cases, Bool-cases,
}
use girth.Sender.Pdu.{SendShared, Built, panics, skipped, pdu, prefetch_block}
use girth.Sender.Pdu.Wire.{IsSender}
use girth.Sender.Pdu.Layout.{overhead, IsDataPdu}
use girth.Sender.Pdu.Build.{prefetch_block-IsDataPdu}
use girth.Sender.Pacing.Carries.{Prefetched}

-- What becomes of a built PDU: a source that fails ends the thread, and so does a channel whose other end is
-- gone; a panic is `none`.
abbrev pub publish : Option (List (List ℕ × ℕ)) → Bool → Built → Option (List (List ℕ × ℕ))
publish rest taken panics = none
publish rest taken skipped = some []
publish rest false (pdu buf size) = some []
publish rest true (pdu buf size) = rest >>= λ later. some ((buf, size) ∷ later)

module _ (crc32c : List ℕ → ℕ) (sh : SendShared) (borrow : ℕ → Option (List ℕ))
    (takes : ℕ → Bool) where
  -- The loop for `n` blocks from `seq` on, and what it publishes. `borrow` gives the buffer that the pool hands
  -- out for a block, or that the transfer stopped; `takes` is whether the channel took the PDU.
  unfoldable pub prefetch : ℕ → ℕ → Option (List (List ℕ × ℕ))
  unfolding prefetch_block
  prefetch zero seq = some []
  prefetch (suc n) seq = elim (borrow seq) [
    | none ↦ some []
    | some buf ↦ publish (prefetch n (seq + 1)) (takes seq) (prefetch_block crc32c sh buf seq)
  ]

-- PDUs of the blocks from `seq` on, none left out.
module _ (crc32c : List ℕ → ℕ) (sh : SendShared) (bytes : List ℕ) where
  abbrev pub InOrder : ℕ → List (List ℕ × ℕ) → Type 0
  InOrder seq [] = Unit {0}
  InOrder seq ((buf, n) ∷ rest) =
      (seq < sh.total_blocks) × IsDataPdu crc32c sh bytes seq (take n buf) × InOrder (seq + 1) rest

  pub InOrder-Prefetched :
      (seq : ℕ) (xs : List (List ℕ × ℕ)) → InOrder seq xs → Prefetched crc32c sh bytes xs
  InOrder-Prefetched seq [] v = tt
  InOrder-Prefetched seq ((buf, n) ∷ rest) (h, d, v) =
      ((seq, h, d), InOrder-Prefetched (seq + 1) rest v)

-- What the thread published.
pub record Publishes (crc32c : List ℕ → ℕ) (sh : SendShared) (bytes : List ℕ)
    (borrow : ℕ → Option (List ℕ)) (takes : ℕ → Bool) (n seq : ℕ) : Type 0 where
  pub out : List (List ℕ × ℕ)
  pub runs : prefetch crc32c sh borrow takes n seq ≡ some out
  pub in_order : InOrder crc32c sh bytes seq out
  pub all :
      ((j : ℕ)
        → seq ≤ j
        → j < seq + n
        → (takes j ≡ true) × ((buf : List ℕ) × (borrow j ≡ some buf)))
      → length out ≡ n

-- The thread does not panic where each buffer that it borrows has room for a block, the header and the tag: it
-- publishes DATA PDUs of the blocks in order, none left out, up to where it is stopped; and of all blocks
-- where every buffer is handed out and every PDU is taken.
pub prefetch-Publishes :
    (crc32c : List ℕ → ℕ)
    → ((b : List ℕ) → crc32c b < 2 ^ 32)
    → (sh : SendShared) → sh.session < 2 ^ 32
    → (bytes : List ℕ) → IsSender sh bytes
    → (borrow : ℕ → Option (List ℕ)) (takes : ℕ → Bool)
    → ((j : ℕ) (buf : List ℕ) → borrow j ≡ some buf → 36 + sh.block_size + overhead sh ≤ length buf)
    → (n seq : ℕ) → seq + n ≤ sh.total_blocks
    → Publishes crc32c sh bytes borrow takes n seq
unfolding prefetch
prefetch-Publishes crc32c crc_u32 sh session_u32 bytes v borrow takes room zero seq h = record {
  out = [];
  runs = refl;
  in_order = tt;
  all = λ every. refl;
}
prefetch-Publishes crc32c crc_u32 sh session_u32 bytes v borrow takes room (suc n) seq h =
    elim (Option-cases (borrow seq)) [
      | inl e ↦ record {
        out = [];
        runs = rw (prefetch, e) refl;
        in_order = tt;
        all = λ every. stopped e (every seq (omega arith) (omega arith)).1.1;
      }
      | inr (buf, e) ↦
          let (out, size, run, d) =
            prefetch_block-IsDataPdu crc32c crc_u32 sh session_u32 bytes v buf seq (omega arith)
              (room seq buf e) in
          let later =
            prefetch-Publishes crc32c crc_u32 sh session_u32 bytes v borrow takes room n (seq + 1)
              (omega arith) in
          elim (Bool-cases (takes seq)) [
            | inr t ↦ record {
              out = [];
              runs = rw (prefetch, e, t, run) refl;
              in_order = tt;
              all = λ every. refused t (every seq (omega arith) (omega arith)).0;
            }
            | inl t ↦ record {
              out = (out, size) ∷ later.out;
              runs = rw (prefetch, e, t, run, later.runs) refl;
              in_order = (omega arith, d, later.in_order);
              all = λ every. ap suc (later.all (λ j a b. every j (omega arith) (omega arith)));
            }
          ]
    ]
  where
    stopped : {m : ℕ} {buf : List ℕ} → borrow seq ≡ none → borrow seq ≡ some buf → 0 ≡ m
    stopped p q = cc

    refused : {m : ℕ} → takes seq ≡ false → takes seq ≡ true → 0 ≡ m
    refused p q = cc
