-- ===== src/Protocol/Feedback/Encode.antt =====
-- What encode_feedback writes (src/protocol.rs): the layout that the source's comment draws.
use mathlib.Core.List.{append_assoc}
use girth.Prelude.{
  ℕ, ◌+◌, ◌*◌, ◌%◌, ◌^◌, ◌≤◌, ◌≡◌, refl, sym, ap, ap₂, ◌∙◌, List, [], ◌∷◌, ◌++◌, some, arith,
  length, drop, length-append, length-drop,
}
use girth.Prelude.Int.{as_u64}
use girth.Protocol.Bytes.{le_bytes, put_u64, firsts, firsts-append-drop, put-append}
use girth.Protocol.Feedback.{
  FeedbackHeader, NackEntry, encode_nacks, encode_feedback, feedback_bytes, nack_bytes,
}

put_u64-append :
    (front rest : List ℕ) (off v : ℕ)
    → off ≡ length front
    → 8 ≤ length rest
    → put_u64 off v (front ++ rest) ≡ some ((front ++ le_bytes 8 v) ++ drop 8 rest)
put_u64-append front rest off v e h =
    put-append front off (le_bytes 8 v) rest e h
    ∙ ap some (sym (append_assoc front (le_bytes 8 v) (drop 8 rest)))

-- What one round of the loop leaves in front of its offset.
abbrev pub after_entry : List ℕ → NackEntry → List ℕ
after_entry front n = (front ++ le_bytes 8 n.block_seq) ++ le_bytes 8 (as_u64 n.rex_index)

pub length-after_entry :
    (front : List ℕ) (n : NackEntry) → length (after_entry front n) ≡ length front + 16
length-after_entry front n = omega (
  arith,
  length-append front (le_bytes 8 n.block_seq),
  length-append (front ++ le_bytes 8 n.block_seq) (le_bytes 8 (as_u64 n.rex_index)),
)

encode_nacks_step :
    (n : NackEntry) (ns : List NackEntry) (front rest : List ℕ) (off : ℕ)
    → off ≡ length front
    → 16 ≤ length rest
    → encode_nacks (front ++ rest) off (n ∷ ns)
      ≡ encode_nacks (after_entry front n ++ drop 8 (drop 8 rest)) (off + 16) ns
unfolding encode_nacks
encode_nacks_step n ns front rest off e h = rw (
  put_u64-append front rest off n.block_seq e (omega arith),
  put_u64-append (front ++ le_bytes 8 n.block_seq) (drop 8 rest) (off + 8) (as_u64 n.rex_index)
      (omega (arith, length-append front (le_bytes 8 n.block_seq)))
      (omega (arith, length-drop 8 rest)),
)

encode_nacks-append :
    (ns : List NackEntry) (front rest : List ℕ) (off : ℕ)
    → off ≡ length front
    → 16 * length ns ≤ length rest
    → (tail : List ℕ) × (encode_nacks (front ++ rest) off ns
        ≡ some (front ++ (nack_bytes ns ++ tail), off + 16 * length ns))
unfolding encode_nacks
encode_nacks-append [] front rest off e h =
    (rest, ap (λ (k : ℕ). some (front ++ rest, k)) (omega arith))
encode_nacks-append (n ∷ ns) front rest off e h =
    let later =
      encode_nacks-append ns (after_entry front n) (drop 8 (drop 8 rest)) (off + 16)
        (omega (arith, length-after_entry front n))
        (omega (arith, length-drop 8 rest, length-drop 8 (drop 8 rest))) in
    (
      later.0,
      encode_nacks_step n ns front rest off e (omega arith)
          ∙ later.1
          ∙ ap₂ (λ (t : List ℕ) (k : ℕ). some (t, k))
              (append_assoc (front ++ le_bytes 8 n.block_seq) (le_bytes 8 (as_u64 n.rex_index)) _
                ∙ append_assoc front (le_bytes 8 n.block_seq) _)
              (omega arith),
    )

encode_header_firsts :
    (h : FeedbackHeader) (nacks : List NackEntry) (xs rest : List ℕ)
    → encode_feedback (firsts 36 0 xs ++ rest) h nacks
      ≡ encode_nacks (feedback_bytes h (length nacks % 2 ^ 16) ++ rest) 36 nacks
unfolding encode_feedback
encode_header_firsts h nacks xs rest = refl

-- The header and the entries in the drawn layout, from the start of the buffer.
pub encode_feedback_lem :
    (buf : List ℕ) (h : FeedbackHeader) (nacks : List NackEntry)
    → 36 + 16 * length nacks ≤ length buf
    → (tail : List ℕ) × (encode_feedback buf h nacks
        ≡ some (
          feedback_bytes h (length nacks % 2 ^ 16) ++ (nack_bytes nacks ++ tail),
          36 + 16 * length nacks,
        ))
encode_feedback_lem buf h nacks e =
    let (tail, q) =
      encode_nacks-append nacks (feedback_bytes h (length nacks % 2 ^ 16)) (drop 36 buf) 36 refl
        (omega (arith, length-drop 36 buf)) in
    (
      tail,
      ap (λ (b : List ℕ). encode_feedback b h nacks) (firsts-append-drop 36 buf (omega arith))
          ∙ encode_header_firsts h nacks buf (drop 36 buf)
          ∙ q,
    )
