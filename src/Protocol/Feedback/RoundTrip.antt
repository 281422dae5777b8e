-- ===== src/Protocol/Feedback/RoundTrip.antt =====
-- decode_feedback reads back what encode_feedback writes (src/protocol.rs).
use Prim.Native.Nat.{bit_and}
use mathlib.Core.List.{append_assoc, append-nil}
use girth.Prelude.{
  ℕ, ◌+◌, ◌-◌, ◌*◌, ◌%◌, ◌^◌, ◌≤◌, ◌<◌, ◌≡◌, refl, sym, ap, ◌∙◌, Bool, true, false, not, List, [],
  ◌∷◌, ◌++◌, some, arith, ◌==◌, if◌then◌else◌, length, take, length-append, take_left, drop_left,
  le→ltb,
}
use girth.Prelude.Int.{ℤ, as_u64, as_i64, IsI64, as_i64-as_u64, as_u64-lt}
use girth.Protocol.Bytes.{le_bytes, get_u64, slice, get-le_u16, get-le_u32, get-le_u64}
use girth.Protocol.Data.{flag_tick_n}
use girth.Protocol.Feedback.{
  FeedbackHeader, NackEntry, IsFeedback, AreNacks, encode_feedback, decode_nacks, read_header,
  with_nacks, decode_feedback, feedback_bytes, nack_bytes, length-nack_bytes,
}
use girth.Protocol.Feedback.Encode.{after_entry, length-after_entry, encode_feedback_lem}

-- An entry is read back from behind a known front part.
slice-append :
    (front bs rest : List ℕ) (lo hi : ℕ)
    → lo ≡ length front
    → hi ≡ lo + length bs
    → slice lo hi (front ++ (bs ++ rest)) ≡ bs
slice-append front bs rest lo hi e e' =
    rw (drop_left lo front (bs ++ rest) e) (take_left (hi - lo) bs rest (omega arith))

rex_index-back : (x : ℤ) → IsI64 x → as_i64 (get_u64 (le_bytes 8 (as_u64 x))) ≡ x
rex_index-back x v = ap as_i64 (get-le_u64 (as_u64 x) (as_u64-lt x) []) ∙ as_i64-as_u64 x v

module _ (n : NackEntry) (ns : List NackEntry) (front rest : List ℕ) (off : ℕ)
    (e : off ≡ length front) where
  abbrev entries : List ℕ
  entries = front ++ (nack_bytes (n ∷ ns) ++ rest)

  read_block_seq : n.block_seq < 2 ^ 64 → get_u64 (slice off (off + 8) entries) ≡ n.block_seq
  read_block_seq h =
      ap get_u64 (
        slice-append front (le_bytes 8 n.block_seq)
          (le_bytes 8 (as_u64 n.rex_index) ++ (nack_bytes ns ++ rest)) off (off + 8) e
          (omega arith))
      ∙ get-le_u64 n.block_seq h []

  read_rex_index :
      IsI64 n.rex_index → as_i64 (get_u64 (slice (off + 8) (off + 16) entries)) ≡ n.rex_index
  read_rex_index v =
      ap (λ (b : List ℕ). as_i64 (get_u64 (slice (off + 8) (off + 16) b)))
        (sym (
          append_assoc front (le_bytes 8 n.block_seq)
            (le_bytes 8 (as_u64 n.rex_index) ++ (nack_bytes ns ++ rest))))
      ∙ ap (λ (b : List ℕ). as_i64 (get_u64 b))
          (slice-append (front ++ le_bytes 8 n.block_seq) (le_bytes 8 (as_u64 n.rex_index))
            (nack_bytes ns ++ rest) (off + 8) (off + 16)
            (omega (arith, length-append front (le_bytes 8 n.block_seq))) (omega arith))
      ∙ rex_index-back n.rex_index v

  entries_after : entries ≡ after_entry front n ++ (nack_bytes ns ++ rest)
  entries_after = sym (
      append_assoc (front ++ le_bytes 8 n.block_seq) (le_bytes 8 (as_u64 n.rex_index)) _
      ∙ append_assoc front (le_bytes 8 n.block_seq) _)

decode_nacks-append :
    (ns : List NackEntry) (front rest : List ℕ) (off : ℕ)
    → off ≡ length front
    → AreNacks ns
    → decode_nacks (front ++ (nack_bytes ns ++ rest)) off (length ns) ≡ ns
unfolding decode_nacks
decode_nacks-append [] front rest off e v = refl
decode_nacks-append (n ∷ ns) front rest off e v =
    let later =
      ap (λ (b : List ℕ). decode_nacks b (off + 16) (length ns))
        (entries_after n ns front rest off e)
      ∙ decode_nacks-append ns (after_entry front n) rest (off + 16)
          (omega (arith, length-after_entry front n)) v.2 in
    λ i.
      record {
        block_seq = read_block_seq n ns front rest off e v.0 i;
        rex_index = read_rex_index n ns front rest off e v.1 i;
      }
      ∷ later i

tick_flag : (b : Bool) → not (bit_and (if b then 2 else 0) flag_tick_n == 0) ≡ b
tick_flag true = refl
tick_flag false = refl

done_flag : (b : Bool) → ((if b then 1 else 0) == 1) ≡ b
done_flag true = refl
done_flag false = refl

read_header-bytes :
    (h : FeedbackHeader) (count : ℕ) (rest : List ℕ)
    → count < 2 ^ 16
    → IsFeedback h
    → read_header (feedback_bytes h count ++ rest) ≡ record h { nack_count = count }
unfolding read_header
read_header-bytes h count rest c v = λ i. record {
  tick_is_network = tick_flag h.tick_is_network i;
  nack_count = get-le_u16 count c [] i;
  session = get-le_u32 h.session v.session_u32 [] i;
  tick = get-le_u64 h.tick v.tick_u64 [] i;
  target_rate = get-le_u64 h.target_rate v.target_rate_u64 [] i;
  hi_contig = get-le_u64 h.hi_contig v.hi_contig_u64 [] i;
  done = done_flag h.done i;
}

with_nacks_lem :
    (buf : List ℕ) (h : FeedbackHeader) (nacks : List NackEntry)
    → h.nack_count ≡ length nacks
    → length nacks < 2 ^ 16
    → 36 + 16 * length nacks ≤ length buf
    → decode_nacks buf 36 (length nacks) ≡ nacks
    → with_nacks buf h ≡ some (record h { nack_count = length nacks }, nacks)
unfolding with_nacks
with_nacks_lem buf h nacks c lt fits d =
    rw (le→ltb (length buf) (36 + h.nack_count * 16) (omega arith))
      (λ i. some (record h { nack_count = count i }, decoded i))
  where
    decoded : decode_nacks buf 36 h.nack_count ≡ nacks
    decoded = rw c d

    count : length (decode_nacks buf 36 h.nack_count) % 2 ^ 16 ≡ length nacks
    count = rw decoded (omega arith)

decode_feedback_bytes :
    (h : FeedbackHeader) (nacks : List NackEntry) (rest : List ℕ)
    → IsFeedback h
    → AreNacks nacks
    → length nacks < 2 ^ 16
    → decode_feedback (feedback_bytes h (length nacks) ++ (nack_bytes nacks ++ rest))
      ≡ some (record h { nack_count = length nacks }, nacks)
unfolding decode_feedback
decode_feedback_bytes h nacks rest v w lt =
    rw
      (le→ltb (length (feedback_bytes h (length nacks) ++ (nack_bytes nacks ++ rest))) 36
        (omega arith))
      (ap (with_nacks (feedback_bytes h (length nacks) ++ (nack_bytes nacks ++ rest)))
          (read_header-bytes h (length nacks) (nack_bytes nacks ++ rest) lt v)
        ∙ with_nacks_lem _ (record h { nack_count = length nacks }) nacks refl lt
            (omega (arith, length-append (nack_bytes nacks) rest, length-nack_bytes nacks))
            (decode_nacks-append nacks (feedback_bytes h (length nacks)) rest 36 refl w))

-- What `encode_feedback` writes, cut at the length that it returns, decodes to the header, with the
-- number of the NACKs as its count, and to the NACKs.
pub decode-encode_feedback :
    (buf : List ℕ) (h : FeedbackHeader) (nacks : List NackEntry)
    → IsFeedback h
    → AreNacks nacks
    → length nacks < 2 ^ 16
    → 36 + 16 * length nacks ≤ length buf
    → (out : List ℕ) × (n : ℕ) × (encode_feedback buf h nacks ≡ some (out, n))
      × (n ≡ 36 + 16 * length nacks)
      × (decode_feedback (take n out) ≡ some (record h { nack_count = length nacks }, nacks))
decode-encode_feedback buf h nacks v w lt fits =
    let (tail, e) = encode_feedback_lem buf h nacks fits in
    (
      bytes ++ (nack_bytes nacks ++ tail),
      36 + 16 * length nacks,
      e
          ∙ ap
              (λ (c : ℕ).
                some (feedback_bytes h c ++ (nack_bytes nacks ++ tail), 36 + 16 * length nacks))
              count,
      refl,
      ap decode_feedback (cut tail) ∙ decode_feedback_bytes h nacks [] v w lt,
    )
  where
    bytes : List ℕ
    bytes = feedback_bytes h (length nacks)

    count : length nacks % 2 ^ 16 ≡ length nacks
    count = omega arith

    cut :
        (tail : List ℕ)
        → take (36 + 16 * length nacks) (bytes ++ (nack_bytes nacks ++ tail))
          ≡ bytes ++ (nack_bytes nacks ++ [])
    cut tail =
        ap (take (36 + 16 * length nacks)) (sym (append_assoc bytes (nack_bytes nacks) tail))
        ∙ take_left _ (bytes ++ nack_bytes nacks) tail
            (omega (arith, length-append bytes (nack_bytes nacks), length-nack_bytes nacks))
        ∙ ap (λ (t : List ℕ). bytes ++ t) (sym (append-nil (nack_bytes nacks)))
