-- ===== src/Protocol/Feedback.antt =====
-- src/protocol.rs: the FEEDBACK PDU, a 36-byte header and 16 bytes for each NACK.
pub mod Encode
pub mod RoundTrip
use Prim.Native.Nat.{bit_and, bit_or}
use mathlib.Core.List.{append_assoc, append-nil}
use girth.Prelude.{
  ℕ, zero, suc, ◌+◌, ◌-◌, ◌*◌, ◌%◌, ◌^◌, ◌≤◌, ◌<◌, ◌≡◌, refl, sym, ap, ap₂, subst, ◌∙◌, Bool, true,
  false, not, ◌||◌, List, [], ◌∷◌, ◌++◌, Option, none, some, ◌>>=◌, arith, ltb, ◌==◌, if◌then◌else◌,
  length, get_or, take, drop, length-append, length-drop, take_left, drop_left, le→ltb,
}
use girth.Prelude.Int.{ℤ, as_u64, as_i64, IsI64, as_i64-as_u64, as_u64-lt}
use girth.Protocol.Bytes.{
  le_bytes, get_u16, get_u32, get_u64, put_u8, put_u16, put_u32, put_u64, slice, firsts,
  firsts-append-drop, get-le_u16, get-le_u32, get-le_u64, put-append, length-le_bytes,
}
use girth.Protocol.Data.{flag_tick_n}

abbrev pub pdu_feedback : ℕ
pdu_feedback = 2

abbrev pub feedback_header_size : ℕ
feedback_header_size = 36

abbrev pub nack_entry_size : ℕ
nack_entry_size = 16

pub record FeedbackHeader : Type 0 where
  pub tick_is_network : Bool
  pub nack_count : ℕ
  pub session : ℕ
  pub tick : ℕ
  pub target_rate : ℕ
  pub hi_contig : ℕ
  pub done : Bool

pub record NackEntry : Type 0 where
  pub block_seq : ℕ
  pub rex_index : ℤ

pub record IsFeedback (h : FeedbackHeader) : Type 0 where
  pub session_u32 : h.session < 2 ^ 32
  pub tick_u64 : h.tick < 2 ^ 64
  pub target_rate_u64 : h.target_rate < 2 ^ 64
  pub hi_contig_u64 : h.hi_contig < 2 ^ 64

abbrev pub AreNacks : List NackEntry → Type 0
AreNacks [] = Unit {0}
AreNacks (n ∷ ns) = (n.block_seq < 2 ^ 64) × IsI64 n.rex_index × AreNacks ns

-- The loop over `nacks`, from offset `off`.
encode_nacks : List ℕ → ℕ → List NackEntry → Option (List ℕ × ℕ)
encode_nacks buf off [] = some (buf, off)
encode_nacks buf off (n ∷ ns) = do
  buf ← put_u64 off n.block_seq buf
  buf ← put_u64 (off + 8) (as_u64 n.rex_index) buf
  encode_nacks buf (off + nack_entry_size) ns

-- The buffer after the call, and the length of the PDU.
unfoldable pub encode_feedback : List ℕ → FeedbackHeader → List NackEntry → Option (List ℕ × ℕ)
unfolding encode_nacks
encode_feedback buf h nacks = do
  buf ← put_u8 0 pdu_feedback buf
  buf ← put_u8 1 (if h.tick_is_network then bit_or 0 flag_tick_n else 0) buf
  buf ← put_u16 2 (length nacks % 2 ^ 16) buf
  buf ← put_u32 4 h.session buf
  buf ← put_u64 8 h.tick buf
  buf ← put_u64 16 h.target_rate buf
  buf ← put_u64 24 h.hi_contig buf
  buf ← put_u8 32 (if h.done then 1 else 0) buf
  buf ← put_u8 33 0 buf
  buf ← put_u8 34 0 buf
  buf ← put_u8 35 0 buf
  encode_nacks buf feedback_header_size nacks

-- The loop of `nack_count` rounds, from offset `off`.
decode_nacks : List ℕ → ℕ → ℕ → List NackEntry
decode_nacks buf off zero = []
decode_nacks buf off (suc n) =
    record {
      block_seq = get_u64 (slice off (off + 8) buf);
      rex_index = as_i64 (get_u64 (slice (off + 8) (off + 16) buf));
    }
    ∷ decode_nacks buf (off + nack_entry_size) n

read_header : List ℕ → FeedbackHeader
read_header buf = record {
  tick_is_network = not (bit_and (get_or buf 1 0) flag_tick_n == 0);
  nack_count = get_u16 (slice 2 4 buf);
  session = get_u32 (slice 4 8 buf);
  tick = get_u64 (slice 8 16 buf);
  target_rate = get_u64 (slice 16 24 buf);
  hi_contig = get_u64 (slice 24 32 buf);
  done = get_or buf 32 0 == 1;
}

with_nacks : List ℕ → FeedbackHeader → Option (FeedbackHeader × List NackEntry)
unfolding decode_nacks
with_nacks buf h =
    let nacks = decode_nacks buf feedback_header_size h.nack_count in
    if ltb (length buf) (feedback_header_size + h.nack_count * nack_entry_size)
    then none
    else some (record h { nack_count = length nacks % 2 ^ 16 }, nacks)

unfoldable pub decode_feedback : List ℕ → Option (FeedbackHeader × List NackEntry)
unfolding read_header with_nacks
decode_feedback buf =
    if ltb (length buf) feedback_header_size || not (get_or buf 0 0 == pdu_feedback)
    then none
    else with_nacks buf (read_header buf)

-- The layout that the source's comment draws.
abbrev pub feedback_bytes : FeedbackHeader → ℕ → List ℕ
feedback_bytes h count =
    pdu_feedback
    ∷ (if h.tick_is_network then 2 else 0)
    ∷ (le_bytes 2 count
        ++ (le_bytes 4 h.session
            ++ (le_bytes 8 h.tick
                ++ (le_bytes 8 h.target_rate
                    ++ (le_bytes 8 h.hi_contig ++ (if h.done then 1 else 0) ∷ 0 ∷ 0 ∷ 0 ∷ [])))))

abbrev pub nack_bytes : List NackEntry → List ℕ
nack_bytes [] = []
nack_bytes (n ∷ ns) = le_bytes 8 n.block_seq ++ (le_bytes 8 (as_u64 n.rex_index) ++ nack_bytes ns)

pub length-nack_bytes : (ns : List NackEntry) → length (nack_bytes ns) ≡ 16 * length ns
length-nack_bytes [] = refl
length-nack_bytes (n ∷ ns) = omega (arith, length-nack_bytes ns)
