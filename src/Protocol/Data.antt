-- ===== src/Protocol/Data.antt =====
-- src/protocol.rs: the DATA header, 36 bytes in front of a block's payload.
use girth.Prelude.{
  ℕ, ◌^◌, ◌≤◌, ◌<◌, ◌≡◌, refl, sym, ap, subst, ◌∙◌, not, ◌||◌, List, [], ◌∷◌, ◌++◌, Option, none,
  some, ◌>>=◌, arith, ltb, ◌==◌, if◌then◌else◌, length, get_or, drop, le→ltb,
}
use girth.Prelude.Int.{ℤ, as_u64, as_i64, IsI64, as_i64-as_u64, as_u64-lt}
use girth.Protocol.Bytes.{
  le_bytes, get_u16, get_u32, get_u64, put_u8, put_u16, put_u32, put_u64, slice, firsts,
  firsts-append-drop, get-le_u16, get-le_u32, get-le_u64,
}

abbrev pub data_header_size : ℕ
data_header_size = 36

abbrev pub pdu_data : ℕ
pdu_data = 1

abbrev pub flag_retransmit : ℕ
flag_retransmit = 1

abbrev pub flag_tick_n : ℕ
flag_tick_n = 2

abbrev pub flag_has_tick : ℕ
flag_has_tick = 4

abbrev pub flag_last_block : ℕ
flag_last_block = 8

pub record DataHeader : Type 0 where
  pub flags : ℕ
  pub payload_len : ℕ
  pub session : ℕ
  pub block_seq : ℕ
  pub echo_tick : ℕ
  pub rex_index : ℤ
  pub payload_crc : ℕ

-- The widths of the fields' integer types.
pub record IsHeader (h : DataHeader) : Type 0 where
  pub flags_u8 : h.flags < 2 ^ 8
  pub payload_len_u16 : h.payload_len < 2 ^ 16
  pub session_u32 : h.session < 2 ^ 32
  pub block_seq_u64 : h.block_seq < 2 ^ 64
  pub echo_tick_u64 : h.echo_tick < 2 ^ 64
  pub rex_index_i64 : IsI64 h.rex_index
  pub payload_crc_u32 : h.payload_crc < 2 ^ 32

unfoldable pub encode_data_header : List ℕ → DataHeader → Option (List ℕ)
encode_data_header buf h = do
  buf ← put_u8 0 pdu_data buf
  buf ← put_u8 1 h.flags buf
  buf ← put_u16 2 h.payload_len buf
  buf ← put_u32 4 h.session buf
  buf ← put_u64 8 h.block_seq buf
  buf ← put_u64 16 h.echo_tick buf
  buf ← put_u64 24 (as_u64 h.rex_index) buf
  put_u32 32 h.payload_crc buf

unfoldable pub decode_data_header : List ℕ → Option DataHeader
decode_data_header buf =
    if ltb (length buf) data_header_size || not (get_or buf 0 0 == pdu_data)
    then none
    else some (record {
      flags = get_or buf 1 0;
      payload_len = get_u16 (slice 2 4 buf);
      session = get_u32 (slice 4 8 buf);
      block_seq = get_u64 (slice 8 16 buf);
      echo_tick = get_u64 (slice 16 24 buf);
      rex_index = as_i64 (get_u64 (slice 24 32 buf));
      payload_crc = get_u32 (slice 32 36 buf);
    })

-- The layout that the source's comment draws.
abbrev pub header_bytes : DataHeader → List ℕ
header_bytes h =
    pdu_data
    ∷ h.flags
    ∷ (le_bytes 2 h.payload_len
        ++ (le_bytes 4 h.session
            ++ (le_bytes 8 h.block_seq
                ++ (le_bytes 8 h.echo_tick
                    ++ (le_bytes 8 (as_u64 h.rex_index) ++ le_bytes 4 h.payload_crc)))))

encode_firsts :
    (h : DataHeader) (xs rest : List ℕ)
    → encode_data_header (firsts 36 0 xs ++ rest) h ≡ some (header_bytes h ++ rest)
unfolding encode_data_header
encode_firsts h xs rest = refl

-- Encoding writes the drawn layout over the first 36 bytes and leaves what follows them.
pub encode_data_header_lem :
    (buf : List ℕ) (h : DataHeader)
    → data_header_size ≤ length buf
    → encode_data_header buf h ≡ some (header_bytes h ++ drop data_header_size buf)
encode_data_header_lem buf h e =
    subst (λ b. encode_data_header b h ≡ some (header_bytes h ++ drop data_header_size buf))
      (sym (firsts-append-drop 36 buf e)) (encode_firsts h buf (drop 36 buf))

rex_index-back : (x : ℤ) → IsI64 x → as_i64 (get_u64 (le_bytes 8 (as_u64 x))) ≡ x
rex_index-back x v = ap as_i64 (get-le_u64 (as_u64 x) (as_u64-lt x) []) ∙ as_i64-as_u64 x v

-- Decoding reads the drawn layout back.
pub decode_header_bytes :
    (h : DataHeader) (rest : List ℕ)
    → IsHeader h
    → decode_data_header (header_bytes h ++ rest) ≡ some h
unfolding decode_data_header
decode_header_bytes h rest v = rw (le→ltb (length (header_bytes h ++ rest)) 36 (omega arith)) (λ i.
    some (record {
      flags = h.flags;
      payload_len = get-le_u16 h.payload_len v.payload_len_u16 [] i;
      session = get-le_u32 h.session v.session_u32 [] i;
      block_seq = get-le_u64 h.block_seq v.block_seq_u64 [] i;
      echo_tick = get-le_u64 h.echo_tick v.echo_tick_u64 [] i;
      rex_index = rex_index-back h.rex_index v.rex_index_i64 i;
      payload_crc = get-le_u32 h.payload_crc v.payload_crc_u32 [] i;
    }))

-- In a buffer with room for a header, `encode_data_header` succeeds and what it leaves decodes to the
-- header; the bytes behind the header are as before. The fields are within their integer types.
pub decode-encode_data_header :
    (buf : List ℕ) (h : DataHeader)
    → IsHeader h
    → data_header_size ≤ length buf
    → (out : List ℕ) × (encode_data_header buf h ≡ some out)
      × (decode_data_header out ≡ some h)
      × (drop data_header_size out ≡ drop data_header_size buf)
decode-encode_data_header buf h v e = (
  header_bytes h ++ drop data_header_size buf,
  encode_data_header_lem buf h e,
  decode_header_bytes h (drop data_header_size buf) v,
  refl,
)

-- `put_echo_tick` of an already built PDU.
unfoldable pub put_echo_tick : List ℕ → ℕ → Option (List ℕ)
put_echo_tick buf v = put_u64 16 v buf
