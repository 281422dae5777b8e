-- ===== src/Protocol/Marks.antt =====
-- src/protocol.rs: the START and FIN PDUs, and the type byte.
use girth.Prelude.{
  ℕ, ◌^◌, ◌≤◌, ◌<◌, ◌≡◌, refl, sym, ap, subst, not, ◌||◌, List, [], ◌∷◌, ◌++◌, Option, none, some,
  ◌>>=◌, ltb, ◌==◌, if◌then◌else◌, length, get_or, take, drop,
}
use girth.Protocol.Bytes.{
  le_bytes, get_u32, get_u64, put_u8, put_u32, put_u64, slice, firsts-append-drop, get-le_u32,
  get-le_u64,
}

abbrev pub pdu_start : ℕ
pdu_start = 5

abbrev pub pdu_fin : ℕ
pdu_fin = 4

-- The buffer after the call, and the number of bytes written.
unfoldable pub encode_start : List ℕ → ℕ → Option (List ℕ × ℕ)
encode_start buf session = do
  buf ← put_u8 0 pdu_start buf
  buf ← put_u8 1 0 buf
  buf ← put_u8 2 0 buf
  buf ← put_u8 3 0 buf
  buf ← put_u32 4 session buf
  some (buf, 8)

unfoldable pub decode_start : List ℕ → Option ℕ
decode_start buf =
    if ltb (length buf) 8 || not (get_or buf 0 0 == pdu_start)
    then none
    else some (get_u32 (slice 4 8 buf))

unfoldable pub encode_fin : List ℕ → ℕ → ℕ → Option (List ℕ × ℕ)
encode_fin buf session total_blocks = do
  buf ← put_u8 0 pdu_fin buf
  buf ← put_u8 1 0 buf
  buf ← put_u8 2 0 buf
  buf ← put_u8 3 0 buf
  buf ← put_u32 4 session buf
  buf ← put_u64 8 total_blocks buf
  some (buf, 16)

unfoldable pub decode_fin : List ℕ → Option (ℕ × ℕ)
decode_fin buf =
    if ltb (length buf) 16 || not (get_or buf 0 0 == pdu_fin)
    then none
    else some (get_u32 (slice 4 8 buf), get_u64 (slice 8 16 buf))

-- The type byte, 0 of an empty datagram.
unfoldable pub pdu_type : List ℕ → ℕ
pdu_type [] = 0
pdu_type (b ∷ _) = b

-- The written part of a START decodes to its session.
pub decode-encode_start :
    (buf : List ℕ) (session : ℕ)
    → 8 ≤ length buf
    → session < 2 ^ 32
    → (out : List ℕ) × (encode_start buf session ≡ some (out, 8))
      × (decode_start (take 8 out) ≡ some session)
unfolding encode_start decode_start
decode-encode_start buf session fits h =
    subst
      (λ b.
        (out : List ℕ) × (encode_start b session ≡ some (out, 8))
        × (decode_start (take 8 out) ≡ some session))
      (sym (firsts-append-drop 8 buf fits))
      (
        pdu_start ∷ 0 ∷ 0 ∷ 0 ∷ (le_bytes 4 session ++ drop 8 buf),
        refl,
        ap some (get-le_u32 session h []),
      )

-- The written part of a FIN decodes to its session and its number of blocks.
pub decode-encode_fin :
    (buf : List ℕ) (session total_blocks : ℕ)
    → 16 ≤ length buf
    → session < 2 ^ 32
    → total_blocks < 2 ^ 64
    → (out : List ℕ) × (encode_fin buf session total_blocks ≡ some (out, 16))
      × (decode_fin (take 16 out) ≡ some (session, total_blocks))
unfolding encode_fin decode_fin
decode-encode_fin buf session total_blocks fits h k =
    subst
      (λ b.
        (out : List ℕ) × (encode_fin b session total_blocks ≡ some (out, 16))
        × (decode_fin (take 16 out) ≡ some (session, total_blocks)))
      (sym (firsts-append-drop 16 buf fits))
      (
        pdu_fin ∷ 0 ∷ 0 ∷ 0 ∷ (le_bytes 4 session ++ (le_bytes 8 total_blocks ++ drop 16 buf)),
        refl,
        λ i. some (get-le_u32 session h [] i, get-le_u64 total_blocks k [] i),
      )
