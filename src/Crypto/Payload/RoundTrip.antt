-- ===== src/Crypto/Payload/RoundTrip.antt =====
-- A sealed payload opens to what was sealed (src/crypto.rs).
use mathlib.Core.List.{append_assoc}
use girth.Prelude.{
  ℕ, ◌+◌, ◌-◌, ◌≤◌, ◌≡◌, refl, sym, ap, ◌∙◌, List, ◌++◌, some, arith, leb, le→ltb, true, length,
  drop, length-append, take_left, drop_left,
}
use girth.Protocol.Bytes.{put, put-append, slice}
use girth.Crypto.Payload.{Aead, IsAead, block_nonce, write_sealed, seal_data, open_data}

le→leb : (a b : ℕ) → a ≤ b → leb a b ≡ true
le→leb a b h = ground arith

write_sealed_lem :
    (header plain room ct tag : List ℕ)
    → length ct ≡ length plain
    → length tag ≡ 16
    → 16 ≤ length room
    → write_sealed (header ++ (plain ++ room)) (length header) (length plain) (ct, tag)
      ≡ some (header ++ (ct ++ (tag ++ drop 16 room)), length header + length plain + 16)
unfolding write_sealed
write_sealed_lem header plain room ct tag l k h = rw (first, second) refl
  where
    first : put (length header) ct (header ++ (plain ++ room)) ≡ some ((header ++ ct) ++ room)
    first =
        put-append header (length header) ct (plain ++ room) refl
          (omega (arith, length-append plain room))
        ∙ ap some (
            ap (λ (t : List ℕ). header ++ (ct ++ t)) (drop_left (length ct) plain room l)
            ∙ sym (append_assoc header ct room))

    second :
        put (length header + length plain) tag ((header ++ ct) ++ room)
        ≡ some (header ++ (ct ++ (tag ++ drop 16 room)))
    second =
        put-append (header ++ ct) (length header + length plain) tag room
          (omega (arith, length-append header ct)) (omega arith)
        ∙ ap some (append_assoc header ct _ ∙ ap (λ n. header ++ (ct ++ (tag ++ drop n room))) k)

-- The buffer is `header`, then the plaintext, then room for the tag: sealing writes the ciphertext
-- and the tag behind the header, which stays.
pub seal_data_lem :
    (c : Aead) (header plain room : List ℕ) (seq : ℕ)
    → IsAead c
    → 16 ≤ length room
    → let (ct, tag) = c.encrypt (block_nonce seq) plain in
      seal_data c (header ++ (plain ++ room)) (length header) (length plain) seq
      ≡ some (header ++ (ct ++ (tag ++ drop 16 room)), length header + length plain + 16)
unfolding seal_data
seal_data_lem c header plain room seq v h =
    rw (le→leb _ _ fits, at_plain)
      (write_sealed_lem header plain room (c.encrypt (block_nonce seq) plain).0
        (c.encrypt (block_nonce seq) plain).1 (v.length_same (block_nonce seq) plain)
        (v.tag_length (block_nonce seq) plain) h)
  where
    fits : length header + length plain ≤ length (header ++ (plain ++ room))
    fits = omega (arith, length-append header (plain ++ room), length-append plain room)

    at_plain :
        slice (length header) (length header + length plain) (header ++ (plain ++ room)) ≡ plain
    at_plain =
        rw (drop_left (length header) header (plain ++ room) refl)
          (take_left _ plain room (omega arith))

-- What was sealed opens, whatever follows the tag.
pub open_data-sealed :
    (c : Aead) (plain rest : List ℕ) (seq : ℕ)
    → IsAead c
    → let (ct, tag) = c.encrypt (block_nonce seq) plain in
      open_data c (ct ++ (tag ++ rest)) (length plain) seq ≡ some plain
unfolding open_data
open_data-sealed c plain rest seq v =
    rw (le→ltb _ _ long, at_ct, at_tag) (v.opens (block_nonce seq) plain)
  where
    ct : List ℕ
    ct = (c.encrypt (block_nonce seq) plain).0

    tag : List ℕ
    tag = (c.encrypt (block_nonce seq) plain).1

    l : length plain ≡ length ct
    l = sym (v.length_same (block_nonce seq) plain)

    long : length plain + 16 ≤ length (ct ++ (tag ++ rest))
    long = omega (
      arith,
      l,
      v.tag_length (block_nonce seq) plain,
      length-append ct (tag ++ rest),
      length-append tag rest,
    )

    at_ct : slice 0 (length plain) (ct ++ (tag ++ rest)) ≡ ct
    at_ct = take_left (length plain - 0) ct (tag ++ rest) (omega (arith, l))

    at_tag : slice (length plain) (length plain + 16) (ct ++ (tag ++ rest)) ≡ tag
    at_tag =
        rw (drop_left (length plain) ct (tag ++ rest) l)
          (take_left _ tag rest (omega (arith, v.tag_length (block_nonce seq) plain)))
