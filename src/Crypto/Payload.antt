-- ===== src/Crypto/Payload.antt =====
-- AeadBox (src/crypto.rs): a payload sealed in place and opened. The ciphers are the aes-gcm and
-- chacha20poly1305 crates', an interface here.
pub mod RoundTrip
use girth.Prelude.{
  ℕ, ◌+◌, ◌≤◌, ◌≡◌, List, ◌++◌, Option, none, some, ◌>>=◌, ltb, leb, if◌then◌else◌, length,
  replicate, drop, take,
}
use girth.Protocol.Bytes.{le_bytes, put, slice}

abbrev pub aead_tag_len : ℕ
aead_tag_len = 16

-- `encrypt_in_place_detached` gives the ciphertext and the tag, `decrypt_in_place_detached` the
-- plaintext, or fails where the tag does not fit.
pub record Aead : Type 0 where
  pub encrypt : List ℕ → List ℕ → List ℕ × List ℕ
  pub decrypt : List ℕ → List ℕ → List ℕ → Option (List ℕ)

-- What the program relies on.
pub record IsAead (c : Aead) : Type 0 where
  pub length_same : (n p : List ℕ) → length (c.encrypt n p).0 ≡ length p
  pub tag_length : (n p : List ℕ) → length (c.encrypt n p).1 ≡ aead_tag_len
  pub opens : (n p : List ℕ) → c.decrypt n (c.encrypt n p).0 (c.encrypt n p).1 ≡ some p

pub block_nonce : ℕ → List ℕ
block_nonce seq = replicate {A = ℕ} 4 0 ++ le_bytes 8 seq

-- The two writes of `seal_data`.
pub write_sealed : List ℕ → ℕ → ℕ → List ℕ × List ℕ → Option (List ℕ × ℕ)
write_sealed buf hdr_len plen (ct, tag) = do
  buf ← put hdr_len ct buf
  buf ← put (hdr_len + plen) tag buf
  some (buf, hdr_len + plen + aead_tag_len)

-- The buffer after the call and the length of the PDU; `none` is the panic of a range outside it.
unfoldable pub seal_data : Aead → List ℕ → ℕ → ℕ → ℕ → Option (List ℕ × ℕ)
unfolding block_nonce write_sealed
seal_data c buf hdr_len plen seq =
    if leb (hdr_len + plen) (length buf)
    then write_sealed buf hdr_len plen
        (c.encrypt (block_nonce seq) (slice hdr_len (hdr_len + plen) buf))
    else none

-- The plaintext that the call leaves at the front of `payload`, of `plen` bytes; `none` on a failed
-- authentication and on a short buffer.
unfoldable pub open_data : Aead → List ℕ → ℕ → ℕ → Option (List ℕ)
unfolding block_nonce
open_data c payload plen seq =
    if ltb (length payload) (plen + aead_tag_len)
    then none
    else c.decrypt (block_nonce seq) (slice 0 plen payload)
        (slice plen (plen + aead_tag_len) payload)
