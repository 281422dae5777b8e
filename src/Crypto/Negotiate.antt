-- ===== src/Crypto/Negotiate.antt =====
-- src/crypto.rs: the choice of the cipher and the key exchange. X25519 and HKDF-SHA256 are other
-- crates', parameters here; cipher names are bytes, and the error messages are left out.
use girth.Prelude.{
  ℕ, ◌≡◌, refl, ap, Bool, true, false, not, ◌||◌, List, [], ◌∷◌, Option, none, some, ◌>>=◌, ◌==◌,
  length, subst, if◌then◌else◌, Bool-cases, Option-cases, inl, inr, is_some,
}
use girth.Protocol.Bytes.{le_bytes}
use girth.Auth.{same_bytes}
use girth.Crypto.Payload.{Aead}

-- "aes-256-gcm" and "chacha20-poly1305"
abbrev pub cipher_aes_gcm : List ℕ
cipher_aes_gcm = 97 ∷ 101 ∷ 115 ∷ 45 ∷ 50 ∷ 53 ∷ 54 ∷ 45 ∷ 103 ∷ 99 ∷ 109 ∷ []

abbrev pub cipher_chacha : List ℕ
cipher_chacha =
    99 ∷ 104 ∷ 97 ∷ 99 ∷ 104 ∷ 97 ∷ 50 ∷ 48 ∷ 45 ∷ 112 ∷ 111 ∷ 108 ∷ 121 ∷ 49 ∷ 51 ∷ 48 ∷ 53 ∷ []

abbrev pub aead_key_len : ℕ
aead_key_len = 32

-- What the handshake takes from other crates: the ciphers on a key, the public key and the shared
-- secret of X25519, and HKDF of a salt, a secret, an info text and a length.
pub record CryptoLib : Type 0 where
  pub aes : List ℕ → Aead
  pub chacha : List ℕ → Aead
  pub public : List ℕ → List ℕ
  pub diffie_hellman : List ℕ → List ℕ → List ℕ
  pub hkdf : List ℕ → List ℕ → List ℕ → ℕ → List ℕ

-- What it relies on: both ends compute one secret, and public keys have 32 bytes and HKDF gives the
-- length asked for.
pub record IsCrypto (k : CryptoLib) : Type 0 where
  pub agrees : (a b : List ℕ) → k.diffie_hellman a (k.public b) ≡ k.diffie_hellman b (k.public a)
  pub public_length : (a : List ℕ) → length (k.public a) ≡ 32
  pub hkdf_length : (salt secret info : List ℕ) (n : ℕ) → length (k.hkdf salt secret info n) ≡ n

-- `local_ciphers`, by whether the CPU has AES instructions.
unfoldable pub local_ciphers : Bool → List (List ℕ)
local_ciphers true = cipher_aes_gcm ∷ cipher_chacha ∷ []
local_ciphers false = cipher_chacha ∷ cipher_aes_gcm ∷ []

abbrev pub any_same : List ℕ → List (List ℕ) → Bool
any_same c [] = false
any_same c (p ∷ ps) = same_bytes p c || any_same c ps

-- The empty name where no suite is common.
unfoldable pub choose_cipher : List (List ℕ) → List (List ℕ) → List ℕ
choose_cipher [] peer = []
choose_cipher (c ∷ cs) peer =
    let rest = choose_cipher cs peer in if any_same c peer then c else rest

module _ (k : CryptoLib) where
  -- `AeadBox::new`: an error on a wrong length and on an unknown name.
  unfoldable pub new_box : List ℕ → List ℕ → Option Aead
  new_box name key =
      if not (length key == aead_key_len)
      then none
      else (if same_bytes name cipher_aes_gcm
          then some (k.aes key)
          else (if same_bytes name cipher_chacha then some (k.chacha key) else none))

  -- `"girth data key "` in front of the name.
  abbrev pub info : List ℕ → List ℕ
  info name =
      103 ∷ 105 ∷ 114 ∷ 116 ∷ 104 ∷ 32 ∷ 100 ∷ 97 ∷ 116 ∷ 97 ∷ 32 ∷ 107 ∷ 101 ∷ 121 ∷ 32 ∷ name

  unfoldable pub derive_aead : List ℕ → List ℕ → ℕ → List ℕ → Option Aead
  unfolding new_box
  derive_aead priv_key peer_pub session name =
      if length peer_pub == 32
      then new_box name (
          k.hkdf (le_bytes 4 session) (k.diffie_hellman priv_key peer_pub) (info name) aead_key_len)
      else none

  -- What the server answers with: the cipher's name, its public key and the box, or no encryption.
  pub record Negotiated : Type 0 where
    pub enabled : Bool
    pub cipher : List ℕ
    pub pub_key : List ℕ
    pub box : Option Aead

  -- `negotiate_crypto_server`, with the fresh private key that it draws.
  unfoldable pub negotiate_crypto_server :
      Bool → List ℕ → Bool → List (List ℕ) → List ℕ → ℕ → Option Negotiated
  unfolding local_ciphers choose_cipher derive_aead
  negotiate_crypto_server aes fresh encrypt peer_ciphers peer_pub session =
      let name = choose_cipher (local_ciphers aes) peer_ciphers in
      if not encrypt
      then some (record { enabled = false; cipher = []; pub_key = []; box = none })
      else (if length name == 0
          then none
          else derive_aead fresh peer_pub session name >>= λ aead.
              some (record {
                enabled = true;
                cipher = name;
                pub_key = k.public fresh;
                box = some aead;
              }))

  -- `client_crypto`: an error, or the box.
  unfoldable pub client_crypto :
      Bool → Bool → List ℕ → ℕ → List ℕ → Option (List ℕ) → Option (Option Aead)
  unfolding derive_aead
  client_crypto want server_encrypt server_pub session name priv_key =
      let keyed = elim priv_key as (λ _. Option (Option Aead)) [
        | none ↦ none
        | some sk ↦
            if not want
            then none
            else derive_aead sk server_pub session name >>= λ aead. some (some aead)
      ] in
      if not server_encrypt then (if want then none else some none) else keyed

  -- The client never falls back to cleartext: where it wants encryption it goes on only with a box, and
  -- where it does not it goes on only without one.
  pub client_crypto_fail_closed :
      (want server_encrypt : Bool) (server_pub name : List ℕ) (session : ℕ)
      (priv_key : Option (List ℕ)) (box : Option Aead)
      → client_crypto want server_encrypt server_pub session name priv_key ≡ some box
      → is_some box ≡ want
  unfolding client_crypto
  client_crypto_fail_closed false false server_pub name session priv_key box e =
      ap is_some {y = none} (cc)
  client_crypto_fail_closed true false server_pub name session priv_key box e = cc
  client_crypto_fail_closed want true server_pub name session none box e = cc
  client_crypto_fail_closed false true server_pub name session (some sk) box e = cc
  client_crypto_fail_closed true true server_pub name session (some sk) box e =
      elim (Option-cases (derive_aead sk server_pub session name)) [
        | inl q ↦ cc (rw q at e)
        | inr (a, q) ↦ cc (rw q at e)
      ]

  derive_same :
      (fresh sk name : List ℕ) (session : ℕ)
      → IsCrypto k
      → derive_aead sk (k.public fresh) session name ≡ derive_aead fresh (k.public sk) session name
  unfolding derive_aead
  derive_same fresh sk name session v =
      rw (v.public_length fresh, v.public_length sk, v.agrees sk fresh) refl

  -- What an answer needs of the client.
  abbrev Agrees : List ℕ → ℕ → Negotiated → Type 0
  Agrees sk session answer =
      (answer.enabled ≡ true)
      × (client_crypto true answer.enabled answer.pub_key session answer.cipher (some sk)
          ≡ some answer.box)

  agrees_lem :
      (fresh sk name : List ℕ) (session : ℕ) (a : Aead)
      → IsCrypto k
      → derive_aead fresh (k.public sk) session name ≡ some a
      → Agrees sk session
          (record { enabled = true; cipher = name; pub_key = k.public fresh; box = some a })
  unfolding client_crypto
  agrees_lem fresh sk name session a v q = (refl, rw (derive_same fresh sk name session v, q) refl)

  -- Both ends of an encrypted handshake end with one cipher: from the server's answer to a client that
  -- sent its public key, the client derives the server's box.
  pub client_crypto-server :
      (aes : Bool) (fresh sk : List ℕ) (peer_ciphers : List (List ℕ)) (session : ℕ)
      (answer : Negotiated)
      → IsCrypto k
      → negotiate_crypto_server aes fresh true peer_ciphers (k.public sk) session ≡ some answer
      → (answer.enabled ≡ true)
        × (client_crypto true answer.enabled answer.pub_key session answer.cipher (some sk)
            ≡ some answer.box)
  unfolding negotiate_crypto_server
  client_crypto-server aes fresh sk peer_ciphers session answer v e =
      let name = choose_cipher (local_ciphers aes) peer_ciphers in
      elim (Bool-cases (length name == 0)) [
        | inl z ↦ cc (rw z at e)
        | inr z ↦ elim (Option-cases (derive_aead fresh (k.public sk) session name)) [
          | inl q ↦ cc (rw (z, q) at e)
          | inr (a, q) ↦
              subst (Agrees sk session) (cc (rw (z, q) at e))
                (agrees_lem fresh sk name session a v q)
        ]
      ]
