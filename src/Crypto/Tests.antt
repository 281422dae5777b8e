-- ===== src/Crypto/Tests.antt =====
-- src/crypto.rs at concrete inputs, with a cipher that changes nothing.
use girth.Prelude.{ℕ, ◌≡◌, refl, true, [], ◌∷◌, some, length, replicate, length-replicate, is_some}
use girth.Crypto.Payload.{Aead, IsAead}
use girth.Crypto.Negotiate.{
  CryptoLib, IsCrypto, Negotiated, negotiate_crypto_server, client_crypto, cipher_chacha,
  client_crypto_fail_closed,
}

abbrev pub plain_box : Aead
plain_box = record { encrypt = λ n p. (p, replicate {A = ℕ} 16 0); decrypt = λ n ct tag. some ct }

pub plain_box-IsAead : IsAead plain_box
plain_box-IsAead = record {
  length_same = λ n p. refl;
  tag_length = λ n p. refl;
  opens = λ n p. refl;
}

abbrev pub toy : CryptoLib
toy = record {
  aes = λ key. plain_box;
  chacha = λ key. plain_box;
  public = λ a. replicate {A = ℕ} 32 (length a);
  diffie_hellman = λ a p. [];
  hkdf = λ salt secret info n. replicate {A = ℕ} n 1;
}

pub toy-IsCrypto : IsCrypto toy
toy-IsCrypto = record {
  agrees = λ a b. refl;
  public_length = λ a. refl;
  hkdf_length = λ salt secret info n. length-replicate {A = ℕ} n 1;
}

abbrev answer : Negotiated toy
answer = record {
  enabled = true;
  cipher = cipher_chacha;
  pub_key = replicate {A = ℕ} 32 1;
  box = some plain_box;
}

negotiated :
    negotiate_crypto_server toy true (7 ∷ []) true (cipher_chacha ∷ []) (replicate {A = ℕ} 32 2) 99
    ≡ some answer
unfolding negotiate_crypto_server
negotiated = refl

agreed :
    client_crypto toy true true (replicate {A = ℕ} 32 1) 99 cipher_chacha (some (3 ∷ []))
    ≡ some (some plain_box)
unfolding client_crypto
agreed = refl

client_crypto_fail_closed_example : is_some (some plain_box) ≡ true
client_crypto_fail_closed_example =
    client_crypto_fail_closed toy true true (replicate {A = ℕ} 32 1) cipher_chacha 99
      (some (3 ∷ [])) (some plain_box) agreed
