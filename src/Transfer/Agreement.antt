-- ===== src/Transfer/Agreement.antt =====
-- src/transfer.rs: the two sides of a handshake, the server's answer at the client's checks.
pub mod Push
pub mod Pull
mod Tests
use girth.Prelude.{
  ℕ, ◌≡◌, refl, sym, ap, subst, ◌∙◌, Bool, true, false, List, [], ◌∷◌, Option, none, some,
  Option-cases, inl, inr, if◌then◌else◌, arith, ltb, ◌<◌, ◌^◌, ◌-◌, Bool-cases,
}
use girth.Prelude.Int.{ℤ, pos, negsuc, as_i64}
use girth.Shared.Result.{Result, ok, err}
use girth.Error.{IoError, GirthError}
use girth.Control.{Hello, Ack, TransferParams, bytes_or_none, magnitude}
use girth.Auth.{server_mac}
use girth.Auth.Binding.{verify_mac-exact}
use girth.Crypto.Payload.{Aead}
use girth.Crypto.Negotiate.{
  IsCrypto, Negotiated, negotiate_crypto_server, client_crypto, client_crypto-server,
}
use girth.Rate.{RateWarmStart}
use girth.Transfer.{
  AuthState, ServerLimits, Admission, admitted, admit, verify_server_auth, with_hello,
}
use girth.Transfer.Laws.{some_lem, IsAdmitted, admit-IsAdmitted}
use girth.Transfer.Client.{Crates, ClientNet, Request, make_request, check_ack, option_map}
use girth.Transfer.Server.{ServerNet, negotiate, accept_ack, no_empty, proof_of, ciphers_of}

bytes-no_empty : (key : List ℕ) → bytes_or_none (no_empty key) ≡ key
bytes-no_empty [] = refl
bytes-no_empty (x ∷ key) = refl

-- A block size that the server admits is the client's.
pub block_size_lem : (n : ℕ) (p : ℕ) → 0 < magnitude (as_i64 n) → p ≡ magnitude (as_i64 n) → p ≡ n
block_size_lem n p h e = elim (Bool-cases (ltb n (2 ^ 63))) [
  | inl k ↦ e ∙ ap magnitude (small k)
  | inr k ↦ absurd (ground (arith, subst (λ t. 0 < magnitude t) (large k) h))
]
  where
    small : ltb n (2 ^ 63) ≡ true → as_i64 n ≡ pos n
    small k = rw k refl

    large : ltb n (2 ^ 63) ≡ false → as_i64 n ≡ negsuc (2 ^ 64 - n - 1)
    large k = rw k refl

-- The client takes the proof of a server with its token.
verified :
    (lib : Crates) (st : Option AuthState) (token mac : Option (List ℕ)) (a : Ack)
    → token ≡ option_map (λ (x : AuthState). x.token) st
    → ((x : AuthState) → st ≡ some x → mac ≡ some x.client_mac)
    → a.auth_mac ≡ proof_of lib a.session (bytes_or_none a.pub_key) st
    → verify_server_auth lib.hmac token mac a ≡ true
unfolding verify_server_auth
verified lib none token mac a t m e = rw t refl
verified lib (some x) token mac a t m e =
    let key = bytes_or_none a.pub_key in
    rw (t, m x refl, e)
      ((verify_mac-exact lib.hmac x.token (pos 1) (pos 1) x.client_mac [] key a.session
          (server_mac lib.hmac x.token a.session key x.client_mac)).1.1
        refl)

module _ (lib : Crates) {S T : Type 0} (cnet : ClientNet S) (snet : ServerNet T)
    (mode name : List ℕ) (size : ℤ) (crc : ℕ) (p : TransferParams)
    (warm_start : Option RateWarmStart) (auth_token : Option (List ℕ)) where
  abbrev request : Request
  request = make_request lib cnet mode name size crc p warm_start auth_token

  -- The client finds the server's cipher.
  finds_cipher :
      (encrypt aes : Bool) (ciphers : List (List ℕ)) (session : ℕ) (n : Negotiated lib.crypto)
      → IsCrypto lib.crypto
      → negotiate_crypto_server lib.crypto aes snet.fresh encrypt ciphers
          (bytes_or_none
            (option_map (λ sk. lib.crypto.public sk) (if encrypt then some cnet.fresh else none)))
          session
        ≡ some n
      → client_crypto lib.crypto encrypt n.enabled
          (bytes_or_none (no_empty n.pub_key))
          session
          n.cipher
          (if encrypt then some cnet.fresh else none)
        ≡ some n.box
  unfolding negotiate_crypto_server client_crypto
  finds_cipher true aes ciphers session n v e =
      let (on, agrees) =
        client_crypto-server lib.crypto aes snet.fresh cnet.fresh ciphers session n v e in
      rw (bytes-no_empty n.pub_key) agrees
  finds_cipher false aes ciphers session n v e = subst Found (some_lem e) refl
    where
      Found : Negotiated lib.crypto → Type 0
      Found m =
          client_crypto lib.crypto false m.enabled (bytes_or_none (no_empty m.pub_key)) session
            m.cipher none
          ≡ some m.box

  -- The answer of an honest server, to a hello whose proof its identity keeps, passes the checks.
  pub check_ack-accepts :
      (session port : ℕ) (st : Option AuthState) (n : Negotiated lib.crypto) (len : ℤ) (sum : ℕ)
      → IsCrypto lib.crypto
      → negotiate lib snet request.hello session ≡ some n
      → auth_token ≡ option_map (λ (x : AuthState). x.token) st
      → ((x : AuthState) → st ≡ some x → request.auth_mac ≡ some x.client_mac)
      → check_ack lib p auth_token request
          (record (accept_ack lib snet request.hello session port st n) {
            size = len;
            crc32c = sum;
          })
        ≡ ok n.box
  unfolding check_ack accept_ack negotiate make_request
  check_ack-accepts session port st n len sum v e token mac =
      let answer : Ack = record (accept_ack lib snet request.hello session port st n) {
        size = len;
        crc32c = sum;
      } in
      let proven : verify_server_auth lib.hmac auth_token request.auth_mac answer ≡ true =
        verified lib st auth_token request.auth_mac answer token mac
          (ap (λ key. proof_of lib session key st) (sym (bytes-no_empty n.pub_key))) in
      rw (proven, finds_cipher p.encrypt snet.aes (ciphers_of request.hello) session n v e) refl
