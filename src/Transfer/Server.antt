-- ===== src/Transfer/Server.antt =====
-- src/transfer.rs: what a transfer of the server needs: the served files, the server's system, and the
-- answer to a hello.
use girth.Prelude.{ℕ, Bool, true, false, List, [], ◌∷◌, Option, none, some, ◌==◌, if◌then◌else◌}
use girth.Prelude.Int.{pos}
use girth.Shared.Result.{Result, ok, err, ◌>>=◌}
use girth.Shared.Text.{text}
use girth.Error.{IoError, ErrorKind}
use girth.Control.{Hello, Ack, default_ack, bytes_or_none}
use girth.Auth.{server_mac}
use girth.Crypto.Negotiate.{Negotiated, negotiate_crypto_server}
use girth.Transfer.{AuthState}
use girth.Transfer.Client.{Crates}

-- What `OpenOptions` is asked for.
pub record OpenOptions : Type 0 where
  pub read : Bool
  pub write : Bool
  pub create : Bool
  pub truncate : Bool
  pub no_follow : Bool

abbrev pub not_regular : IoError
not_regular = record {
  kind = ErrorKind.invalid_input;
  message = text "served object is not a regular file";
}

-- `Path::join` with a name that is not absolute.
abbrev pub join : List ℕ → List ℕ → List ℕ
join [] name = name
join (x ∷ []) name = if x == 47 then x ∷ name else x ∷ 47 ∷ name
join (x ∷ y ∷ dir) name = x ∷ join (y ∷ dir) name

module _ {F : Type 0} (open_file : OpenOptions → List ℕ → Result IoError F)
    (is_file : F → Result IoError Bool) where
  abbrev regular : F → Result IoError F
  regular file = is_file file >>= λ b. if b then ok file else err not_regular

  -- On a Unix system the last part of the path is not followed where it is a symbolic link.
  unfoldable pub open_served_source : List ℕ → List ℕ → Result IoError F
  open_served_source dir name =
      open_file
        (record { read = true; write = false; create = false; truncate = false; no_follow = true })
        (join dir name)
      >>= regular

  unfoldable pub open_served_sink : List ℕ → List ℕ → Result IoError F
  open_served_sink dir name =
      open_file
        (record { read = true; write = true; create = true; truncate = false; no_follow = true })
        (join dir name)
      >>= regular

-- The server's system: the control connection over its state, the private key that it draws for a
-- hello, whether the CPU has AES instructions, and the UDP socket by its port.
pub record ServerNet (S : Type 0) : Type 0 where
  pub write_json : Ack → S → Result IoError S
  pub fresh : List ℕ
  pub aes : Bool
  pub new_udp_socket : ℕ → Bool → Result IoError ℕ

-- `ack_err`: the result of the write is dropped; where it fails the stream stays as it was.
unfoldable pub ack_err : {S : Type 0} → ServerNet S → List ℕ → Bool → S → S
ack_err net message auth_required s =
    elim (net.write_json (record default_ack { err = message; auth_required = auth_required }) s) [
      | ok s' ↦ s'
      | err e ↦ s
    ]

abbrev pub no_empty : List ℕ → Option (List ℕ)
no_empty [] = none
no_empty (x ∷ key) = some (x ∷ key)

-- The ciphers of a hello that names none are none.
abbrev pub ciphers_of : Hello → List (List ℕ)
ciphers_of h = elim h.ciphers [ none ↦ [] | some l ↦ l ]

abbrev pub proof_of : Crates → ℕ → List ℕ → Option AuthState → Option (List ℕ)
proof_of lib session pub_key none = none
proof_of lib session pub_key (some a) =
    some (server_mac lib.hmac a.token session pub_key a.client_mac)

module _ (lib : Crates) {S : Type 0} (net : ServerNet S) where
  unfoldable pub negotiate : Hello → ℕ → Option (Negotiated lib.crypto)
  unfolding negotiate_crypto_server
  negotiate h session =
      negotiate_crypto_server lib.crypto net.aes net.fresh h.encrypt (ciphers_of h)
        (bytes_or_none h.pub_key) session

  -- The answer of a server that goes on: the size and the checksum are those of a pull, and zeros in a
  -- push.
  unfoldable pub accept_ack : Hello → ℕ → ℕ → Option AuthState → Negotiated lib.crypto → Ack
  accept_ack h session port auth_state n = record default_ack {
    ok = true;
    udp_port = pos port;
    session = session;
    name = h.name;
    encrypt = n.enabled;
    cipher = n.cipher;
    pub_key = no_empty n.pub_key;
    auth_mac = proof_of lib session n.pub_key auth_state;
  }
