-- ===== src/Transfer/Client.antt =====
-- src/transfer.rs: what a push and a pull of the client share: the hello, the checks of the answer, and
-- the phases of the handle.
use girth.Prelude.{ℕ, Bool, not, List, Option, none, some, if◌then◌else◌}
use girth.Prelude.Int.{ℤ, as_i64}
use girth.Shared.Result.{Result, ok, err, ◌>>=◌, map_err}
use girth.Error.{IoError, GirthError, auth_denied, protocol, from_io, from_server_err, display}
use girth.Control.{Hello, Ack, TransferParams, bytes_or_none}
use girth.Auth.{client_mac}
use girth.Crypto.Payload.{Aead}
use girth.Crypto.Negotiate.{CryptoLib, local_ciphers, client_crypto}
use girth.Rate.{RateWarmStart, is_empty}
use girth.Runtime.{TransferPhase, TransferHandle, TransferControl, set_phase, set_failed}
use girth.Receiver.{SocketAddr}
use girth.Transfer.{protocol_version, verify_server_auth}
use girth.Transfer.Names.{resolve_peer}

unfoldable pub mark_phase : Option TransferHandle → TransferPhase → Option TransferHandle
unfolding set_phase
mark_phase none p = none
mark_phase (some h) p = some (set_phase h p)

unfoldable pub mark_result :
    {A : Type 0} → Option TransferHandle → Result GirthError A → Option TransferHandle
unfolding set_failed display
mark_result handle (ok a) = handle
mark_result none (err e) = none
mark_result (some h) (err e) = some (set_failed h (display e))

abbrev pub control_of : Option TransferHandle → Option TransferControl
control_of none = none
control_of (some h) = some h.control

unfoldable pub warm_for_params : TransferParams → Option RateWarmStart → Option RateWarmStart
unfolding is_empty
warm_for_params p none = none
warm_for_params p (some w) = if not p.adaptive then none else (if is_empty w then none else some w)

abbrev pub warm_or_default : Option RateWarmStart → RateWarmStart
warm_or_default none = record { rate_bps = 0; srtt_net_us = 0; base_rtt_us = 0 }
warm_or_default (some w) = w

unfoldable pub reject_error : Ack → GirthError
unfolding from_server_err
reject_error a = if a.auth_required then auth_denied else from_server_err a.err

-- The client's system: the control connection over its state `S`, the private key that it draws,
-- whether the CPU has AES instructions, the resolver, the UDP socket, and the error of a source.
pub record ClientNet (S : Type 0) : Type 0 where
  pub write_json : Hello → S → Result IoError S
  pub read_json : S → Result IoError (Ack × S)
  pub fresh : List ℕ
  pub aes : Bool
  pub to_socket_addrs : List ℕ → Result IoError (List SocketAddr)
  pub new_udp_socket : ℕ → Bool → Result IoError ℕ
  pub source_error : IoError

-- The parts of `BlockSink` that a transfer calls, over the sink's state; a failed call may change it.
pub record SinkCalls (K : Type 0) : Type 0 where
  pub allocate : ℕ → K → Result IoError (Unit {0}) × K
  pub finalize : K → Result IoError (Unit {0}) × K
  pub read_crc32c : K → Result IoError (Option ℕ)

-- What the other crates give: ciphers and keys, HMAC, and CRC32C; and the texts of a failed key exchange
-- and of a failed integrity check, which quote a name and print in hexadecimal.
pub record Crates : Type 0 where
  pub crypto : CryptoLib
  pub hmac : List ℕ → List ℕ → List ℕ
  pub crc32c_append : ℕ → List ℕ → ℕ
  pub crypto_failed : List ℕ
  pub integrity_text : List ℕ → ℕ → ℕ → List ℕ

-- The request: the private key, the proof and the hello.
pub record Request : Type 0 where
  pub priv_key : Option (List ℕ)
  pub auth_mac : Option (List ℕ)
  pub warm_start : Option RateWarmStart
  pub hello : Hello

abbrev pub option_map : {A B : Type 0} → (A → B) → Option A → Option B
option_map g none = none
option_map g (some a) = some (g a)

abbrev pub or_error : {A : Type 0} → IoError → Option A → Result IoError A
or_error e none = err e
or_error e (some a) = ok a

module _ (lib : Crates) where
  -- The hello of a push (`mode` send, with the size and the checksum) or of a pull (with zeros).
  unfoldable pub make_request :
      {S : Type 0}
      → ClientNet S
      → List ℕ
      → List ℕ
      → ℤ
      → ℕ
      → TransferParams
      → Option RateWarmStart
      → Option (List ℕ)
      → Request
  unfolding client_mac warm_for_params local_ciphers
  make_request net mode name size crc p warm_start auth_token =
      let priv_key : Option (List ℕ) = if p.encrypt then some net.fresh else none in
      let pub_key : Option (List ℕ) = option_map (λ sk. lib.crypto.public sk) priv_key in
      let auth_mac : Option (List ℕ) =
        option_map
          (λ t. client_mac lib.hmac t protocol_version mode name size (bytes_or_none pub_key))
          auth_token in
      let warm_start : Option RateWarmStart = warm_for_params p warm_start in
      let warm = warm_or_default warm_start in
      record {
        priv_key = priv_key;
        auth_mac = auth_mac;
        warm_start = warm_start;
        hello = record {
          version = protocol_version;
          mode = mode;
          name = name;
          size = size;
          block_size = as_i64 p.block_size;
          rate_bps = p.rate_bps;
          max_bps = p.max_bps;
          adaptive = p.adaptive;
          alpha_bps = p.alpha_bps;
          crc32c = crc;
          warm_rate_bps = warm.rate_bps;
          warm_srtt_net_us = warm.srtt_net_us;
          warm_base_rtt_us = warm.base_rtt_us;
          encrypt = p.encrypt;
          ciphers = if p.encrypt then some (local_ciphers net.aes) else none;
          pub_key = pub_key;
          auth_mac = auth_mac;
        };
      }

  abbrev or_protocol : Option (Option Aead) → Result GirthError (Option Aead)
  or_protocol none = err (protocol lib.crypto_failed)
  or_protocol (some c) = ok c

  -- The checks of the server's answer: the cipher of the transfer, or the error.
  unfoldable pub check_ack :
      TransferParams → Option (List ℕ) → Request → Ack → Result GirthError (Option Aead)
  unfolding reject_error verify_server_auth client_crypto
  check_ack p auth_token q a =
      let crypto = or_protocol (
        client_crypto lib.crypto p.encrypt a.encrypt (bytes_or_none a.pub_key) a.session a.cipher
          q.priv_key) in
      if not a.ok
      then err (reject_error a)
      else (if verify_server_auth lib.hmac auth_token q.auth_mac a then crypto else err auth_denied)

module _ {S : Type 0} (net : ClientNet S) where
  -- The hello goes out and the answer comes in.
  abbrev pub exchange : Hello → S → Result GirthError (Ack × S)
  exchange h s = map_err from_io (net.write_json h s >>= net.read_json)

  -- The peer of the data plane, with a socket of the client's own.
  abbrev pub open_socket : List ℕ → Ack → Bool → Result GirthError SocketAddr
  open_socket server_addr a rio = map_err from_io (
      resolve_peer net.to_socket_addrs server_addr a.udp_port >>= λ peer.
      net.new_udp_socket 0 rio >>= λ _. ok peer)
