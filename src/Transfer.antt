-- ===== src/Transfer.antt =====
-- src/transfer.rs: the handshake's checks.
pub mod Laws
pub mod Names
pub mod Client
pub mod Push
pub mod Pull
pub mod Server
pub mod Serve
pub mod Connection
pub mod Agreement
pub mod Integrity
pub mod Samples
pub mod Session
mod Tests
use girth.Prelude.{
  ℕ, ◌+◌, ◌*◌, ◌^◌, ◌≡◌, Bool, true, false, not, ◌&&◌, ◌||◌, List, [], ◌∷◌, ◌++◌, Option, none,
  some, ltb, ◌==◌, if◌then◌else◌,
}
use girth.Shared.Result.{Result, ok, err}
use girth.Shared.Text.{text, show_u64, show_i64}
use girth.Prelude.Int.{ℤ, pos, negsuc}
use girth.Control.{Hello, Ack, TransferParams, mode_send, mode_recv, bytes_or_none, magnitude}
use girth.Auth.{same_bytes, verify_client_mac, verify_server_mac}
use girth.Rate.{RateWarmStart, is_empty}

abbrev pub protocol_version : ℤ
protocol_version = pos 1

abbrev pub max_warm_rtt_us : ℕ
max_warm_rtt_us = 60000000

pub record ServerLimits : Type 0 where
  pub max_object_size : ℕ
  pub min_block_size : ℕ
  pub max_block_size : ℕ
  pub max_rate_bps : ℕ
  pub max_alpha_bps : ℕ
  pub max_concurrent_connections : ℕ

abbrev pub default_limits : ServerLimits
default_limits = record {
  max_object_size = 2 ^ 40;
  min_block_size = 256;
  max_block_size = 65455;
  max_rate_bps = 100000000000;
  max_alpha_bps = 100000000000;
  max_concurrent_connections = 256;
}

abbrev pub same_version : ℤ → Bool
same_version (pos n) = n == 1
same_version (negsuc n) = false

-- The first test that fails gives the error; the texts are named.
pub data Refusal : Type 0 where
  unknown_mode negative_size object_too_large invalid_block_size block_size_out_of_range : Refusal
  rate_too_high max_rate_too_high warm_rate_too_high warm_rtt_too_high warm_base_exceeds : Refusal
  alpha_too_high rate_exceeds_max : Refusal

abbrev pub negative : ℤ → Bool
negative (pos n) = false
negative (negsuc n) = true

-- The tests of `validate_hello_limits` in their order, each with its error.
unfoldable pub limit_tests : Hello → ServerLimits → List (Bool × Refusal)
limit_tests h l =
    let size = magnitude h.size in
    let block_size = magnitude h.block_size in
    (not (same_bytes h.mode mode_send || same_bytes h.mode mode_recv), unknown_mode)
    ∷ (negative h.size, negative_size)
    ∷ (same_bytes h.mode mode_send && ltb l.max_object_size size, object_too_large)
    ∷ (block_size == 0, invalid_block_size)
    ∷ (ltb block_size l.min_block_size || ltb l.max_block_size block_size, block_size_out_of_range)
    ∷ (ltb l.max_rate_bps h.rate_bps, rate_too_high)
    ∷ (ltb l.max_rate_bps h.max_bps, max_rate_too_high)
    ∷ (ltb l.max_rate_bps h.warm_rate_bps, warm_rate_too_high)
    ∷ (
      ltb max_warm_rtt_us h.warm_srtt_net_us || ltb max_warm_rtt_us h.warm_base_rtt_us,
      warm_rtt_too_high,
    )
    ∷ (
      ltb 0 h.warm_srtt_net_us
          && ltb 0 h.warm_base_rtt_us
          && ltb h.warm_srtt_net_us h.warm_base_rtt_us,
      warm_base_exceeds,
    )
    ∷ (ltb l.max_alpha_bps h.alpha_bps, alpha_too_high)
    ∷ (ltb 0 h.max_bps && ltb h.max_bps h.rate_bps, rate_exceeds_max)
    ∷ []

-- A text with two numbers, `what: a > b`.
abbrev over : List ℕ → List ℕ → List ℕ → List ℕ
over what a b = what ++ (text ": " ++ (a ++ (text " > " ++ b)))

-- What the client is told.
unfoldable pub refusal_text : Hello → ServerLimits → Refusal → List ℕ
unfolding show_u64 show_i64
refusal_text h l unknown_mode = text "unknown mode"
refusal_text h l negative_size = text "negative size"
refusal_text h l object_too_large =
    over (text "object too large") (show_i64 h.size) (show_u64 l.max_object_size)
refusal_text h l invalid_block_size = text "invalid block size"
refusal_text h l block_size_out_of_range =
    text "block size out of range: "
    ++ (show_u64 (magnitude h.block_size)
        ++ (text " (allowed "
            ++ (show_u64 l.min_block_size
                ++ (text "..=" ++ (show_u64 l.max_block_size ++ text ")")))))
refusal_text h l rate_too_high =
    over (text "rate too high") (show_u64 h.rate_bps) (show_u64 l.max_rate_bps)
refusal_text h l max_rate_too_high =
    over (text "max rate too high") (show_u64 h.max_bps) (show_u64 l.max_rate_bps)
refusal_text h l warm_rate_too_high =
    over (text "warm rate too high") (show_u64 h.warm_rate_bps) (show_u64 l.max_rate_bps)
refusal_text h l warm_rtt_too_high =
    text "warm RTT too high: srtt="
    ++ (show_u64 h.warm_srtt_net_us
        ++ (text " base="
            ++ (show_u64 h.warm_base_rtt_us ++ (text " max=" ++ show_u64 max_warm_rtt_us))))
refusal_text h l warm_base_exceeds = text "warm base RTT exceeds warm SRTT"
refusal_text h l alpha_too_high =
    over (text "alpha too high") (show_u64 h.alpha_bps) (show_u64 l.max_alpha_bps)
refusal_text h l rate_exceeds_max = text "rate exceeds max rate"

unfoldable pub first_refusal : List (Bool × Refusal) → Option Refusal
first_refusal [] = none
first_refusal ((t, e) ∷ rest) = let later = first_refusal rest in if t then some e else later

-- `none` is `Ok`.
unfoldable pub validate_hello_limits : Hello → ServerLimits → Option Refusal
unfolding limit_tests first_refusal
validate_hello_limits h l = first_refusal (limit_tests h l)

unfoldable pub warm_from_hello : Hello → Option RateWarmStart
unfolding is_empty
warm_from_hello h =
    let warm : RateWarmStart = record {
      rate_bps = h.warm_rate_bps;
      srtt_net_us = h.warm_srtt_net_us;
      base_rtt_us = h.warm_base_rtt_us;
    } in
    if not h.adaptive || is_empty warm then none else some warm

unfoldable pub with_hello : TransferParams → Hello → TransferParams
with_hello p h = record p {
  block_size = magnitude h.block_size;
  rate_bps = if ltb 0 h.rate_bps then h.rate_bps else p.rate_bps;
  max_bps = if ltb 0 h.max_bps then h.max_bps else p.max_bps;
  adaptive = h.adaptive;
  alpha_bps = if ltb 0 h.alpha_bps then h.alpha_bps else p.alpha_bps;
}

pub record AuthState : Type 0 where
  pub token : List ℕ
  pub client_mac : List ℕ

-- What `handle_conn` makes of a hello before any transfer: an error to the client, with the flag
-- `auth_required`, or the parameters and the identity.
pub data Admission : Type 0 where
  version_mismatch : Admission
  refused : Refusal → Admission
  auth_error : List ℕ → Admission
  admitted : TransferParams → Option AuthState → Admission

module _ (hmac : List ℕ → List ℕ → List ℕ) where
  -- The verification of the client's proof with the token of the authorizer, or its reason to deny.
  unfoldable pub check_proof : Result (List ℕ) (List ℕ) → Hello → TransferParams → Admission
  check_proof (err reason) h p = auth_error (text "auth denied: " ++ reason)
  check_proof (ok token) h p = elim h.auth_mac [
    | none ↦ auth_error (text "auth required")
    | some presented ↦
        if verify_client_mac hmac token h.version h.mode h.name h.size (bytes_or_none h.pub_key)
          presented
        then admitted p (some (record { token = token; client_mac = presented }))
        else auth_error (text "auth denied")
  ]

  -- The authorizer takes the mode and the name; the address that it is also given is the connection's.
  unfoldable pub admit :
      Option (List ℕ → List ℕ → Result (List ℕ) (List ℕ))
      → ServerLimits
      → TransferParams
      → Hello
      → Admission
  unfolding validate_hello_limits with_hello check_proof
  admit authorizer limits params h =
      let proven = elim authorizer as (λ _. Admission) [
        | none ↦ admitted (with_hello params h) none
        | some authz ↦ check_proof (authz h.mode h.name) h (with_hello params h)
      ] in
      if not (same_version h.version)
      then version_mismatch
      else elim (validate_hello_limits h limits) [ some e ↦ refused e | none ↦ proven ]

  -- `verify_server_auth` of the client: true is `Ok`.
  unfoldable pub verify_server_auth : Option (List ℕ) → Option (List ℕ) → Ack → Bool
  verify_server_auth none cmac a = true
  verify_server_auth (some token) none a = true
  verify_server_auth (some token) (some cmac) a = elim a.auth_mac [
    | none ↦ false
    | some smac ↦ verify_server_mac hmac token a.session (bytes_or_none a.pub_key) cmac smac
  ]
