-- ===== src/Transfer/Tests.antt =====
-- The server's admission (src/transfer.rs) at a concrete hello; a concatenation stands for the HMAC.
use girth.Prelude.{ℕ, ◌≡◌, refl, true, false, List, [], ◌∷◌, ◌++◌, Option, none, some}
use girth.Prelude.Int.{pos}
use girth.Auth.{client_transcript}
use girth.Shared.Result.{Result, ok}
use girth.Control.{Hello, TransferParams, mode_send, default_params}
use girth.Transfer.{AuthState, admit, admitted, default_limits}
use girth.Transfer.Laws.{IsAdmitted, admit-IsAdmitted}

abbrev joined : List ℕ → List ℕ → List ℕ
joined key message = key ++ message

abbrev proof : List ℕ
unfolding client_transcript
proof = 3 ∷ client_transcript (pos 1) mode_send (9 ∷ []) (pos 5000) []

abbrev hello : Hello
hello = record {
  version = pos 1;
  mode = mode_send;
  name = 9 ∷ [];
  size = pos 5000;
  block_size = pos 1400;
  rate_bps = 1000000;
  max_bps = 0;
  adaptive = true;
  alpha_bps = 0;
  crc32c = 0;
  warm_rate_bps = 0;
  warm_srtt_net_us = 0;
  warm_base_rtt_us = 0;
  encrypt = false;
  ciphers = none;
  pub_key = none;
  auth_mac = some proof;
}

abbrev params : TransferParams
params = default_params

abbrev run_params : TransferParams
run_params = record params { block_size = 1400; rate_bps = 1000000; adaptive = true }

abbrev authorizer : Option (List ℕ → List ℕ → Result (List ℕ) (List ℕ))
authorizer = some (λ mode name. ok (3 ∷ []))

abbrev identity : Option AuthState
identity = some (record { token = 3 ∷ []; client_mac = proof })

hello_admitted : admit joined authorizer default_limits params hello ≡ admitted run_params identity
unfolding admit girth.Auth.verify_client_mac client_transcript
hello_admitted = refl

admit-IsAdmitted_example : IsAdmitted joined authorizer default_limits hello run_params identity
admit-IsAdmitted_example =
    admit-IsAdmitted joined default_limits params hello authorizer run_params identity
      hello_admitted
