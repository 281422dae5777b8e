-- ===== src/Transfer/Laws.antt =====
-- What the server admits (src/transfer.rs).
use girth.Prelude.{
  ℕ, ◌≤◌, ◌<◌, ◌≡◌, ◌⊎◌, inl, inr, refl, sym, ap, subst, ◌∙◌, ==_iff, Bool, true, false, not, ◌&&◌,
  ◌||◌, List, [], ◌∷◌, Option, none, some, arith, ltb, Bool-cases, Option-cases,
}
use girth.Prelude.Int.{ℤ, pos, negsuc}
use girth.Auth.{same_bytes, same_bytes→eq, verify_client_mac}
use girth.Shared.Result.{Result, ok, err}
use girth.Control.{Hello, TransferParams, mode_send, mode_recv, bytes_or_none, magnitude}
use girth.Transfer.{
  ServerLimits, Refusal, AuthState, Admission, admitted, same_version, validate_hello_limits,
  limit_tests, first_refusal, with_hello, check_proof, admit, negative, max_warm_rtt_us,
}

-- A hello within the server's limits.
pub record InLimits (h : Hello) (l : ServerLimits) : Type 0 where
  pub mode_known : (h.mode ≡ mode_send) ⊎ (h.mode ≡ mode_recv)
  pub size_sign : negative h.size ≡ false
  pub size_max : h.mode ≡ mode_send → magnitude h.size ≤ l.max_object_size
  pub block_pos : 0 < magnitude h.block_size
  pub block_min : l.min_block_size ≤ magnitude h.block_size
  pub block_max : magnitude h.block_size ≤ l.max_block_size
  pub rate_max : h.rate_bps ≤ l.max_rate_bps
  pub cap_max : h.max_bps ≤ l.max_rate_bps
  pub warm_max : h.warm_rate_bps ≤ l.max_rate_bps
  pub srtt_max : h.warm_srtt_net_us ≤ max_warm_rtt_us
  pub base_max : h.warm_base_rtt_us ≤ max_warm_rtt_us
  pub base_le :
      0 < h.warm_srtt_net_us → 0 < h.warm_base_rtt_us → h.warm_base_rtt_us ≤ h.warm_srtt_net_us
  pub alpha_max : h.alpha_bps ≤ l.max_alpha_bps
  pub rate_le : 0 < h.max_bps → h.rate_bps ≤ h.max_bps

-- Every test fails where none refuses.
abbrev AllPass : List (Bool × Refusal) → Type 0
AllPass [] = Unit {0}
AllPass ((t, e) ∷ rest) = (t ≡ false) × AllPass rest

passed : (tests : List (Bool × Refusal)) → first_refusal tests ≡ none → AllPass tests
unfolding first_refusal
passed [] e = tt
passed ((true, r) ∷ rest) e = cc
passed ((false, r) ∷ rest) e = (refl, passed rest e)

either : (a b : Bool) → not (a || b) ≡ false → (a ≡ true) ⊎ (b ≡ true)
either true b h = inl refl
either false true h = inr refl
either false false h = cc

send_size :
    (h : Hello) (n m : ℕ)
    → (same_bytes h.mode mode_send && ltb m n) ≡ false
    → h.mode ≡ mode_send
    → n ≤ m
send_size h n m e k = ground (arith, e, rw k at e)

-- A hello that passes the validation is within every limit.
pub validate_hello_limits-InLimits :
    (h : Hello) (l : ServerLimits) → validate_hello_limits h l ≡ none → InLimits h l
unfolding validate_hello_limits limit_tests
validate_hello_limits-InLimits h l none_refuses =
    let (m, (z, (o, (b, (r, (t, (c, (w, (s, (x, (a, (q, _)))))))))))) =
      passed (limit_tests h l) none_refuses in
    record {
      mode_known = elim (either _ _ m) [
        | inl p ↦ inl (same_bytes→eq h.mode mode_send p)
        | inr p ↦ inr (same_bytes→eq h.mode mode_recv p)
      ];
      size_sign = z;
      size_max = send_size h _ _ o;
      block_pos = ground (arith, b);
      block_min = ground (arith, r);
      block_max = ground (arith, r);
      rate_max = ground (arith, t);
      cap_max = ground (arith, c);
      warm_max = ground (arith, w);
      srtt_max = ground (arith, s);
      base_max = ground (arith, s);
      base_le = λ i j. ground (arith, x);
      alpha_max = ground (arith, a);
      rate_le = λ i. ground (arith, q);
    }

-- What an admission of a transfer means: the hello has the server's version and is within its limits,
-- the transfer runs with the hello's block size, and behind an authorizer the proof fits the token that
-- the authorizer gave for the mode and the name.
pub record IsAdmitted (hmac : List ℕ → List ℕ → List ℕ)
    (authorizer : Option (List ℕ → List ℕ → Result (List ℕ) (List ℕ))) (l : ServerLimits)
    (h : Hello) (p : TransferParams) (identity : Option AuthState) : Type 0 where
  pub version_same : h.version ≡ pos 1
  pub limits : InLimits h l
  pub block_size_same : p.block_size ≡ magnitude h.block_size
  pub no_identity : authorizer ≡ none → identity ≡ none
  pub proven :
      (authz : List ℕ → List ℕ → Result (List ℕ) (List ℕ))
      → authorizer ≡ some authz
      → (token presented : List ℕ) × (authz h.mode h.name ≡ ok token)
        × (h.auth_mac ≡ some presented)
        × (verify_client_mac hmac token h.version h.mode h.name h.size
              (bytes_or_none h.pub_key)
              presented
            ≡ true)
        × (identity ≡ some (record { token = token; client_mac = presented }))

pub some_lem : {A : Type 0} {a b : A} → some a ≡ some b → a ≡ b
some_lem e = cc

same_version_lem : (v : ℤ) → same_version v ≡ true → v ≡ pos 1
same_version_lem (pos n) e = ap pos ((==_iff n 1).0 e)
same_version_lem (negsuc n) e = cc

module _ (hmac : List ℕ → List ℕ → List ℕ) (l : ServerLimits) (params : TransferParams)
    (h : Hello) where
  abbrev Proof : Result (List ℕ) (List ℕ) → Option AuthState → Type 0
  Proof answer identity =
      (token presented : List ℕ) × (answer ≡ ok token)
      × (h.auth_mac ≡ some presented)
      × (verify_client_mac hmac token h.version h.mode h.name h.size (bytes_or_none h.pub_key)
            presented
          ≡ true)
      × (identity ≡ some (record { token = token; client_mac = presented }))

  check_proof_lem :
      (answer : Result (List ℕ) (List ℕ)) (q p : TransferParams) (identity : Option AuthState)
      → check_proof hmac answer h q ≡ admitted p identity
      → (p ≡ q) × Proof answer identity
  unfolding check_proof
  check_proof_lem (err reason) q p identity e = cc
  check_proof_lem (ok token) q p identity e = elim (Option-cases h.auth_mac) [
    | inl m ↦ cc (rw m at e)
    | inr (presented, m) ↦
        elim (Bool-cases (
          verify_client_mac hmac token h.version h.mode h.name h.size (bytes_or_none h.pub_key)
            presented)) [
              | inr k ↦ cc (rw (m, k) at e)
              | inl k ↦ (cc (rw (m, k) at e), (token, presented, refl, m, k, cc (rw (m, k) at e)))
            ]
  ]

  block : (p : TransferParams) → p ≡ with_hello params h → p.block_size ≡ magnitude h.block_size
  unfolding with_hello
  block p q = ap (λ (t : TransferParams). t.block_size) q

  -- Every hello that the server admits has its version and is within its limits, runs with the block
  -- size that it asks for, and behind an authorizer carries a proof that fits the authorizer's token.
  pub admit-IsAdmitted :
      (authorizer : Option (List ℕ → List ℕ → Result (List ℕ) (List ℕ))) (p : TransferParams)
      (identity : Option AuthState)
      → admit hmac authorizer l params h ≡ admitted p identity
      → IsAdmitted hmac authorizer l h p identity
  unfolding admit with_hello
  admit-IsAdmitted authorizer p identity e = elim (Bool-cases (same_version h.version)) [
    | inr v ↦ cc (rw v at e)
    | inl v ↦ elim (Option-cases (validate_hello_limits h l)) [
      | inr (r, k) ↦ cc (rw (v, k) at e)
      | inl k ↦ go authorizer v k (rw (v, k) at e)
    ]
  ]
    where
      go :
          (authorizer : Option (List ℕ → List ℕ → Result (List ℕ) (List ℕ)))
          → same_version h.version ≡ true
          → validate_hello_limits h l ≡ none
          → (elim authorizer as (λ _. Admission) [
            | none ↦ admitted (with_hello params h) none
            | some authz ↦ check_proof hmac (authz h.mode h.name) h (with_hello params h)
          ])
            ≡ admitted p identity
          → IsAdmitted hmac authorizer l h p identity
      go none v k e = record {
        version_same = same_version_lem h.version v;
        limits = validate_hello_limits-InLimits h l k;
        block_size_same = block p (cc e);
        no_identity = λ x. cc e;
        proven = λ authz x. cc;
      }
      go (some authz) v k e =
          let (same, (token, presented, a, b, c, d)) =
            check_proof_lem (authz h.mode h.name) (with_hello params h) p identity e in
          record {
            version_same = same_version_lem h.version v;
            limits = validate_hello_limits-InLimits h l k;
            block_size_same = block p same;
            no_identity = λ x. cc;
            proven = λ other x.
                (token, presented, subst (λ f. f h.mode h.name ≡ ok token) (some_lem x) a, b, c, d);
          }

-- The identity of an admitted hello keeps the hello's proof.
pub admitted_mac :
    (hmac : List ℕ → List ℕ → List ℕ)
    (authorizer : Option (List ℕ → List ℕ → Result (List ℕ) (List ℕ))) (l : ServerLimits)
    (h : Hello) (p : TransferParams) (identity : Option AuthState)
    → IsAdmitted hmac authorizer l h p identity
    → (x : AuthState) → identity ≡ some x
    → h.auth_mac ≡ some x.client_mac
admitted_mac hmac authorizer l h p identity v x e = elim (Option-cases authorizer) [
  | inl a ↦ cc (v.no_identity a, e)
  | inr (authz, a) ↦
      let (token, presented, _, m, _, same) = v.proven authz a in
      m ∙ ap (λ (t : AuthState). some t.client_mac) (some_lem (sym same ∙ e))
]
