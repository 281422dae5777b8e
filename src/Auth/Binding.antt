-- ===== src/Auth/Binding.antt =====
-- What the transcripts of src/auth.rs bind.
use girth.Prelude.{
  ℕ, ◌^◌, ◌<◌, ◌≡◌, refl, sym, ap, ◌∙◌, true, false, List, [], ◌∷◌, ◌++◌, arith, length, take, drop,
  take_left, drop_left, subst, ◌↔◌,
}
use girth.Prelude.Int.{ℤ, as_u64, as_i64, IsI64, as_i64-as_u64, as_u64-lt}
use girth.Shared.Sets.{contains}
use girth.Protocol.Bytes.{le_bytes, get_u32, get_u64, get-le_u64, get-le_u32}
use girth.Auth.{
  client_transcript, server_transcript, domain_client, domain_server, client_mac, server_mac,
  verify_client_mac, verify_server_mac, same_bytes, same_bytes_refl, same_bytes→eq,
}

-- A prefix of known length splits off.
same_prefix :
    (xs ys us vs : List ℕ) → length xs ≡ length ys → xs ++ us ≡ ys ++ vs → (xs ≡ ys) × (us ≡ vs)
same_prefix xs ys us vs l e = (
  sym (take_left (length xs) xs us refl) ∙ ap (take (length xs)) e ∙ take_left (length xs) ys vs l,
  sym (drop_left (length xs) xs us refl) ∙ ap (drop (length xs)) e ∙ drop_left (length xs) ys vs l,
)

heads : (x y : ℕ) (xs ys : List ℕ) → x ∷ xs ≡ y ∷ ys → (x ≡ y) × (xs ≡ ys)
heads x y xs ys e = (cc, cc)

-- Two texts without a NUL that a NUL ends.
same_text :
    (xs ys us vs : List ℕ)
    → contains 0 xs ≡ false
    → contains 0 ys ≡ false
    → xs ++ (0 ∷ us) ≡ ys ++ (0 ∷ vs)
    → (xs ≡ ys) × (us ≡ vs)
same_text [] [] us vs a b e = (refl, (heads 0 0 us vs e).1)
same_text [] (y ∷ ys) us vs a b e = absurd (ground (arith, (heads 0 y us (ys ++ (0 ∷ vs)) e).0))
same_text (x ∷ xs) [] us vs a b e = absurd (ground (arith, (heads x 0 (xs ++ (0 ∷ us)) vs e).0))
same_text (x ∷ xs) (y ∷ ys) us vs a b e =
    let (h, t) = heads x y (xs ++ (0 ∷ us)) (ys ++ (0 ∷ vs)) e in
    let (p, q) = same_text xs ys us vs (ground (arith, a)) (ground (arith, b)) t in
    (λ i. h i ∷ p i, q)

same_i64 : (x y : ℤ) → IsI64 x → IsI64 y → le_bytes 8 (as_u64 x) ≡ le_bytes 8 (as_u64 y) → x ≡ y
same_i64 x y v w e = sym (back x v) ∙ ap (λ (t : List ℕ). as_i64 (get_u64 t)) e ∙ back y w
  where
    back : (z : ℤ) → IsI64 z → as_i64 (get_u64 (le_bytes 8 (as_u64 z))) ≡ z
    back z u = ap as_i64 (get-le_u64 (as_u64 z) (as_u64-lt z) []) ∙ as_i64-as_u64 z u

-- The client's transcript determines every field of the request: two requests whose mode and name hold
-- no NUL byte, and whose version and size are 64-bit integers, have the same transcript only where
-- version, mode, name, size and public key are the same.
pub client_transcript-binds :
    (version version' size size' : ℤ) (mode mode' name name' key key' : List ℕ)
    → IsI64 version × IsI64 version' × IsI64 size × IsI64 size'
    → (contains 0 mode ≡ false) × (contains 0 mode' ≡ false)
    → (contains 0 name ≡ false) × (contains 0 name' ≡ false)
    → client_transcript version mode name size key
      ≡ client_transcript version' mode' name' size' key'
    → (version ≡ version') × (mode ≡ mode') × (name ≡ name') × (size ≡ size') × (key ≡ key')
unfolding client_transcript
client_transcript-binds version version' size size' mode mode' name name' key key' (i, i', k, k')
      (m, m') (n, n') e =
    let (d, e1) = same_prefix domain_client domain_client _ _ refl e in
    let (v, e2) =
      same_prefix (le_bytes 8 (as_u64 version)) (le_bytes 8 (as_u64 version')) _ _ refl e1 in
    let (a, e3) = same_text mode mode' _ _ m m' e2 in
    let (b, e4) = same_text name name' _ _ n n' e3 in
    let (s, e5) = same_prefix (le_bytes 8 (as_u64 size)) (le_bytes 8 (as_u64 size')) _ _ refl e4 in
    (same_i64 version version' i i' v, a, b, same_i64 size size' k k' s, e5)

-- The server's transcript determines the session, and for keys of one length the server's public key
-- and the client's proof.
pub server_transcript-binds :
    (session session' : ℕ) (key key' mac mac' : List ℕ)
    → session < 2 ^ 32
    → session' < 2 ^ 32
    → length key ≡ length key'
    → server_transcript session key mac ≡ server_transcript session' key' mac'
    → (session ≡ session') × (key ≡ key') × (mac ≡ mac')
unfolding server_transcript
server_transcript-binds session session' key key' mac mac' h h' l e =
    let (d, e1) = same_prefix domain_server domain_server _ _ refl e in
    let (s, e2) = same_prefix (le_bytes 4 session) (le_bytes 4 session') _ _ refl e1 in
    let (k, e3) = same_prefix key key' mac mac' l e2 in
    (sym (get-le_u32 session h []) ∙ ap get_u32 s ∙ get-le_u32 session' h' [], k, e3)

-- Both verifications accept the proof that the other end makes of the same fields, and accept nothing
-- else: a proof that is accepted is that one.
pub verify_mac-exact :
    (hmac : List ℕ → List ℕ → List ℕ) (token : List ℕ) (version size : ℤ) (mode name key : List ℕ)
    (session : ℕ) (presented : List ℕ)
    → (verify_client_mac hmac token version mode name size key presented ≡ true
        ↔ client_mac hmac token version mode name size key ≡ presented)
      × (verify_server_mac hmac token session key mode presented ≡ true
          ↔ server_mac hmac token session key mode ≡ presented)
unfolding verify_client_mac client_mac verify_server_mac server_mac
verify_mac-exact hmac token version size mode name key session presented = (exact _, exact _)
  where
    exact : (tag : List ℕ) → (same_bytes tag presented ≡ true) ↔ (tag ≡ presented)
    exact tag = (
      same_bytes→eq tag presented,
      λ e. subst (λ t. same_bytes tag t ≡ true) e (same_bytes_refl tag),
    )
