-- ===== src/Auth.antt =====
-- src/auth.rs: the proofs of possession of the pre-shared key. HMAC-SHA256 is the hmac crate's, a
-- parameter here: a key and a message give the tag. Strings are their bytes.
pub mod Binding
mod Tests
use girth.Prelude.{
  ℕ, zero, suc, ◌≡◌, refl, Bool, true, false, ◌&&◌, List, [], ◌∷◌, ◌++◌, arith, ◌==◌, ==_iff,
  ==_refl, ap, ap₂, inl, inr, Bool-cases,
}
use girth.Prelude.Int.{ℤ, as_u64}
use girth.Protocol.Bytes.{le_bytes}

-- "girth-auth-client-v1" and "girth-auth-server-v1"
abbrev pub domain_client : List ℕ
domain_client =
    0x67 ∷ 0x69 ∷ 0x72 ∷ 0x74 ∷ 0x68 ∷ 0x2d ∷ 0x61 ∷ 0x75 ∷ 0x74 ∷ 0x68 ∷ 0x2d ∷ 0x63 ∷ 0x6c ∷ 0x69
    ∷ 0x65 ∷ 0x6e ∷ 0x74 ∷ 0x2d ∷ 0x76 ∷ 0x31 ∷ []

abbrev pub domain_server : List ℕ
domain_server =
    0x67 ∷ 0x69 ∷ 0x72 ∷ 0x74 ∷ 0x68 ∷ 0x2d ∷ 0x61 ∷ 0x75 ∷ 0x74 ∷ 0x68 ∷ 0x2d ∷ 0x73 ∷ 0x65 ∷ 0x72
    ∷ 0x76 ∷ 0x65 ∷ 0x72 ∷ 0x2d ∷ 0x76 ∷ 0x31 ∷ []

-- What `update` is called with, in order, for the request's fields.
unfoldable pub client_transcript : ℤ → List ℕ → List ℕ → ℤ → List ℕ → List ℕ
client_transcript version mode name size client_pub =
    domain_client
    ++ (le_bytes 8 (as_u64 version)
        ++ (mode ++ (0 ∷ (name ++ (0 ∷ (le_bytes 8 (as_u64 size) ++ client_pub))))))

unfoldable pub server_transcript : ℕ → List ℕ → List ℕ → List ℕ
server_transcript session server_pub client_mac =
    domain_server ++ (le_bytes 4 session ++ (server_pub ++ client_mac))

abbrev pub same_bytes : List ℕ → List ℕ → Bool
same_bytes [] [] = true
same_bytes [] (y ∷ ys) = false
same_bytes (x ∷ xs) [] = false
same_bytes (x ∷ xs) (y ∷ ys) = x == y && same_bytes xs ys

module _ (hmac : List ℕ → List ℕ → List ℕ) where
  unfoldable pub client_mac : List ℕ → ℤ → List ℕ → List ℕ → ℤ → List ℕ → List ℕ
  client_mac token version mode name size client_pub =
      hmac token (client_transcript version mode name size client_pub)

  unfoldable pub server_mac : List ℕ → ℕ → List ℕ → List ℕ → List ℕ
  server_mac token session server_pub cmac = hmac token (server_transcript session server_pub cmac)

  -- `verify_slice` compares the whole tag.
  unfoldable pub verify_client_mac : List ℕ → ℤ → List ℕ → List ℕ → ℤ → List ℕ → List ℕ → Bool
  verify_client_mac token version mode name size client_pub presented =
      same_bytes (hmac token (client_transcript version mode name size client_pub)) presented

  unfoldable pub verify_server_mac : List ℕ → ℕ → List ℕ → List ℕ → List ℕ → Bool
  verify_server_mac token session server_pub cmac presented =
      same_bytes (hmac token (server_transcript session server_pub cmac)) presented

pub same_bytes_refl : (xs : List ℕ) → same_bytes xs xs ≡ true
same_bytes_refl [] = refl
same_bytes_refl (x ∷ xs) = rw (==_refl x) (same_bytes_refl xs)

pub same_bytes→eq : (xs ys : List ℕ) → same_bytes xs ys ≡ true → xs ≡ ys
same_bytes→eq [] [] e = refl
same_bytes→eq [] (y ∷ ys) e = cc
same_bytes→eq (x ∷ xs) [] e = cc
same_bytes→eq (x ∷ xs) (y ∷ ys) e = elim (Bool-cases (x == y)) [
  | inl k ↦ ap₂ (λ a (t : List ℕ). a ∷ t) ((==_iff x y).0 k) (same_bytes→eq xs ys (rw k at e))
  | inr k ↦ cc (rw k at e)
]
