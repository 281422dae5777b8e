-- ===== src/Transfer/Names/Laws.antt =====
-- What the server takes for an object's name (src/transfer.rs).
use girth.Prelude.{
  ℕ, ◌≡◌, refl, sym, subst, ◌∙◌, ◌≢◌, Bool, true, false, ◌||◌, List, [], ◌∷◌, ◌++◌, ◌==◌, ==_refl,
  Bool-cases, inl, inr,
}
use girth.Shared.Result.{Result, ok}
use girth.Shared.Text.{text}
use girth.Error.{IoError}
use girth.Transfer.Names.{basename, served_object_name, has_byte, bad_name, is_nil, is_dot, is_dots}

-- A name with which the server's directory joins to an entry of its own.
pub record IsPlain (b : List ℕ) : Type 0 where
  pub not_empty : b ≢ []
  pub not_dot : b ≢ text "."
  pub not_dots : b ≢ text ".."
  pub no_slash : (before behind : List ℕ) → b ≢ before ++ (47 ∷ behind)
  pub no_backslash : (before behind : List ℕ) → b ≢ before ++ (92 ∷ behind)

has_byte-append : (before behind : List ℕ) (c : ℕ) → has_byte (before ++ (c ∷ behind)) c ≡ true
has_byte-append [] behind c = rw (==_refl c) refl
has_byte-append (x ∷ before) behind c = either (x == c) (has_byte-append before behind c)
  where
    either : (a : Bool) {b : Bool} → b ≡ true → (a || b) ≡ true
    either true e = refl
    either false e = e

no : true ≢ false
no e = cc

lacks_byte :
    (b : List ℕ) (c : ℕ)
    → has_byte b c ≡ false
    → (before behind : List ℕ) → b ≢ before ++ (c ∷ behind)
lacks_byte b c h before behind e =
    no (sym (subst (λ t. has_byte t c ≡ true) (sym e) (has_byte-append before behind c)) ∙ h)

right : (a : Bool) {b : Bool} → (a || b) ≡ false → b ≡ false
right true e = cc
right false e = e

left : (a b : Bool) → (a || b) ≡ false → a ≡ false
left true b e = cc
left false b e = refl

plain : (o : List ℕ) → bad_name o ≡ false → IsPlain o
plain o k = record {
  not_empty = λ q. no (sym (subst (λ t. bad_name t ≡ true) (sym q) refl) ∙ k);
  not_dot = λ q. no (sym (subst (λ t. bad_name t ≡ true) (sym q) refl) ∙ k);
  not_dots = λ q. no (sym (subst (λ t. bad_name t ≡ true) (sym q) refl) ∙ k);
  no_slash = lacks_byte o 47 (right (dots || is_dots o) (left (dots || is_dots o || slash) _ k));
  no_backslash = lacks_byte o 92 (right (dots || is_dots o || slash) k);
}
  where
    dots : Bool
    dots = is_nil o || is_dot o

    slash : Bool
    slash = has_byte o 47

-- Whatever path a client names, the server serves an object, in the client's spelling of its last part, in
-- its own directory or answers with an error: the name is not empty, no dot directory, and has neither a
-- slash nor a backslash.
pub served_object_name-IsPlain :
    (name b : List ℕ) → served_object_name name ≡ ok b → (b ≡ basename name) × IsPlain b
unfolding served_object_name
served_object_name-IsPlain name b e = elim (Bool-cases (bad_name (basename name))) [
  | inl k ↦ cc (rw k at e)
  | inr k ↦ go (basename name) k (rw k at e)
]
  where
    go :
        (o : List ℕ)
        → bad_name o ≡ false
        → ◌≡◌ {A = Result IoError (List ℕ)} (ok o) (ok b)
        → (b ≡ o) × IsPlain b
    go o k e = let same : o ≡ b = cc e in (sym same, subst IsPlain same (plain o k))
