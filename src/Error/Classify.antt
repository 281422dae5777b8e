-- ===== src/Error/Classify.antt =====
-- How a rejection text of the server becomes an error (src/error.rs).
use girth.Prelude.{◌≡◌, refl, Bool, true, false, List, ℕ, inl, inr, ◌⊎◌, ◌||◌, if◌then◌else◌}
use girth.Shared.Text.{
  text, to_ascii_lowercase, contains, Occurs, contains-present, contains-absent,
}
use girth.Error.{
  GirthError, version_mismatch, auth_denied, protocol, from_server_err, is_retryable, names_auth,
  names_missing,
}

-- A text, in any case of its letters, that names the version.
abbrev pub NamesVersion : List ℕ → Type 0
NamesVersion msg = Occurs (text "version mismatch") (to_ascii_lowercase msg)

abbrev pub NamesAuth : List ℕ → Type 0
NamesAuth msg =
    let m = to_ascii_lowercase msg in
    Occurs (text "auth") m ⊎ Occurs (text "denied") m ⊎ Occurs (text "unauthorized") m

abbrev pub NamesMissing : List ℕ → Type 0
NamesMissing msg =
    let m = to_ascii_lowercase msg in
    Occurs (text "no such file") m ⊎ Occurs (text "not found") m ⊎ Occurs (text "notfound") m

-- The classes in their order, and none of them is retryable.
pub record Classified (msg : List ℕ) (e : GirthError) : Type 0 where
  pub version : NamesVersion msg → e ≡ version_mismatch
  pub auth : ¬ NamesVersion msg → NamesAuth msg → e ≡ auth_denied
  pub missing : ¬ NamesVersion msg → ¬ NamesAuth msg → NamesMissing msg → e ≡ GirthError.not_found
  pub unknown : ¬ NamesVersion msg → ¬ NamesAuth msg → ¬ NamesMissing msg → e ≡ protocol msg
  pub terminal : is_retryable e ≡ false

or_left : (a b c : Bool) → a ≡ true → (a || b || c) ≡ true
or_left a b c e = rw e refl

or_middle : (a b c : Bool) → b ≡ true → (a || b || c) ≡ true
or_middle true b c e = refl
or_middle false b c e = rw e refl

or_right : (a b c : Bool) → c ≡ true → (a || b || c) ≡ true
or_right true b c e = refl
or_right false true c e = refl
or_right false false c e = e

or_none : (a b c : Bool) → a ≡ false → b ≡ false → c ≡ false → (a || b || c) ≡ false
or_none a b c e f g = rw (e, f, g) refl

-- One of three texts is found exactly where it occurs.
module _ (m p q r : List ℕ) where
  any_present :
      Occurs p m ⊎ Occurs q m ⊎ Occurs r m → (contains m p || contains m q || contains m r) ≡ true
  any_present (inl o) = or_left _ _ _ (contains-present m p o)
  any_present (inr (inl o)) = or_middle (contains m p) _ _ (contains-present m q o)
  any_present (inr (inr o)) = or_right (contains m p) (contains m q) _ (contains-present m r o)

  any_absent :
      ¬ (Occurs p m ⊎ Occurs q m ⊎ Occurs r m)
      → (contains m p || contains m q || contains m r) ≡ false
  any_absent h =
      or_none _ _ _ (contains-absent m p (λ o. h (inl o)))
        (contains-absent m q (λ o. h (inr (inl o)))) (contains-absent m r (λ o. h (inr (inr o))))

branches : (a b c : Bool) (msg : List ℕ) → GirthError
branches a b c msg =
    if a
    then version_mismatch
    else (if b then auth_denied else (if c then GirthError.not_found else protocol msg))

branches_terminal : (a b c : Bool) (msg : List ℕ) → is_retryable (branches a b c msg) ≡ false
unfolding branches is_retryable
branches_terminal true b c msg = refl
branches_terminal false true c msg = refl
branches_terminal false false true msg = refl
branches_terminal false false false msg = refl

-- Whatever a server's rejection says, its class is the first of version, authentication and missing
-- object that the text names, in any case of its letters; a text that names none is kept as a protocol
-- error; and no rejection is retryable.
pub from_server_err-Classified : (msg : List ℕ) → Classified msg (from_server_err msg)
unfolding from_server_err branches
from_server_err-Classified msg = record {
  version = λ v. rw (contains-present m _ v) refl;
  auth = λ v a. rw (contains-absent m _ v, any_present m _ _ _ a) refl;
  missing = λ v a o. rw (contains-absent m _ v, any_absent m _ _ _ a, any_present m _ _ _ o) refl;
  unknown = λ v a o. rw (contains-absent m _ v, any_absent m _ _ _ a, any_absent m _ _ _ o) refl;
  terminal =
      branches_terminal (contains m (text "version mismatch")) (names_auth m) (names_missing m) msg;
}
  where
    m : List ℕ
    m = to_ascii_lowercase msg
