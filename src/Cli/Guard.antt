-- ===== src/Cli/Guard.antt =====
-- When the command (src/bin/girth.rs) runs a server without a token.
use girth.Prelude.{
  ℕ, ◌≡◌, ◌⊎◌, inl, inr, refl, sym, ap, ◌∙◌, Bool, true, false, ◌||◌, List, [], ◌∷◌, Option, none,
  some, arith, ◌==◌, Bool-cases, Option-cases,
}
use girth.Shared.Float.{Float}
use girth.Shared.Result.{Result, ok, err, ◌>>=◌, >>=-succeeds}
use girth.Shared.Text.{text}
use girth.Auth.{same_bytes}
use girth.Cli.{
  Settings, Stop, Parsed, Flag, Word, positional, bare, valued, waits, flag_of, is_bool, split_eq,
  with_value, read_word, set_bare, set_valued, num, start, parse_loop, parsed, parse,
}

-- The flag `-allow-unauthenticated`, in a word of its own.
unfoldable pub is_open : Word → Bool
is_open positional = false
is_open (bare name) = same_bytes name (text "allow-unauthenticated")
is_open (valued name v) = false
is_open (waits name) = false

abbrev pub asks_open : List (List ℕ) → Bool
asks_open [] = false
asks_open (w ∷ words) = is_open (read_word w) || asks_open words

with_value-bare :
    (name : List ℕ) (o : Option (List ℕ)) (n : List ℕ) → with_value name o ≡ bare n → ⊥
with_value-bare name none n e = cc
with_value-bare name (some v) n e = cc

abbrev name_of : Word → List ℕ
name_of (bare n) = n
name_of w = []

-- Only a Boolean flag is a bare word.
bare-is_bool : (w n : List ℕ) → read_word w ≡ bare n → is_bool n ≡ true
unfolding read_word
bare-is_bool [] n e = cc
bare-is_bool (x ∷ flag) n e = elim (Bool-cases (x == 45)) [
  | inr q ↦ cc (rw q at e)
  | inl q ↦ elim (Bool-cases (is_bool (split_eq flag).0)) [
    | inl b ↦
        let same : bare (split_eq flag).0 ≡ bare n = rw (q, b) at e in
        ap is_bool (sym (ap name_of same)) ∙ b
    | inr b ↦ absurd (with_value-bare (split_eq flag).0 (split_eq flag).1 n (rw (q, b) at e))
  ]
]

module _ (f : Float) (parse_f64 : List ℕ → Option f.F64) where
  num-open :
      (name v : List ℕ) (g : f.F64 → Settings f) (s s' : Settings f)
      → ((x : f.F64) → (g x).allow_unauthenticated ≡ s.allow_unauthenticated)
      → num f parse_f64 name v g ≡ ok s'
      → s'.allow_unauthenticated ≡ s.allow_unauthenticated
  num-open name v g s s' same e = elim (Option-cases (parse_f64 v)) [
    | inl q ↦ cc (rw (num, q) at e)
    | inr (x, q) ↦ let got : ok (g x) ≡ ok s' = rw (num, q) at e in sym (ap allowed got) ∙ same x
  ]
    where
      allowed : Result Stop (Settings f) → Bool
      allowed (ok t) = t.allow_unauthenticated
      allowed (err t) = false

  set_valued-open :
      (g : Flag) (name v : List ℕ) (s s' : Settings f)
      → set_valued f parse_f64 g name v s ≡ ok s'
      → s'.allow_unauthenticated ≡ s.allow_unauthenticated
  set_valued-open Flag.rate name v s s' e = num-open name v _ s s' (λ x. refl) e
  set_valued-open Flag.max name v s s' e = num-open name v _ s s' (λ x. refl) e
  set_valued-open Flag.alpha name v s s' e = num-open name v _ s s' (λ x. refl) e
  set_valued-open Flag.adaptive name v s s' e = cc
  set_valued-open Flag.encrypt name v s s' e = cc
  set_valued-open Flag.auth name v s s' e = cc
  set_valued-open Flag.allow_open name v s s' e = cc
  set_valued-open Flag.block name v s s' e = num-open name v _ s s' (λ x. refl) e
  set_valued-open Flag.workers name v s s' e = num-open name v _ s s' (λ x. refl) e
  set_valued-open Flag.fb name v s s' e = num-open name v _ s s' (λ x. refl) e
  set_valued-open Flag.report name v s s' e = num-open name v _ s s' (λ x. refl) e
  set_valued-open Flag.addr name v s s' e = cc
  set_valued-open Flag.dir name v s s' e = cc
  set_valued-open Flag.procs name v s s' e = cc
  set_valued-open Flag.help name v s s' e = cc
  set_valued-open Flag.unknown name v s s' e = cc

  same_bytes-open :
      (name : List ℕ) (s : Settings f)
      → is_bool name ≡ true
      → (set_bare f parse_f64 name s).allow_unauthenticated ≡ true
      → (s.allow_unauthenticated ≡ true) ⊎ (same_bytes name (text "allow-unauthenticated") ≡ true)
  unfolding is_bool set_bare
  same_bytes-open name s b e = elim (Bool-cases (same_bytes name (text "adaptive"))) [
    | inl q ↦ inl (rw q at e)
    | inr q ↦ elim (Bool-cases (same_bytes name (text "encrypt"))) [
      | inl t ↦ inl (rw (q, t) at e)
      | inr t ↦ inr (rw (q, t) at b)
    ]
  ]

  -- What the loop promises of some words: it allows an open server only where it was allowed, or for a
  -- word that says so.
  abbrev Opens : List (List ℕ) → Type 0
  Opens words =
      (o : Option (List ℕ)) (s s' : Settings f)
      → parse_loop f parse_f64 words o s ≡ ok s'
      → s'.allow_unauthenticated ≡ true
      → (s.allow_unauthenticated ≡ true) ⊎ (asks_open words ≡ true)

  valued-open :
      (g : Flag) (name v : List ℕ) (words : List (List ℕ)) (s s' : Settings f)
      → Opens words
      → (set_valued f parse_f64 g name v s >>= λ s. parse_loop f parse_f64 words none s) ≡ ok s'
      → s'.allow_unauthenticated ≡ true
      → (s.allow_unauthenticated ≡ true) ⊎ (asks_open words ≡ true)
  valued-open g name v words s s' more e a =
      let (t, set, e') = >>=-succeeds _ (set_valued f parse_f64 g name v s) e in
      elim (more none t s' e' a) [
        | inl b ↦ inl (sym (set_valued-open g name v s t set) ∙ b)
        | inr b ↦ inr b
      ]

  word-open :
      (w : List ℕ) (words : List (List ℕ)) (r : Word) (s s' : Settings f)
      → Opens words
      → read_word w ≡ r
      → parse_loop f parse_f64 (w ∷ words) none s ≡ ok s'
      → s'.allow_unauthenticated ≡ true
      → (s.allow_unauthenticated ≡ true) ⊎ (asks_open (w ∷ words) ≡ true)
  unfolding parse_loop is_open
  word-open w words positional s s' more q e a = elim (more none _ s' (rw (parse_loop, q) at e) a) [
    | inl b ↦ inl b
    | inr b ↦ inr (ground (arith, b))
  ]
  word-open w words (bare name) s s' more q e a =
      elim (more none (set_bare f parse_f64 name s) s' (rw (parse_loop, q) at e) a) [
        | inl b ↦ elim (same_bytes-open name s (bare-is_bool w name q) b) [
          | inl c ↦ inl c
          | inr c ↦ inr (rw (q, c) refl)
        ]
        | inr b ↦ inr (ground (arith, b))
      ]
  word-open w words (valued name v) s s' more q e a =
      elim (valued-open (flag_of name) name v words s s' more (rw (parse_loop, q) at e) a) [
        | inl b ↦ inl b
        | inr b ↦ inr (ground (arith, b))
      ]
  word-open w words (waits name) s s' more q e a =
      elim (more (some name) s s' (rw (parse_loop, q) at e) a) [
        | inl b ↦ inl b
        | inr b ↦ inr (ground (arith, b))
      ]

  parse_loop-open : (words : List (List ℕ)) → Opens words
  unfolding parse_loop
  parse_loop-open [] none s s' e a = inl (cc (e, a))
  parse_loop-open [] (some name) s s' e a = cc
  parse_loop-open (v ∷ words) (some name) s s' e a =
      elim (valued-open (flag_of name) name v words s s' (parse_loop-open words) e a) [
        | inl b ↦ inl b
        | inr b ↦ inr (ground (arith, b))
      ]
  parse_loop-open (w ∷ words) none s s' e a =
      word-open w words (read_word w) s s' (parse_loop-open words) refl e a

  pub parse-open :
      (words : List (List ℕ)) (p : Parsed)
      → parse f parse_f64 words ≡ ok p
      → p.allow_unauthenticated ≡ true
      → asks_open words ≡ true
  unfolding parse parsed
  parse-open words p e a =
      let (s, run, same) =
        >>=-succeeds _ (parse_loop f parse_f64 words none (start f parse_f64)) e in
      elim (parse_loop-open words none (start f parse_f64) s run (ap open_in same ∙ a)) [
        | inl b ↦ cc
        | inr b ↦ b
      ]
    where
      open_in : Result Stop Parsed → Bool
      open_in (ok t) = t.allow_unauthenticated
      open_in (err t) = false
