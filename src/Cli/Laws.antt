-- ===== src/Cli/Laws.antt =====
-- Laws of the command line (src/bin/girth.rs).
use girth.Prelude.{
  ℕ, ◌≡◌, inl, inr, refl, ◌∙◌, false, List, [], ◌∷◌, ◌++◌, Option, none, some, ◌==◌, Bool-cases,
  if◌then◌else◌,
}
use girth.Shared.Float.{Float}
use girth.Transfer.Names.{has_byte}
use girth.Cli.{Settings, bare, valued, waits, is_bool, split_eq, read_word, parse_loop}

split_eq-inline :
    (name v : List ℕ) → has_byte name 61 ≡ false → split_eq (name ++ (61 ∷ v)) ≡ (name, some v)
split_eq-inline [] v e = refl
split_eq-inline (x ∷ name) v e = elim (Bool-cases (x == 61)) [
  | inl q ↦ cc (rw q at e)
  | inr q ↦ rw (q, split_eq-inline name v (rw q at e)) refl
]

split_eq-plain : (name : List ℕ) → has_byte name 61 ≡ false → split_eq name ≡ (name, none)
split_eq-plain [] e = refl
split_eq-plain (x ∷ name) e = elim (Bool-cases (x == 61)) [
  | inl q ↦ cc (rw q at e)
  | inr q ↦ rw (q, split_eq-plain name (rw q at e)) refl
]

read_inline :
    (name v : List ℕ)
    → has_byte name 61 ≡ false
    → read_word (45 ∷ (name ++ (61 ∷ v))) ≡ (if is_bool name then bare name else valued name v)
unfolding read_word
read_inline name v e = rw (split_eq-inline name v e) refl

read_plain :
    (name : List ℕ)
    → has_byte name 61 ≡ false
    → read_word (45 ∷ name) ≡ (if is_bool name then bare name else waits name)
unfolding read_word
read_plain name e = rw (split_eq-plain name e) refl

module _ (f : Float) (parse_f64 : List ℕ → Option f.F64) where
  -- A word with a value in it is the flag and the value as two words, for a flag that takes a value; for a
  -- flag that takes none, the value is ignored, whatever it says.
  pub parse_loop-inline :
      (name v : List ℕ) (rest : List (List ℕ)) (s : Settings f)
      → has_byte name 61 ≡ false
      → parse_loop f parse_f64 ((45 ∷ (name ++ (61 ∷ v))) ∷ rest) none s ≡ (
          if is_bool name
          then parse_loop f parse_f64 ((45 ∷ name) ∷ rest) none s
          else parse_loop f parse_f64 ((45 ∷ name) ∷ v ∷ rest) none s)
  unfolding parse_loop
  parse_loop-inline name v rest s e = elim (Bool-cases (is_bool name)) [
    | inl b ↦
        let i : read_word (45 ∷ (name ++ (61 ∷ v))) ≡ bare name =
          read_inline name v e ∙ rw b refl in
        let p : read_word (45 ∷ name) ≡ bare name = read_plain name e ∙ rw b refl in
        rw (parse_loop, i, p, b) refl
    | inr b ↦
        let i : read_word (45 ∷ (name ++ (61 ∷ v))) ≡ valued name v =
          read_inline name v e ∙ rw b refl in
        let p : read_word (45 ∷ name) ≡ waits name = read_plain name e ∙ rw b refl in
        rw (parse_loop, i, p, b) refl
  ]
