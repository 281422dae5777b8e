-- ===== src/Cli/OpenServer.antt =====
-- When `main` (src/bin/girth.rs) runs a server without a token.
use girth.Prelude.{
  ℕ, ◌≡◌, inl, inr, refl, Bool, true, ◌||◌, List, [], ◌∷◌, Option, none, Bool-cases, Option-cases,
}
use girth.Shared.Float.{Float}
use girth.Shared.Result.{Result, ok, err}
use girth.Shared.Text.{text}
use girth.Auth.{same_bytes}
use girth.Control.{TransferParams}
use girth.Cli.{Stop, failed, helped, Parsed, parse}
use girth.Cli.Main.{serves, serve, send, recv, dispatch, after_parse, main}
use girth.Cli.Guard.{asks_open, parse-open}

serve-open :
    (p : Parsed) (a d : List ℕ) (ps : TransferParams)
    → serve p ≡ serves a d ps none
    → p.allow_unauthenticated ≡ true
unfolding serve
serve-open p a d ps e = elim (Option-cases p.auth_token) [
  | inr (t, q) ↦ cc (rw (serve, q) at e)
  | inl q ↦ elim (Bool-cases p.allow_unauthenticated) [
    | inl b ↦ b
    | inr b ↦ cc (rw (serve, q, b) at e)
  ]
]

not_send :
    (p : Parsed) (words : List (List ℕ)) (a d : List ℕ) (ps : TransferParams)
    → send p words ≡ serves a d ps none
    → ⊥
not_send p [] a d ps e = cc
not_send p (x ∷ []) a d ps e = cc
not_send p (x ∷ y ∷ []) a d ps e = cc
not_send p (x ∷ y ∷ z ∷ words) a d ps e = cc

module _ (is_dir : List ℕ → Bool) (join : List ℕ → List ℕ → List ℕ) where
  not_recv :
      (p : Parsed) (words : List (List ℕ)) (a d : List ℕ) (ps : TransferParams)
      → recv is_dir join p words ≡ serves a d ps none
      → ⊥
  not_recv p [] a d ps e = cc
  not_recv p (x ∷ []) a d ps e = cc
  not_recv p (x ∷ y ∷ []) a d ps e = cc
  not_recv p (x ∷ y ∷ z ∷ []) a d ps e = cc
  not_recv p (x ∷ y ∷ z ∷ w ∷ words) a d ps e = cc

  dispatch-open :
      (cmd : List ℕ) (p : Parsed) (a d : List ℕ) (ps : TransferParams)
      → dispatch is_dir join cmd p ≡ serves a d ps none
      → p.allow_unauthenticated ≡ true
  dispatch-open cmd p a d ps e = elim (Bool-cases (same_bytes cmd (text "server"))) [
    | inl b ↦ serve-open p a d ps (rw (dispatch, b) at e)
    | inr b ↦ elim (Bool-cases (same_bytes cmd (text "send"))) [
      | inl c ↦ absurd (not_send p p.positionals a d ps (rw (dispatch, b, c) at e))
      | inr c ↦ elim (Bool-cases (same_bytes cmd (text "recv"))) [
        | inl r ↦ absurd (not_recv p p.positionals a d ps (rw (dispatch, b, c, r) at e))
        | inr r ↦ cc (rw (dispatch, b, c, r) at e)
      ]
    ]
  ]

  after_parse-open :
      (cmd : List ℕ) (r : Result Stop Parsed) (a d : List ℕ) (ps : TransferParams)
      → after_parse is_dir join cmd r ≡ serves a d ps none
      → (p : Parsed) × (r ≡ ok p) × (p.allow_unauthenticated ≡ true)
  after_parse-open cmd (err (failed m)) a d ps e = cc
  after_parse-open cmd (err helped) a d ps e = cc
  after_parse-open cmd (ok p) a d ps e = (p, refl, dispatch-open cmd p a d ps e)

  -- Whatever the arguments are, a server without a token runs only where one of the words behind the command
  -- is the flag `-allow-unauthenticated`.
  pub main-asks_open :
      (f : Float) (parse_f64 : List ℕ → Option f.F64) (cmd : List ℕ) (words : List (List ℕ))
      (a d : List ℕ) (ps : TransferParams)
      → main is_dir join f parse_f64 (cmd ∷ words) ≡ serves a d ps none
      → asks_open words ≡ true
  unfolding main
  main-asks_open f parse_f64 cmd words a d ps e =
      elim (Bool-cases (
        same_bytes cmd (text "-h")
        || same_bytes cmd (text "--help")
        || same_bytes cmd (text "help"))) [
          | inl b ↦ cc (rw (main, b) at e)
          | inr b ↦
              let (p, run, allowed) =
                after_parse-open cmd (parse f parse_f64 words) a d ps (rw (main, b) at e) in
              parse-open f parse_f64 words p run allowed
        ]
