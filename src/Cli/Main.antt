-- ===== src/Cli/Main.antt =====
-- src/bin/girth.rs: `main`, up to the transfer that it runs, with the exit code where it ends before one.
use girth.Prelude.{ℕ, Bool, not, ◌||◌, List, [], ◌∷◌, Option, none, some, if◌then◌else◌}
use girth.Shared.Float.{Float}
use girth.Shared.Result.{Result, ok, err}
use girth.Shared.Text.{text}
use girth.Auth.{same_bytes}
use girth.Control.{TransferParams}
use girth.Transfer.Names.{basename}
use girth.Cli.{Stop, failed, helped, Parsed, parse}

-- What the command runs, or that it ends at once: with the usage text, or with an error, and an exit code.
pub data Action : Type 0 where
  shows_usage : ℕ → Action
  fails : List ℕ → ℕ → Action
  serves : List ℕ → List ℕ → TransferParams → Option (List ℕ) → Action
  sends : List ℕ → List ℕ → List ℕ → TransferParams → Option (List ℕ) → Action
  receives : List ℕ → List ℕ → List ℕ → TransferParams → Option (List ℕ) → Action

-- `server`: the address, the directory, and the token that its clients prove, if any.
unfoldable pub serve : Parsed → Action
serve p = elim p.auth_token [
  | some token ↦ serves p.addr p.dir p.params (some token)
  | none ↦
      if not p.allow_unauthenticated
      then fails (text "server requires -auth <token> or explicit -allow-unauthenticated") 2
      else serves p.addr p.dir p.params none
]

-- `send`: the address, the file, and the name that it is sent under.
abbrev pub send : Parsed → List (List ℕ) → Action
send p (file ∷ addr ∷ []) = sends addr file (basename file) p.params p.auth_token
send p words = fails (text "usage: girth send [flags] <file> <host:port>") 2

module _ (is_dir : List ℕ → Bool) (join : List ℕ → List ℕ → List ℕ) where
  -- Where `recv` writes: into a directory, under the last part of the name.
  abbrev pub output : List ℕ → List ℕ → List ℕ
  output [] name = join [] (basename name)
  output (x ∷ out) name = if is_dir (x ∷ out) then join (x ∷ out) (basename name) else x ∷ out

  -- `recv`: the address, the name, and the file.
  abbrev pub recv : Parsed → List (List ℕ) → Action
  recv p (addr ∷ name ∷ out ∷ []) = receives addr name (output out name) p.params p.auth_token
  recv p words = fails (text "usage: girth recv [flags] <host:port> <name> <out>") 2

  abbrev pub dispatch : List ℕ → Parsed → Action
  dispatch cmd p =
      if same_bytes cmd (text "server")
      then serve p
      else if same_bytes cmd (text "send")
      then send p p.positionals
      else if same_bytes cmd (text "recv")
      then recv p p.positionals
      else shows_usage 2

  abbrev pub after_parse : List ℕ → Result Stop Parsed → Action
  after_parse cmd (err (failed message)) = fails message 2
  after_parse cmd (err helped) = shows_usage 0
  after_parse cmd (ok p) = dispatch cmd p

  -- The arguments behind the program's name.
  unfoldable pub main : (f : Float) → (List ℕ → Option f.F64) → List (List ℕ) → Action
  unfolding serve parse
  main f parse_f64 [] = shows_usage 2
  main f parse_f64 (cmd ∷ rest) =
      if same_bytes cmd (text "-h")
        || same_bytes cmd (text "--help")
        || same_bytes cmd (text "help")
      then shows_usage 0
      else after_parse cmd (parse f parse_f64 rest)
