-- ===== src/Cli/Tests.antt =====
-- The command line at concrete arguments, with whole numbers in place of floats.
use girth.Prelude.{ℕ, ◌≡◌, refl, Bool, true, false, List, [], ◌∷◌, ◌++◌, Option, none, some}
use girth.Shared.Float.{whole}
use girth.Shared.Result.{ok, err}
use girth.Shared.Text.{text}
use girth.Control.{TransferParams, default_params}
use girth.Cli.{failed, is_bool, read_word, start, parse_loop, parsed, parse}
use girth.Cli.Main.{serves, fails, main}
use girth.Cli.Guard.{asks_open}
use girth.Cli.OpenServer.{main-asks_open}
use girth.Cli.Laws.{parse_loop-inline}
use girth.Cli.RoundTrip.{asked_for, command_line, parse-command_line}

-- Any text is the number 50.
abbrev fifty : List ℕ → Option ℕ
fifty s = some 50

parse_loop-inline_example :
    parse_loop whole fifty (text "-encrypt=false" ∷ []) none (start whole fifty)
    ≡ parse_loop whole fifty (text "-encrypt" ∷ []) none (start whole fifty)
unfolding is_bool
parse_loop-inline_example =
    parse_loop-inline whole fifty (text "encrypt") (text "false") [] (start whole fifty) refl

parse-command_line_example :
    parse whole fifty (
      command_line whole fifty
        (text "50")
        (text ":7500")
        (text "-dir")
        (some (text "-secret"))
        true
        false
        false
        (text "a.bin" ∷ []))
    ≡ ok (
        parsed whole fifty (
          asked_for whole fifty 50
            (text ":7500")
            (text "-dir")
            (some (text "-secret"))
            true
            false
            false
            (text "a.bin" ∷ [])))
unfolding read_word
parse-command_line_example =
    parse-command_line whole fifty 50 (text "50") (text ":7500") (text "-dir")
      (some (text "-secret")) true false false (text "a.bin" ∷ []) refl (refl, tt)

abbrev no_dir : List ℕ → Bool
no_dir s = false

abbrev join : List ℕ → List ℕ → List ℕ
join a b = a ++ (47 ∷ b)

abbrev default_speed : TransferParams
default_speed = record default_params {
  rate_bps = 100000000;
  max_bps = 10000000000;
  alpha_bps = 30000000;
}

runs_open :
    main no_dir join whole fifty (text "server" ∷ text "-allow-unauthenticated" ∷ [])
    ≡ serves (text ":7400") (text ".") default_speed none
unfolding main
runs_open = refl

main-asks_open_example : asks_open (text "-allow-unauthenticated" ∷ []) ≡ true
main-asks_open_example =
    main-asks_open no_dir join whole fifty (text "server") (text "-allow-unauthenticated" ∷ [])
      (text ":7400") (text ".") default_speed runs_open

closed :
    main no_dir join whole fifty (text "server" ∷ text "-addr" ∷ text "-allow-unauthenticated" ∷ [])
    ≡ fails (text "server requires -auth <token> or explicit -allow-unauthenticated") 2
unfolding main
closed = refl

-- `-h` alone is said to need a value.
help_alone : parse whole fifty (text "-h" ∷ []) ≡ err (failed (text "flag -h needs a value"))
unfolding parse
help_alone = refl
