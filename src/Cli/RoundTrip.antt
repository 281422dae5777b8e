-- ===== src/Cli/RoundTrip.antt =====
-- A command line written out, and read by `parse` (src/bin/girth.rs).
use mathlib.Core.List.{append-nil, append_assoc}
use girth.Prelude.{
  ℕ, ◌≡◌, refl, ap, ◌∙◌, Bool, true, false, List, [], ◌∷◌, ◌++◌, Option, none, some, if◌then◌else◌,
}
use girth.Shared.Float.{Float}
use girth.Shared.Result.{Result, ok, ◌>>=◌}
use girth.Shared.Text.{text}
use girth.Cli.{
  Settings, Stop, positional, bare, flag_of, is_bool, read_word, set_bare, num, start, parse_loop,
  parsed, parse,
}

module _ (f : Float) (parse_f64 : List ℕ → Option f.F64) where
  -- Words that are no flags.
  abbrev pub Plain : List (List ℕ) → Type 0
  Plain [] = Unit {0}
  Plain (w ∷ words) = (read_word w ≡ positional) × Plain words

  parse_loop-Plain :
      (words : List (List ℕ)) (s : Settings f)
      → Plain words
      → parse_loop f parse_f64 words none s ≡ ok (record s { positionals = s.positionals ++ words })
  unfolding parse_loop
  parse_loop-Plain [] s h = rw append-nil refl
  parse_loop-Plain (w ∷ words) s (e, h) =
      rw (parse_loop, e)
        (parse_loop-Plain words (record s { positionals = s.positionals ++ (w ∷ []) }) h
          ∙ ap (λ (t : List (List ℕ)). ok (record s { positionals = t }))
              (append_assoc s.positionals (w ∷ []) words))

  abbrev when : Bool → List ℕ → List (List ℕ) → List (List ℕ)
  when on w rest = if on then w ∷ rest else rest

  abbrev pub token_words : Option (List ℕ) → List (List ℕ) → List (List ℕ)
  token_words none rest = rest
  token_words (some token) rest = text "-auth" ∷ token ∷ rest

  abbrev switch_words : Bool → Bool → Bool → List (List ℕ) → List (List ℕ)
  switch_words adaptive encrypt open_server words =
      when adaptive (text "-adaptive")
        (when encrypt (text "-encrypt") (when open_server (text "-allow-unauthenticated") words))

  -- The words of a command with a rate, an address, a directory, a token and the flags without values.
  pub command_line :
      List ℕ
      → List ℕ
      → List ℕ
      → Option (List ℕ)
      → Bool
      → Bool
      → Bool
      → List (List ℕ)
      → List (List ℕ)
  command_line mbps addr dir token adaptive encrypt open_server words =
      text "-rate"
      ∷ mbps
      ∷ text "-addr"
      ∷ addr
      ∷ text "-dir"
      ∷ dir
      ∷ token_words token (switch_words adaptive encrypt open_server words)

  abbrev switched : Settings f → Bool → Bool → Bool → List (List ℕ) → Settings f
  switched s adaptive encrypt open_server words = record s {
    params = record (s.params) { adaptive = adaptive; encrypt = encrypt };
    allow_unauthenticated = open_server;
    positionals = words;
  }

  -- The settings that the words ask for.
  abbrev pub asked_for :
      f.F64 → List ℕ → List ℕ → Option (List ℕ) → Bool → Bool → Bool → List (List ℕ) → Settings f
  asked_for rate_mbps addr dir token adaptive encrypt open_server words =
      switched
        (record (start f parse_f64) {
          rate_mbps = rate_mbps;
          addr = addr;
          dir = dir;
          auth_token = token;
        })
        adaptive encrypt open_server words

  -- A flag without a value sets its field.
  when_word :
      (on : Bool) (w name : List ℕ) (rest : List (List ℕ)) (g : Bool → Settings f)
      → read_word w ≡ bare name
      → set_bare f parse_f64 name (g false) ≡ g true
      → parse_loop f parse_f64 (when on w rest) none (g false)
        ≡ parse_loop f parse_f64 rest none (g on)
  unfolding parse_loop
  when_word true w name rest g e sets =
      rw (parse_loop, e) (ap (parse_loop f parse_f64 rest none) sets)
  when_word false w name rest g e sets = refl

  -- The flags without values, and the positional arguments.
  switches :
      (s : Settings f) (adaptive encrypt open_server : Bool) (words : List (List ℕ))
      → Plain words
      → parse_loop f parse_f64
          (switch_words adaptive encrypt open_server words)
          none
          (switched s false false false [])
        ≡ ok (switched s adaptive encrypt open_server words)
  unfolding set_bare read_word is_bool
  switches s adaptive encrypt open_server words h =
      when_word adaptive (text "-adaptive") (text "adaptive") _ (λ b. switched s b false false [])
        refl refl
      ∙ when_word encrypt (text "-encrypt") (text "encrypt") _ (λ b. switched s adaptive b false [])
          refl refl
      ∙ when_word open_server (text "-allow-unauthenticated") (text "allow-unauthenticated") words
          (λ b. switched s adaptive encrypt b []) refl refl
      ∙ parse_loop-Plain words (switched s adaptive encrypt open_server []) h

  num-ok :
      {A : Type 0} (name value : List ℕ) (x : f.F64) (use_it : f.F64 → A)
      → parse_f64 value ≡ some x
      → num f parse_f64 name value use_it ≡ ok (use_it x)
  num-ok name value x use_it e = rw (num, e) refl

  rate_words :
      (rate_mbps : f.F64) (mbps : List ℕ) (rest : List (List ℕ)) (s : Settings f)
      → parse_f64 mbps ≡ some rate_mbps
      → parse_loop f parse_f64 (text "-rate" ∷ mbps ∷ rest) none s
        ≡ parse_loop f parse_f64 rest none (record s { rate_mbps = rate_mbps })
  unfolding parse_loop flag_of read_word is_bool
  rate_words rate_mbps mbps rest s e =
      ap (λ (r : Result Stop (Settings f)). r >>= λ t. parse_loop f parse_f64 rest none t)
        (num-ok (text "rate") mbps rate_mbps (λ x. record s { rate_mbps = x }) e)

  loop-command_line :
      (rate_mbps : f.F64) (mbps addr dir : List ℕ) (token : Option (List ℕ))
      (adaptive encrypt open_server : Bool) (words : List (List ℕ))
      → parse_f64 mbps ≡ some rate_mbps
      → Plain words
      → parse_loop f parse_f64
          (command_line mbps addr dir token adaptive encrypt open_server words)
          none
          (start f parse_f64)
        ≡ ok (asked_for rate_mbps addr dir token adaptive encrypt open_server words)
  unfolding parse_loop command_line flag_of read_word is_bool
  loop-command_line rate_mbps mbps addr dir none adaptive encrypt open_server words e h =
      rate_words rate_mbps mbps
        (text "-addr"
          ∷ addr
          ∷ text "-dir"
          ∷ dir
          ∷ token_words none (switch_words adaptive encrypt open_server words))
        (start f parse_f64) e
      ∙ switches (asked_for rate_mbps addr dir none false false false []) adaptive encrypt
          open_server words h
  loop-command_line rate_mbps mbps addr dir (some token) adaptive encrypt open_server words e h =
      rate_words rate_mbps mbps
        (text "-addr"
          ∷ addr
          ∷ text "-dir"
          ∷ dir
          ∷ token_words (some token) (switch_words adaptive encrypt open_server words))
        (start f parse_f64) e
      ∙ switches (asked_for rate_mbps addr dir (some token) false false false []) adaptive encrypt
          open_server words h

  -- A command line with a rate whose text parses, any address, any directory, any token or none, any of
  -- the flags without a value, and positional arguments that begin with no dash, is parsed as it says,
  -- also where the address, the directory or the token begins with a dash.
  pub parse-command_line :
      (rate_mbps : f.F64) (mbps addr dir : List ℕ) (token : Option (List ℕ))
      (adaptive encrypt open_server : Bool) (words : List (List ℕ))
      → parse_f64 mbps ≡ some rate_mbps
      → Plain words
      → parse f parse_f64 (command_line mbps addr dir token adaptive encrypt open_server words)
        ≡ ok (
            parsed f parse_f64
              (asked_for rate_mbps addr dir token adaptive encrypt open_server words))
  unfolding parse
  parse-command_line rate_mbps mbps addr dir token adaptive encrypt open_server words e h =
      rw (loop-command_line rate_mbps mbps addr dir token adaptive encrypt open_server words e h)
        refl
