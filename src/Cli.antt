-- ===== src/Cli.antt =====
-- src/bin/girth.rs: the command line, from the arguments to the transfer that runs. Numbers are parsed by the
-- standard library, and paths are looked up in the file system: both are parameters.
pub mod Main
pub mod Laws
pub mod Guard
pub mod OpenServer
pub mod RoundTrip
mod Tests
use girth.Prelude.{
  ℕ, ◌*◌, ◌-◌, ◌^◌, Bool, true, false, ◌||◌, List, [], ◌∷◌, ◌++◌, Option, none, some, ltb, ◌==◌,
  min, if◌then◌else◌,
}
use girth.Shared.Float.{Float}
use girth.Shared.Result.{Result, ok, err, ◌>>=◌}
use girth.Shared.Text.{text}
use girth.Auth.{same_bytes}
use girth.Control.{TransferParams, default_params}

-- The variables of `parse`. `report_ms` is an `i64`, of which only the positive part is read.
pub record Settings (f : Float) : Type 0 where
  pub params : TransferParams
  pub rate_mbps : f.F64
  pub max_mbps : f.F64
  pub alpha_mbps : f.F64
  pub report_ms : ℕ
  pub addr : List ℕ
  pub dir : List ℕ
  pub auth_token : Option (List ℕ)
  pub allow_unauthenticated : Bool
  pub positionals : List (List ℕ)

pub record Parsed : Type 0 where
  pub params : TransferParams
  pub addr : List ℕ
  pub dir : List ℕ
  pub auth_token : Option (List ℕ)
  pub allow_unauthenticated : Bool
  pub positionals : List (List ℕ)

-- Why `parse` does not return: an error, or `exit(0)` behind the usage text.
pub data Stop : Type 0 where
  failed : List ℕ → Stop
  helped : Stop

pub data Flag : Type 0 where
  rate max alpha adaptive encrypt auth allow_open block workers fb report addr dir procs help : Flag
  unknown : Flag

-- The names that `match name` lists.
unfoldable pub flag_of : List ℕ → Flag
flag_of name =
    if same_bytes name (text "rate")
    then rate
    else if same_bytes name (text "max")
    then max
    else if same_bytes name (text "alpha")
    then alpha
    else if same_bytes name (text "adaptive")
    then adaptive
    else if same_bytes name (text "encrypt")
    then encrypt
    else if same_bytes name (text "auth")
    then auth
    else if same_bytes name (text "allow-unauthenticated")
    then allow_open
    else if same_bytes name (text "block")
    then block
    else if same_bytes name (text "workers")
    then workers
    else if same_bytes name (text "fb")
    then fb
    else if same_bytes name (text "report")
    then report
    else if same_bytes name (text "addr")
    then addr
    else if same_bytes name (text "dir")
    then dir
    else if same_bytes name (text "procs")
    then procs
    else if same_bytes name (text "h") || same_bytes name (text "help")
    then help
    else unknown

unfoldable pub is_bool : List ℕ → Bool
is_bool name =
    same_bytes name (text "adaptive")
    || same_bytes name (text "encrypt")
    || same_bytes name (text "allow-unauthenticated")

-- `split_once('=')`: the name, and the value behind the first `=`.
abbrev pub split_eq : List ℕ → List ℕ × Option (List ℕ)
split_eq [] = ([], none)
split_eq (x ∷ s) =
    let (name, value) = split_eq s in if x == 61 then ([], some s) else (x ∷ name, value)

-- What a word of the command line is: a positional argument, a flag without a value, one with its value,
-- or one whose value is the next word.
pub data Word : Type 0 where
  positional : Word
  bare : List ℕ → Word
  valued : List ℕ → List ℕ → Word
  waits : List ℕ → Word

abbrev pub with_value : List ℕ → Option (List ℕ) → Word
with_value name none = waits name
with_value name (some v) = valued name v

unfoldable pub read_word : List ℕ → Word
unfolding is_bool
read_word [] = positional
read_word (x ∷ flag) =
    let (name, inline) = split_eq flag in
    if x == 45 then (if is_bool name then bare name else with_value name inline) else positional

module _ (f : Float) (parse_f64 : List ℕ → Option f.F64) where
  abbrev pub start : Settings f
  start = record {
    params = default_params;
    rate_mbps = f.lit 100 1;
    max_mbps = f.lit 10000 1;
    alpha_mbps = f.lit 30 1;
    report_ms = 1000;
    addr = text ":7400";
    dir = text ".";
    auth_token = none;
    allow_unauthenticated = false;
    positionals = [];
  }

  -- The closure `num`, and what is done with the number.
  abbrev pub num : {A : Type 0} → List ℕ → List ℕ → (f.F64 → A) → Result Stop A
  num name value use_it = elim (parse_f64 value) [
    | some x ↦ ok (use_it x)
    | none ↦ err (failed (text "flag -" ++ (name ++ text ": invalid number")))
  ]

  -- The assignments of the flags that take no value.
  unfoldable pub set_bare : List ℕ → Settings f → Settings f
  set_bare name s =
      if same_bytes name (text "adaptive")
      then record s { params = record (s.params) { adaptive = true } }
      else if same_bytes name (text "encrypt")
      then record s { params = record (s.params) { encrypt = true } }
      else record s { allow_unauthenticated = true }

  -- The assignments of the others; a cast of a float to an integer stops at the ends of its type.
  abbrev pub set_valued : Flag → List ℕ → List ℕ → Settings f → Result Stop (Settings f)
  set_valued rate name v s = num name v (λ x. record s { rate_mbps = x })
  set_valued max name v s = num name v (λ x. record s { max_mbps = x })
  set_valued alpha name v s = num name v (λ x. record s { alpha_mbps = x })
  set_valued adaptive name v s = ok s
  set_valued encrypt name v s = ok s
  set_valued auth name v s = ok (record s { auth_token = some v })
  set_valued allow_open name v s = ok s
  set_valued block name v s =
      num name v (λ x. record s { params = record (s.params) { block_size = f.to_u64 x } })
  set_valued workers name v s =
      num name v (λ x. record s { params = record (s.params) { read_workers = f.to_u64 x } })
  set_valued fb name v s = num name v (λ x. record s {
    params = record (s.params) { feedback_interval_us = min (f.to_u64 x) (2 ^ 32 - 1) };
  })
  set_valued report name v s =
      num name v (λ x. record s { report_ms = min (f.to_u64 x) (2 ^ 63 - 1) })
  set_valued addr name v s = ok (record s { addr = v })
  set_valued dir name v s = ok (record s { dir = v })
  set_valued procs name v s = ok s
  set_valued help name v s = err helped
  set_valued unknown name v s = err (failed (text "unknown flag -" ++ name))

  -- The loop over the words; the flag, where there is one, waits for its value.
  unfoldable pub parse_loop :
      List (List ℕ) → Option (List ℕ) → Settings f → Result Stop (Settings f)
  unfolding read_word flag_of set_bare
  parse_loop [] none s = ok s
  parse_loop [] (some name) s = err (failed (text "flag -" ++ (name ++ text " needs a value")))
  parse_loop (v ∷ words) (some name) s =
      set_valued (flag_of name) name v s >>= λ s. parse_loop words none s
  parse_loop (w ∷ words) none s = elim (read_word w) [
    | positional ↦ parse_loop words none (record s { positionals = s.positionals ++ (w ∷ []) })
    | bare name ↦ parse_loop words none (set_bare name s)
    | valued name v ↦ set_valued (flag_of name) name v s >>= λ s. parse_loop words none s
    | waits name ↦ parse_loop words (some name) s
  ]

  -- What `parse` makes of its variables at the end; 3600 seconds where the interval is not positive.
  unfoldable pub parsed : Settings f → Parsed
  parsed s = record {
    params = record (s.params) {
      rate_bps = f.to_u64 (f.mul s.rate_mbps (f.lit 1000000 1));
      max_bps = f.to_u64 (f.mul s.max_mbps (f.lit 1000000 1));
      alpha_bps = f.to_u64 (f.mul s.alpha_mbps (f.lit 1000000 1));
      report_interval = if ltb 0 s.report_ms then s.report_ms else 3600000;
    };
    addr = s.addr;
    dir = s.dir;
    auth_token = s.auth_token;
    allow_unauthenticated = s.allow_unauthenticated;
    positionals = s.positionals;
  }

  unfoldable pub parse : List (List ℕ) → Result Stop Parsed
  unfolding parse_loop parsed
  parse args = parse_loop args none start >>= λ s. ok (parsed s)
