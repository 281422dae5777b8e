-- ===== src/Control/Framing.antt =====
-- src/control.rs: `write_json` and `read_json`, over a connection as an interface.
use mathlib.Core.List.{append-nil}
use girth.Prelude.{
  ℕ, ◌%◌, ◌^◌, ◌≤◌, ◌<◌, ◌≡◌, refl, sym, ap, ◌∙◌, List, [], ◌++◌, length, take, drop, take_left,
  drop_left, ltb, le→ltb, lt→ltb, if◌then◌else◌, arith, length-append,
}
use girth.Io.Crc.{take_all}
use girth.Protocol.Bytes.{le_bytes, get_u32, length-le_bytes}
use girth.Shared.Result.{Result, ok, err, ◌>>=◌, map_err}
use girth.Shared.Text.{text, show_u64}
use girth.Error.{IoError, other_error}

-- What the two functions use of a `TcpStream`, over its state.
pub record Connection (S : Type 0) : Type 0 where
  pub set_write_timeout : ℕ → S → Result IoError S
  pub set_read_timeout : ℕ → S → Result IoError S
  pub write_all : List ℕ → S → Result IoError S
  pub flush : S → Result IoError S
  pub read_exact : ℕ → S → Result IoError (List ℕ × S)

-- serde_json's `to_vec` and `from_slice` at a type, whose errors are texts.
pub record Json (T : Type 0) : Type 0 where
  pub to_vec : T → Result (List ℕ) (List ℕ)
  pub from_slice : List ℕ → Result (List ℕ) T

module _ {S T : Type 0} (c : Connection S) (json : Json T) where
  unfoldable pub write_json : T → S → Result IoError S
  write_json v s = c.set_write_timeout 30 s >>= λ s. map_err other_error (json.to_vec v) >>= λ b.
      c.write_all (le_bytes 4 (length b % 2 ^ 32)) s >>= λ s. c.write_all b s >>= λ s. c.flush s

  abbrev pub too_large : ℕ → IoError
  too_large n = other_error (text "control message too large: " ++ show_u64 n)

  unfoldable pub read_json : S → Result IoError (T × S)
  read_json s = c.set_read_timeout 120 s >>= λ s. c.read_exact 4 s >>= λ head.
      let n = get_u32 head.0 in
      let rest = c.read_exact n head.1 >>= λ body.
      map_err other_error (json.from_slice body.0) >>= λ v. ok (v, body.1) in
      if ltb (2 ^ 20) n then err (too_large n) else rest

-- A connection that takes every write and gives the bytes back in order: `pending` are those that are
-- not read.
pub record IsPipe {S : Type 0} (c : Connection S) : Type 0 where
  pub pending : S → List ℕ
  pub write_timeout :
      (n : ℕ) (s : S) → (s' : S) × (c.set_write_timeout n s ≡ ok s') × (pending s' ≡ pending s)
  pub read_timeout :
      (n : ℕ) (s : S) → (s' : S) × (c.set_read_timeout n s ≡ ok s') × (pending s' ≡ pending s)
  pub writes :
      (b : List ℕ) (s : S) → (s' : S) × (c.write_all b s ≡ ok s') × (pending s' ≡ pending s ++ b)
  pub flushes : (s : S) → (s' : S) × (c.flush s ≡ ok s') × (pending s' ≡ pending s)
  pub reads :
      (n : ℕ) (s : S)
      → n ≤ length (pending s)
      → (s' : S) × (c.read_exact n s ≡ ok (take n (pending s), s'))
        × (pending s' ≡ drop n (pending s))

module _ {S T : Type 0} (c : Connection S) (json : Json T) (v : IsPipe c) where
  abbrev frame : List ℕ → List ℕ
  frame b = le_bytes 4 (length b) ++ b

  -- A message is written behind what is pending.
  write_json-frames :
      (x : T) (b : List ℕ) (s : S)
      → json.to_vec x ≡ ok b
      → length b < 2 ^ 32
      → v.pending s ≡ []
      → (s' : S) × (write_json c json x s ≡ ok s') × (v.pending s' ≡ frame b)
  unfolding write_json
  write_json-frames x b s e h z =
      let (s1, e1, p1) = v.write_timeout 30 s in
      let (s2, e2, p2) = v.writes (le_bytes 4 (length b % 2 ^ 32)) s1 in
      let (s3, e3, p3) = v.writes b s2 in
      let (s4, e4, p4) = v.flushes s3 in
      let small : length b % 2 ^ 32 ≡ length b = omega arith in
      let q : v.pending s2 ≡ le_bytes 4 (length b) = p2 ∙ rw (p1, z, small) refl in
      (s4, rw (e1, e, e2, e3) e4, p4 ∙ p3 ∙ ap (λ t. t ++ b) q)

  -- The reader has the length, with the body left to read.
  read_head :
      (b : List ℕ) (s : S)
      → length b < 2 ^ 32
      → v.pending s ≡ frame b
      → (s' s'' : S) × (c.set_read_timeout 120 s ≡ ok s')
        × (c.read_exact 4 s' ≡ ok (le_bytes 4 (length b), s''))
        × (v.pending s'' ≡ b)
  read_head b s h p =
      let (s1, e1, p1) = v.read_timeout 120 s in
      let room : 4 ≤ length (v.pending s1) =
        rw (p1, p, length-append (le_bytes 4 (length b)) b, length-le_bytes 4 (length b))
          (omega arith) in
      let (s2, e2, p2) = v.reads 4 s1 room in
      (
        s1,
        s2,
        e1,
        e2
            ∙ ap (λ t. ok (t, s2))
                (ap (take 4) (p1 ∙ p) ∙ take_left 4 (le_bytes 4 (length b)) b refl),
        p2 ∙ ap (drop 4) (p1 ∙ p) ∙ drop_left 4 (le_bytes 4 (length b)) b refl,
      )

  read_json-frames :
      (x : T) (b : List ℕ) (s : S)
      → json.from_slice b ≡ ok x
      → length b ≤ 2 ^ 20
      → v.pending s ≡ frame b
      → (s' : S) × (read_json c json s ≡ ok (x, s')) × (v.pending s' ≡ [])
  unfolding read_json
  read_json-frames x b s e h p =
      let (s1, s2, e1, e2, p2) = read_head b s (omega arith) p in
      let n : get_u32 (le_bytes 4 (length b)) ≡ length b = omega (arith, h) in
      let (s3, e3, p3) = v.reads (length b) s2 (rw p2 (omega arith)) in
      let whole : take (length b) (v.pending s2) ≡ b =
        ap (take (length b)) p2 ∙ take_all (length b) b (omega arith) in
      let none_left : drop (length b) b ≡ [] =
        ap (drop (length b)) (sym (append-nil b)) ∙ drop_left (length b) b [] refl in
      (
        s3,
        rw (e1, e2, n, le→ltb (2 ^ 20) (length b) h, e3, whole, e) refl,
        p3 ∙ ap (drop (length b)) p2 ∙ none_left,
      )

  -- A message whose text has at most 2 ^ 20 bytes, written on a connection with nothing pending, is read
  -- as it was written, and nothing is left.
  pub read-write_json :
      (x : T) (b : List ℕ) (s : S)
      → json.to_vec x ≡ ok b
      → json.from_slice b ≡ ok x
      → length b ≤ 2 ^ 20
      → v.pending s ≡ []
      → (written rest : S) × (write_json c json x s ≡ ok written)
        × (read_json c json written ≡ ok (x, rest))
        × (v.pending rest ≡ [])
  read-write_json x b s e d h z =
      let (s1, e1, p1) = write_json-frames x b s e (omega arith) z in
      let (s2, e2, p2) = read_json-frames x b s1 d h p1 in (s1, s2, e1, e2, p2)

  -- The writer lets a longer message pass, and the reader refuses it.
  pub read_json_too_large :
      (x : T) (b : List ℕ) (s : S)
      → json.to_vec x ≡ ok b
      → 2 ^ 20 < length b
      → length b < 2 ^ 32
      → v.pending s ≡ []
      → (written : S) × (write_json c json x s ≡ ok written)
        × (read_json c json written ≡ err (too_large c json (length b)))
  unfolding read_json
  read_json_too_large x b s e large h z =
      let (s1, e1, p1) = write_json-frames x b s e h z in
      let (s2, s3, e2, e3, p3) = read_head b s1 h p1 in
      let n : get_u32 (le_bytes 4 (length b)) ≡ length b = omega (arith, h) in
      (s1, e1, rw (e2, e3, n, lt→ltb (2 ^ 20) (length b) large) refl)
