-- ===== src/Sys/Reads.antt =====
-- `read_exact_at` (src/sys/mod.rs) reads the bytes of the file, or fails.
use mathlib.Core.List.{append-nil, append_assoc}
use girth.Prelude.{
  ℕ, zero, suc, ◌+◌, ◌-◌, ◌%◌, ◌^◌, ◌≤◌, ◌<◌, ◌≡◌, refl, sym, ap, ◌∙◌, inl, inr, List, [], ◌∷◌,
  ◌++◌, arith, ltb, length, length-append, get_or, ltb→lt, Bool-cases,
}
use girth.Sys.{
  Tried, gave, interrupted, broke, File, Ended, spins, fails, ends, after_read, read_loop,
  read_exact_at,
}

get_or-append_left :
    (xs ys : List ℕ) (i : ℕ) → i < length xs → get_or (xs ++ ys) i 0 ≡ get_or xs i 0
get_or-append_left [] ys i h = absurd (omega arith)
get_or-append_left (x ∷ xs) ys zero h = refl
get_or-append_left (x ∷ xs) ys (suc i) h = get_or-append_left xs ys i (omega arith)

get_or-append_right : (xs ys : List ℕ) (i : ℕ) → get_or (xs ++ ys) (length xs + i) 0 ≡ get_or ys i 0
get_or-append_right [] ys i = ap (λ (k : ℕ). get_or ys k 0) {x = 0 + i} {y = i} (omega arith)
get_or-append_right (x ∷ xs) ys i =
    ap (λ (k : ℕ). get_or (x ∷ (xs ++ ys)) k 0) {x = suc (length xs) + i} {y = suc (length xs + i)}
      (omega arith)
    ∙ get_or-append_right xs ys i

module _ {S : Type 0} (file : File S) where
  -- The bytes that are read behind `acc`.
  pub record Reads (s : S) (n off : ℕ) (acc : List ℕ) (s' : S) (out : List ℕ) : Type 0 where
    pub new : List ℕ
    pub parts : out ≡ acc ++ new
    pub size : length new ≡ n
    pub content : (i : ℕ) → i < n → get_or new i 0 ≡ file.byte_at s (off + i)
    pub quiet : (i : ℕ) → file.byte_at s' i ≡ file.byte_at s i

  abbrev pub Read : S → ℕ → ℕ → List ℕ → Ended S (List ℕ) → Type 0
  Read s n off acc spins = ⊥
  Read s n off acc (fails s') = (i : ℕ) → file.byte_at s' i ≡ file.byte_at s i
  Read s n off acc (ends s' out) = Reads s n off acc s' out

  Read-step :
      (s s1 : S) (n off : ℕ) (acc bs : List ℕ)
      → length bs ≤ n
      → ((i : ℕ) → i < length bs → get_or bs i 0 ≡ file.byte_at s (off + i))
      → ((i : ℕ) → file.byte_at s1 i ≡ file.byte_at s i)
      → (x : Ended S (List ℕ)) → Read s1 (n - length bs) (off + length bs) (acc ++ bs) x
      → Read s n off acc x
  Read-step s s1 n off acc bs h here same spins w = w
  Read-step s s1 n off acc bs h here same (fails s') w = λ i. w i ∙ same i
  Read-step s s1 n off acc bs h here same (ends s' out) w = record {
    new = bs ++ w.new;
    parts = w.parts ∙ append_assoc acc bs w.new;
    size = omega (arith, length-append bs w.new, w.size, h);
    content = λ i k. elim (Bool-cases (ltb i (length bs))) [
      | inl q ↦
          get_or-append_left bs w.new i (ltb→lt i (length bs) q) ∙ here i (ltb→lt i (length bs) q)
      | inr q ↦
          let back : length bs + (i - length bs) ≡ i = ground (arith, q) in
          let at : off + length bs + (i - length bs) ≡ off + i = omega (arith, back) in
          ap (λ (k : ℕ). get_or (bs ++ w.new) k 0) (sym back)
          ∙ get_or-append_right bs w.new (i - length bs)
          ∙ w.content (i - length bs) (ground (arith, q, k))
          ∙ same (off + length bs + (i - length bs))
          ∙ ap (λ (k : ℕ). file.byte_at s k) at
    ];
    quiet = λ i. w.quiet i ∙ same i;
  }

  Read-again :
      (s s1 : S) (n off : ℕ) (acc : List ℕ)
      → ((i : ℕ) → file.byte_at s1 i ≡ file.byte_at s i)
      → (x : Ended S (List ℕ)) → Read s1 n off acc x
      → Read s n off acc x
  Read-again s s1 n off acc same spins w = w
  Read-again s s1 n off acc same (fails s') w = λ i. w i ∙ same i
  Read-again s s1 n off acc same (ends s' out) w = record {
    new = w.new;
    parts = w.parts;
    size = w.size;
    content = λ i k. w.content i k ∙ same (off + i);
    quiet = λ i. w.quiet i ∙ same i;
  }

  abbrev Promises : ℕ → Type 0
  Promises fuel =
      (s : S) (n off : ℕ) (acc : List ℕ)
      → off + n < 2 ^ 64
      → n + file.patience s ≤ fuel
      → Read s n off acc (read_loop file fuel s n off acc)

  after_read-Read :
      (fuel : ℕ) (s : S) (n off : ℕ) (acc : List ℕ) (r : Tried (List ℕ)) (s1 : S)
      → Promises fuel
      → file.seek_read s (suc n) off ≡ (r, s1)
      → off + suc n < 2 ^ 64
      → suc n + file.patience s ≤ suc fuel
      → Read s (suc n) off acc (
          after_read file
            (λ s bs.
              read_loop file fuel s (suc n - length bs) ((off + length bs) % 2 ^ 64) (acc ++ bs))
            (λ s. read_loop file fuel s (suc n) off acc)
            (r, s1))
  after_read-Read fuel s n off acc (gave []) s1 more e fits enough =
      λ i. (file.read_calm s s1 (suc n) off (gave []) i e).0
  after_read-Read fuel s n off acc (gave (b ∷ bs)) s1 more e fits enough =
      let h = file.read_within s s1 (suc n) off (b ∷ bs) e in
      let calm = (file.read_calm s s1 (suc n) off (gave (b ∷ bs)) 0 e).1 in
      let small : (off + length (b ∷ bs)) % 2 ^ 64 ≡ off + length (b ∷ bs) =
        omega (arith, h, fits) in
      Read-step s s1 (suc n) off acc (b ∷ bs) h (file.read s s1 (suc n) off (b ∷ bs) e)
        (λ i. (file.read_calm s s1 (suc n) off (gave (b ∷ bs)) i e).0) _
        (rw small (
          more s1 (suc n - length (b ∷ bs)) (off + length (b ∷ bs)) (acc ++ (b ∷ bs))
            (omega (arith, h, fits)) (omega (arith, h, calm, enough))))
  after_read-Read fuel s n off acc interrupted s1 more e fits enough =
      Read-again s s1 (suc n) off acc (λ i. (file.read_calm s s1 (suc n) off interrupted i e).0) _
        (more s1 (suc n) off acc fits (omega (arith, file.read_nothing s s1 (suc n) off e, enough)))
  after_read-Read fuel s n off acc broke s1 more e fits enough =
      λ i. (file.read_calm s s1 (suc n) off broke i e).0

  read_loop-Read : (fuel : ℕ) → Promises fuel
  unfolding read_loop
  read_loop-Read fuel s zero off acc fits enough = record {
    new = [];
    parts = sym (append-nil acc);
    size = refl;
    content = λ i k. absurd (omega arith);
    quiet = λ i. refl;
  }
  read_loop-Read zero s (suc n) off acc fits enough = absurd (omega arith)
  read_loop-Read (suc fuel) s (suc n) off acc fits enough =
      after_read-Read fuel s n off acc (file.seek_read s (suc n) off).0
        (file.seek_read s (suc n) off).1 (read_loop-Read fuel) refl fits enough

  -- In a range that fits 64 bits, whatever parts the file gives and however often it is interrupted, the call
  -- returns and changes nothing: it gives exactly the bytes of the file from the offset on, or it fails.
  pub read_exact_at-Read :
      (s : S) (n off : ℕ) → off + n < 2 ^ 64 → Read s n off [] (read_exact_at file s n off)
  unfolding read_exact_at
  read_exact_at-Read s n off fits =
      read_loop-Read (n + file.patience s) s n off [] fits (omega arith)
