-- ===== src/Sys.antt =====
-- src/sys/mod.rs: `write_all_at` and `read_exact_at` over a file whose calls move a part of the bytes or are
-- interrupted. The file is a parameter with what its documentation says of a call.
pub mod Writes
pub mod Reads
pub mod Batch
mod Tests
use girth.Prelude.{
  ℕ, zero, suc, ◌+◌, ◌-◌, ◌%◌, ◌^◌, ◌≤◌, ◌<◌, ◌≡◌, ◌&&◌, Bool, List, [], ◌∷◌, ◌++◌, Option, none,
  some, leb, ltb, length, get_or, drop, if◌then◌else◌,
}
use girth.Protocol.Bytes.{slice}

-- What a call of the system gives: the result, an interruption, or another error.
pub data Tried (A : Type 0) : Type 0 where
  gave : A → Tried A
  interrupted : Tried A
  broke : Tried A

-- `seek_write` and `seek_read` of a file; the first gives how many bytes it wrote, the second the bytes that it
-- read. `byte_at` is the content, and `patience` bounds how often calls are interrupted from a state on.
pub record File (S : Type 0) : Type 0 where
  pub seek_write : S → List ℕ → ℕ → Tried ℕ × S
  pub seek_read : S → ℕ → ℕ → Tried (List ℕ) × S
  pub byte_at : S → ℕ → ℕ
  pub patience : S → ℕ
  pub wrote_within :
      (s s' : S) (bs : List ℕ) (off n : ℕ) → seek_write s bs off ≡ (gave n, s') → n ≤ length bs
  pub wrote :
      (s s' : S) (bs : List ℕ) (off n i : ℕ)
      → seek_write s bs off ≡ (gave n, s')
      → byte_at s' i ≡ (if leb off i && ltb i (off + n) then get_or bs (i - off) 0 else byte_at s i)
  pub wrote_calm :
      (s s' : S) (bs : List ℕ) (off n : ℕ)
      → seek_write s bs off ≡ (gave n, s')
      → patience s' ≤ patience s
  pub wrote_nothing :
      (s s' : S) (bs : List ℕ) (off i : ℕ)
      → seek_write s bs off ≡ (interrupted, s')
      → (byte_at s' i ≡ byte_at s i) × (patience s' < patience s)
  pub wrote_broken :
      (s s' : S) (bs : List ℕ) (off i : ℕ)
      → seek_write s bs off ≡ (broke, s')
      → byte_at s' i ≡ byte_at s i
  pub read_within :
      (s s' : S) (n off : ℕ) (bs : List ℕ) → seek_read s n off ≡ (gave bs, s') → length bs ≤ n
  pub read :
      (s s' : S) (n off : ℕ) (bs : List ℕ)
      → seek_read s n off ≡ (gave bs, s')
      → (i : ℕ) → i < length bs
      → get_or bs i 0 ≡ byte_at s (off + i)
  pub read_calm :
      (s s' : S) (n off : ℕ) (r : Tried (List ℕ)) (i : ℕ)
      → seek_read s n off ≡ (r, s')
      → (byte_at s' i ≡ byte_at s i) × (patience s' ≤ patience s)
  pub read_nothing :
      (s s' : S) (n off : ℕ) → seek_read s n off ≡ (interrupted, s') → patience s' < patience s

-- How a loop ends: its fuel did not reach, an error, or the result.
pub data Ended (S A : Type 0) : Type 0 where
  spins : Ended S A
  fails : S → Ended S A
  ends : S → A → Ended S A

module _ {S : Type 0} (file : File S) where
  -- What follows a call: zero bytes are the error `WriteZero`.
  abbrev pub after_write : (S → ℕ → Ended S Unit) → (S → Ended S Unit) → Tried ℕ × S → Ended S Unit
  after_write go again (gave zero, s) = fails s
  after_write go again (gave (suc n), s) = go s (suc n)
  after_write go again (interrupted, s) = again s
  after_write go again (broke, s) = fails s

  -- `write_all_at`, on fuel.
  pub write_loop : ℕ → S → List ℕ → ℕ → Ended S Unit
  write_loop fuel s [] off = ends s tt
  write_loop zero s (b ∷ bs) off = spins
  write_loop (suc fuel) s (b ∷ bs) off =
      after_write (λ s n. write_loop fuel s (drop n (b ∷ bs)) ((off + n) % 2 ^ 64))
        (λ s. write_loop fuel s (b ∷ bs) off) (file.seek_write s (b ∷ bs) off)

  unfoldable pub write_all_at : S → List ℕ → ℕ → Ended S Unit
  unfolding write_loop
  write_all_at s bs off = write_loop (length bs + file.patience s) s bs off

  -- What follows a call that reads: no bytes are the error `UnexpectedEof`.
  abbrev pub after_read :
      (S → List ℕ → Ended S (List ℕ))
      → (S → Ended S (List ℕ))
      → Tried (List ℕ) × S
      → Ended S (List ℕ)
  after_read go again (gave [], s) = fails s
  after_read go again (gave (b ∷ bs), s) = go s (b ∷ bs)
  after_read go again (interrupted, s) = again s
  after_read go again (broke, s) = fails s

  -- `read_exact_at` of `n` bytes, with those read so far, on fuel.
  pub read_loop : ℕ → S → ℕ → ℕ → List ℕ → Ended S (List ℕ)
  read_loop fuel s zero off acc = ends s acc
  read_loop zero s (suc n) off acc = spins
  read_loop (suc fuel) s (suc n) off acc =
      after_read
        (λ s bs. read_loop fuel s (suc n - length bs) ((off + length bs) % 2 ^ 64) (acc ++ bs))
        (λ s. read_loop fuel s (suc n) off acc) (file.seek_read s (suc n) off)

  unfoldable pub read_exact_at : S → ℕ → ℕ → Ended S (List ℕ)
  unfolding read_loop
  read_exact_at s n off = read_loop (n + file.patience s) s n off []
