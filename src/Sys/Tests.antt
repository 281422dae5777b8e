-- ===== src/Sys/Tests.antt =====
-- The loops of src/sys/mod.rs over a file that moves one byte in a call.
use girth.Prelude.{
  ℕ, zero, suc, ◌+◌, ◌-◌, ◌≤◌, ◌<◌, ◌≡◌, refl, sym, ap, ◌∙◌, inl, inr, ◌&&◌, List, [], ◌∷◌, arith,
  leb, ltb, ◌==◌, length, get_or, Bool-cases, if◌then◌else◌,
}
use girth.Sys.{Tried, gave, interrupted, broke, File, write_all_at, read_exact_at}
use girth.Sys.Writes.{Wrote, write_all_at-Wrote}
use girth.Sys.Reads.{Read, read_exact_at-Read}

abbrev Content : Type 0
Content = ℕ → ℕ

abbrev put_byte : Content → ℕ → ℕ → Content
put_byte s off b i = if i == off then b else s i

abbrev write_one : Content → List ℕ → ℕ → Tried ℕ × Content
write_one s [] off = (gave 0, s)
write_one s (b ∷ bs) off = (gave 1, put_byte s off b)

abbrev read_one : Content → ℕ → ℕ → Tried (List ℕ) × Content
read_one s zero off = (gave [], s)
read_one s (suc n) off = (gave (s off ∷ []), s)

abbrev number : Tried ℕ → ℕ
number (gave n) = n
number interrupted = 0
number broke = 0

abbrev bytes_of : Tried (List ℕ) → List ℕ
bytes_of (gave bs) = bs
bytes_of interrupted = []
bytes_of broke = []

byte_lem :
    (s : Content) (b : ℕ) (bs : List ℕ) (off i : ℕ)
    → put_byte s off b i
      ≡ (if leb off i && ltb i (off + 1) then get_or (b ∷ bs) (i - off) 0 else s i)
byte_lem s b bs off i = elim (Bool-cases (i == off)) [
  | inl e ↦ let none_left : i - off ≡ 0 = ground (arith, e) in rw (e, none_left) (ground (arith, e))
  | inr e ↦ rw e (ground (arith, e))
]

wrote_lem :
    (s s' : Content) (bs : List ℕ) (off n i : ℕ)
    → write_one s bs off ≡ (gave n, s')
    → s' i ≡ (if leb off i && ltb i (off + n) then get_or bs (i - off) 0 else s i)
wrote_lem s s' [] off n i e =
    let zero_n : 0 ≡ n = ap (λ (p : Tried ℕ × Content). number p.0) e in
    sym (ap (λ (p : Tried ℕ × Content). p.1 i) e) ∙ rw (← zero_n) (ground arith)
wrote_lem s s' (b ∷ bs) off n i e =
    let one_n : 1 ≡ n = ap (λ (p : Tried ℕ × Content). number p.0) e in
    sym (ap (λ (p : Tried ℕ × Content). p.1 i) e) ∙ rw (← one_n) (byte_lem s b bs off i)

within_lem :
    (s s' : Content) (bs : List ℕ) (off n : ℕ) → write_one s bs off ≡ (gave n, s') → n ≤ length bs
within_lem s s' [] off n e = omega (arith, ap (λ (p : Tried ℕ × Content). number p.0) e)
within_lem s s' (b ∷ bs) off n e = omega (arith, ap (λ (p : Tried ℕ × Content). number p.0) e)

never :
    (s s' : Content) (bs : List ℕ) (off : ℕ) (r : Tried ℕ)
    → write_one s bs off ≡ (r, s')
    → (n : ℕ) × (r ≡ gave n)
never s s' [] off r e = (0, sym (ap (λ (p : Tried ℕ × Content). p.0) e))
never s s' (b ∷ bs) off r e = (1, sym (ap (λ (p : Tried ℕ × Content). p.0) e))

read_lem :
    (s s' : Content) (n off : ℕ) (r : Tried (List ℕ))
    → read_one s n off ≡ (r, s')
    → (length (bytes_of r) ≤ n)
      × ((i : ℕ) → i < length (bytes_of r) → get_or (bytes_of r) i 0 ≡ s (off + i))
      × (s' ≡ s)
      × ((bs : List ℕ) × (r ≡ gave bs))
read_lem s s' zero off r e =
    let same = sym (ap (λ (p : Tried (List ℕ) × Content). p.0) e) in
    rw same (
      omega arith,
      (λ i h. absurd (omega arith)),
      sym (ap (λ (p : Tried (List ℕ) × Content). p.1) e),
      ([], refl),
    )
read_lem s s' (suc n) off r e =
    let same = sym (ap (λ (p : Tried (List ℕ) × Content). p.0) e) in
    rw same (
      omega arith,
      (λ i h. first i h),
      sym (ap (λ (p : Tried (List ℕ) × Content). p.1) e),
      (s off ∷ [], refl),
    )
  where
    first : (i : ℕ) → i < 1 → get_or (s off ∷ []) i 0 ≡ s (off + i)
    first zero h = ap s {x = off} {y = off + 0} (omega arith)
    first (suc i) h = absurd (omega arith)

abbrev one_byte : File Content
one_byte = record {
  seek_write = write_one;
  seek_read = read_one;
  byte_at = λ s i. s i;
  patience = λ s. 0;
  wrote_within = within_lem;
  wrote = wrote_lem;
  wrote_calm = λ s s' bs off n e. omega arith;
  wrote_nothing = λ s s' bs off i e. absurd (cc (never s s' bs off interrupted e).1);
  wrote_broken = λ s s' bs off i e. absurd (cc (never s s' bs off broke e).1);
  read_within = λ s s' n off bs e. (read_lem s s' n off (gave bs) e).0;
  read = λ s s' n off bs e. (read_lem s s' n off (gave bs) e).1;
  read_calm =
      λ s s' n off r i e. (ap (λ (t : Content). t i) (read_lem s s' n off r e).2, omega arith);
  read_nothing = λ s s' n off e. absurd (cc (read_lem s s' n off interrupted e).3.1);
}

abbrev zeros : Content
zeros i = 0

write_all_at-Wrote_example :
    Wrote one_byte zeros (7 ∷ 8 ∷ 9 ∷ []) 4 (write_all_at one_byte zeros (7 ∷ 8 ∷ 9 ∷ []) 4)
write_all_at-Wrote_example = write_all_at-Wrote one_byte zeros (7 ∷ 8 ∷ 9 ∷ []) 4 (omega arith)

read_exact_at-Read_example : Read one_byte zeros 3 4 [] (read_exact_at one_byte zeros 3 4)
read_exact_at-Read_example = read_exact_at-Read one_byte zeros 3 4 (omega arith)
