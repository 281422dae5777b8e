-- ===== src/Protocol/Bytes.antt =====
-- src/protocol.rs: the little-endian helpers, over buffers as lists of bytes. A write out of the
-- buffer's range panics in the source; here it is `none`.
use girth.Prelude.{
  ℕ, zero, suc, ◌+◌, ◌-◌, ◌*◌, ◌/◌, ◌%◌, ◌^◌, ◌≤◌, ◌<◌, ◌≡◌, refl, sym, ap, ◌∙◌, List, [], ◌∷◌,
  ◌++◌, Option, none, some, arith, ◌>>=◌, length, get_or, take, drop,
}

-- `v.to_le_bytes()` of an integer of `n` bytes.
abbrev pub le_bytes : ℕ → ℕ → List ℕ
le_bytes zero v = []
le_bytes (suc n) v = (v % 256) ∷ le_bytes n (v / 256)

-- `from_le_bytes` of the first `n` bytes. The callers test the length first, so that an index out of
-- range does not arise; it reads 0 here.
abbrev pub from_le : ℕ → List ℕ → ℕ
from_le zero b = 0
from_le (suc n) b = get_or b 0 0 + 256 * from_le n (drop 1 b)

abbrev pub get_u16 : List ℕ → ℕ
get_u16 b = from_le 2 b

abbrev pub get_u32 : List ℕ → ℕ
get_u32 b = from_le 4 b

abbrev pub get_u64 : List ℕ → ℕ
get_u64 b = from_le 8 b

-- `buf[off..off + bs.len()].copy_from_slice(bs)`.
abbrev pub put : ℕ → List ℕ → List ℕ → Option (List ℕ)
put zero [] buf = some buf
put zero (b ∷ bs) [] = none
put zero (b ∷ bs) (_ ∷ buf) = do rest ← put zero bs buf; some (b ∷ rest)
put (suc off) bs [] = none
put (suc off) bs (x ∷ buf) = do rest ← put off bs buf; some (x ∷ rest)

abbrev pub put_u8 : ℕ → ℕ → List ℕ → Option (List ℕ)
put_u8 off v = put off (v ∷ [])

abbrev pub put_u16 : ℕ → ℕ → List ℕ → Option (List ℕ)
put_u16 off v = put off (le_bytes 2 v)

abbrev pub put_u32 : ℕ → ℕ → List ℕ → Option (List ℕ)
put_u32 off v = put off (le_bytes 4 v)

abbrev pub put_u64 : ℕ → ℕ → List ℕ → Option (List ℕ)
put_u64 off v = put off (le_bytes 8 v)

-- `&buf[lo..hi]`, of which the callers know that it lies in the buffer.
abbrev pub slice : ℕ → ℕ → List ℕ → List ℕ
slice lo hi buf = take (hi - lo) (drop lo buf)

pub length-le_bytes : (n v : ℕ) → length (le_bytes n v) ≡ n
length-le_bytes zero v = refl
length-le_bytes (suc n) v = ap suc (length-le_bytes n (v / 256))

-- The fields of a header read back what was written, whatever follows.
pub get-le_u16 : (v : ℕ) → v < 2 ^ 16 → (rest : List ℕ) → get_u16 (le_bytes 2 v ++ rest) ≡ v
get-le_u16 v h rest = omega arith

pub get-le_u32 : (v : ℕ) → v < 2 ^ 32 → (rest : List ℕ) → get_u32 (le_bytes 4 v ++ rest) ≡ v
get-le_u32 v h rest = omega arith

pub get-le_u64 : (v : ℕ) → v < 2 ^ 64 → (rest : List ℕ) → get_u64 (le_bytes 8 v ++ rest) ≡ v
get-le_u64 v h rest = omega arith

-- The first `n` elements of a list that has as many, written out from index `i` on.
abbrev pub firsts : ℕ → ℕ → List ℕ → List ℕ
firsts zero i xs = []
firsts (suc n) i xs = get_or xs i 0 ∷ firsts n (suc i) xs

firsts-cons : (n i x : ℕ) (xs : List ℕ) → firsts n (suc i) (x ∷ xs) ≡ firsts n i xs
firsts-cons zero i x xs = refl
firsts-cons (suc n) i x xs = ap (◌∷◌ (get_or xs i 0)) (firsts-cons n (suc i) x xs)

pub firsts-append-drop : (n : ℕ) (xs : List ℕ) → n ≤ length xs → xs ≡ firsts n 0 xs ++ drop n xs
firsts-append-drop zero xs h = refl
firsts-append-drop (suc n) [] h = absurd (omega arith)
firsts-append-drop (suc n) (x ∷ xs) h = ap (◌∷◌ x) (
    firsts-append-drop n xs (omega arith)
    ∙ sym (ap (λ (t : List ℕ). t ++ drop n xs) (firsts-cons n 0 x xs)))

-- A write just past a known front part.
pub put-append :
    (front : List ℕ) (off : ℕ) (bs buf : List ℕ)
    → off ≡ length front
    → length bs ≤ length buf
    → put off bs (front ++ buf) ≡ some (front ++ (bs ++ drop (length bs) buf))
put-append [] zero [] buf e h = refl
put-append [] zero (b ∷ bs) [] e h = absurd (omega arith)
put-append [] zero (b ∷ bs) (x ∷ buf) e h = rw (put-append [] zero bs buf refl (omega arith))
put-append [] (suc off) bs buf e h = absurd (omega arith)
put-append (f ∷ front) zero bs buf e h = absurd (omega arith)
put-append (f ∷ front) (suc off) bs buf e h = rw (put-append front off bs buf (omega arith) h)
