-- ===== src/LossTracker/Bitmap/Laws.antt =====
-- RecvBitmap (src/losstracker.rs) as a set of block numbers.
use Prim.Native.Nat.{bit_and, bit_or}
use native.Mathlib.Nat.{one-le-pow}
use girth.Prelude.{
  ℕ, zero, suc, ◌*◌, ◌/◌, ◌%◌, ◌<◌, ◌≡◌, refl, sym, ap, ◌∙◌, Bool, true, false, not, ◌||◌, some,
  List, [], ◌∷◌, arith, ◌==◌, if◌then◌else◌, length, get_elem?, get_or, set, replicate, length-set,
  length-replicate, get_elem?-some,
}
use girth.Prelude.Bits.{bit, bit-lt-two, zero-bit, bit_and_mask, bit-bit_or, bit_and_63}
use girth.Protocol.Blocks.{div_ceil}
use girth.LossTracker.Bitmap.{RecvBitmap, new, mask, set_and_test, is_set, has, Covers}

get_or_of_get_elem? : (xs : List ℕ) (i x : ℕ) → get_elem? xs i ≡ some x → get_or xs i 0 ≡ x
get_or_of_get_elem? [] i x e = cc
get_or_of_get_elem? (y ∷ xs) zero x e = cc
get_or_of_get_elem? (y ∷ xs) (suc i) x e = get_or_of_get_elem? xs i x e

get_or-set :
    (xs : List ℕ) (i j v : ℕ)
    → i < length xs
    → get_or (set xs i v) j 0 ≡ (if i == j then v else get_or xs j 0)
get_or-set [] i j v h = elim h [ ]
get_or-set (x ∷ xs) zero zero v h = refl
get_or-set (x ∷ xs) zero (suc j) v h = ground arith
get_or-set (x ∷ xs) (suc i) zero v h = ground arith
get_or-set (x ∷ xs) (suc i) (suc j) v h = ground (arith, get_or-set xs i j v (omega arith))

masked : (w seq : ℕ) → not (bit_and w (mask seq) == 0) ≡ (bit w (seq % 64) == 1)
masked w seq =
    rw (bit_and_63 seq, bit_and_mask w (seq % 64))
      (ground (arith, bit-lt-two w (seq % 64), one-le-pow (seq % 64) 2))

not-not : (b : Bool) → not (not b) ≡ b
not-not true = refl
not-not false = refl

-- `is_set` reads the set, in range.
pub is_set_lem :
    (bm : RecvBitmap) (seq : ℕ) → seq < 64 * length bm.words → is_set bm seq ≡ some (has bm seq)
unfolding is_set has
is_set_lem bm seq h =
    let (w, e) = get_elem?-some bm.words (seq / 64) (omega arith) in
    rw (e, get_or_of_get_elem? bm.words (seq / 64) w e) (ap some (masked w seq))

-- The bitmap with one more block marked.
abbrev pub mark : RecvBitmap → ℕ → RecvBitmap
mark bm seq = record bm {
  words = set bm.words (seq / 64) (bit_or (get_or bm.words (seq / 64) 0) (mask seq));
}

pub set_and_test_lem :
    (bm : RecvBitmap) (seq : ℕ)
    → seq < 64 * length bm.words
    → set_and_test bm seq ≡ some (not (has bm seq), mark bm seq)
unfolding set_and_test has
set_and_test_lem bm seq h =
    let (w, e) = get_elem?-some bm.words (seq / 64) (omega arith) in
    rw (e, get_or_of_get_elem? bm.words (seq / 64) w e)
      (λ i. some (flag w i, record bm { words = set bm.words (seq / 64) (bit_or w (mask seq)) }))
  where
    flag : (w : ℕ) → (bit_and w (mask seq) == 0) ≡ not (bit w (seq % 64) == 1)
    flag w = sym (not-not _) ∙ ap not (masked w seq)

pub has-mark :
    (bm : RecvBitmap) (seq j : ℕ)
    → seq < 64 * length bm.words
    → has (mark bm seq) j ≡ (j == seq || has bm j)
unfolding has
has-mark bm seq j h =
    rw
      (
        get_or-set bm.words (seq / 64) (j / 64) (bit_or (get_or bm.words (seq / 64) 0) (mask seq))
            (omega arith),
        bit_and_63 seq,
      )
      (ground (arith, bit-bit_or (seq % 64) (j % 64) (get_or bm.words (seq / 64) 0)))

pub Covers-mark : (bm : RecvBitmap) (seq n : ℕ) → Covers bm n → Covers (mark bm seq) n
Covers-mark bm seq n c =
    omega (arith, length-set bm.words (seq / 64) (bit_or (get_or bm.words (seq / 64) 0) (mask seq)))

pub new-Covers : (total : ℕ) → Covers (new total) total
unfolding new
new-Covers total = ground (arith, length-replicate {A = ℕ} (div_ceil total 64) 0)

get_or-replicate : (n i : ℕ) → get_or (replicate {A = ℕ} n 0) i 0 ≡ 0
get_or-replicate zero i = refl
get_or-replicate (suc n) zero = refl
get_or-replicate (suc n) (suc i) = get_or-replicate n i

pub has-new : (total j : ℕ) → has (new total) j ≡ false
unfolding has new
has-new total j = rw (get_or-replicate (div_ceil total 64) (j / 64), zero-bit (j % 64))

-- `set_and_test` reports `true` for the first call of a block and `false` for each later one; it adds
-- that block and no other, and the room stays.
pub set_and_test_marks :
    (bm : RecvBitmap) (total seq : ℕ)
    → Covers bm total
    → seq < total
    → (bm' : RecvBitmap) × (set_and_test bm seq ≡ some (not (has bm seq), bm'))
      × ((j : ℕ) → has bm' j ≡ (j == seq || has bm j))
      × Covers bm' total
set_and_test_marks bm total seq c h = (
  mark bm seq,
  set_and_test_lem bm seq (omega arith),
  (λ j. has-mark bm seq j (omega arith)),
  Covers-mark bm seq total c,
)
