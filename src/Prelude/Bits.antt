-- ===== src/Prelude/Bits.antt =====
-- The bit operations at variables: the value of one bit, `&` with a one-bit mask, and `|` with one.
use Prim.Native.Nat.{ℕ, zero, suc, ◌+◌, ◌*◌, ◌/◌, ◌%◌, ◌^◌, ◌≤◌, ◌<◌, min, max}
use Prim.Native.Nat.{bit_and, bit_or, digits, bit_and-bitwise, bit_or-bitwise}
use native.Mathlib.Nat.{le_refl, pow-suc}
use mathlib.Core.Path.{◌≡◌, refl, ap, ◌∙◌}
use native.Mathlib.Omega.{arith}
use girth.Prelude.Tests.{◌==◌, if◌then◌else◌}

-- `bit_and` and `bit_or` go digit by digit, on fuel: more of it than digits are left changes nothing.
module _ (tail : ℕ → ℕ) (op : ℕ → ℕ → ℕ) where
  more_fuel : (m n x y : ℕ) → n ≤ m → x ≤ n → digits tail op m x y ≡ digits tail op n x y
  more_fuel zero zero x y k h = refl
  more_fuel zero (suc n) x y k h = absurd (omega arith)
  more_fuel (suc m) zero zero y k h = refl
  more_fuel (suc m) zero (suc x) y k h = absurd (omega arith)
  more_fuel (suc m) (suc n) zero y k h = refl
  more_fuel (suc m) (suc n) (suc x) y k h =
      ap (λ (t : ℕ). t * 2 + op (suc x % 2) (y % 2))
        (more_fuel m n (suc x / 2) (y / 2) (omega arith) (omega arith))

  lowest_digit :
      (x y : ℕ)
      → digits tail op (suc x) (suc x) y
        ≡ op (suc x % 2) (y % 2) + 2 * digits tail op (suc x / 2) (suc x / 2) (y / 2)
  lowest_digit x y =
      let fewer = more_fuel x (suc x / 2) (suc x / 2) (y / 2) (omega arith) (omega arith) in
      omega (arith, fewer)

low_or : (x y : ℕ) → bit_or x y ≡ max (x % 2) (y % 2) + 2 * bit_or (x / 2) (y / 2)
low_or zero y = simp bit_or-bitwise (omega arith)
low_or (suc x) y = simp bit_or-bitwise (lowest_digit (λ t. t) max x y)

low_and : (x y : ℕ) → bit_and x y ≡ min (x % 2) (y % 2) + 2 * bit_and (x / 2) (y / 2)
low_and zero y = simp bit_and-bitwise (omega arith)
low_and (suc x) y = simp bit_and-bitwise (lowest_digit (λ t. 0) min x y)

zero-bit_or : (b : ℕ) → bit_or 0 b ≡ b
zero-bit_or b = simp bit_or-bitwise

-- Bit k of w, 0 or 1.
abbrev pub bit : ℕ → ℕ → ℕ
bit w zero = w % 2
bit w (suc k) = bit (w / 2) k

pub bit-lt-two : (w k : ℕ) → bit w k < 2
bit-lt-two w zero = omega arith
bit-lt-two w (suc k) = bit-lt-two (w / 2) k

pub zero-bit : (k : ℕ) → bit 0 k ≡ 0
zero-bit zero = refl
zero-bit (suc k) = zero-bit k

-- With nothing on the right.
right_zero : (n a : ℕ) → a ≤ n → (bit_or a 0 ≡ a) × (bit_and a 0 ≡ 0)
right_zero n zero h = (zero-bit_or 0, refl)
right_zero zero (suc a) h = absurd (omega arith)
right_zero (suc n) (suc a) h =
    let (keep, drop) = right_zero n (suc a / 2) (omega arith) in
    (omega (arith, low_or (suc a) 0, keep), omega (arith, low_and (suc a) 0, drop))

bit_or-zero : (a : ℕ) → bit_or a 0 ≡ a
bit_or-zero a = (right_zero a a (le_refl a)).0

bit_and-zero : (a : ℕ) → bit_and a 0 ≡ 0
bit_and-zero a = (right_zero a a (le_refl a)).1

pow-suc-half : (k : ℕ) → 2 ^ suc k / 2 ≡ 2 ^ k
pow-suc-half k = omega (arith, pow-suc 2 k)

pow-suc-even : (k : ℕ) → 2 ^ suc k % 2 ≡ 0
pow-suc-even k = omega (arith, pow-suc 2 k)

-- `w & (1 << k)` is nonzero exactly where bit k is set.
pub bit_and_mask : (w k : ℕ) → bit_and w (2 ^ k) ≡ bit w k * 2 ^ k
bit_and_mask w zero = omega (arith, low_and w 1, bit_and-zero (w / 2))
bit_and_mask w (suc k) =
    low_and w (2 ^ suc k)
    ∙ rw (pow-suc-half k, pow-suc-even k, bit_and_mask (w / 2) k, pow-suc 2 k)
        (omega (arith, ap (λ (t : ℕ). bit (w / 2) k * t) (pow-suc 2 k)))

half : (k w : ℕ) → bit_or w (2 ^ suc k) / 2 ≡ bit_or (w / 2) (2 ^ k)
half k w =
    ap (λ (t : ℕ). t / 2) (low_or w (2 ^ suc k)) ∙ rw (pow-suc-half k, pow-suc-even k) (omega arith)

-- `w | (1 << k)` sets bit k and leaves the others.
pub bit-bit_or : (k j w : ℕ) → bit (bit_or w (2 ^ k)) j ≡ (if k == j then 1 else bit w j)
bit-bit_or zero zero w = omega (arith, low_or w 1)
bit-bit_or zero (suc j) w =
    ap (λ (t : ℕ). bit t j) {x = bit_or w 1 / 2} {y = w / 2}
      (omega (arith, low_or w 1, bit_or-zero (w / 2)))
    ∙ same
  where
    same : bit (w / 2) j ≡ (if 0 == suc j then 1 else bit (w / 2) j)
    same = ground arith
bit-bit_or (suc k) zero w = ground (arith, low_or w (2 ^ suc k), pow-suc-even k)
bit-bit_or (suc k) (suc j) w = ap (λ (t : ℕ). bit t j) (half k w) ∙ bit-bit_or k j (w / 2) ∙ same
  where
    same : (if k == j then 1 else bit (w / 2) j) ≡ (if suc k == suc j then 1 else bit (w / 2) j)
    same = ground arith

-- `w & 63` is the position in a word.
pub bit_and_63 : (a : ℕ) → bit_and a 63 ≡ a % 64
bit_and_63 a = omega (
  arith,
  low_and a 63,
  low_and (a / 2) 31,
  low_and (a / 2 / 2) 15,
  low_and (a / 2 / 2 / 2) 7,
  low_and (a / 2 / 2 / 2 / 2) 3,
  low_and (a / 2 / 2 / 2 / 2 / 2) 1,
  bit_and-zero (a / 2 / 2 / 2 / 2 / 2 / 2),
)

-- Words of `k` bits stay words of `k` bits.
pub bit_or-lt : (k x y : ℕ) → x < 2 ^ k → y < 2 ^ k → bit_or x y < 2 ^ k
bit_or-lt zero x y a b =
    let e : x ≡ 0 = omega arith in let e' : y ≡ 0 = omega arith in rw (e, e') (omega arith)
bit_or-lt (suc k) x y a b = omega (
  arith,
  low_or x y,
  pow-suc 2 k,
  bit_or-lt k (x / 2) (y / 2) (omega (arith, pow-suc 2 k)) (omega (arith, pow-suc 2 k)),
)

pub bit_and-lt : (k x y : ℕ) → x < 2 ^ k → y < 2 ^ k → bit_and x y < 2 ^ k
bit_and-lt zero x y a b =
    let e : x ≡ 0 = omega arith in let e' : y ≡ 0 = omega arith in rw (e, e') (omega arith)
bit_and-lt (suc k) x y a b = omega (
  arith,
  low_and x y,
  pow-suc 2 k,
  bit_and-lt k (x / 2) (y / 2) (omega (arith, pow-suc 2 k)) (omega (arith, pow-suc 2 k)),
)
