-- ===== src/Shared/Sets.antt =====
-- `HashSet<u64>`: the list of its members, each once.
use girth.Prelude.{
  ℕ, ◌≡◌, refl, Bool, true, false, not, ◌&&◌, ◌||◌, List, [], ◌∷◌, ◌++◌, arith, ◌==◌, if◌then◌else◌,
}

abbrev pub contains : ℕ → List ℕ → Bool
contains j [] = false
contains j (x ∷ xs) = j == x || contains j xs

-- `set.insert(j)`: whether it was new, and the set.
unfoldable pub insert : ℕ → List ℕ → Bool × List ℕ
insert j xs = if contains j xs then (false, xs) else (true, j ∷ xs)

unfoldable pub remove : ℕ → List ℕ → List ℕ
remove j [] = []
remove j (x ∷ xs) = let rest = remove j xs in if j == x then rest else x ∷ rest

pub contains-remove :
    (i j : ℕ) (xs : List ℕ) → contains i (remove j xs) ≡ (not (i == j) && contains i xs)
unfolding remove
contains-remove i j [] = ground arith
contains-remove i j (x ∷ xs) = ground (arith, contains-remove i j xs)

pub contains-insert :
    (i j : ℕ) (xs : List ℕ) → contains i (insert j xs).1 ≡ (i == j || contains i xs)
unfolding insert
contains-insert i j xs = ground arith

pub contains-append :
    (i : ℕ) (xs ys : List ℕ) → contains i (xs ++ ys) ≡ (contains i xs || contains i ys)
contains-append i [] ys = refl
contains-append i (x ∷ xs) ys = ground (arith, contains-append i xs ys)
