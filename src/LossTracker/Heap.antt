-- ===== src/LossTracker/Heap.antt =====
-- src/losstracker.rs: HeapItem and its order, and `BinaryHeap<Reverse<HeapItem>>` as the list of its
-- items in that order: the top is the head.
use girth.Prelude.{
  ℕ, suc, ◌≤◌, ◌≡◌, refl, Bool, false, ◌&&◌, ◌||◌, List, [], ◌∷◌, arith, ltb, leb, ◌==◌,
  if◌then◌else◌, length,
}

pub record HeapItem : Type 0 where
  pub due : ℕ
  pub seq : ℕ

-- `cmp` of two items is `Less` or `Equal`: by due time, then by number.
abbrev pub before : HeapItem → HeapItem → Bool
before a b = ltb a.due b.due || (a.due == b.due && leb a.seq b.seq)

unfoldable pub push : HeapItem → List HeapItem → List HeapItem
push x [] = x ∷ []
push x (y ∷ ys) = if before x y then x ∷ y ∷ ys else y ∷ push x ys

-- Some item is for block `j`.
abbrev pub scheduled : ℕ → List HeapItem → Bool
scheduled j [] = false
scheduled j (x ∷ xs) = j == x.seq || scheduled j xs

-- No item is due before `d`.
abbrev pub AllFrom : ℕ → List HeapItem → Type 0
AllFrom d [] = Unit {0}
AllFrom d (x ∷ xs) = (d ≤ x.due) × AllFrom d xs

-- The list is in order.
abbrev pub IsHeap : List HeapItem → Type 0
IsHeap [] = Unit {0}
IsHeap (x ∷ xs) = AllFrom x.due xs × IsHeap xs

pub length-push : (x : HeapItem) (ys : List HeapItem) → length (push x ys) ≡ suc (length ys)
unfolding push
length-push x [] = refl
length-push x (y ∷ ys) = ground (arith, length-push x ys)

pub scheduled-push :
    (j : ℕ) (x : HeapItem) (ys : List HeapItem)
    → scheduled j (push x ys) ≡ (j == x.seq || scheduled j ys)
unfolding push
scheduled-push j x [] = refl
scheduled-push j x (y ∷ ys) = ground (arith, scheduled-push j x ys)

AllFrom-le : (d e : ℕ) (ys : List HeapItem) → d ≤ e → AllFrom e ys → AllFrom d ys
AllFrom-le d e [] h a = tt
AllFrom-le d e (y ∷ ys) h a = (omega arith, AllFrom-le d e ys h a.1)

AllFrom-push :
    (d : ℕ) (x : HeapItem) (ys : List HeapItem) → d ≤ x.due → AllFrom d ys → AllFrom d (push x ys)
unfolding push
AllFrom-push d x [] h a = (h, tt)
AllFrom-push d x (y ∷ ys) h a = ground (arith, AllFrom-push d x ys h a.1)

pub push-IsHeap : (x : HeapItem) (ys : List HeapItem) → IsHeap ys → IsHeap (push x ys)
unfolding push
push-IsHeap x [] a = (tt, tt)
push-IsHeap x (y ∷ ys) a =
    ground (arith, push-IsHeap x ys a.1, AllFrom-push y.due x ys, AllFrom-le x.due y.due ys)
