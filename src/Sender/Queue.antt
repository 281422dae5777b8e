-- ===== src/Sender/Queue.antt =====
-- src/sender.rs: the retransmit queue. The heap of least first is its items in ascending order.
use girth.Prelude.{
  ℕ, ◌≤◌, ◌<◌, ◌≡◌, ◌⊎◌, refl, sym, ap, ◌∙◌, Bool, true, false, not, ◌&&◌, ◌||◌, List, [], ◌∷◌,
  Option, none, some, arith, leb, ◌==◌, if◌then◌else◌, length, Bool-cases, inl, inr,
}
use girth.Shared.Sets.{contains, insert, remove, contains-remove}
use girth.Protocol.Feedback.{NackEntry}

pub record RexQueue : Type 0 where
  pub heap : List ℕ
  pub set : List ℕ

abbrev pub queue : List ℕ → List ℕ → RexQueue
queue heap set = record { heap = heap; set = set }

abbrev pub empty : RexQueue
empty = record { heap = []; set = [] }

pub heap_push : ℕ → List ℕ → List ℕ
heap_push x [] = x ∷ []
heap_push x (y ∷ ys) = let rest = heap_push x ys in if leb x y then x ∷ y ∷ ys else y ∷ rest

pub push_one : ℕ → RexQueue → RexQueue
unfolding insert heap_push
push_one seq q =
    let (new, set) = insert seq q.set in
    if new then record { heap = heap_push seq q.heap; set = set } else q

-- The queue after the call; its length is the one that the statistics show.
unfoldable pub push_retransmits : RexQueue → List NackEntry → RexQueue
unfolding push_one
push_retransmits q [] = q
push_retransmits q (n ∷ ns) = push_retransmits (push_one n.block_seq q) ns

unfoldable pub pop_retransmit : RexQueue → Option (ℕ × RexQueue)
unfolding remove
pop_retransmit q = elim q.heap [
  | [] ↦ none
  | seq ∷ rest ↦ some (seq, record { heap = rest; set = remove seq q.set })
]

unfoldable pub rex_len : RexQueue → ℕ
rex_len q = length q.heap

-- A strictly ascending list above a bound.
abbrev pub Ascending : List ℕ → Type 0
Ascending [] = Unit {0}
Ascending (x ∷ xs) = ((j : ℕ) → contains j xs ≡ true → x < j) × Ascending xs

-- The heap is in order and holds the members of the set, each once.
pub record IsQueue (q : RexQueue) : Type 0 where
  pub order : Ascending q.heap
  pub same : (j : ℕ) → contains j q.heap ≡ contains j q.set

contains-heap_push :
    (x j : ℕ) (ys : List ℕ) → contains j (heap_push x ys) ≡ (j == x || contains j ys)
unfolding heap_push
contains-heap_push x j [] = refl
contains-heap_push x j (y ∷ ys) = ground (arith, contains-heap_push x j ys)

heap_push-Ascending :
    (x : ℕ) (ys : List ℕ) → contains x ys ≡ false → Ascending ys → Ascending (heap_push x ys)
unfolding heap_push
heap_push-Ascending x [] e a = ((λ j h. cc), tt)
heap_push-Ascending x (y ∷ ys) e (lo, a) = elim (Bool-cases (leb x y)) [
  | inl q ↦ rw q ((λ j h. front q j h), (lo, a))
  | inr q ↦ rw q ((λ j h. behind q j h), heap_push-Ascending x ys (ground (arith, e)) a)
]
  where
    front : leb x y ≡ true → (j : ℕ) → (j == y || contains j ys) ≡ true → x < j
    front q j h = elim (Bool-cases (contains j ys)) [
      | inl c ↦ ground (arith, lo j c)
      | inr c ↦ ground arith
    ]

    behind : leb x y ≡ false → (j : ℕ) → contains j (heap_push x ys) ≡ true → y < j
    behind q j h = elim (Bool-cases (contains j ys)) [
      | inl c ↦ lo j c
      | inr c ↦ ground (arith, contains-heap_push x j ys)
    ]

push_one-IsQueue :
    (seq : ℕ) (q : RexQueue)
    → IsQueue q
    → IsQueue (push_one seq q)
      × ((j : ℕ) → contains j (push_one seq q).set ≡ (j == seq || contains j q.set))
unfolding push_one insert
push_one-IsQueue seq q v = elim (Bool-cases (contains seq q.set)) [
  | inl e ↦
      rw e (v, λ j. elim (Bool-cases (j == seq)) [ inl k ↦ ground (arith, e) | inr k ↦ rw k refl ])
  | inr e ↦ rw e (
    record {
      order = heap_push-Ascending seq q.heap (v.same seq ∙ e) v.order;
      same = λ j. contains-heap_push seq j q.heap ∙ ap (λ t. j == seq || t) (v.same j);
    },
    λ j. refl,
  )
]

-- The blocks that a list of NACKs asks for.
abbrev pub asked : ℕ → List NackEntry → Bool
asked j [] = false
asked j (n ∷ ns) = j == n.block_seq || asked j ns

-- Whatever NACKs arrive, repeated or not, the queue stays a queue, and it holds a block exactly where it
-- held it or a NACK asks for it.
pub push_retransmits-IsQueue :
    (q : RexQueue) (ns : List NackEntry)
    → IsQueue q
    → IsQueue (push_retransmits q ns)
      × ((j : ℕ) → contains j (push_retransmits q ns).set ≡ (asked j ns || contains j q.set))
unfolding push_retransmits
push_retransmits-IsQueue q [] v = (v, λ j. refl)
push_retransmits-IsQueue q (n ∷ ns) v =
    let (w, one) = push_one-IsQueue n.block_seq q v in
    let (all, e) = push_retransmits-IsQueue (push_one n.block_seq q) ns w in
    (all, λ j. ground (arith, e j, one j))

-- What a pop gives: nothing of an empty set, and else its least member, which leaves.
pub record Pops (q : RexQueue) (seq : ℕ) (rest : RexQueue) : Type 0 where
  pub member : contains seq q.set ≡ true
  pub least : (j : ℕ) → contains j q.set ≡ true → seq ≤ j
  pub leaves : (j : ℕ) → contains j rest.set ≡ (not (j == seq) && contains j q.set)
  pub valid : IsQueue rest

rest-same :
    (x : ℕ) (xs set : List ℕ)
    → ((j : ℕ) → contains j xs ≡ true → x < j)
    → ((j : ℕ) → (j == x || contains j xs) ≡ contains j set)
    → (j : ℕ) → contains j xs ≡ contains j (remove x set)
rest-same x xs set lo same j = elim (Bool-cases (contains j xs)) [
  | inl c ↦ ground (arith, lo j c, same j, contains-remove j x set)
  | inr c ↦ ground (arith, same j, contains-remove j x set)
]

least_lem :
    (x : ℕ) (xs set : List ℕ)
    → ((j : ℕ) → contains j xs ≡ true → x < j)
    → ((j : ℕ) → (j == x || contains j xs) ≡ contains j set)
    → (j : ℕ) → contains j set ≡ true
    → x ≤ j
least_lem x xs set lo same j h = elim (Bool-cases (contains j xs)) [
  | inl c ↦ omega (arith, lo j c)
  | inr c ↦ ground (arith, same j)
]

-- A pop of a queue: nothing where no block is in it, and else the least block of it, which it leaves
-- out, so that a pop never gives a block twice unless it is asked for again.
pub pop_retransmit-Pops :
    (heap set : List ℕ)
    → IsQueue (queue heap set)
    → ((pop_retransmit (queue heap set) ≡ none) × ((j : ℕ) → contains j set ≡ false))
      ⊎ ((seq : ℕ) × (rest : RexQueue) × (pop_retransmit (queue heap set) ≡ some (seq, rest))
          × Pops (queue heap set) seq rest)
unfolding pop_retransmit
pop_retransmit-Pops [] set v = inl (refl, λ j. sym (v.same j))
pop_retransmit-Pops (x ∷ xs) set v = inr (
  x,
  record { heap = xs; set = remove x set },
  refl,
  record {
    member = sym (v.same x) ∙ ground arith;
    least = least_lem x xs set (v.order.0) v.same;
    leaves = λ j. contains-remove j x set;
    valid = record { order = v.order.1; same = rest-same x xs set (v.order.0) v.same };
  },
)
