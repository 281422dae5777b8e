-- ===== src/Transfer/Connection/Listen/Bounds.antt =====
-- The bound on the connections that the server serves at once (src/transfer.rs).
use girth.Prelude.{
  ℕ, zero, suc, ◌+◌, ◌-◌, ◌≤◌, ◌<◌, ◌≡◌, refl, sym, ap, ◌∙◌, Bool, true, false, List, [], ◌∷◌, ◌++◌,
  leb, if◌then◌else◌, arith, length, get_or, set, take, Bool-cases, inl, inr, length-set,
  length-take,
}
use girth.Transfer.Connection.Listen.{
  Worker, serving, released, finished, Listener, is_finished, swap_remove, reap, accept, is_serving,
  count, Step, reaps, accepts, releases, ends, Reach, start, after,
}

module _ (p : Worker → Bool) where
  abbrev worth : Worker → ℕ
  worth w = if p w then 1 else 0

  count-append : (xs ys : List Worker) → count p (xs ++ ys) ≡ count p xs + count p ys
  count-append [] ys = omega arith
  count-append (x ∷ xs) ys = omega (arith, count-append xs ys)

  -- A write changes the count by what it replaces.
  count-set :
      (ws : List Worker) (i : ℕ) (w : Worker)
      → i < length ws
      → count p (set ws i w) + worth (get_or ws i finished) ≡ count p ws + worth w
  count-set [] i w h = elim h [ ]
  count-set (x ∷ ws) zero w h = omega arith
  count-set (x ∷ ws) (suc i) w h = omega (arith, count-set ws i w (omega arith))

  count_last :
      (ws : List Worker) (k : ℕ)
      → suc k ≡ length ws
      → count p (take k ws) + worth (get_or ws k finished) ≡ count p ws
  count_last [] k h = absurd (omega arith)
  count_last (x ∷ []) zero h = omega arith
  count_last (x ∷ []) (suc k) h = absurd (omega arith)
  count_last (x ∷ y ∷ ws) zero h = absurd (omega arith)
  count_last (x ∷ y ∷ ws) (suc k) h = omega (arith, count_last (y ∷ ws) k (omega arith))

  count_next :
      (ws : List Worker) (i : ℕ)
      → i < length ws
      → count p (take (suc i) ws) ≡ count p (take i ws) + worth (get_or ws i finished)
  count_next [] i h = elim h [ ]
  count_next (x ∷ ws) zero h = omega arith
  count_next (x ∷ ws) (suc i) h = omega (arith, count_next ws i (omega arith))

last_kept :
    (ws : List Worker) (i k : ℕ)
    → k < length ws
    → get_or (set ws i (get_or ws k finished)) k finished ≡ get_or ws k finished
last_kept [] i k h = refl
last_kept (x ∷ ws) zero zero h = refl
last_kept (x ∷ ws) zero (suc k) h = refl
last_kept (x ∷ ws) (suc i) zero h = refl
last_kept (x ∷ ws) (suc i) (suc k) h = last_kept ws i k (omega arith)

-- Removing a worker takes it from the count and nothing else.
count-swap_remove :
    (p : Worker → Bool) (ws : List Worker) (i : ℕ)
    → i < length ws
    → count p (swap_remove i ws) + worth p (get_or ws i finished) ≡ count p ws
count-swap_remove p ws i h =
    let k = length ws - 1 in
    let last = get_or ws k finished in
    let there : worth p (get_or (set ws i last) k finished) ≡ worth p last =
      ap (worth p) (last_kept ws i k (omega arith)) in
    omega (
      arith,
      count_last p (set ws i last) k (omega (arith, length-set ws i last)),
      count-set p ws i last h,
      there,
    )

length-swap_remove : (ws : List Worker) (i : ℕ) → length (swap_remove i ws) ≡ length ws - 1
length-swap_remove ws i =
    let last = get_or ws (length ws - 1) finished in
    omega (arith, length-take (length ws - 1) (set ws i last), length-set ws i last)

take-take-set :
    (ws : List Worker) (i k : ℕ) (w : Worker) → i ≤ k → take i (take k (set ws i w)) ≡ take i ws
take-take-set [] zero k w h = refl
take-take-set [] (suc i) zero w h = refl
take-take-set [] (suc i) (suc k) w h = refl
take-take-set (x ∷ ws) zero k w h = refl
take-take-set (x ∷ ws) (suc i) zero w h = absurd (omega arith)
take-take-set (x ∷ ws) (suc i) (suc k) w h = ap (◌∷◌ x) (take-take-set ws i k w (omega arith))

-- What reaping keeps: the workers that serve; and it leaves no finished one from `i` on.
record Reaped (i : ℕ) (ws out : List Worker) : Type 0 where
  serving_same : count is_serving out ≡ count is_serving ws
  finished_gone : count is_finished out ≡ count is_finished (take i ws)

take_whole : (ws : List Worker) (i : ℕ) → length ws ≤ i → take i ws ≡ ws
take_whole [] zero h = refl
take_whole [] (suc i) h = refl
take_whole (x ∷ ws) zero h = absurd (omega arith)
take_whole (x ∷ ws) (suc i) h = ap (◌∷◌ x) (take_whole ws i (omega arith))

not_serving : (w : Worker) → is_finished w ≡ true → is_serving w ≡ false
not_serving serving e = cc
not_serving released e = refl
not_serving finished e = refl

reap-Reaped : (fuel i : ℕ) (ws : List Worker) → length ws ≤ fuel + i → Reaped i ws (reap fuel i ws)
reap-Reaped zero i ws h = record {
  serving_same = refl;
  finished_gone = ap (count is_finished) (sym (take_whole ws i (omega arith)));
}
reap-Reaped (suc fuel) i ws h = elim (Bool-cases (leb (length ws) i)) [
  | inl e ↦ rw e (record {
    serving_same = refl;
    finished_gone = ap (count is_finished) (sym (take_whole ws i (ground arith)));
  })
  | inr e ↦ elim (Bool-cases (is_finished (get_or ws i finished))) [
    | inl q ↦
        let r = reap-Reaped fuel i (swap_remove i ws) (omega (arith, length-swap_remove ws i)) in
        let inside : i < length ws = ground arith in
        let none_served : worth is_serving (get_or ws i finished) ≡ 0 =
          rw (not_serving (get_or ws i finished) q) refl in
        rw (e, q)
          (record {
            serving_same =
                r.serving_same
                ∙ omega (arith, count-swap_remove is_serving ws i inside, none_served);
            finished_gone =
                r.finished_gone
                ∙ ap (count is_finished) (
                    take-take-set ws i (length ws - 1) (get_or ws (length ws - 1) finished)
                      (omega (arith, inside)));
          })
    | inr q ↦
        let r = reap-Reaped fuel (suc i) ws (omega arith) in
        let inside : i < length ws = ground arith in
        let unfinished : worth is_finished (get_or ws i finished) ≡ 0 = rw q refl in
        rw (e, q)
          (record {
            serving_same = r.serving_same;
            finished_gone =
                r.finished_gone ∙ omega (arith, count_next is_finished ws i inside, unfinished);
          })
  ]
]

-- The count of active connections is the number of threads that serve, within the limit.
record IsBounded (limit : ℕ) (l : Listener) : Type 0 where
  within : l.active ≤ limit
  counted : l.active ≡ count is_serving l.workers

Step-IsBounded :
    (limit : ℕ) {l l' : Listener} → Step limit l l' → IsBounded limit l → IsBounded limit l'
unfolding accept
Step-IsBounded limit (reaps l) v = record {
  within = v.within;
  counted = v.counted ∙ sym (reap-Reaped (length l.workers) 0 l.workers (omega arith)).serving_same;
}
Step-IsBounded limit (accepts l) v = elim (Bool-cases (leb limit l.active)) [
  | inl e ↦ rw e v
  | inr e ↦ rw e (record {
    within = ground (arith, e);
    counted = omega (arith, v.counted, count-append is_serving l.workers (serving ∷ []));
  })
]
Step-IsBounded limit (releases l i h s) v =
    let one : worth is_serving (get_or l.workers i finished) ≡ 1 = rw s refl in
    record {
      within = omega (arith, v.within);
      counted = omega (arith, v.counted, count-set is_serving l.workers i released h, one);
    }
Step-IsBounded limit (ends l i h s) v =
    let nothing : worth is_serving (get_or l.workers i finished) ≡ 0 = rw s refl in
    record {
      within = v.within;
      counted = v.counted ∙ omega (arith, count-set is_serving l.workers i finished h, nothing);
    }

-- In any order of accepts, ends of threads and reaping, the server serves at most `limit` connections at
-- once, which its count says; and a pass of the reaping loop, which ends, keeps the threads that serve
-- and leaves no finished one.
pub listen-bounded :
    (limit : ℕ) (l : Listener)
    → Reach limit l
    → (count is_serving l.workers ≤ limit)
      × (l.active ≡ count is_serving l.workers)
      × (count is_serving (reap (length l.workers) 0 l.workers) ≡ count is_serving l.workers)
      × (count is_finished (reap (length l.workers) 0 l.workers) ≡ 0)
listen-bounded limit l r =
    let v = invariant l r in
    let out = reap-Reaped (length l.workers) 0 l.workers (omega arith) in
    (omega (arith, v.within, v.counted), v.counted, out.serving_same, out.finished_gone)
  where
    invariant : (l : Listener) → Reach limit l → IsBounded limit l
    invariant l start = record { within = omega arith; counted = refl }
    invariant l (after {l = m} r s) = Step-IsBounded limit s (invariant m r)
