-- ===== src/Sys/Writes.antt =====
-- `write_all_at` (src/sys/mod.rs) writes all bytes, or fails.
use girth.Prelude.{
  ℕ, zero, suc, ◌+◌, ◌-◌, ◌%◌, ◌^◌, ◌≤◌, ◌<◌, ◌≡◌, refl, ap, ◌∙◌, inl, inr, Bool, true, false, ◌&&◌,
  List, [], ◌∷◌, arith, leb, ltb, length, get_or, drop, length-drop, if◌then◌else◌, Bool-cases,
}
use girth.Receiver.Delivery.Steps.{get_or-drop}
use girth.Sys.{
  Tried, gave, interrupted, broke, File, Ended, spins, fails, ends, after_write, write_loop,
  write_all_at,
}

-- Whether an offset lies in a range of `n` bytes.
abbrev pub covered : ℕ → ℕ → ℕ → Bool
covered off n i = leb off i && ltb i (off + n)

module _ {S : Type 0} (file : File S) where
  -- All bytes stand at their offsets where the loop ends well; where it fails, nothing outside the range is
  -- changed; and it does not run out of fuel.
  abbrev pub Wrote : S → List ℕ → ℕ → Ended S Unit → Type 0
  Wrote s bs off spins = ⊥
  Wrote s bs off (fails s') =
      (i : ℕ) → covered off (length bs) i ≡ false → file.byte_at s' i ≡ file.byte_at s i
  Wrote s bs off (ends s' _) =
      (i : ℕ)
      → file.byte_at s' i
        ≡ (if covered off (length bs) i then get_or bs (i - off) 0 else file.byte_at s i)

  -- A part written, and then the rest.
  Wrote-step :
      (s s1 : S) (bs : List ℕ) (off n : ℕ)
      → n ≤ length bs
      → ((i : ℕ)
          → file.byte_at s1 i
            ≡ (if covered off n i then get_or bs (i - off) 0 else file.byte_at s i))
      → (x : Ended S Unit) → Wrote s1 (drop n bs) (off + n) x
      → Wrote s bs off x
  Wrote-step s s1 bs off n h one spins w = w
  Wrote-step s s1 bs off n h one (fails s') w =
      λ i e. w i (ground (arith, e, length-drop n bs)) ∙ one i ∙ rw (outside i e) refl
    where
      outside : (i : ℕ) → covered off (length bs) i ≡ false → covered off n i ≡ false
      outside i e = ground (arith, e, h)
  Wrote-step s s1 bs off n h one (ends s' t) w = λ i.
      elim (Bool-cases (covered (off + n) (length (drop n bs)) i)) [
        | inl e ↦
            let here : covered off (length bs) i ≡ true = ground (arith, e, length-drop n bs, h) in
            let same : n + (i - (off + n)) ≡ i - off = ground (arith, e) in
            w i
            ∙ rw (e, here) (get_or-drop n (i - (off + n)) bs ∙ ap (λ (k : ℕ). get_or bs k 0) same)
        | inr e ↦ elim (Bool-cases (covered off n i)) [
          | inl q ↦
              let here : covered off (length bs) i ≡ true = ground (arith, q, h) in
              w i ∙ rw e (one i ∙ rw (q, here) refl)
          | inr q ↦
              let out : covered off (length bs) i ≡ false =
                ground (arith, e, q, length-drop n bs, h) in
              w i ∙ rw e (one i ∙ rw (q, out) refl)
        ]
      ]

  -- A call that changed nothing.
  Wrote-again :
      (s s1 : S) (bs : List ℕ) (off : ℕ)
      → ((i : ℕ) → file.byte_at s1 i ≡ file.byte_at s i)
      → (x : Ended S Unit) → Wrote s1 bs off x
      → Wrote s bs off x
  Wrote-again s s1 bs off same spins w = w
  Wrote-again s s1 bs off same (fails s') w = λ i e. w i e ∙ same i
  Wrote-again s s1 bs off same (ends s' t) w = λ i.
      w i ∙ ap (λ (k : ℕ). if covered off (length bs) i then get_or bs (i - off) 0 else k) (same i)

  -- What the loop promises from any state on.
  abbrev Promises : ℕ → Type 0
  Promises fuel =
      (s : S) (bs : List ℕ) (off : ℕ)
      → off + length bs < 2 ^ 64
      → length bs + file.patience s ≤ fuel
      → Wrote s bs off (write_loop file fuel s bs off)

  after_write-Wrote :
      (fuel : ℕ) (s : S) (b : ℕ) (bs : List ℕ) (off : ℕ) (r : Tried ℕ) (s1 : S)
      → Promises fuel
      → file.seek_write s (b ∷ bs) off ≡ (r, s1)
      → off + length (b ∷ bs) < 2 ^ 64
      → length (b ∷ bs) + file.patience s ≤ suc fuel
      → Wrote s (b ∷ bs) off (
          after_write file
            (λ s n. write_loop file fuel s (drop n (b ∷ bs)) ((off + n) % 2 ^ 64))
            (λ s. write_loop file fuel s (b ∷ bs) off)
            (r, s1))
  after_write-Wrote fuel s b bs off (gave zero) s1 more e fits enough =
      λ i out. file.wrote s s1 (b ∷ bs) off 0 i e ∙ rw (nothing i) refl
    where
      nothing : (i : ℕ) → covered off 0 i ≡ false
      nothing i = ground arith
  after_write-Wrote fuel s b bs off (gave (suc n)) s1 more e fits enough =
      let h = file.wrote_within s s1 (b ∷ bs) off (suc n) e in
      let calm = file.wrote_calm s s1 (b ∷ bs) off (suc n) e in
      let small : (off + suc n) % 2 ^ 64 ≡ off + suc n = omega (arith, h, fits) in
      Wrote-step s s1 (b ∷ bs) off (suc n) h (λ i. file.wrote s s1 (b ∷ bs) off (suc n) i e) _
        (rw small (
          more s1 (drop (suc n) (b ∷ bs)) (off + suc n)
            (omega (arith, length-drop (suc n) (b ∷ bs), h, fits))
            (omega (arith, length-drop (suc n) (b ∷ bs), h, calm, enough))))
  after_write-Wrote fuel s b bs off interrupted s1 more e fits enough =
      Wrote-again s s1 (b ∷ bs) off (λ i. (file.wrote_nothing s s1 (b ∷ bs) off i e).0) _
        (more s1 (b ∷ bs) off fits
          (omega (arith, (file.wrote_nothing s s1 (b ∷ bs) off 0 e).1, enough)))
  after_write-Wrote fuel s b bs off broke s1 more e fits enough =
      λ i out. file.wrote_broken s s1 (b ∷ bs) off i e

  write_loop-Wrote : (fuel : ℕ) → Promises fuel
  unfolding write_loop
  write_loop-Wrote fuel s [] off fits enough = λ i. rw (nothing i) refl
    where
      nothing : (i : ℕ) → covered off 0 i ≡ false
      nothing i = ground arith
  write_loop-Wrote zero s (b ∷ bs) off fits enough = absurd (omega arith)
  write_loop-Wrote (suc fuel) s (b ∷ bs) off fits enough =
      after_write-Wrote fuel s b bs off (file.seek_write s (b ∷ bs) off).0
        (file.seek_write s (b ∷ bs) off).1 (write_loop-Wrote fuel) refl fits enough

  -- In a range that fits 64 bits, whatever parts the file takes and however often it is interrupted, the call
  -- returns: all bytes are written and no other byte is changed, or it fails, where no byte outside the range
  -- is changed.
  pub write_all_at-Wrote :
      (s : S) (bs : List ℕ) (off : ℕ)
      → off + length bs < 2 ^ 64
      → Wrote s bs off (write_all_at file s bs off)
  unfolding write_all_at
  write_all_at-Wrote s bs off fits =
      write_loop-Wrote (length bs + file.patience s) s bs off fits (omega arith)
