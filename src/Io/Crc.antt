-- ===== src/Io/Crc.antt =====
-- source_crc32c (src/io.rs): the checksum of a whole source, by chunks. `crc32c_append` is the crc32c
-- crate's: appending in two parts is appending the whole, and
-- appending nothing changes nothing.
use girth.Prelude.{
  ℕ, zero, suc, ◌+◌, ◌-◌, ◌/◌, ◌^◌, ◌≤◌, ◌<◌, ◌≡◌, refl, sym, ap, ◌∙◌, List, [], ◌∷◌, ◌++◌, Option,
  none, some, ◌>>=◌, arith, min, length, take, drop, ltb, ltb→lt, if◌then◌else◌, Bool-cases, inl,
  inr, true, false,
}
use girth.Protocol.Bytes.{slice}
use girth.Io.{BlockSource, Holds}

-- The size of the buffer, `1 << 20`.
abbrev chunk : ℕ
chunk = 2 ^ 20

pub take-nil : (n : ℕ) → take {A = ℕ} n [] ≡ []
take-nil zero = refl
take-nil (suc n) = refl

-- The part from `off` on continues the part before it.
take-append-take :
    (off n : ℕ) (xs : List ℕ) → take off xs ++ take n (drop off xs) ≡ take (off + n) xs
take-append-take zero n xs = ap (λ k. take k xs) (omega arith)
take-append-take (suc off) n [] = take-nil n ∙ sym (take-nil (suc off + n))
take-append-take (suc off) n (x ∷ xs) =
    ap (◌∷◌ x) (take-append-take off n xs)
    ∙ ap (λ k. take k (x ∷ xs)) {x = suc (off + n)} {y = suc off + n} (omega arith)

take-slice : (off n : ℕ) (xs : List ℕ) → take off xs ++ slice off (off + n) xs ≡ take (off + n) xs
take-slice off n xs =
    ap (λ k. take off xs ++ take k (drop off xs)) (omega arith) ∙ take-append-take off n xs

pub take_all : (n : ℕ) (xs : List ℕ) → length xs ≤ n → take n xs ≡ xs
take_all zero [] h = refl
take_all zero (x ∷ xs) h = absurd (omega arith)
take_all (suc n) [] h = refl
take_all (suc n) (x ∷ xs) h = ap (◌∷◌ x) (take_all n xs (omega arith))

module _ (crc32c_append : ℕ → List ℕ → ℕ) where
  -- The loop, on fuel.
  pub source_crc32c_loop : ℕ → BlockSource → ℕ → ℕ → Option ℕ
  source_crc32c_loop zero src off crc = none
  source_crc32c_loop (suc fuel) src off crc =
      let n = min (src.len - off) chunk in
      let rest = src.read_exact_at off n >>= λ bytes.
      source_crc32c_loop fuel src (off + n) (crc32c_append crc bytes) in
      if ltb off src.len then rest else some crc

  unfoldable pub source_crc32c : BlockSource → Option ℕ
  unfolding source_crc32c_loop
  source_crc32c src = source_crc32c_loop (src.len / chunk + 2) src 0 0

  pub record IsAppend : Type 0 where
    pub append_append :
        (c : ℕ) (a b : List ℕ) → crc32c_append (crc32c_append c a) b ≡ crc32c_append c (a ++ b)
    pub append_nil : (c : ℕ) → crc32c_append c [] ≡ c

  source_crc32c_loop_lem :
      IsAppend
      → (fuel : ℕ) (src : BlockSource) (bytes : List ℕ) (off c : ℕ) → Holds src bytes
      → off ≤ length bytes
      → (length bytes - off + (chunk - 1)) / chunk < fuel
      → c ≡ crc32c_append 0 (take off bytes)
      → source_crc32c_loop fuel src off c ≡ some (crc32c_append 0 bytes)
  unfolding source_crc32c_loop
  source_crc32c_loop_lem app zero src bytes off c v h k e = absurd (omega arith)
  source_crc32c_loop_lem app (suc fuel) src bytes off c v h k e =
      elim (Bool-cases (ltb off src.len)) [
        | inr stop ↦ rw stop (ap some (e ∙ ap (crc32c_append 0) (take_all off bytes (ended stop))))
        | inl more ↦
            rw (more, read)
              (source_crc32c_loop_lem app fuel src bytes (off + n) _ v (omega (arith, v.len_same))
                (falls more)
                (ap (λ (t : ℕ). crc32c_append t (slice off (off + n) bytes)) e
                  ∙ app.append_append 0 (take off bytes) (slice off (off + n) bytes)
                  ∙ ap (crc32c_append 0) (take-slice off n bytes)))
      ]
    where
      n : ℕ
      n = min (src.len - off) chunk

      ended : ltb off src.len ≡ false → length bytes ≤ off
      ended stop = ground (arith, v.len_same)

      falls : ltb off src.len ≡ true → (length bytes - (off + n) + (chunk - 1)) / chunk < fuel
      falls more = omega (arith, v.len_same, ltb→lt off src.len more)

      read : src.read_exact_at off n ≡ some (slice off (off + n) bytes)
      read = v.reads off n (omega (arith, v.len_same))

  -- The checksum by chunks is the checksum of all the bytes; the fuel is enough for a source of any
  -- length.
  pub source_crc32c-eq-append :
      IsAppend
      → (src : BlockSource) (bytes : List ℕ) → Holds src bytes
      → source_crc32c src ≡ some (crc32c_append 0 bytes)
  unfolding source_crc32c
  source_crc32c-eq-append app src bytes v =
      source_crc32c_loop_lem app _ src bytes 0 0 v (omega arith) (omega (arith, v.len_same))
        (sym (app.append_nil 0))
