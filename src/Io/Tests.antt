-- ===== src/Io/Tests.antt =====
-- src/io.rs at concrete inputs.
use girth.Prelude.{ℕ, ◌+◌, ◌≡◌, refl, List, [], ◌∷◌, ◌++◌, some, arith}
use girth.Io.Crc.{IsAppend, source_crc32c, source_crc32c-eq-append}
use girth.Io.Memory.{MemSink, mem_source, mem_source-Holds, write_all_at}

-- A sum in place of the checksum.
abbrev sum : ℕ → List ℕ → ℕ
sum c [] = c
sum c (b ∷ bs) = sum (c + b) bs

sum-append : (c : ℕ) (a b : List ℕ) → sum (sum c a) b ≡ sum c (a ++ b)
sum-append c [] b = refl
sum-append c (x ∷ a) b = sum-append (c + x) a b

sum-IsAppend : IsAppend sum
sum-IsAppend = record { append_append = sum-append; append_nil = λ c. refl }

abbrev five : List ℕ
five = 7 ∷ 8 ∷ 9 ∷ 1 ∷ 2 ∷ []

source_crc32c-eq-append_example : source_crc32c sum (mem_source five) ≡ some 27
source_crc32c-eq-append_example =
    source_crc32c-eq-append sum sum-IsAppend (mem_source five) five
      (mem_source-Holds five (omega arith))

abbrev grown : MemSink
grown = 7 ∷ 8 ∷ 9 ∷ 1 ∷ 2 ∷ 0 ∷ 4 ∷ 5 ∷ []

grown_write : write_all_at five 6 (4 ∷ 5 ∷ []) ≡ some grown
unfolding write_all_at
grown_write = refl
