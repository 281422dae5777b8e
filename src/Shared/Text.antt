-- ===== src/Shared/Text.antt =====
-- Texts as the lists of their bytes: what the source uses of `str`.
use Prim.Native.Char.{code}
use Prim.Native.String.{String}
use girth.Prelude.{
  ℕ, zero, suc, ◌+◌, ◌/◌, ◌%◌, ◌≡◌, refl, sym, subst, ap, ap₂, Bool, true, false, ◌&&◌, ◌||◌, List,
  [], ◌∷◌, ◌++◌, map, Option, none, some, leb, ◌==◌, ==_iff, ==_refl, if◌then◌else◌, arith,
  Bool-cases, inl, inr,
}
use girth.Prelude.Int.{ℤ, pos, negsuc}

-- The bytes of an ASCII text. `String` has its own `[]` and `∷`.
abbrev pub text : String → List ℕ
text String.[] = []
text (String.◌∷◌ c s) = code c ∷ text s

abbrev pub to_lower : ℕ → ℕ
to_lower b = if leb 65 b && leb b 90 then b + 32 else b

unfoldable pub to_ascii_lowercase : List ℕ → List ℕ
to_ascii_lowercase s = map to_lower s

abbrev pub starts_with : List ℕ → List ℕ → Bool
starts_with s [] = true
starts_with [] (p ∷ ps) = false
starts_with (x ∷ s) (p ∷ ps) = x == p && starts_with s ps

unfoldable pub contains : List ℕ → List ℕ → Bool
contains [] p = starts_with [] p
contains (x ∷ s) p = starts_with (x ∷ s) p || contains s p

-- The last place of a byte.
abbrev pub rfind : List ℕ → ℕ → Option ℕ
rfind [] b = none
rfind (x ∷ s) b = elim (rfind s b) [
  | some i ↦ some (suc i)
  | none ↦ if x == b then some 0 else none
]

-- The digits of a number below 2 ^ 64, of which there are at most 20.
abbrev digits_loop : ℕ → ℕ → List ℕ → List ℕ
digits_loop zero n acc = acc
digits_loop (suc fuel) n acc =
    let rest = digits_loop fuel (n / 10) ((48 + n % 10) ∷ acc) in
    if n / 10 == 0 then (48 + n % 10) ∷ acc else rest

unfoldable pub show_u64 : ℕ → List ℕ
show_u64 n = digits_loop 20 n []

unfoldable pub show_i64 : ℤ → List ℕ
unfolding show_u64
show_i64 (pos n) = show_u64 n
show_i64 (negsuc n) = 45 ∷ show_u64 (suc n)

-- Where a text stands in another.
pub record Occurs (p s : List ℕ) : Type 0 where
  pub before : List ℕ
  pub behind : List ℕ
  pub parts : s ≡ before ++ (p ++ behind)

starts_with-append : (p t : List ℕ) → starts_with (p ++ t) p ≡ true
starts_with-append [] t = refl
starts_with-append (x ∷ p) t = rw (==_refl x) (starts_with-append p t)

starts_with-parts : (s p : List ℕ) → starts_with s p ≡ true → (t : List ℕ) × (s ≡ p ++ t)
starts_with-parts s [] h = (s, refl)
starts_with-parts [] (p ∷ ps) h = cc
starts_with-parts (x ∷ s) (p ∷ ps) h = elim (Bool-cases (x == p)) [
  | inl e ↦
      let (t, q) = starts_with-parts s ps (rw e at h) in
      (t, ap₂ (λ a (l : List ℕ). a ∷ l) ((==_iff x p).0 e) q)
  | inr e ↦ cc (rw e at h)
]

pub contains-Occurs : (s p : List ℕ) → contains s p ≡ true → Occurs p s
unfolding contains
contains-Occurs [] p h =
    let (t, q) = starts_with-parts [] p h in record { before = []; behind = t; parts = q }
contains-Occurs (x ∷ s) p h = elim (Bool-cases (starts_with (x ∷ s) p)) [
  | inl e ↦
      let (t, q) = starts_with-parts (x ∷ s) p e in record { before = []; behind = t; parts = q }
  | inr e ↦
      let o = contains-Occurs s p (rw e at h) in
      record { before = x ∷ o.before; behind = o.behind; parts = ap (◌∷◌ x) o.parts }
]

contains-append : (before p behind : List ℕ) → contains (before ++ (p ++ behind)) p ≡ true
unfolding contains
contains-append [] p behind = front (p ++ behind) (starts_with-append p behind)
  where
    front : (s : List ℕ) → starts_with s p ≡ true → contains s p ≡ true
    front [] h = h
    front (x ∷ s) h = rw h refl
contains-append (x ∷ before) p behind = ground (arith, contains-append before p behind)

pub contains-present : (s p : List ℕ) → Occurs p s → contains s p ≡ true
contains-present s p o =
    subst (λ t. contains t p ≡ true) (sym o.parts) (contains-append o.before p o.behind)

pub contains-absent : (s p : List ℕ) → ¬ Occurs p s → contains s p ≡ false
contains-absent s p h = elim (Bool-cases (contains s p)) [
  | inl e ↦ absurd (h (contains-Occurs s p e))
  | inr e ↦ e
]
