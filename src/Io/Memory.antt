-- ===== src/Io/Memory.antt =====
-- MemSource and MemSink (src/io.rs).
use girth.Prelude.{
  false, length-append, length-replicate, ℕ, zero, suc, ◌+◌, ◌-◌, ◌^◌, ◌≤◌, ◌<◌, ◌≡◌, refl, sym, ap,
  ◌∙◌, Bool, true, ◌&&◌, ◌||◌, List, [], ◌∷◌, ◌++◌, Option, none, some, arith, length, get_or,
  replicate, leb, ltb, if◌then◌else◌, Option-cases, subst, Bool-cases, inl, inr,
}
use girth.Protocol.Bytes.{slice, put}
use girth.Io.{BlockSource, Holds, BlockSink}

-- `MemSource` over `data`: the end of the range is computed with overflow checked.
unfoldable pub mem_source : List ℕ → BlockSource
mem_source bytes = record {
  len = length bytes;
  read_exact_at = λ off n.
      if leb (2 ^ 64) (off + n) || ltb (length bytes) (off + n)
      then none
      else some (slice off (off + n) bytes);
}

pub mem_source-Holds : (bytes : List ℕ) → length bytes < 2 ^ 64 → Holds (mem_source bytes) bytes
unfolding mem_source
mem_source-Holds bytes h = record { len_same = refl; reads = λ off n k. ground arith }

abbrev pub MemSink : Type 0
MemSink = List ℕ

-- `allocate`: the buffer is cleared and filled with zeros.
unfoldable pub allocate : ℕ → MemSink → MemSink
allocate len s = replicate len 0

-- `b.resize(end, 0)` where the buffer is shorter, then the copy.
unfoldable pub write_all_at : MemSink → ℕ → List ℕ → Option MemSink
write_all_at s off bs =
    let grown =
      if ltb (length s) (off + length bs)
      then s ++ replicate (off + length bs - length s) 0
      else s in
    if leb (2 ^ 64) (off + length bs) then none else put off bs grown

-- A copy into range succeeds, keeps the length, and changes the bytes that it covers.
pub put-succeeds :
    (off : ℕ) (bs buf : List ℕ)
    → off + length bs ≤ length buf
    → (out : List ℕ) × (put off bs buf ≡ some out) × (length out ≡ length buf)
put-succeeds zero [] buf h = (buf, refl, refl)
put-succeeds zero (b ∷ bs) [] h = absurd (omega arith)
put-succeeds zero (b ∷ bs) (x ∷ buf) h =
    let (out, e, k) = put-succeeds zero bs buf (omega arith) in (b ∷ out, rw e refl, ap suc k)
put-succeeds (suc off) bs [] h = absurd (omega arith)
put-succeeds (suc off) bs (x ∷ buf) h =
    let (out, e, k) = put-succeeds off bs buf (omega arith) in (x ∷ out, rw e refl, ap suc k)

-- The byte at `i` after a copy.
abbrev copied : ℕ → List ℕ → List ℕ → ℕ → ℕ
copied off bs buf i =
    if leb off i && ltb i (off + length bs) then get_or bs (i - off) 0 else get_or buf i 0

-- One byte further in front of a copy.
abbrev Copies : ℕ → List ℕ → List ℕ → List ℕ → Type 0
Copies off bs buf out = (i : ℕ) → get_or out i 0 ≡ copied off bs buf i

Copies-written :
    (b x : ℕ) (bs buf out : List ℕ)
    → Copies zero bs buf out
    → Copies zero (b ∷ bs) (x ∷ buf) (b ∷ out)
Copies-written b x bs buf out h zero = ground arith
Copies-written b x bs buf out h (suc i) = ground (arith, h i)

Copies-skipped :
    (x off : ℕ) (bs buf out : List ℕ)
    → Copies off bs buf out
    → Copies (suc off) bs (x ∷ buf) (x ∷ out)
Copies-skipped x off bs buf out h zero = ground arith
Copies-skipped x off bs buf out h (suc i) = ground (arith, h i)

Copies-nil : (buf : List ℕ) → Copies zero [] buf buf
Copies-nil buf i = ground arith

get_or-put : (off : ℕ) (bs buf out : List ℕ) → put off bs buf ≡ some out → Copies off bs buf out
get_or-put zero [] buf out e = subst (Copies zero [] buf) (cc) (Copies-nil buf)
get_or-put zero (b ∷ bs) [] out e = cc
get_or-put zero (b ∷ bs) (x ∷ buf) out e = elim (Option-cases (put zero bs buf)) [
  | inl q ↦ cc (rw q at e)
  | inr (rest, q) ↦
      let same : b ∷ rest ≡ out = cc (rw q at e) in
      subst (Copies zero (b ∷ bs) (x ∷ buf)) same
        (Copies-written b x bs buf rest (get_or-put zero bs buf rest q))
]
get_or-put (suc off) bs [] out e = cc
get_or-put (suc off) bs (x ∷ buf) out e = elim (Option-cases (put off bs buf)) [
  | inl q ↦ cc (rw q at e)
  | inr (rest, q) ↦
      let same : x ∷ rest ≡ out = cc (rw q at e) in
      subst (Copies (suc off) bs (x ∷ buf)) same
        (Copies-skipped x off bs buf rest (get_or-put off bs buf rest q))
]

get_or-zeros : (n i : ℕ) → get_or (replicate {A = ℕ} n 0) i 0 ≡ 0
get_or-zeros zero i = refl
get_or-zeros (suc n) zero = refl
get_or-zeros (suc n) (suc i) = get_or-zeros n i

get_or-grown : (s : List ℕ) (n i : ℕ) → get_or (s ++ replicate n 0) i 0 ≡ get_or s i 0
get_or-grown [] n i = get_or-zeros n i
get_or-grown (x ∷ s) n zero = refl
get_or-grown (x ∷ s) n (suc i) = get_or-grown s n i

-- A write of a `MemSink` sets the bytes that it covers and leaves the others; past the end the sink
-- reads as zeros.
pub write_all_at-copies :
    (s s' : MemSink) (off i : ℕ) (bs : List ℕ)
    → write_all_at s off bs ≡ some s'
    → get_or s' i 0 ≡ copied off bs s i
unfolding write_all_at
write_all_at-copies s s' off i bs e = elim (Bool-cases (leb (2 ^ 64) (off + length bs))) [
  | inl far ↦ cc (rw far at e)
  | inr near ↦ elim (Bool-cases (ltb (length s) (off + length bs))) [
    | inr fits ↦ get_or-put off bs s s' (rw (near, fits) at e) i
    | inl short ↦
        let grown = s ++ replicate (off + length bs - length s) 0 in
        let n = off + length bs - length s in
        get_or-put off bs grown s' (rw (near, short) at e) i
        ∙ ap (λ (t : ℕ). if leb off i && ltb i (off + length bs) then get_or bs (i - off) 0 else t)
            (get_or-grown s n i)
  ]
]

-- The sink behind a write; one that is refused leaves the sink as it was.
abbrev pub tried : MemSink → Option MemSink → Bool × MemSink
tried s none = (false, s)
tried s (some s') = (true, s')

pub tried-some :
    (s : MemSink) (o : Option MemSink) (s' : MemSink) → tried s o ≡ (true, s') → o ≡ some s'
tried-some s none s' e = cc
tried-some s (some x) s' e = ap (λ (t : Bool × MemSink). some (t.1)) e

pub tried-none :
    (s : MemSink) (o : Option MemSink) (s' : MemSink) (i : ℕ)
    → tried s o ≡ (false, s')
    → get_or s' i 0 ≡ get_or s i 0
tried-none s none s' i e = sym (ap (λ (t : Bool × MemSink). get_or (t.1) i 0) e)
tried-none s (some x) s' i e = cc

-- The receiver's interface, as `MemSink` fills it.
unfoldable pub mem_sink : BlockSink MemSink
mem_sink = record {
  write_all_at = λ s off bs. tried s (write_all_at s off bs);
  byte_at = λ s i. get_or s i 0;
  writes = λ s s' off i bs e.
      write_all_at-copies s s' off i bs (tried-some s (write_all_at s off bs) s' e);
  fails = λ s s' off i bs e h. tried-none s (write_all_at s off bs) s' i e;
}

-- A write into an allocated sink succeeds and keeps its length.
pub write_all_at-succeeds :
    (s : MemSink) (off : ℕ) (bs : List ℕ)
    → off + length bs ≤ length s
    → length s < 2 ^ 64
    → (s' : MemSink) × (write_all_at s off bs ≡ some s') × (length s' ≡ length s)
unfolding write_all_at
write_all_at-succeeds s off bs h k =
    let (out, e, l) = put-succeeds off bs s h in (out, ground (arith, e), l)

lt→leb : (a b : ℕ) → a < b → leb b a ≡ false
lt→leb a b h = ground arith

-- A write that ends within 64 bits succeeds, and grows the sink where it is too short.
pub write_all_at-total :
    (s : MemSink) (off : ℕ) (bs : List ℕ)
    → off + length bs < 2 ^ 64
    → (s' : MemSink) × (write_all_at s off bs ≡ some s')
unfolding write_all_at
write_all_at-total s off bs h =
    let near = lt→leb (off + length bs) (2 ^ 64) h in
    elim (Bool-cases (ltb (length s) (off + length bs))) [
      | inl short ↦
          let (out, e, _) = put-succeeds off bs (s ++ replicate (off + length bs - length s) 0) (
            omega (
              arith,
              length-append s (replicate (off + length bs - length s) 0),
              length-replicate {A = ℕ} (off + length bs - length s) 0,
            )) in
          (out, rw (near, short, e) refl)
      | inr fits ↦
          let (out, e, _) = put-succeeds off bs s (ground (arith, fits)) in
          (out, rw (near, fits, e) refl)
    ]
