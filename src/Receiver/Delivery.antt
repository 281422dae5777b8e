-- ===== src/Receiver/Delivery.antt =====
-- What the receiver (src/receiver.rs) stages and writes is the file.
pub mod Steps
pub mod Packet
pub mod Arrival
pub mod Run
mod Tests
use girth.Prelude.{
  ℕ, zero, suc, ◌+◌, ◌-◌, ◌*◌, ◌%◌, ◌^◌, ◌≤◌, ◌<◌, ◌≡◌, ◌≢◌, ◌⊎◌, inl, inr, refl, sym, ap, subst,
  ◌∙◌, Bool, true, false, not, ◌&&◌, ◌||◌, List, [], ◌∷◌, Option, none, some, ◌>>=◌, arith, ltb,
  leb, ◌==◌, ==_refl, ==_iff, lt→ltb, ltb→lt, if◌then◌else◌, length, get_or, take, drop, min,
  length-take, Option-cases, Bool-cases,
}
use girth.Shared.Float.{Float}
use girth.Io.{BlockSink}
use girth.LossTracker.Bitmap.{RecvBitmap, has, Covers, set_and_test, is_set}
use girth.LossTracker.Bitmap.Laws.{set_and_test_marks, is_set_lem}
use girth.Sender.Pdu.Wire.{block}
use girth.Receiver.{RecvShared, Receiver, staged, unstage}

mul-gap : (a b c : ℕ) → a < b → a * c + c ≤ b * c
mul-gap a zero c h = absurd (omega arith)
mul-gap a (suc b) c h = elim (Bool-cases (ltb a b)) [
  | inl e ↦ omega (arith, mul-gap a b c (ground (arith, e)))
  | inr e ↦ let same : a ≡ b = ground (arith, e, h) in rw same (omega arith)
]

staged-unstage_same : (j : ℕ) (xs : List (ℕ × List ℕ)) → staged j (unstage j xs) ≡ none
staged-unstage_same j [] = refl
staged-unstage_same j ((k, b) ∷ xs) = elim (Bool-cases (k == j)) [
  | inl e ↦ rw e (staged-unstage_same j xs)
  | inr e ↦ rw (e, e) (staged-unstage_same j xs)
]

staged-unstage :
    (i j : ℕ) (xs : List (ℕ × List ℕ)) → (i == j) ≡ false → staged j (unstage i xs) ≡ staged j xs
staged-unstage i j [] e = refl
staged-unstage i j ((k, b) ∷ xs) e = elim (Bool-cases (k == i)) [
  | inl a ↦
      let other : (k == j) ≡ false = ground (arith, a, e) in rw (a, other) (staged-unstage i j xs e)
  | inr a ↦ rw a (ap (λ t. if k == j then some b else t) (staged-unstage i j xs e))
]

module _ {S : Type 0} (io : BlockSink S) (size : ℕ) (bytes : List ℕ) where
  -- Block `j` of the file stands in the sink.
  abbrev pub Written : S → ℕ → Type 0
  Written s j =
      (i : ℕ)
      → i < length (block size bytes j)
      → io.byte_at s (j * size + i) ≡ get_or (block size bytes j) i 0

  write-Written :
      (s s' : S) (j : ℕ)
      → io.write_all_at s (j * size) (block size bytes j) ≡ (true, s')
      → Written s' j
  write-Written s s' j e i h =
      io.writes s s' (j * size) (j * size + i) (block size bytes j) e
      ∙ rw (lt→ltb (j * size + i) (j * size + length (block size bytes j)) (omega (arith, h)))
          (ground arith)

  -- A byte of block `j` is not in the range of another block.
  outside :
      (k j i : ℕ)
      → (j == k) ≡ false
      → i < length (block size bytes j)
      → (leb (k * size) (j * size + i)
          && ltb (j * size + i) (k * size + length (block size bytes k)))
        ≡ false
  outside k j i n h = elim (Bool-cases (ltb j k)) [
    | inl a ↦ ground (arith, a, mul-gap j k size (ltb→lt j k a), short j, h)
    | inr a ↦ ground (arith, a, n, mul-gap k j size (ground (arith, a, n)), short k)
  ]
    where
      short : (m : ℕ) → length (block size bytes m) ≤ size
      short m = omega (arith, length-take size (drop (m * size) bytes))

  write-keeps_Written :
      (s s' : S) (k j : ℕ)
      → io.write_all_at s (k * size) (block size bytes k) ≡ (true, s')
      → (j == k) ≡ false
      → Written s j
      → Written s' j
  write-keeps_Written s s' k j e n w i h =
      io.writes s s' (k * size) (j * size + i) (block size bytes k) e
      ∙ rw (outside k j i n h) (w i h)

  fail-keeps_Written :
      (s s' : S) (k j : ℕ)
      → io.write_all_at s (k * size) (block size bytes k) ≡ (false, s')
      → (j == k) ≡ false
      → Written s j
      → Written s' j
  fail-keeps_Written s s' k j e n w i h =
      io.fails s s' (k * size) (j * size + i) (block size bytes k) e (outside k j i n h) ∙ w i h

  -- The receiver's promise, on the fields that it speaks of. Blocks below `flushed` are in the sink;
  -- a ready block from there on is staged or in the sink; what is staged is the block.
  pub record Delivery (total : ℕ) (bm ready : RecvBitmap) (flushed : ℕ) (stage : List (ℕ × List ℕ))
      (s : S) : Type 0 where
    pub covers : Covers ready total
    pub flushed_le : flushed ≤ total
    pub ready_seen : (j : ℕ) → has ready j ≡ true → has bm j ≡ true
    pub flushed_ready : (j : ℕ) → j < flushed → has ready j ≡ true
    pub on_disk : (j : ℕ) → j < flushed → Written s j
    pub kept :
        (j : ℕ) → has ready j ≡ true → (staged j stage ≡ some (block size bytes j)) ⊎ Written s j
    pub right : (j : ℕ) (b : List ℕ) → staged j stage ≡ some b → b ≡ block size bytes j

  module _ {total : ℕ} {bm ready : RecvBitmap} {flushed : ℕ} {stage : List (ℕ × List ℕ)} {s : S}
      (d : Delivery total bm ready flushed stage s) (seq : ℕ) where
    -- A block that is kept becomes ready.
    pub ready_too :
        (ready' : RecvBitmap)
        → ((j : ℕ) → has ready' j ≡ (j == seq || has ready j))
        → Covers ready' total
        → has bm seq ≡ true
        → (staged seq stage ≡ some (block size bytes seq)) ⊎ Written s seq
        → Delivery total bm ready' flushed stage s
    ready_too ready' marks c seen k = record {
      covers = c;
      flushed_le = d.flushed_le;
      ready_seen = λ j e. elim (Bool-cases (j == seq)) [
        | inl q ↦ subst (λ m. has bm m ≡ true) (sym ((==_iff j seq).0 q)) seen
        | inr q ↦ d.ready_seen j (sym (marks j ∙ rw q refl) ∙ e)
      ];
      flushed_ready = λ j h. marks j ∙ rw (d.flushed_ready j h) (ground arith);
      on_disk = d.on_disk;
      kept = λ j e. elim (Bool-cases (j == seq)) [
        | inl q ↦
            subst (λ m. (staged m stage ≡ some (block size bytes m)) ⊎ Written s m)
              (sym ((==_iff j seq).0 q)) k
        | inr q ↦ d.kept j (sym (marks j ∙ rw q refl) ∙ e)
      ];
      right = d.right;
    }

    -- A block is put on the stage.
    pub stage_too :
        has ready seq ≡ false
        → Delivery total bm ready flushed ((seq, block size bytes seq) ∷ unstage seq stage) s
    stage_too unready = record {
      covers = d.covers;
      flushed_le = d.flushed_le;
      ready_seen = d.ready_seen;
      flushed_ready = d.flushed_ready;
      on_disk = d.on_disk;
      kept = λ j e. elim (Bool-cases (seq == j)) [
        | inl q ↦ cc (subst (λ m. has ready m ≡ false) ((==_iff seq j).0 q) unready)
        | inr q ↦ rw (q, staged-unstage seq j stage q) (d.kept j e)
      ];
      right = λ j b e. elim (Bool-cases (seq == j)) [
        | inl q ↦ subst (λ m. b ≡ block size bytes m) ((==_iff seq j).0 q) (cc (rw q at e))
        | inr q ↦ d.right j b (sym (staged-unstage seq j stage q) ∙ (rw q at e))
      ];
    }

    -- A block is written into the sink.
    pub write_too :
        (s' : S)
        → io.write_all_at s (seq * size) (block size bytes seq) ≡ (true, s')
        → Delivery total bm ready flushed stage s' × Written s' seq
    write_too s' w = (
      record {
        covers = d.covers;
        flushed_le = d.flushed_le;
        ready_seen = d.ready_seen;
        flushed_ready = d.flushed_ready;
        on_disk = λ j h. written j (d.on_disk j h);
        kept = λ j e. elim (d.kept j e) [ inl k ↦ inl k | inr k ↦ inr (written j k) ];
        right = d.right;
      },
      write-Written s s' seq w,
    )
      where
        written : (j : ℕ) → Written s j → Written s' j
        written j k = elim (Bool-cases (j == seq)) [
          | inl q ↦ subst (Written s') (sym ((==_iff j seq).0 q)) (write-Written s s' seq w)
          | inr q ↦ write-keeps_Written s s' seq j w q k
        ]

    -- The write of a block that is not ready fails.
    pub fail_too :
        (s' : S)
        → io.write_all_at s (seq * size) (block size bytes seq) ≡ (false, s')
        → has ready seq ≡ false
        → Delivery total bm ready flushed stage s'
    fail_too s' w unready = record {
      covers = d.covers;
      flushed_le = d.flushed_le;
      ready_seen = d.ready_seen;
      flushed_ready = d.flushed_ready;
      on_disk = λ j h. stays j (d.flushed_ready j h) (d.on_disk j h);
      kept = λ j e. elim (d.kept j e) [ inl k ↦ inl k | inr k ↦ inr (stays j e k) ];
      right = d.right;
    }
      where
        stays : (j : ℕ) → has ready j ≡ true → Written s j → Written s' j
        stays j e k = elim (Bool-cases (j == seq)) [
          | inl q ↦ cc (subst (λ m. has ready m ≡ true) ((==_iff j seq).0 q) e)
          | inr q ↦ fail-keeps_Written s s' seq j w q k
        ]

    -- A written block leaves the stage.
    pub unstage_too : Written s seq → Delivery total bm ready flushed (unstage seq stage) s
    unstage_too w = record {
      covers = d.covers;
      flushed_le = d.flushed_le;
      ready_seen = d.ready_seen;
      flushed_ready = d.flushed_ready;
      on_disk = d.on_disk;
      kept = λ j e. elim (Bool-cases (seq == j)) [
        | inl q ↦ inr (subst (Written s) ((==_iff seq j).0 q) w)
        | inr q ↦ rw (staged-unstage seq j stage q) (d.kept j e)
      ];
      right = λ j b e. elim (Bool-cases (seq == j)) [
        | inl q ↦
            absurd_none j b
              (subst (λ m. staged m (unstage seq stage) ≡ none) ((==_iff seq j).0 q)
                (staged-unstage_same seq stage))
              e
        | inr q ↦ d.right j b (sym (staged-unstage seq j stage q) ∙ e)
      ];
    }
      where
        absurd_none :
            (j : ℕ) (b : List ℕ)
            → staged j (unstage seq stage) ≡ none
            → staged j (unstage seq stage) ≡ some b
            → b ≡ block size bytes j
        absurd_none j b n e = cc

    -- The front moves over a ready block that is in the sink.
    pub front_too :
        flushed < total
        → has ready flushed ≡ true
        → Written s flushed
        → Delivery total bm ready (flushed + 1) stage s
    front_too h r w = record {
      covers = d.covers;
      flushed_le = omega arith;
      ready_seen = d.ready_seen;
      flushed_ready = λ j k. elim (Bool-cases (ltb j flushed)) [
        | inl q ↦ d.flushed_ready j (ltb→lt j flushed q)
        | inr q ↦ subst (λ m. has ready m ≡ true) (last j q k) r
      ];
      on_disk = λ j k. elim (Bool-cases (ltb j flushed)) [
        | inl q ↦ d.on_disk j (ltb→lt j flushed q)
        | inr q ↦ subst (Written s) (last j q k) w
      ];
      kept = d.kept;
      right = d.right;
    }
      where
        last : (j : ℕ) → ltb j flushed ≡ false → j < flushed + 1 → flushed ≡ j
        last j q k = ground (arith, q, k)
