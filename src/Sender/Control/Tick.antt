-- ===== src/Sender/Control/Tick.antt =====
-- A tick that `attach_tick` (src/sender.rs) stamps into a DATA PDU.
use girth.Prelude.{
  ℕ, ◌+◌, ◌-◌, ◌%◌, ◌^◌, ◌<◌, ◌≡◌, inl, inr, refl, sym, ap, ◌∙◌, Bool, true, false, List, [], ◌∷◌,
  ◌++◌, some, arith, ltb, length, take, drop, length-append, length-take, length-drop, take_left,
  take-append-drop, Bool-cases, if◌then◌else◌,
}
use mathlib.Core.List.{append_assoc, append-nil}
use girth.Prelude.Bits.{bit_or-lt, bit_and-lt}
use girth.Io.Crc.{take_all}
use girth.Protocol.Data.{DataHeader, IsHeader, header_bytes, put_echo_tick}
use girth.Sender.Pdu.{SendShared}
use girth.Sender.Pdu.Wire.{block, on_wire}
use girth.Sender.Pdu.Layout.{IsDataPdu}
use girth.Sender.Control.{TickState, attach_tick, tick_flags}

tick_flags-lt : (is_net : Bool) (flags : ℕ) → flags < 256 → tick_flags is_net flags < 256
unfolding tick_flags
tick_flags-lt true flags h = bit_or-lt 8 _ 2 (bit_or-lt 8 flags 4 h (omega arith)) (omega arith)
tick_flags-lt false flags h = bit_and-lt 8 _ 253 (bit_or-lt 8 flags 4 h (omega arith)) (omega arith)

-- Where the first `n` elements of a list are replaced by as many.
replaced :
    (n : ℕ) (buf old new : List ℕ)
    → take n buf ≡ old
    → length new ≡ length old
    → take n (new ++ drop n buf) ≡ new
replaced n buf old new e l =
    let size = length-take n buf in
    let size' : length (take n buf) ≡ length old = ap (λ (t : List ℕ). length t) e in
    elim (Bool-cases (ltb (length buf) n)) [
      | inl q ↦
          take_all n (new ++ drop n buf)
            (ground (arith, q, size, size', l, length-append new (drop n buf), length-drop n buf))
          ∙ ap (λ (t : List ℕ). new ++ t)
              (nothing (drop n buf) (ground (arith, q, length-drop n buf)))
          ∙ append-nil new
      | inr q ↦ take_left n new (drop n buf) (ground (arith, q, size, size', l))
    ]
  where
    nothing : (xs : List ℕ) → length xs ≡ 0 → xs ≡ []
    nothing [] e = refl
    nothing (x ∷ xs) e = absurd (omega arith)

stamps :
    (now : ℕ) (t : TickState) (h : DataHeader) (rest : List ℕ)
    → (h' : DataHeader) × (t' : TickState) × (attach_tick now t (header_bytes h ++ rest)
        ≡ some (header_bytes h' ++ rest, t'))
      × (h' ≡ record h { flags = h'.flags; echo_tick = h'.echo_tick })
      × (t'.val ≡ t.val)
      × (IsHeader h → t.val < 2 ^ 64 → IsHeader h')
unfolding attach_tick put_echo_tick
stamps now t h rest = elim (Bool-cases t.pending) [
  | inr e ↦ (h, t, rw e refl, refl, refl, λ v k. v)
  | inl e ↦ (
    record h { flags = tick_flags t.is_net h.flags; echo_tick = echo },
    record t { pending = false },
    rw e refl,
    refl,
    refl,
    λ v k. record {
      flags_u8 = tick_flags-lt t.is_net h.flags v.flags_u8;
      payload_len_u16 = v.payload_len_u16;
      session_u32 = v.session_u32;
      block_seq_u64 = v.block_seq_u64;
      echo_tick_u64 = echo_u64 k;
      rex_index_i64 = v.rex_index_i64;
      payload_crc_u32 = v.payload_crc_u32;
    },
  )
]
  where
    echo : ℕ
    echo = if t.is_net then (t.val + (now + 2 ^ 64 - t.t2) % 2 ^ 64) % 2 ^ 64 else t.val

    echo_u64 : t.val < 2 ^ 64 → echo < 2 ^ 64
    echo_u64 k = ground (arith, k)

-- A DATA PDU stays one of the same block, of the same length, with the tick stamped or without, whatever
-- stands behind it in the buffer; the tick's value fits 64 bits.
pub attach_tick-IsDataPdu :
    (crc32c : List ℕ → ℕ) (sh : SendShared) (bytes : List ℕ) (seq now : ℕ) (t : TickState)
    (buf : List ℕ) (n : ℕ)
    → t.val < 2 ^ 64
    → IsDataPdu crc32c sh bytes seq (take n buf)
    → (buf' : List ℕ) × (t' : TickState) × (attach_tick now t buf ≡ some (buf', t'))
      × (t'.val ≡ t.val)
      × IsDataPdu crc32c sh bytes seq (take n buf')
attach_tick-IsDataPdu crc32c sh bytes seq now t buf n k d =
    let wire = on_wire sh.crypto seq (block sh.block_size bytes seq) in
    let (h', t', run, same, val, ok) = stamps now t d.head (wire ++ drop n buf) in
    let parts : buf ≡ header_bytes d.head ++ (wire ++ drop n buf) =
      sym (take-append-drop n buf)
      ∙ ap (λ (x : List ℕ). x ++ drop n buf) d.layout
      ∙ append_assoc (header_bytes d.head) wire (drop n buf) in
    let cut : take n (header_bytes h' ++ (wire ++ drop n buf)) ≡ header_bytes h' ++ wire =
      ap (take n) (sym (append_assoc (header_bytes h') wire (drop n buf)))
      ∙ replaced n buf _ (header_bytes h' ++ wire) d.layout refl in
    (
      header_bytes h' ++ (wire ++ drop n buf),
      t',
      ap (attach_tick now t) parts ∙ run,
      val,
      record {
        head = h';
        head_ok = ok d.head_ok k;
        session_same = ap (λ (x : DataHeader). x.session) same ∙ d.session_same;
        seq_same = ap (λ (x : DataHeader). x.block_seq) same ∙ d.seq_same;
        len_same = ap (λ (x : DataHeader). x.payload_len) same ∙ d.len_same;
        crc_same = λ e. ap (λ (x : DataHeader). x.payload_crc) same ∙ d.crc_same e;
        layout = cut;
      },
    )
