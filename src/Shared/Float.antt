-- ===== src/Shared/Float.antt =====
-- The `f64` operations that the source uses, as an interface: the language's floats are not modelled,
-- and each theorem names the laws of IEEE arithmetic that it rests on.
use girth.Prelude.{ℕ, ◌+◌, ◌-◌, ◌*◌, ◌/◌, Bool, ltb, leb, ◌==◌}

pub record Float : Type 1 where
  pub F64 : Type 0
  -- A literal `n / d`.
  pub lit : ℕ → ℕ → F64
  -- `n as f64` and `x as u64`.
  pub from_u64 : ℕ → F64
  pub to_u64 : F64 → ℕ
  pub add : F64 → F64 → F64
  pub sub : F64 → F64 → F64
  pub mul : F64 → F64 → F64
  pub div : F64 → F64 → F64
  -- `x < y`, `x <= y` and `x == y`, all false where either is not a number.
  pub lt : F64 → F64 → Bool
  pub le : F64 → F64 → Bool
  pub eq : F64 → F64 → Bool
  pub abs : F64 → F64

-- Whole numbers in place of floats, to show that the laws that the theorems suppose can hold.
abbrev pub whole : Float
whole = record {
  F64 = ℕ;
  lit = λ n d. n / d;
  from_u64 = λ n. n;
  to_u64 = λ x. x;
  add = λ x y. x + y;
  sub = λ x y. x - y;
  mul = λ x y. x * y;
  div = λ x y. x / y;
  lt = λ x y. ltb x y;
  le = λ x y. leb x y;
  eq = λ x y. x == y;
  abs = λ x. x;
}
