-- ===== src/Prelude/Float.antt =====
-- Python's `float`, as a type with its operations. The language has no floats: what a module does
-- with them is modelled over these operations, and a law that a theorem needs is a hypothesis.
use mathlib.Core.Bool.{Bool}

pub record FloatOps (F : Type 0) : Type 0 where
  pub nought : F
  pub add : F → F → F
  pub sub : F → F → F
  pub mul : F → F → F
  pub div : F → F → F
  pub abs : F → F
  -- `a <= b`, `a < b`, `a == b`
  pub le : F → F → Bool
  pub lt : F → F → Bool
  pub eq : F → F → Bool
