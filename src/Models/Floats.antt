-- ===== src/Models/Floats.antt =====
-- Python's floats, as a type with the operations that the program calls. Nothing is assumed of them.
use autonomic_obsidian_kb.Prelude.{ℕ, String, Bool}

pub record Floats : Type 1 where
  pub F : Type 0
  -- a < b
  pub lt : F → F → Bool
  -- a <= b, which for NaN is not the negation of b < a
  pub le : F → F → Bool
  pub add : F → F → F
  pub sub : F → F → F
  pub mul : F → F → F
  pub div : F → F → F
  -- the literal n / 10 ^ k
  pub decimal : ℕ → ℕ → F
  -- f"{a:.2f}"
  pub show_2 : F → String
