-- ===== src/Prelude/Float.antt =====
-- Go's float64, as far as the program uses it. No law is assumed.
use Prim.Native.Nat.{ℕ}
use mathlib.Core.Bool.{Bool}
use real_api_server.Prelude.Int.{ℤ}

pub record Float64 : Type 1 where
  pub F : Type 0
  -- float64(n), and int(x), which drops the fraction
  pub of_int : ℤ → F
  pub to_int : F → ℤ
  pub add : F → F → F
  pub sub : F → F → F
  pub mul : F → F → F
  pub div : F → F → F
  -- math.Abs
  pub abs : F → F
  pub less : F → F → Bool
  pub at_most : F → F → Bool
  -- `literal a b` is the constant a/b
  pub literal : ℕ → ℕ → F
