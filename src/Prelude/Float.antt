-- ===== src/Prelude/Float.antt =====
-- Python's `float`, a type from outside, with what the program uses of its arithmetic.
use Prim.Native.Nat.{ℕ, ◌+◌, ◌-◌, ◌*◌, ◌/◌}
use Prim.Native.String.{String}
use mathlib.Core.Bool.{Bool, true, not}
use mathlib.Core.Option.{Option, some}
use acvjepa_project.Prelude.Int.{ℤ, pos, pos_part}
use acvjepa_project.Prelude.Tests.{if◌then◌else◌, ltb, leb, nat_beq}

pub record Floats (F : Type 0) : Type 0 where
  -- the float nearest to a fraction: literals, `float(n)` and the division of two integers
  pub ratio : ℤ → ℕ → F
  -- `a + b`, `a - b`, `a * b` and `a / b`
  pub plus : F → F → F
  pub minus : F → F → F
  pub times : F → F → F
  pub over : F → F → F
  -- `a < b`
  pub less : F → F → Bool
  -- `a == b`
  pub equal : F → F → Bool
  -- `int(a)` and `math.isfinite(a)`
  pub truncate : F → ℤ
  pub is_finite : F → Bool
  -- `int(round(a))`, which raises when `a` is infinite or not a number
  pub nearest : F → Option ℤ
  -- whether `n` is converted in mixed arithmetic: Python raises OverflowError when `n` is too large
  pub fits : ℤ → Bool
  -- `math.isclose(a, b, rel_tol=0.0, abs_tol=t)`, the tolerance first
  pub is_close : F → F → F → Bool
  -- what `json.dumps` writes
  pub repr : F → String

module _ {F : Type 0} (fl : Floats F) where
  abbrev pub of_int : ℤ → F
  of_int n = fl.ratio n 1

  -- `not b < a`: how `sorted` reads the order.
  abbrev pub at_most : F → F → Bool
  at_most a b = not (fl.less b a)

  -- `max(a, b)` and `min(a, b)`
  abbrev pub max_float : F → F → F
  max_float a b = if fl.less a b then b else a

-- Floats that can be evaluated: whole numbers of thousandths, from 0 on.
abbrev pub thousandths : Floats ℕ
thousandths = record {
  ratio = λ n d. pos_part n * 1000 / d;
  plus = λ a b. a + b;
  minus = λ a b. a - b;
  times = λ a b. a * b / 1000;
  over = λ a b. a * 1000 / b;
  less = ltb;
  equal = nat_beq;
  truncate = λ a. pos (a / 1000);
  is_finite = λ a. true;
  nearest = λ a. some (pos ((a + 500) / 1000));
  fits = λ n. true;
  is_close = λ t a b. leb (a - b + (b - a)) t;
  repr = λ a. "";
}
