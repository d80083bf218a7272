-- ===== src/Prelude/Int.antt =====
-- Rust's `i64`, as an integer, and its parser.
use Prim.Native.Nat.{ℕ, ◌-◌}
use mathlib.Core.Path.{◌≡◌}
use mathlib.Core.Logic.{◌↔◌}
use mathlib.Core.Bool.{Bool, true, false}
use mathlib.Core.Option.{Option, none, some}
use mathlib.Core.List.{[], ◌∷◌}
use native.Mathlib.Omega.{arith}
use apimock_rs.Prelude.Tests.{◌==◌, leb, if◌then◌else◌}
use apimock_rs.Prelude.Text.{Text, nonempty_value}

-- `negsuc n` is -(n + 1).
pub data ℤ : Type 0 where
  pos : ℕ → ℤ
  negsuc : ℕ → ℤ

unfoldable pub int_eq : ℤ → ℤ → Bool
int_eq (pos a) (pos b) = a == b
int_eq (negsuc a) (negsuc b) = a == b
int_eq _ _ = false

pub int_eq_iff : (a b : ℤ) → (int_eq a b ≡ true) ↔ (a ≡ b)
unfolding int_eq
int_eq_iff (pos a) (pos b) = ground arith
int_eq_iff (negsuc a) (negsuc b) = ground arith
int_eq_iff (pos a) (negsuc b) = ground arith
int_eq_iff (negsuc a) (pos b) = ground arith

-- `a <= b`.
unfoldable pub int_le : ℤ → ℤ → Bool
int_le (pos a) (pos b) = leb a b
int_le (negsuc a) (negsuc b) = leb b a
int_le (negsuc a) (pos b) = true
int_le (pos a) (negsuc b) = false

positive : Option ℕ → Option ℤ
positive none = none
positive (some n) = if leb n 9223372036854775807 then some (pos n) else none

negative : Option ℕ → Option ℤ
negative none = none
negative (some n) =
    if n == 0
    then some (pos 0)
    else if leb n 9223372036854775808
    then some (negsuc (n - 1))
    else none

-- `s.parse::<i64>().ok()`: an optional sign, then digits.
unfoldable pub parse_i64 : Text → Option ℤ
unfolding positive negative
parse_i64 [] = none
parse_i64 (c ∷ s) =
    if c == b'-'
    then negative (nonempty_value s)
    else if c == b'+'
    then positive (nonempty_value s)
    else positive (nonempty_value (c ∷ s))
