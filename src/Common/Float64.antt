-- ===== src/Common/Float64.antt =====
-- What internal/admission/admission.go uses of `float64`, over values that are not NaN, and the facts
-- about the order and the subtraction that the token bucket relies on.
use Prim.Native.Nat.{ℕ, ◌+◌, ◌-◌, ◌*◌, ◌/◌, ◌^◌}
use mathlib.Core.Path.{◌≡◌}
use mathlib.Core.Bool.{Bool, false}
use native.Mathlib.Omega.{arith}
use omni_logging.Common.Tests.{ltb}

pub record Floats (F : Type 0) : Type 0 where
  pub nought : F
  pub one : F
  pub of_ℕ : ℕ → F
  pub add : F → F → F
  pub mul : F → F → F
  pub sub : F → F → F
  pub lt : F → F → Bool
  pub seconds : ℕ → F
  pub lt_irrefl : (x : F) → lt x x ≡ false
  -- Taking one away does not exceed a bound that held.
  pub sub_one_le : (b x : F) → lt b x ≡ false → lt b (sub x one) ≡ false

pub ltb_sub_one : (b x : ℕ) → ltb b x ≡ false → ltb b (x - 1000) ≡ false
ltb_sub_one b x h = ground arith

pub ltb_irrefl : (x : ℕ) → ltb x x ≡ false
ltb_irrefl x = ground arith

-- Thousandths, rounded down: values at which the facts hold.
abbrev pub thousandths : Floats ℕ
thousandths = record {
  nought = 0;
  one = 1000;
  of_ℕ = λ n. n * 1000;
  add = λ a b. a + b;
  mul = λ a b. a * b / 1000;
  sub = λ a b. a - b;
  lt = ltb;
  seconds = λ n. n / 10 ^ 6;
  lt_irrefl = ltb_irrefl;
  sub_one_le = ltb_sub_one;
}
