-- ===== src/Common/Int.antt =====
-- The C type `int` as an integer; `negsuc n` is -(n + 1). Only its order is used.
use Prim.Native.Nat.{ℕ, suc, ◌+◌, ◌≤◌, ◌<◌}
use mathlib.Core.Path.{◌≡◌, ap}
use mathlib.Core.Logic.{◌≢◌, ◌↔◌}
use mathlib.Core.Bool.{Bool, true, false}
use native.Mathlib.Omega.{arith}
use lkb.Common.Tests.{◌==◌, ltb, ltb→lt, ltb_false→le}

pub data ℤ : Type 0 where
  pos : ℕ → ℤ
  negsuc : ℕ → ℤ

abbrev pub pos_part : ℤ → ℕ
pos_part (pos n) = n
pos_part (negsuc n) = 0

abbrev pub neg_part : ℤ → ℕ
neg_part (pos n) = 0
neg_part (negsuc n) = suc n

-- `!a`
abbrev pub is_zero : ℤ → Bool
is_zero (pos n) = n == 0
is_zero (negsuc n) = false

infix 50 ◌<ℤ◌ ◌≤ℤ◌
abbrev pub ◌<ℤ◌ : ℤ → ℤ → Type 0
a <ℤ b = pos_part a + neg_part b < pos_part b + neg_part a

abbrev pub ◌≤ℤ◌ : ℤ → ℤ → Type 0
a ≤ℤ b = pos_part a + neg_part b ≤ pos_part b + neg_part a

-- `a < b` on `int`; `a > b` is `lt_int b a`.
unfoldable pub lt_int : ℤ → ℤ → Bool
lt_int a b = ltb (pos_part a + neg_part b) (pos_part b + neg_part a)

pub lt_int→lt : (a b : ℤ) → lt_int a b ≡ true → a <ℤ b
unfolding lt_int
lt_int→lt a b h = ltb→lt _ _ h

pub lt→lt_int : (a b : ℤ) → a <ℤ b → lt_int a b ≡ true
unfolding lt_int
lt→lt_int a b h = ground arith

pub lt_int-false : (a b : ℤ) → lt_int a b ≡ false → b ≤ℤ a
unfolding lt_int
lt_int-false a b h = ltb_false→le _ _ h

pub le→lt_int-false : (a b : ℤ) → b ≤ℤ a → lt_int a b ≡ false
unfolding lt_int
le→lt_int-false a b h = ground arith

pub eq_of_parts : (a b : ℤ) → pos_part a + neg_part b ≡ pos_part b + neg_part a → a ≡ b
eq_of_parts a b h = ground arith

pub ltℤ_ne : (a b : ℤ) → a <ℤ b → a ≢ b
ltℤ_ne a b h e = omega (arith, ap pos_part e, ap neg_part e)

pub is_zero_iff : (a : ℤ) → ((is_zero a ≡ true) ↔ (a ≡ pos 0)) × ((is_zero a ≡ false) ↔ (a ≢ pos 0))
is_zero_iff (pos n) = ground arith
is_zero_iff (negsuc n) = ground arith
