-- ===== src/Prelude/Int.antt =====
-- Signed integers over the native numbers, and sums of int64 values.
use Prim.Native.Nat.{ℕ, suc, ◌+◌, ◌-◌, ◌^◌, ◌≤◌, ◌<◌}
use mathlib.Core.Path.{◌≡◌}
use mathlib.Core.Bool.{Bool}
use native.Mathlib.Omega.{arith}
use openpostfork.Prelude.Tests.{ltb, leb, if◌then◌else◌}

-- `negsuc n` is -(n + 1).
pub data ℤ : Type 0 where
  pos : ℕ → ℤ
  negsuc : ℕ → ℤ

abbrev pub pos_part : ℤ → ℕ
pos_part (pos n) = n
pos_part (negsuc n) = 0

abbrev pub neg_part : ℤ → ℕ
neg_part (pos n) = 0
neg_part (negsuc n) = suc n

-- a - b, as an integer.
abbrev pub sub_ℕ : ℕ → ℕ → ℤ
sub_ℕ a b = if leb b a then pos (a - b) else negsuc (b - a - 1)

infix 50 ◌≤ℤ◌
abbrev pub ◌≤ℤ◌ : ℤ → ℤ → Type 0
a ≤ℤ b = pos_part a + neg_part b ≤ pos_part b + neg_part a

abbrev pub leb_ℤ : ℤ → ℤ → Bool
leb_ℤ a b = leb (pos_part a + neg_part b) (pos_part b + neg_part a)

abbrev pub ltb_ℤ : ℤ → ℤ → Bool
ltb_ℤ a b = ltb (pos_part a + neg_part b) (pos_part b + neg_part a)

-- The sum of two int64 values, which wraps round at most once.
unfoldable pub add64 : ℤ → ℤ → ℤ
add64 a b =
    let p = pos_part a + pos_part b in
    let n = neg_part a + neg_part b in
    if leb (n + 2 ^ 63) p
    then sub_ℕ p (n + 2 ^ 64)
    else if ltb (p + 2 ^ 63) n
    then sub_ℕ (p + 2 ^ 64) n
    else sub_ℕ p n

-- In the range of an int64 there is no wrapping.
pub add64_exact :
    (a b : ℤ)
    → pos_part a + pos_part b < neg_part a + neg_part b + 2 ^ 63
    → neg_part a + neg_part b ≤ pos_part a + pos_part b + 2 ^ 63
    → pos_part (add64 a b) + neg_part a + neg_part b
      ≡ neg_part (add64 a b) + pos_part a + pos_part b
unfolding add64
add64_exact a b h k = ground arith

pub add64_zero : (n : ℕ) → n < 2 ^ 63 → add64 (pos 0) (pos n) ≡ pos n
unfolding add64
add64_zero n h = ground arith

pub add64_pos : (n m : ℕ) → n + m < 2 ^ 63 → add64 (pos n) (pos m) ≡ pos (n + m)
unfolding add64
add64_pos n m h = ground arith
