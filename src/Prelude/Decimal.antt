-- ===== src/Prelude/Decimal.antt =====
-- The decimal text of a number reads as the number, so that different numbers have different texts.
use Prim.Native.Nat.{ℕ, zero, suc, ◌+◌, ◌*◌, ◌^◌, ◌<◌, ◌/◌, ◌%◌}
use Prim.Native.Char.{code}
use Prim.Native.String.{String, char_at}
use Prim.Native.String.{◌∷◌ as push}
use mathlib.Core.Path.{◌≡◌, refl, ap, sym, subst, ◌∙◌}
use mathlib.Core.Logic.{inl, inr}
use mathlib.Core.Option.{some}
use native.Mathlib.Nat.{pow-suc}
use native.Mathlib.Omega.{arith}
use openpostfork.Prelude.Tests.{ltb, Bool-cases}
use openpostfork.Prelude.Text.{decimal, decimal_from}
use openpostfork.Prelude.Words.{digits, next_digit}

digit_code : (r : ℕ) → r < 10 → code (char_at "0123456789" r) ≡ b'0' + r
digit_code zero h = refl
digit_code (suc zero) h = refl
digit_code (suc (suc zero)) h = refl
digit_code (suc (suc (suc zero))) h = refl
digit_code (suc (suc (suc (suc zero)))) h = refl
digit_code (suc (suc (suc (suc (suc zero))))) h = refl
digit_code (suc (suc (suc (suc (suc (suc zero)))))) h = refl
digit_code (suc (suc (suc (suc (suc (suc (suc zero))))))) h = refl
digit_code (suc (suc (suc (suc (suc (suc (suc (suc zero)))))))) h = refl
digit_code (suc (suc (suc (suc (suc (suc (suc (suc (suc zero))))))))) h = refl
digit_code (suc (suc (suc (suc (suc (suc (suc (suc (suc (suc n)))))))))) h =
    absurd (omega (arith, h))

next_read : (r n : ℕ) → r < 10 → next_digit (b'0' + r) n ≡ some (10 * n + r)
next_read r n h = ground arith

read_digit :
    (r n : ℕ) (tail : String)
    → r < 10
    → digits (some n) (push (char_at "0123456789" r) tail) ≡ digits (some (10 * n + r)) tail
unfolding digits
read_digit r n tail h =
    ap (λ c. digits (next_digit c n) tail) (digit_code r h)
    ∙ ap (λ o. digits o tail) (next_read r n h)

swap : (p : ℕ) → p * 10 ≡ 10 * p
swap p = omega arith

shorter : (n p : ℕ) → n < 10 * p → n / 10 < p
shorter n p h = omega (arith, h)

digits-decimal_from :
    (fuel n : ℕ) (tail : String)
    → n < 10 ^ fuel
    → digits (some 0) (decimal_from fuel n tail) ≡ digits (some n) tail
unfolding decimal_from
digits-decimal_from zero n tail h =
    let low : n ≡ 0 = omega (arith, h) in ap (λ m. digits (some m) tail) (sym low)
digits-decimal_from (suc fuel) n tail h = elim (Bool-cases (ltb n 10)) [
  | inl e ↦ rw e (
      let small : n % 10 < 10 = omega arith in
      let same : 10 * 0 + n % 10 ≡ n = ground arith in
      read_digit (n % 10) 0 tail small ∙ ap (λ m. digits (some m) tail) same)
  | inr e ↦ rw e (
      let small : n % 10 < 10 = omega arith in
      let same : 10 * (n / 10) + n % 10 ≡ n = omega arith in
      digits-decimal_from fuel (n / 10) (push (char_at "0123456789" (n % 10)) tail)
        (shorter n (10 ^ fuel) (subst (λ m. n < m) (pow-suc 10 fuel ∙ swap (10 ^ fuel)) h))
      ∙ read_digit (n % 10) (n / 10) tail small
      ∙ ap (λ m. digits (some m) tail) same)
]

-- Numbers of at most 20 digits with the same text are the same.
pub decimal_injective : (n m : ℕ) → n < 10 ^ 20 → m < 10 ^ 20 → decimal n ≡ decimal m → n ≡ m
unfolding decimal digits
decimal_injective n m h k e =
    let both : some n ≡ some m =
      sym (digits-decimal_from 20 n "" h)
      ∙ ap (digits (some 0)) e
      ∙ digits-decimal_from 20 m "" k in
    cc
