-- ===== src/Prelude/Cut.antt =====
-- Splitting of texts: Go's `strings.CutPrefix`, `strings.Cut` at one character, `strings.Split` by one
-- character, and tests on all characters of a text.
use Prim.Native.Nat.{ℕ}
use Prim.Native.Char.{Char, code}
use Prim.Native.String.{String, [], ◌∷◌, len, slice}
use Prim.Native.String.{◌++◌ as append}
use mathlib.Core.Path.{◌≡◌, refl, ap, sym, ◌∙◌}
use mathlib.Core.Bool.{Bool, true, false, ◌&&◌, ◌||◌}
use mathlib.Core.Option.{Option, none, some}
use mathlib.Core.Logic.{inl, inr}
use text.Mathlib.Text.{starts_with}
use text.Mathlib.TextEquality.{starts_with_iff}
use text.Mathlib.TextPositions.{slice-append_right, starts_with-append, len-append}
use text.Mathlib.TextLemmas.{nil-append, cons-append}
use native.Mathlib.Omega.{arith}
use openpostfork.Prelude.Tests.{leb, eqb, if◌then◌else◌, Bool-cases}

-- `strings.CutPrefix`, `none` where the prefix is missing.
unfoldable pub cut_prefix : String → String → Option String
cut_prefix s prefix = if starts_with s prefix then some (slice s (len prefix) (len s)) else none

pub cut_prefix-append : (prefix rest : String) → cut_prefix (append prefix rest) prefix ≡ some rest
unfolding cut_prefix
cut_prefix-append prefix rest =
    rw (starts_with-append prefix rest, len-append prefix rest, slice-append_right prefix rest)

-- What is left after the prefix.
pub cut_prefix_sound :
    (s prefix rest : String) → cut_prefix s prefix ≡ some rest → s ≡ append prefix rest
unfolding cut_prefix
cut_prefix_sound s prefix rest h = elim (Bool-cases (starts_with s prefix)) [
  | inr e ↦ let g : none ≡ some rest = (rw (e, cut_prefix) at h) in cc
  | inl e ↦
      let p = (starts_with_iff s prefix).0 e in
      let g = cut_prefix-append prefix p.0 in
      let both : some p.0 ≡ some rest = sym g ∙ ap (λ x. cut_prefix x prefix) p.1 ∙ h in
      let same : p.0 ≡ rest = cc in sym p.1 ∙ ap (append prefix) same
]

-- The character occurs in the text.
unfoldable pub has_char : ℕ → String → Bool
has_char c [] = false
has_char c (x ∷ s) = eqb (code x) c || has_char c s

abbrev push_first : Char → Option (String × String) → Option (String × String)
push_first x none = none
push_first x (some (a, b)) = some (x ∷ a, b)

-- `strings.Cut` at a character.
unfoldable pub cut : ℕ → String → Option (String × String)
cut c [] = none
cut c (x ∷ s) = let rest = cut c s in if eqb (code x) c then some ([], s) else push_first x rest

pub cut-append :
    (c : ℕ) (sep : Char) (a b : String)
    → code sep ≡ c
    → has_char c a ≡ false
    → cut c (append a (sep ∷ b)) ≡ some (a, b)
unfolding cut has_char
cut-append c sep [] b e h = rw (nil-append (sep ∷ b), e) (ground arith)
cut-append c sep (x ∷ a) b e h = elim (Bool-cases (eqb (code x) c)) [
  | inl q ↦ cc (rw q at h)
  | inr q ↦ rw (cons-append x a (sep ∷ b), q, cut-append c sep a b e (rw q at h))
]

-- All characters pass the test.
unfoldable pub all_chars : (ℕ → Bool) → String → Bool
all_chars test [] = true
all_chars test (x ∷ s) = test (code x) && all_chars test s

abbrev pub is_hex_digit : ℕ → Bool
is_hex_digit c =
    (leb b'0' c && leb c b'9') || (leb b'a' c && leb c b'f') || (leb b'A' c && leb c b'F')

-- A text whose characters pass a test that fails at a character does not have that character.
pub all_chars-has_char :
    (test : ℕ → Bool) (c : ℕ) (s : String)
    → test c ≡ false
    → all_chars test s ≡ true
    → has_char c s ≡ false
unfolding all_chars has_char
all_chars-has_char test c [] h k = refl
all_chars-has_char test c (x ∷ s) h k = elim (Bool-cases (test (code x))) [
  | inr e ↦ cc (rw e at k)
  | inl e ↦ elim (Bool-cases (eqb (code x) c)) [
    | inl q ↦ cc (e, h, ap test (same (code x) c q))
    | inr q ↦ rw (q, all_chars-has_char test c s h (rw e at k))
  ]
]
  where
    same : (n m : ℕ) → eqb n m ≡ true → n ≡ m
    same n m e = ground arith
