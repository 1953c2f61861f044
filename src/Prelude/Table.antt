-- ===== src/Prelude/Table.antt =====
-- Database tables as lists of rows, in the order in which the engine scans them, and the SQL
-- statements that the program issues.
use Prim.Native.Nat.{ℕ, suc}
use mathlib.Core.Path.{◌≡◌, refl, ap, subst}
use mathlib.Core.Logic.{◌⊎◌, inl, inr}
use mathlib.Core.Bool.{Bool, true}
use mathlib.Core.Option.{Option, none, some}
use mathlib.Core.List.{List, [], ◌∷◌}
use native.Mathlib.Omega.{arith}
use openpostfork.Prelude.Tests.{Bool-cases, if◌then◌else◌}
use openpostfork.Prelude.Lists.{All, length}

-- No row.
pub data Empty {ℓ} : Type ℓ where

module _ {ℓ} {A : Type ℓ} where
  -- `UPDATE … SET … WHERE test`.
  abbrev pub update_where : (A → Bool) → (A → A) → List A → List A
  update_where test set [] = []
  update_where test set (r ∷ rs) = (if test r then set r else r) ∷ update_where test set rs

  -- `SELECT … WHERE test`.
  abbrev pub select_where : (A → Bool) → List A → List A
  select_where test [] = []
  select_where test (r ∷ rs) = let rest = select_where test rs in if test r then r ∷ rest else rest

  -- `DELETE … WHERE test`.
  abbrev pub delete_where : (A → Bool) → List A → List A
  delete_where test [] = []
  delete_where test (r ∷ rs) = let rest = delete_where test rs in if test r then rest else r ∷ rest

  -- `SELECT … WHERE test` into one struct: the first row, or `sql.ErrNoRows`.
  abbrev pub find_where : (A → Bool) → List A → Option A
  find_where test [] = none
  find_where test (r ∷ rs) = let rest = find_where test rs in if test r then some r else rest

  -- `SELECT COUNT(*) … WHERE test`.
  abbrev pub count_where : (A → Bool) → List A → ℕ
  count_where test [] = 0
  count_where test (r ∷ rs) = let rest = count_where test rs in if test r then suc rest else rest

  -- A row that is found passes the test.
  pub find_where_sound :
      (test : A → Bool) (rs : List A) {r : A} → find_where test rs ≡ some r → test r ≡ true
  find_where_sound test [] h = cc
  find_where_sound test (x ∷ rs) {r} h = ground (arith, find_where_sound test rs {r = r})

  -- After a deletion no row passes the test.
  pub find_where-delete_where :
      (test : A → Bool) (rs : List A) → find_where test (delete_where test rs) ≡ none
  find_where-delete_where test [] = refl
  find_where-delete_where test (r ∷ rs) = ground (arith, find_where-delete_where test rs)

  pub length-update_where :
      (test : A → Bool) (set : A → A) (rs : List A) → length (update_where test set rs) ≡ length rs
  length-update_where test set [] = refl
  length-update_where test set (r ∷ rs) = ap suc (length-update_where test set rs)

  -- The row stands in the table.
  abbrev pub In : A → List A → Type ℓ
  In r [] = Empty
  In r (x ∷ xs) = (x ≡ r) ⊎ In r xs

  pub All-In {κ} : (P : A → Type κ) (r : A) (rs : List A) → All P rs → In r rs → P r
  All-In P r [] h i = elim i [ ]
  All-In P r (x ∷ xs) h (inl e) = subst P e h.0
  All-In P r (x ∷ xs) h (inr i) = All-In P r xs h.1 i

  -- A row after an update is in the updated table.
  pub In-update :
      (test : A → Bool) (set : A → A) (r : A) (rs : List A)
      → In r rs
      → In (if test r then set r else r) (update_where test set rs)
  In-update test set r [] i = elim i [ ]
  In-update test set r (x ∷ xs) (inl e) = inl (ap (λ y. if test y then set y else y) e)
  In-update test set r (x ∷ xs) (inr i) = inr (In-update test set r xs i)

  -- A row that is found stands in the table.
  pub find_where-In :
      (test : A → Bool) (rs : List A) {r : A} → find_where test rs ≡ some r → In r rs
  find_where-In test [] {r} h = absurd (let e : none ≡ some r = h in cc)
  find_where-In test (x ∷ xs) {r} h = elim (Bool-cases (test x)) [
    | inl e ↦ let g : some x ≡ some r = (rw e at h) in inl (cc)
    | inr e ↦ inr (find_where-In test xs {r = r} (rw e at h))
  ]

  -- An update that leaves the test alone, seen by the test.
  pub find_where-update_where :
      (test : A → Bool) (set : A → A) (rs : List A)
      → ((r : A) → test (set r) ≡ test r)
      → {r : A} → find_where test rs ≡ some r
      → find_where test (update_where test set rs) ≡ some (set r)
  find_where-update_where test set [] keeps {r} h = absurd (let e : none ≡ some r = h in cc)
  find_where-update_where test set (x ∷ xs) keeps {r} h = elim (Bool-cases (test x)) [
    | inl e ↦
        let g : some x ≡ some r = (rw e at h) in
        let same : x ≡ r = cc in rw (e, keeps x, e) (ap (λ y. some (set y)) same)
    | inr e ↦ rw (e, e) (find_where-update_where test set xs keeps {r = r} (rw e at h))
  ]
