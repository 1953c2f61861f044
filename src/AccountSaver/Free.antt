-- ===== src/AccountSaver/Free.antt =====
-- The loop of uniqueSlug ends, at a slug that is free.
use openpostfork.Prelude.{
  ℕ, zero, suc, ◌+◌, ◌^◌, ◌≤◌, ◌<◌, String, ◌<>◌, ◌≡◌, refl, sym, ap, ◌∙◌, inl, inr, Bool, true,
  false, none, some, List, [], ◌∷◌, arith, ◌==◌, eq_iff, Bool-cases, Option-cases, ==_of_ne, length,
}
use Prim.Native.String.{len}
use text.Mathlib.TextPositions.{len-append}
use text.Mathlib.TextLemmas.{append_cancel_left}
use openpostfork.Prelude.Decimal.{decimal_injective}
use openpostfork.Prelude.Table.{find_where, delete_where}
use openpostfork.Prelude.Text.{decimal}
use openpostfork.AccountSaver.Slug.{
  SocialAccount, candidate, has_slug, unless_found, search_slug, base_of, found_slug, unique_slug,
}

own_tail : (s t : String) → s ≡ s <> ("-" <> t) → ⊥
own_tail s t e =
    let n = ap len e ∙ len-append s ("-" <> t) in let m = len-append "-" t in omega (arith, n, m)

-- Different candidates below the bound are different texts.
candidate_injective :
    (base : String) (i j : ℕ)
    → i + 1 < 10 ^ 20
    → j + 1 < 10 ^ 20
    → candidate base i ≡ candidate base j
    → i ≡ j
candidate_injective base zero zero h k e = refl
candidate_injective base zero (suc j) h k e = absurd (own_tail base (decimal (j + 2)) e)
candidate_injective base (suc i) zero h k e = absurd (own_tail base (decimal (i + 2)) (sym e))
candidate_injective base (suc i) (suc j) h k e =
    let tails =
      append_cancel_left "-" (decimal (i + 2)) (decimal (j + 2))
        (append_cancel_left base ("-" <> decimal (i + 2)) ("-" <> decimal (j + 2)) e) in
    let same = decimal_injective (i + 2) (j + 2) (omega (arith, h)) (omega (arith, k)) tails in
    omega (arith, same)

differ :
    (base : String) (i j : ℕ)
    → i < j
    → j + 1 < 10 ^ 20
    → (candidate base j == candidate base i) ≡ false
differ base i j h k = ==_of_ne (candidate base j) (candidate base i) (λ e.
    let same = candidate_injective base j i k (omega (arith, h, k)) e in
    absurd (omega (arith, same, h)))

not_both :
    (ws s s' : String) (a : SocialAccount)
    → has_slug ws s a ≡ true
    → (s' == s) ≡ false
    → has_slug ws s' a ≡ false
not_both ws s s' a e h = elim (Bool-cases (a.slug == s')) [
  | inr q ↦ elim (Bool-cases (a.workspace_id == ws)) [ inl w ↦ rw (w, q) refl | inr w ↦ rw w refl ]
  | inl q ↦
      let here : (a.slug == s) ≡ true = ground (arith, e) in
      let same : s' ≡ s = sym ((eq_iff a.slug s').0 q) ∙ (eq_iff a.slug s).0 here in
      let z : true ≡ false = sym ((eq_iff s' s).1 same) ∙ h in absurd (cc)
]

-- The rows of one slug do not matter to the search of another one.
other_slug :
    (ws s s' : String) (accounts : List SocialAccount)
    → (s' == s) ≡ false
    → find_where (has_slug ws s') (delete_where (has_slug ws s) accounts)
      ≡ find_where (has_slug ws s') accounts
other_slug ws s s' [] h = refl
other_slug ws s s' (a ∷ rest) h = elim (Bool-cases (has_slug ws s a)) [
  | inr e ↦ rw e (elim (Bool-cases (has_slug ws s' a)) [
    | inl q ↦ rw q refl
    | inr q ↦ rw q (other_slug ws s s' rest h)
  ])
  | inl e ↦
      let off : has_slug ws s' a ≡ false = not_both ws s s' a e h in
      rw (e, off) (other_slug ws s s' rest h)
]

delete_shorter :
    {A : Type 0} (test : A → Bool) (rows : List A) → length (delete_where test rows) ≤ length rows
delete_shorter test [] = omega arith
delete_shorter test (a ∷ rest) = elim (Bool-cases (test a)) [
  | inl e ↦ rw e (omega (arith, delete_shorter test rest))
  | inr e ↦ rw e (omega (arith, delete_shorter test rest))
]

found_shorter :
    {A : Type 0} (test : A → Bool) (rows : List A) {a : A}
    → find_where test rows ≡ some a
    → length (delete_where test rows) < length rows
found_shorter test [] {a} h = absurd (let g : none ≡ some a = h in cc)
found_shorter test (x ∷ rest) {a} h = elim (Bool-cases (test x)) [
  | inl e ↦ rw e (omega (arith, delete_shorter test rest))
  | inr e ↦ rw e (omega (arith, found_shorter test rest {a = a} (rw e at h)))
]

module _ (ws base : String) where
  -- The accounts of an earlier candidate do not matter to the rest of the loop.
  search_later :
      (fuel k i : ℕ) (accounts : List SocialAccount)
      → k < i
      → i + fuel + 1 < 10 ^ 20
      → search_slug fuel ws (delete_where (has_slug ws (candidate base k)) accounts) base i
        ≡ search_slug fuel ws accounts base i
  unfolding search_slug
  search_later zero k i accounts h b = refl
  search_later (suc fuel) k i accounts h b =
      let earlier = delete_where (has_slug ws (candidate base k)) accounts in
      ap (λ f. unless_found f (candidate base i) (search_slug fuel ws earlier base (suc i)))
        (other_slug ws (candidate base k) (candidate base i) accounts
          (differ base k i h (omega (arith, b))))
      ∙ ap (unless_found (find_where (has_slug ws (candidate base i)) accounts) (candidate base i))
          (search_later fuel k (suc i) accounts (omega (arith, h)) (omega (arith, b)))

  search_ends :
      (fuel i : ℕ) (accounts : List SocialAccount)
      → length accounts < fuel
      → i + fuel + 1 < 10 ^ 20
      → (slug : String) × (search_slug fuel ws accounts base i ≡ some slug)
  unfolding search_slug
  search_ends zero i accounts h b = absurd (omega (arith, h))
  search_ends (suc fuel) i accounts h b =
      elim (Option-cases (find_where (has_slug ws (candidate base i)) accounts)) [
        | inl e ↦ (candidate base i, rw e refl)
        | inr e ↦
            let less = delete_where (has_slug ws (candidate base i)) accounts in
            let fewer = found_shorter (has_slug ws (candidate base i)) accounts {a = e.0} e.1 in
            let later =
              search_ends fuel (suc i) less (omega (arith, h, fewer)) (omega (arith, b)) in
            (
              later.0,
              rw e.1 (
                  sym (search_later fuel i (suc i) accounts (omega arith) (omega (arith, b)))
                  ∙ later.1),
            )
      ]

  search_free :
      (fuel i : ℕ) (accounts : List SocialAccount) (slug : String)
      → search_slug fuel ws accounts base i ≡ some slug
      → find_where (has_slug ws slug) accounts ≡ none
  unfolding search_slug
  search_free zero i accounts slug h = absurd (let g : none ≡ some slug = h in cc)
  search_free (suc fuel) i accounts slug h =
      elim (Option-cases (find_where (has_slug ws (candidate base i)) accounts)) [
        | inl e ↦
            let g : some (candidate base i) ≡ some slug = (rw e at h) in
            let same : candidate base i ≡ slug = cc in
            ap (λ s. find_where (has_slug ws s) accounts) (sym same) ∙ e
        | inr e ↦ search_free fuel (suc i) accounts slug (rw e.1 at h)
      ]

-- The loop of uniqueSlug ends where its query does not fail: as many tries as there are accounts,
-- and one more, find a slug; and no active account of the workspace has it. (There are fewer than
-- 10^20 - 2 accounts.)
pub unique_slug-free :
    (ws base : String) (accounts : List SocialAccount)
    → length accounts + 2 < 10 ^ 20
    → (search_slug (suc (length accounts)) ws accounts (base_of base) 0
        ≡ some (unique_slug none ws accounts base))
      × (find_where (has_slug ws (unique_slug none ws accounts base)) accounts ≡ none)
unfolding unique_slug
unique_slug-free ws base accounts b =
    let fuel = suc (length accounts) in
    let found = search_ends ws (base_of base) fuel 0 accounts (omega arith) (omega (arith, b)) in
    let free = search_free ws (base_of base) fuel 0 accounts found.0 found.1 in
    let same = ap (found_slug (base_of base)) (sym found.1) in
    (found.1 ∙ ap some same, ap (λ s. find_where (has_slug ws s) accounts) (sym same) ∙ free)
