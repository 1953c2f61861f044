-- ===== src/AccountPicker/Best.antt =====
-- The loop of resolveOne against its meaning: the matches that no match is stronger than.
use openpostfork.Prelude.{
  ℕ, ◌≤◌, ◌<◌, ◌≡◌, refl, sym, ap, ◌∙◌, ◌⊎◌, inl, inr, Bool, true, false, not, ◌&&◌, ◌||◌, List, [],
  ◌∷◌, ◌++◌, arith, ltb, eqb, if◌then◌else◌, Bool-cases, All,
}
use openpostfork.Prelude.Table.{select_where}
use openpostfork.AccountPicker.{scan}

-- The stronger of two strengths, 0 for none.
abbrev better : ℕ → ℕ → ℕ
better best kind = if eqb kind 0 then best else if eqb best 0 || ltb kind best then kind else best

or_shuffle : (x y z : Bool) → (x || y) || z ≡ y || (z || x)
or_shuffle true true true = refl
or_shuffle true true false = refl
or_shuffle true false true = refl
or_shuffle true false false = refl
or_shuffle false true z = refl
or_shuffle false false true = refl
or_shuffle false false false = refl

better_stronger :
    (best kind own : ℕ)
    → (ltb 0 (better best kind) && ltb (better best kind) own)
      ≡ (ltb 0 best && ltb best own) || (ltb 0 kind && ltb kind own)
better_stronger best kind own = ground arith

zero_less : (n : ℕ) → 0 < n → ltb 0 n ≡ true
zero_less n h = ground arith

gone : (best low own : ℕ) → 0 < low → low ≤ own → (best ≡ 0) ⊎ (own < best) → eqb best low ≡ false
gone best low own h k (inl e) = ground arith
gone best low own h k (inr e) = ground arith

append_cons :
    {A : Type 0} (xs : List A) (a : A) (ys : List A) → (xs ++ (a ∷ [])) ++ ys ≡ xs ++ (a ∷ ys)
append_cons [] a ys = refl
append_cons (x ∷ xs) a ys = ap (λ zs. x ∷ zs) (append_cons xs a ys)

append_nil : {A : Type 0} (xs : List A) → xs ++ [] ≡ xs
append_nil [] = refl
append_nil (x ∷ xs) = ap (λ zs. x ∷ zs) (append_nil xs)

eqb_refl : (n : ℕ) → eqb n n ≡ true
eqb_refl n = ground arith

or_none : (b : Bool) → b ≡ b || false
or_none true = refl
or_none false = refl

stronger_cases : (best own : ℕ) → eqb best 0 || ltb own best ≡ true → (best ≡ 0) ⊎ (own < best)
stronger_cases best own h = elim (Bool-cases (eqb best 0)) [
  | inl e ↦ inl (ground arith)
  | inr e ↦ inr (ground (arith, h))
]

weaker :
    (best own low : ℕ)
    → eqb best 0 || ltb own best ≡ false
    → eqb own best ≡ false
    → low ≤ best
    → low < own
weaker best own low h k bound = ground arith

none_kept : {A : Type 0} (low : ℕ) (ys : List A) → (if eqb 0 low then [] else []) ++ ys ≡ ys
none_kept low ys = elim (Bool-cases (eqb 0 low)) [ inl e ↦ rw e refl | inr e ↦ rw e refl ]

module _ {A : Type 0} (strength : A → ℕ) where
  abbrev pub is_stronger : A → A → Bool
  is_stronger a b = ltb 0 (strength b) && ltb (strength b) (strength a)

  abbrev pub any_stronger : A → List A → Bool
  any_stronger a [] = false
  any_stronger a (b ∷ rest) = is_stronger a b || any_stronger a rest

  -- The item matches, and none of the items is a stronger match.
  abbrev pub is_best : List A → A → Bool
  is_best all a = ltb 0 (strength a) && not (any_stronger a all)

  abbrev pub best_of : List A → List A
  best_of all = select_where (is_best all) all

  -- The strongest of the strengths, 0 for none.
  least : ℕ → List A → ℕ
  least best [] = best
  least best (a ∷ rest) = least (better best (strength a)) rest

  abbrev has_strength : ℕ → A → Bool
  has_strength n a = ltb 0 n && eqb (strength a) n

  -- Before the items of the rest: those so far, where nothing stronger follows.
  abbrev kept : ℕ → ℕ → List A → List A
  kept best now matches = if eqb best now then matches else []

  least_le : (best : ℕ) (xs : List A) → 0 < best → (0 < least best xs) × (least best xs ≤ best)
  unfolding least
  least_le best [] h = (h, omega arith)
  least_le best (a ∷ rest) h =
      let now = better best (strength a) in
      let shrinks : (0 < now) × (now ≤ best) = ground arith in
      let ih = least_le now rest shrinks.0 in (ih.0, omega (arith, ih.1, shrinks.1))

  not_least : (a : A) (low : ℕ) → (low < strength a) ⊎ (strength a ≡ 0) → has_strength low a ≡ false
  not_least a low (inl h) = ground arith
  not_least a low (inr h) = ground arith

  same_kept :
      (a : A) (best low : ℕ) (matches ys : List A)
      → has_strength low a ≡ false
      → kept best low matches ++ ys
        ≡ kept best low matches ++ (if has_strength low a then a ∷ ys else ys)
  same_kept a best low matches ys h = rw h refl

  fresh_kept :
      (a : A) (best low : ℕ) (matches ys : List A)
      → 0 < low
      → low ≤ strength a
      → (best ≡ 0) ⊎ (strength a < best)
      → kept (strength a) low (a ∷ []) ++ ys
        ≡ kept best low matches ++ (if has_strength low a then a ∷ ys else ys)
  fresh_kept a best low matches ys h k o = elim (Bool-cases (eqb (strength a) low)) [
    | inl e ↦ rw (zero_less low h, gone best low (strength a) h k o, e) refl
    | inr e ↦ rw (zero_less low h, gone best low (strength a) h k o, e) refl
  ]

  more_kept :
      (a : A) (best low : ℕ) (matches ys : List A)
      → 0 < low
      → strength a ≡ best
      → kept best low (matches ++ (a ∷ [])) ++ ys
        ≡ kept best low matches ++ (if has_strength low a then a ∷ ys else ys)
  more_kept a best low matches ys h k = elim (Bool-cases (eqb best low)) [
    | inl e ↦
        let q : eqb (strength a) low ≡ true = ap (λ n. eqb n low) k ∙ e in
        rw (zero_less low h, e, q) (append_cons matches a ys)
    | inr e ↦
        let q : eqb (strength a) low ≡ false = ap (λ n. eqb n low) k ∙ e in
        rw (zero_less low h, e, q) refl
  ]

  stronger_than_least :
      (a : A) (xs : List A) (best : ℕ)
      → any_stronger a xs || (ltb 0 best && ltb best (strength a))
        ≡ (ltb 0 (least best xs) && ltb (least best xs) (strength a))
  unfolding least
  stronger_than_least a [] best = refl
  stronger_than_least a (b ∷ rest) best =
      or_shuffle (is_stronger a b) (any_stronger a rest) (ltb 0 best && ltb best (strength a))
      ∙ ap (λ x. any_stronger a rest || x) (sym (better_stronger best (strength b) (strength a)))
      ∙ stronger_than_least a rest (better best (strength b))

  -- The state of the loop at its end, where the least strength is known.
  abbrev ScansTo : ℕ → List A → ℕ → List A → Type 0
  ScansTo low xs best matches =
      scan strength xs (best, matches)
      ≡ (low, kept best low matches ++ select_where (has_strength low) xs)

  scan_found :
      (low : ℕ) (xs : List A) (best : ℕ) (matches : List A)
      → least best xs ≡ low
      → (best ≡ 0 → matches ≡ [])
      → ScansTo low xs best matches
  unfolding scan least
  scan_found low [] best matches l h =
      let same : eqb best low ≡ true = ground (arith, l) in
      rw same (ap (λ n. (n, matches)) l ∙ ap (λ ys. (low, ys)) (sym (append_nil matches)))
  scan_found low (a ∷ rest) best matches l h = elim (Bool-cases (eqb (strength a) 0)) [
    | inl e ↦ rw e (
        scan_found low rest best matches (rw e at l) h
        ∙ ap (λ ys. (low, ys))
            (same_kept a best low matches (select_where (has_strength low) rest)
              (not_least a low (inr (ground arith)))))
    | inr e ↦ elim (Bool-cases (eqb best 0 || ltb (strength a) best)) [
      | inl q ↦
          let l' : least (strength a) rest ≡ low = (rw (e, q) at l) in
          let bound = least_le (strength a) rest (ground arith) in
          rw (e, q)
            (scan_found low rest (strength a) (a ∷ []) l' (λ z. absurd (ground (arith, e)))
              ∙ ap (λ ys. (low, ys))
                  (fresh_kept a best low matches (select_where (has_strength low) rest)
                    (omega (arith, bound.0, l')) (omega (arith, bound.1, l'))
                    (stronger_cases best (strength a) q)))
      | inr q ↦
          let l' : least best rest ≡ low = (rw (e, q) at l) in
          let bound = least_le best rest (ground arith) in
          elim (Bool-cases (eqb (strength a) best)) [
            | inl r ↦
                rw (e, q, r)
                  (scan_found low rest best (matches ++ (a ∷ [])) l'
                      (λ z. absurd (ground (arith, q)))
                    ∙ ap (λ ys. (low, ys))
                        (more_kept a best low matches (select_where (has_strength low) rest)
                          (omega (arith, bound.0, l')) (ground arith)))
            | inr r ↦
                let below : low < strength a =
                  weaker best (strength a) low q r (omega (arith, bound.1, l')) in
                rw (e, q, r)
                  (scan_found low rest best matches l' h
                    ∙ ap (λ ys. (low, ys))
                        (same_kept a best low matches (select_where (has_strength low) rest)
                          (not_least a low (inl below))))
          ]
    ]
  ]

  least_all :
      (best : ℕ) (xs : List A)
      → All (λ a. 0 < strength a → (0 < least best xs) × (least best xs ≤ strength a)) xs
  unfolding least
  least_all best [] = tt
  least_all best (a ∷ rest) = (
    λ h.
        let bound : (0 < better best (strength a)) × (better best (strength a) ≤ strength a) =
          ground arith in
        let low = least_le (better best (strength a)) rest bound.0 in
        (low.0, omega (arith, low.1, bound.1)),
    least_all (better best (strength a)) rest,
  )

  best_is_least :
      (a : A) (all : List A)
      → (0 < strength a → (0 < least 0 all) × (least 0 all ≤ strength a))
      → has_strength (least 0 all) a ≡ is_best all a
  best_is_least a all h =
      let any : any_stronger a all ≡ (ltb 0 (least 0 all) && ltb (least 0 all) (strength a)) =
        or_none (any_stronger a all) ∙ stronger_than_least a all 0 in
      rw any (elim (Bool-cases (ltb 0 (strength a))) [
        | inl e ↦ let low = h (ground arith) in ground (arith, low.0, low.1)
        | inr e ↦ ground arith
      ])

  select_same :
      (all xs : List A)
      → All (λ a. 0 < strength a → (0 < least 0 all) × (least 0 all ≤ strength a)) xs
      → select_where (has_strength (least 0 all)) xs ≡ select_where (is_best all) xs
  select_same all [] h = refl
  select_same all (a ∷ rest) h = rw (best_is_least a all h.0, select_same all rest h.1) refl

  -- The loop over the items leaves exactly those that match and that no other item matches more
  -- strongly, in their order.
  pub scan-best_of : (all : List A) → (scan strength all (0, [])).1 ≡ best_of all
  scan-best_of all =
      ap (λ (r : ℕ × List A). r.1) (scan_found (least 0 all) all 0 [] refl (λ e. refl))
      ∙ none_kept (least 0 all) (select_where (has_strength (least 0 all)) all)
      ∙ select_same all all (least_all 0 all)
