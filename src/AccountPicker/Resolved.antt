-- ===== src/AccountPicker/Resolved.antt =====
-- What the picker answers.
use openpostfork.Prelude.{
  ltb, not, ◌&&◌, ◌||◌, err, String, ◌≡◌, refl, sym, ap, ◌∙◌, subst, inl, inr, Bool, true, false,
  List, [], ◌∷◌, ◌++◌, ◌==◌, eq_iff, Bool-cases, ==_of_ne, Result, ok, Result-cases,
}
use openpostfork.Prelude.Text.{trim_space}
use openpostfork.AccountPicker.{
  account_matches, Account, strength, decide, resolve_one, seen, add_id, resolve_from, resolve,
}
use openpostfork.Prelude.Table.{select_where}
use openpostfork.AccountPicker.Best.{any_stronger, is_best, best_of, scan-best_of}

abbrev pub IsDistinct : List String → Type 0
IsDistinct [] = Unit
IsDistinct (x ∷ xs) = (seen x xs ≡ false) × IsDistinct xs

seen_append :
    (x id : String) (out : List String)
    → seen x out ≡ false
    → (id == x) ≡ false
    → seen x (out ++ (id ∷ [])) ≡ false
seen_append x id [] h k = rw k refl
seen_append x id (y ∷ out) h k = elim (Bool-cases (y == x)) [
  | inl e ↦ cc (rw e at h)
  | inr e ↦ rw e (seen_append x id out (rw e at h) k)
]

eq_sym : (x y : String) → (x == y) ≡ false → (y == x) ≡ false
eq_sym x y h =
    ==_of_ne y x (λ e. let z : true ≡ false = sym ((eq_iff x y).1 (sym e)) ∙ h in absurd (cc))

append-IsDistinct :
    (id : String) (out : List String)
    → IsDistinct out
    → seen id out ≡ false
    → IsDistinct (out ++ (id ∷ []))
append-IsDistinct id [] d h = (refl, tt)
append-IsDistinct id (x ∷ out) d h = elim (Bool-cases (x == id)) [
  | inl e ↦ cc (rw e at h)
  | inr e ↦ (seen_append x id out d.0 (eq_sym x id e), append-IsDistinct id out d.1 (rw e at h))
]

add_id-IsDistinct : (id : String) (out : List String) → IsDistinct out → IsDistinct (add_id id out)
add_id-IsDistinct id out d = elim (Bool-cases (seen id out)) [
  | inl e ↦ rw e d
  | inr e ↦ rw e (append-IsDistinct id out d e)
]

-- One account is the answer, by its id; none, or several, are an error.
abbrev pub Answers : List Account → Result String String → Type 0
Answers [] (ok id) = ⊥
Answers [] (err message) = Unit
Answers (a ∷ []) r = r ≡ ok a.id
Answers (a ∷ b ∷ rest) (ok id) = ⊥
Answers (a ∷ b ∷ rest) (err message) = Unit

module _ (equal_fold : String → String → Bool) (quote : String → String) where
  resolve_one-best_of :
      (workspace_id sel : String) (accounts : List Account)
      → resolve_one equal_fold quote workspace_id sel accounts
        ≡ decide equal_fold quote workspace_id sel
            (best_of (strength equal_fold quote sel) accounts)
  unfolding resolve_one
  resolve_one-best_of workspace_id sel accounts =
      ap (decide equal_fold quote workspace_id sel)
        (scan-best_of (strength equal_fold quote sel) accounts)

  -- An active account among these is a stronger match of the selector than the account.
  abbrev is_beaten : String → Account → List Account → Bool
  is_beaten sel a [] = false
  is_beaten sel a (b ∷ rest) =
      (b.is_active
        && ltb 0 (account_matches equal_fold quote b sel)
        && ltb (account_matches equal_fold quote b sel) (account_matches equal_fold quote a sel))
      || is_beaten sel a rest

  -- The account is active, matches the selector, and no active account is a stronger match.
  abbrev pub is_unbeaten : String → List Account → Account → Bool
  is_unbeaten sel all a =
      a.is_active && ltb 0 (account_matches equal_fold quote a sel) && not (is_beaten sel a all)

  any_beaten :
      (sel : String) (a : Account) (all : List Account)
      → a.is_active ≡ true
      → any_stronger (strength equal_fold quote sel) a all ≡ is_beaten sel a all
  any_beaten sel a [] h = refl
  any_beaten sel a (b ∷ rest) h = elim (Bool-cases b.is_active) [
    | inl e ↦ rw (h, e, any_beaten sel a rest h) refl
    | inr e ↦ rw (e, any_beaten sel a rest h) refl
  ]

  best_unbeaten :
      (sel : String) (all : List Account) (a : Account)
      → is_best (strength equal_fold quote sel) all a ≡ is_unbeaten sel all a
  best_unbeaten sel all a = elim (Bool-cases a.is_active) [
    | inl e ↦ rw (any_beaten sel a all e, e) refl
    | inr e ↦ rw e refl
  ]

  select_unbeaten :
      (sel : String) (all accounts : List Account)
      → select_where (is_best (strength equal_fold quote sel) all) accounts
        ≡ select_where (is_unbeaten sel all) accounts
  select_unbeaten sel all [] = refl
  select_unbeaten sel all (a ∷ rest) =
      rw (best_unbeaten sel all a, select_unbeaten sel all rest) refl

  decide-Answers :
      (workspace_id sel : String) (matches : List Account)
      → Answers matches (decide equal_fold quote workspace_id sel matches)
  decide-Answers workspace_id sel [] = tt
  decide-Answers workspace_id sel (a ∷ []) = refl
  decide-Answers workspace_id sel (a ∷ b ∷ rest) = tt

  -- The answer to a selector is the id of the one active account that it matches and that no active
  -- account is a stronger match than, in the order of accountMatches; where there is no such
  -- account, or there are several, it is an error.
  pub resolve_one-Answers :
      (workspace_id sel : String) (accounts : List Account)
      → Answers
          (select_where (is_unbeaten sel accounts) accounts)
          (resolve_one equal_fold quote workspace_id sel accounts)
  resolve_one-Answers workspace_id sel accounts =
      let same =
        resolve_one-best_of workspace_id sel accounts
        ∙ ap (decide equal_fold quote workspace_id sel) (select_unbeaten sel accounts accounts) in
      subst (Answers (select_where (is_unbeaten sel accounts) accounts)) (sym same)
        (decide-Answers workspace_id sel (select_where (is_unbeaten sel accounts) accounts))

  resolve_from-IsDistinct :
      (workspace_id : String) (selectors : List String) (accounts : List Account)
      (out ids : List String)
      → IsDistinct out
      → resolve_from equal_fold quote workspace_id selectors accounts out ≡ ok ids
      → IsDistinct ids
  unfolding resolve_from
  resolve_from-IsDistinct workspace_id [] accounts out ids d h =
      let same : out ≡ ids = cc in subst IsDistinct same d
  resolve_from-IsDistinct workspace_id (raw ∷ rest) accounts out ids d h =
      elim (Bool-cases (trim_space raw == "")) [
        | inl e ↦ resolve_from-IsDistinct workspace_id rest accounts out ids d (rw e at h)
        | inr e ↦
            elim (Result-cases
              (resolve_one equal_fold quote workspace_id (trim_space raw) accounts)) [
                | inl q ↦ cc (rw (e, q.1) at h)
                | inr q ↦
                    resolve_from-IsDistinct workspace_id rest accounts (add_id q.0 out) ids
                      (add_id-IsDistinct q.0 out d) (rw (e, q.1) at h)
              ]
      ]

  -- The accounts that the selectors name come out without repetition, whatever the selectors.
  pub resolve-IsDistinct :
      (workspace_id : String) (selectors : List String) (accounts : List Account)
      (ids : List String)
      → resolve equal_fold quote workspace_id selectors accounts ≡ ok ids
      → IsDistinct ids
  unfolding resolve
  resolve-IsDistinct workspace_id selectors accounts ids h =
      resolve_from-IsDistinct workspace_id selectors accounts [] ids tt h
