-- ===== src/Queue/Rows.antt =====
-- The rows of the jobs table that an `UPDATE … WHERE id = …` reaches, with the primary key of
-- backend/internal/models/models.go as an invariant.
use openpostfork.Prelude.{
  ℕ, ◌+◌, String, ◌≡◌, refl, ap, ◌∙◌, sym, subst, inl, inr, Bool, false, ◌++◌, ◌≤◌, List, [], ◌∷◌,
  arith, eq_iff, eq_refl, Bool-cases, ==_of_ne, All,
}
use openpostfork.Prelude.Table.{update_where, delete_where, In}
use openpostfork.Queue.{Job, by_id}

-- The key is not in use.
abbrev pub IsFresh : String → List Job → Type 0
IsFresh key = All (λ r. by_id key r ≡ false)

-- The primary key: no two rows have one id.
abbrev pub IsKeyed : List Job → Type 0
IsKeyed [] = Unit {0}
IsKeyed (j ∷ js) = IsFresh j.id js × IsKeyed js

-- A weight of the whole table.
abbrev pub total : (Job → ℕ) → List Job → ℕ
total f [] = 0
total f (j ∷ js) = f j + total f js

pub IsFresh-In :
    (key : String) (j : Job) (js : List Job) → IsFresh key js → In j js → by_id key j ≡ false
IsFresh-In key j [] h i = elim i [ ]
IsFresh-In key j (x ∷ xs) h (inl e) = subst (λ r. by_id key r ≡ false) e h.0
IsFresh-In key j (x ∷ xs) h (inr i) = IsFresh-In key j xs h.1 i

-- An update by an unused key changes nothing.
pub update_fresh :
    (key : String) (f : Job → Job) (js : List Job)
    → IsFresh key js
    → update_where (by_id key) f js ≡ js
update_fresh key f [] h = refl
update_fresh key f (x ∷ xs) h = rw (h.0, update_fresh key f xs h.1)

by_id_sym : (a b : Job) → by_id a.id b ≡ false → by_id b.id a ≡ false
by_id_sym a b h = ==_of_ne a.id b.id (λ e. cc ((eq_iff b.id a.id).1 (sym e)))

-- An update by the key of a row changes the weight of that row alone.
pub total-update :
    (w : Job → ℕ) (f : Job → Job) (j : Job) (js : List Job)
    → IsKeyed js
    → In j js
    → total w (update_where (by_id j.id) f js) + w j ≡ total w js + w (f j)
total-update w f j [] k i = elim i [ ]
total-update w f j (x ∷ xs) k (inl e) =
    subst
      (λ (r : Job).
        total w (update_where (by_id r.id) f (x ∷ xs)) + w r ≡ total w (x ∷ xs) + w (f r))
      e (rw (eq_refl x.id, update_fresh x.id f xs k.0) (omega arith))
total-update w f j (x ∷ xs) k (inr i) =
    rw (by_id_sym x j (IsFresh-In x.id j xs k.0 i)) (omega (arith, total-update w f j xs k.1 i))

module _ (f : Job → Job) (keeps : (r : Job) → (f r).id ≡ r.id) where
  IsFresh-update :
      (test : Job → Bool) (key : String) (js : List Job)
      → IsFresh key js
      → IsFresh key (update_where test f js)
  IsFresh-update test key [] h = tt
  IsFresh-update test key (x ∷ xs) h = (
    elim (Bool-cases (test x)) [ inl e ↦ rw (e, keeps x) h.0 | inr e ↦ rw e h.0 ],
    IsFresh-update test key xs h.1,
  )

  -- An update that leaves the ids alone keeps the primary key.
  pub IsKeyed-update :
      (test : Job → Bool) (js : List Job) → IsKeyed js → IsKeyed (update_where test f js)
  IsKeyed-update test [] k = tt
  IsKeyed-update test (x ∷ xs) k = (
    elim (Bool-cases (test x)) [
      | inl e ↦ rw (e, keeps x) (IsFresh-update test x.id xs k.0)
      | inr e ↦ rw e (IsFresh-update test x.id xs k.0)
    ],
    IsKeyed-update test xs k.1,
  )

pub total-append : (w : Job → ℕ) (a b : List Job) → total w (a ++ b) ≡ total w a + total w b
total-append w [] b = omega arith
total-append w (x ∷ a) b = omega (arith, total-append w a b)

pub total-delete :
    (w : Job → ℕ) (gone : Job → Bool) (js : List Job) → total w (delete_where gone js) ≤ total w js
total-delete w gone [] = omega arith
total-delete w gone (x ∷ xs) = ground (arith, total-delete w gone xs)

pub In-append : (r : Job) (a b : List Job) → In r b → In r (a ++ b)
In-append r [] b i = i
In-append r (x ∷ a) b i = inr (In-append r a b i)

pub In-delete :
    (gone : Job → Bool) (r : Job) (js : List Job)
    → gone r ≡ false
    → In r js
    → In r (delete_where gone js)
In-delete gone r [] k i = elim i [ ]
In-delete gone r (x ∷ xs) k (inl e) = rw (ap gone e ∙ k) (inl e)
In-delete gone r (x ∷ xs) k (inr i) = elim (Bool-cases (gone x)) [
  | inl e ↦ rw e (In-delete gone r xs k i)
  | inr e ↦ rw e (inr (In-delete gone r xs k i))
]
