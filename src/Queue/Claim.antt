-- ===== src/Queue/Claim.antt =====
-- What the claim of a job picks and changes.
use openpostfork.Prelude.{
  ℕ, ◌≤◌, String, ◌≡◌, refl, subst, ◌≢◌, ◌↔◌, ◌⊎◌, inl, inr, true, false, none, some, List, [], ◌∷◌,
  arith, eq_iff, leb, leb→le, leb→lt, Bool-cases, All, All-map,
}
use openpostfork.Prelude.Table.{update_where, In, All-In}
use openpostfork.Queue.{Job, pending, processing, next_due, is_due, lock, claim, by_id}

pub is_due_iff :
    (now : ℕ) (j : Job) → (is_due now j ≡ true) ↔ ((j.status ≡ pending) × (j.run_at ≤ now))
unfolding is_due
is_due_iff now j = ground arith

-- No job is due.
abbrev pub NoneDue : ℕ → List Job → Type 0
NoneDue now = All (λ r. is_due now r ≡ false)

-- The job is due, and no due job is earlier.
abbrev pub IsEarliest : ℕ → Job → List Job → Type 0
IsEarliest now j jobs =
    (is_due now j ≡ true) × In j jobs × All (λ r. is_due now r ≡ true → j.run_at ≤ r.run_at) jobs

-- What the subquery finds.
pub next_due_cases :
    (now : ℕ) (jobs : List Job)
    → ((next_due now jobs ≡ none) × NoneDue now jobs)
      ⊎ ((j : Job) × (next_due now jobs ≡ some j) × IsEarliest now j jobs)
unfolding next_due
next_due_cases now [] = inl (refl, tt)
next_due_cases now (x ∷ xs) = elim (Bool-cases (is_due now x)) [
  | inl due ↦ elim (next_due_cases now xs) [
    | inl p ↦
        inr (x, rw (due, p.0), (due, inl refl, ((λ _. omega arith), All-map xs (λ r e d. cc) p.1)))
    | inr q ↦ elim (Bool-cases (leb x.run_at q.0.run_at)) [
      | inl first ↦ inr (
        x,
        rw (due, q.1, first),
        (
          due,
          inl refl,
          (
            (λ _. omega arith),
            All-map xs (λ r e d. ground (arith, e d, leb→le x.run_at q.0.run_at first)) q.2.2,
          ),
        ),
      )
      | inr later ↦ inr (
        q.0,
        rw (due, q.1, later),
        (q.2.0, inr q.2.1, ((λ _. omega (arith, leb→lt x.run_at q.0.run_at later)), q.2.2)),
      )
    ]
  ]
  | inr idle ↦ elim (next_due_cases now xs) [
    | inl p ↦ inl (rw (idle, p.0), (idle, p.1))
    | inr q ↦ inr (q.0, rw (idle, q.1), (q.2.0, inr q.2.1, ((λ d. cc), q.2.2)))
  ]
]

-- A claim takes a due job that no due job precedes, and locks it; without a due job it takes none.
pub claim_lem :
    (worker : String) (now : ℕ) (jobs : List Job)
    → ((claim worker now jobs ≡ none) × NoneDue now jobs)
      ⊎ ((j : Job) × (claim worker now jobs
            ≡ some (lock worker now j, update_where (by_id j.id) (lock worker now) jobs))
          × IsEarliest now j jobs)
unfolding claim
claim_lem worker now jobs = elim (next_due_cases now jobs) [
  | inl p ↦ inl (rw (p.0, claim) refl, p.1)
  | inr q ↦ inr (q.0, rw (q.1, claim) refl, q.2)
]

locked_rows :
    (worker : String) (now : ℕ) (key : String) (jobs : List Job)
    → All
        (λ r. by_id key r ≡ true → r.status ≡ processing)
        (update_where (by_id key) (lock worker now) jobs)
unfolding lock
locked_rows worker now key [] = tt
locked_rows worker now key (x ∷ xs) = (
  elim (Bool-cases (by_id key x)) [ inl e ↦ rw e (λ _. refl) | inr e ↦ rw e (λ d. cc) ],
  locked_rows worker now key xs,
)

-- Two claims in a row, by any workers at any times, take different jobs.
pub claim-claim_ne :
    (worker other : String) (now later : ℕ) (jobs : List Job) {a b : Job} {after last : List Job}
    → claim worker now jobs ≡ some (a, after)
    → claim other later after ≡ some (b, last)
    → a.id ≢ b.id
unfolding lock
claim-claim_ne worker other now later jobs {a} {b} {after} {last} first second same =
    elim (claim_lem worker now jobs) [
      | inl p ↦ cc
      | inr q ↦ elim (claim_lem other later after) [
        | inl p' ↦ cc
        | inr q' ↦ ground (
          arith,
          is_due_iff later q'.0,
          eq_iff q'.0.id q.0.id,
          All-In _ q'.0 _ (locked_rows worker now q.0.id jobs)
              (subst (In q'.0) (ground arith) q'.2.1),
        )
      ]
    ]
