-- ===== src/Usage/Organization.antt =====
-- backend/internal/services/usage/service.go: SnapshotOrganizationMonthly.
use openpostfork.Prelude.{
  ℕ, ◌+◌, String, ◌≡◌, refl, sym, ap, ◌∙◌, inl, inr, Bool, true, false, not, ◌&&◌, Option, none,
  some, List, [], ◌∷◌, ◌==◌, eq_iff, eqb, if◌then◌else◌, Bool-cases, ==_of_ne, Result, ok, err,
}
use openpostfork.Prelude.Int.{ℤ, pos, pos_part, neg_part, sub_ℕ}
use openpostfork.Prelude.Table.{select_where, count_where}
use openpostfork.Entitlements.{Limits, lookup}
use openpostfork.Usage.{UsageCounter, put}

-- What the query reads of a workspace.
pub record OwnedWorkspace : Type 0 where
  pub id : String
  pub organization_id : String

abbrev pub add_ℤ : ℤ → ℤ → ℤ
add_ℤ a b = sub_ℕ (pos_part a + pos_part b) (neg_part a + neg_part b)

abbrev pub or_zero : Option ℤ → ℤ
or_zero none = pos 0
or_zero (some z) = z

-- `SUM(uc.value) … GROUP BY uc.metric`, a group at a time. (A sum that does not fit in an int64 is a
-- failure of the query.)
unfoldable pub sums : (ℕ → ℕ) → Limits → List UsageCounter → Limits
sums month_start found [] = found
sums month_start found (c ∷ cs) =
    sums month_start
      (put month_start c.metric (add_ℤ (or_zero (lookup c.metric found)) c.value) found) cs

off : (k key metric : String) → (k == key) ≡ false → (k == metric) ≡ true → (key == metric) ≡ false
off k key metric h q =
    ap (λ x. key == x) (sym ((eq_iff k metric).0 q))
    ∙ ==_of_ne key k (λ e. let z : true ≡ false = sym ((eq_iff k key).1 (sym e)) ∙ h in absurd (cc))

same_sum :
    (key metric : String) (z : ℤ) (found : Limits)
    → (if key == metric
        then add_ℤ (or_zero (lookup key found)) z
        else or_zero (lookup metric found))
      ≡ (if key == metric
          then add_ℤ (or_zero (lookup metric found)) z
          else or_zero (lookup metric found))
same_sum key metric z found = elim (Bool-cases (key == metric)) [
  | inl q ↦ rw q (ap (λ x. add_ℤ (or_zero (lookup x found)) z) ((eq_iff key metric).0 q))
  | inr q ↦ rw q refl
]

module _ (month_start : ℕ → ℕ) where
  -- The workspace of the counter belongs to the organization, and the counter is of the month.
  abbrev pub is_in : String → ℕ → List OwnedWorkspace → UsageCounter → Bool
  is_in organization_id at workspaces c =
      not (
        eqb
          (count_where
            (λ (w : OwnedWorkspace). w.id == c.workspace_id && w.organization_id == organization_id)
            workspaces)
          0)
      && eqb c.period_start (month_start at)

  -- `SnapshotOrganizationMonthly`.
  unfoldable pub snapshot_organization_monthly :
      Option String → String → ℕ → List OwnedWorkspace → List UsageCounter → Result String Limits
  snapshot_organization_monthly failure organization_id at workspaces counters = elim failure [
    | some message ↦ err message
    | none ↦ ok (sums month_start [] (select_where (is_in organization_id at workspaces) counters))
  ]

  -- The values of a metric, added up from a first value.
  abbrev pub total : ℤ → String → List UsageCounter → ℤ
  total start metric [] = start
  total start metric (c ∷ cs) =
      total (if c.metric == metric then add_ℤ start c.value else start) metric cs

  lookup-put :
      (metric key : String) (value : ℤ) (found : Limits)
      → or_zero (lookup metric (put month_start key value found))
        ≡ (if key == metric then value else or_zero (lookup metric found))
  unfolding lookup
  lookup-put metric key value [] = elim (Bool-cases (key == metric)) [
    | inl e ↦ rw e refl
    | inr e ↦ rw e refl
  ]
  lookup-put metric key value ((k, z) ∷ rest) = elim (Bool-cases (k == key)) [
    | inl e ↦
        let same = (eq_iff k key).0 e in
        rw (e, ap (λ x. x == metric) same)
          (elim (Bool-cases (key == metric)) [ inl q ↦ rw q refl | inr q ↦ rw q refl ])
    | inr e ↦ rw e (elim (Bool-cases (k == metric)) [
      | inl q ↦ let other : (key == metric) ≡ false = off k key metric e q in rw (q, other) refl
      | inr q ↦ rw q (lookup-put metric key value rest)
    ])
  ]

  lookup-sums :
      (metric : String) (found : Limits) (rows : List UsageCounter)
      → or_zero (lookup metric (sums month_start found rows))
        ≡ total (or_zero (lookup metric found)) metric rows
  unfolding sums
  lookup-sums metric found [] = refl
  lookup-sums metric found (c ∷ cs) =
      let value = add_ℤ (or_zero (lookup c.metric found)) c.value in
      lookup-sums metric (put month_start c.metric value found) cs
      ∙ ap (λ z. total z metric cs)
          (lookup-put metric c.metric value found ∙ same_sum c.metric metric c.value found)

  -- The snapshot of an organization has, for each metric, the sum of the counters of that metric in
  -- the month over the workspaces of the organization, where its query does not fail.
  pub snapshot_organization_monthly-total :
      (organization_id metric : String) (at : ℕ) (workspaces : List OwnedWorkspace)
      (counters : List UsageCounter)
      → (found : Limits) × (snapshot_organization_monthly none organization_id at workspaces
            counters
          ≡ ok found)
        × (or_zero (lookup metric found)
            ≡ total (pos 0) metric (select_where (is_in organization_id at workspaces) counters))
  unfolding snapshot_organization_monthly lookup
  snapshot_organization_monthly-total organization_id metric at workspaces counters =
      let rows = select_where (is_in organization_id at workspaces) counters in
      (sums month_start [] rows, refl, lookup-sums metric [] rows)
