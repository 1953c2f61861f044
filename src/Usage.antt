-- ===== src/Usage.antt =====
-- backend/internal/services/usage/service.go: the monthly usage counters.
pub mod Counters
pub mod Organization
mod Tests
use openpostfork.Prelude.{
  ℕ, zero, suc, ◌+◌, ◌-◌, ◌*◌, ◌/◌, ◌%◌, ◌^◌, ◌≤◌, ◌<◌, min, max, String, ◌<>◌, ◌≡◌, refl, sym, ap,
  ◌∙◌, subst, fun_ext, ◌≢◌, ◌↔◌, ◌⊎◌, inl, inr, Bool, true, false, not, ◌&&◌, ◌||◌, Option, none,
  some, List, [], ◌∷◌, ◌++◌, map, arith, ◌==◌, eq_iff, eq_refl, ltb, leb, eqb, if◌then◌else◌,
  leb→le, le→leb, leb→lt, Bool-cases, Option-cases, ==_of_ne, length, All, length-append, All-map,
  Result, ok, err, ◌>>=◌, or_fail, Result-cases,
}
use openpostfork.Prelude.Int.{ℤ, pos, add64, leb_ℤ}
use openpostfork.Prelude.Table.{find_where, update_where, select_where}
use openpostfork.Entitlements.{Limits}

pub record UsageCounter : Type 0 where
  pub workspace_id : String
  pub metric : String
  pub period_start : ℕ
  pub value : ℤ
  pub created_at : ℕ
  pub updated_at : ℕ

-- The driver's answer to the two statements of a call: an error text, or none.
pub record Driver : Type 0 where
  pub read_failure : Option String
  pub write_failure : Option String

-- `MonthStart` is `time.Date` of the year and the month of the UTC time; the calendar of the
-- package `time` is the parameter `month_start`.
module _ (month_start : ℕ → ℕ) where
  -- `workspace_id = ? AND metric = ? AND period_start = ?`.
  abbrev pub is_counter : String → String → ℕ → UsageCounter → Bool
  is_counter workspace_id metric at c =
      c.workspace_id == workspace_id && c.metric == metric && eqb c.period_start (month_start at)

  abbrev pub new_counter : String → String → ℤ → ℕ → ℕ → UsageCounter
  new_counter workspace_id metric amount at now = record {
    workspace_id = workspace_id;
    metric = metric;
    period_start = month_start at;
    value = amount;
    created_at = now;
    updated_at = now;
  }

  -- The value that the transaction writes, and the table after it.
  unfoldable pub write_counter :
      String → String → ℤ → ℕ → ℕ → List UsageCounter → ℤ × List UsageCounter
  write_counter workspace_id metric amount at now counters =
      elim (find_where (is_counter workspace_id metric at) counters) [
        | some c ↦
            let value = add64 c.value amount in
            (
              value,
              update_where (is_counter workspace_id metric at)
                  (λ r. record r { value = value; updated_at = now }) counters,
            )
        | none ↦ (amount, new_counter workspace_id metric amount at now ∷ counters)
      ]

  -- The transaction: an error rolls it back. (The value that Go returns next to an error is unused.)
  unfoldable pub transaction :
      Driver → String → String → ℤ → ℕ → ℕ → List UsageCounter → Result String ℤ × List UsageCounter
  transaction d workspace_id metric amount at now counters = elim d.read_failure [
    | some message ↦ (err message, counters)
    | none ↦ elim d.write_failure [
      | some message ↦ (err message, counters)
      | none ↦
          let (value, after) = write_counter workspace_id metric amount at now counters in
          (ok value, after)
    ]
  ]

  -- `IncrementMonthly`.
  unfoldable pub increment_monthly :
      Driver → String → String → ℤ → ℕ → ℕ → List UsageCounter → Result String ℤ × List UsageCounter
  unfolding transaction
  increment_monthly d workspace_id metric amount at now counters =
      if leb_ℤ amount (pos 0)
      then (err "usage increment amount must be positive", counters)
      else if workspace_id == ""
      then (err "workspace id is required", counters)
      else if metric == ""
      then (err "usage metric is required", counters)
      else transaction d workspace_id metric amount at now counters

  abbrev pub value_of : Option UsageCounter → ℤ
  value_of none = pos 0
  value_of (some c) = c.value

  -- `CurrentMonthly`.
  unfoldable pub current_monthly :
      Option String → String → String → ℕ → List UsageCounter → Result String ℤ
  current_monthly failure workspace_id metric at counters = elim failure [
    | some message ↦ err message
    | none ↦ ok (value_of (find_where (is_counter workspace_id metric at) counters))
  ]

  abbrev pub put : String → ℤ → Limits → Limits
  put key value [] = (key, value) ∷ []
  put key value ((k, v) ∷ rest) =
      if k == key then (key, value) ∷ rest else (k, v) ∷ put key value rest

  -- `snapshot[metric] = value` for each row.
  unfoldable pub fill : Limits → List UsageCounter → Limits
  fill snapshot [] = snapshot
  fill snapshot (c ∷ cs) = fill (put c.metric c.value snapshot) cs

  -- `SnapshotMonthly`.
  unfoldable pub snapshot_monthly :
      Option String → String → ℕ → List UsageCounter → Result String Limits
  unfolding fill
  snapshot_monthly failure workspace_id at counters = elim failure [
    | some message ↦ err message
    | none ↦ ok (
        fill [] (
          select_where (λ c. c.workspace_id == workspace_id && eqb c.period_start (month_start at))
            counters))
  ]
