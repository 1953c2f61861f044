-- ===== src/Usage/Counters.antt =====
-- What an increment of a counter does to all the counters.
use openpostfork.Prelude.{
  ℕ, ◌^◌, ◌<◌, String, ◌≡◌, refl, sym, ◌∙◌, ◌≢◌, inl, inr, true, false, none, some, List, [], ◌∷◌,
  arith, eq_iff, if◌then◌else◌, Bool-cases, Option-cases, ==_of_ne, ok, err,
}
use openpostfork.Prelude.Int.{ℤ, pos, add64, add64_zero}
use openpostfork.Prelude.Table.{find_where, update_where, find_where_sound}
use openpostfork.Usage.{
  UsageCounter, Driver, is_counter, write_counter, new_counter, increment_monthly, current_monthly,
  value_of,
}

module _ (month_start : ℕ → ℕ) where
  -- The value of a counter: 0 where there is no row.
  unfoldable pub value : String → String → ℕ → List UsageCounter → ℤ
  value workspace_id metric at counters =
      value_of month_start (find_where (is_counter month_start workspace_id metric at) counters)

  -- An update of one counter's rows, seen by another counter.
  find-update :
      (ws metric ws' metric' : String) (at at' now : ℕ) (v : ℤ) (cs : List UsageCounter)
      → value ws' metric' at' (
          update_where
            (is_counter month_start ws metric at)
            (λ r. record r { value = v; updated_at = now })
            cs)
        ≡ elim (find_where (is_counter month_start ws' metric' at') cs) [
          | none ↦ pos 0
          | some c ↦ if is_counter month_start ws metric at c then v else c.value
        ]
  unfolding value
  find-update ws metric ws' metric' at at' now v [] = refl
  find-update ws metric ws' metric' at at' now v (c ∷ cs) =
      ground (arith, find-update ws metric ws' metric' at at' now v cs)

  -- No row has a counter's key, or the first one that has it is found.
  found_key :
      (ws metric : String) (at : ℕ) (cs : List UsageCounter) (c : UsageCounter)
      → find_where (is_counter month_start ws metric at) cs ≡ some c
      → is_counter month_start ws metric at c ≡ true
  found_key ws metric at cs c h = find_where_sound (is_counter month_start ws metric at) cs h

  -- Two counters are one.
  abbrev pub SameCounter : String → String → ℕ → String → String → ℕ → Type 0
  SameCounter ws metric at ws' metric' at' =
      (ws ≡ ws') × (metric ≡ metric') × (month_start at ≡ month_start at')

  same_of_key :
      (ws metric ws' metric' : String) (at at' : ℕ) (c : UsageCounter)
      → is_counter month_start ws metric at c ≡ true
      → is_counter month_start ws' metric' at' c ≡ true
      → SameCounter ws metric at ws' metric' at'
  same_of_key ws metric ws' metric' at at' c h k = ground (
    arith,
    eq_iff c.workspace_id ws,
    eq_iff c.workspace_id ws',
    eq_iff c.metric metric,
    eq_iff c.metric metric',
  )

  is_own_counter :
      (ws metric : String) (v : ℤ) (at now : ℕ)
      → is_counter month_start ws metric at (new_counter month_start ws metric v at now) ≡ true
  is_own_counter ws metric v at now = ground (arith, eq_iff ws ws, eq_iff metric metric)

  write-value_self :
      (ws metric : String) (at now a : ℕ) (cs : List UsageCounter)
      → a < 2 ^ 63
      → let (v, after) = write_counter month_start ws metric (pos a) at now cs in
        (v ≡ add64 (value ws metric at cs) (pos a)) × (value ws metric at after ≡ v)
  unfolding write_counter value
  write-value_self ws metric at now a cs small =
      elim (Option-cases (find_where (is_counter month_start ws metric at) cs)) [
        | inl e ↦
            rw (e, write_counter)
              (sym (add64_zero a small), rw (is_own_counter ws metric (pos a) at now) refl)
        | inr q ↦
            rw (q.1, write_counter)
              (
                refl,
                find-update ws metric ws metric at at now (add64 q.0.value (pos a)) cs
                    ∙ rw q.1 (rw (found_key ws metric at cs q.0 q.1) refl),
              )
      ]

  other_counter :
      (ws metric ws' metric' : String) (at at' : ℕ) (c : UsageCounter)
      → ¬ SameCounter ws metric at ws' metric' at'
      → is_counter month_start ws' metric' at' c ≡ true
      → is_counter month_start ws metric at c ≡ false
  other_counter ws metric ws' metric' at at' c ne h =
      elim (Bool-cases (is_counter month_start ws metric at c)) [
        | inl e ↦ absurd (ne (same_of_key ws metric ws' metric' at at' c e h))
        | inr e ↦ e
      ]

  new_other :
      (ws metric ws' metric' : String) (at at' now : ℕ) (amount : ℤ)
      → ¬ SameCounter ws metric at ws' metric' at'
      → is_counter month_start ws' metric' at' (new_counter month_start ws metric amount at now)
        ≡ false
  new_other ws metric ws' metric' at at' now amount ne =
      elim (Bool-cases (
        is_counter month_start ws' metric' at' (new_counter month_start ws metric amount at now))) [
          | inl e ↦ absurd (
              ne (
                same_of_key ws metric ws' metric' at at'
                  (new_counter month_start ws metric amount at now)
                  (is_own_counter ws metric amount at now) e))
          | inr e ↦ e
        ]

  unchanged :
      (ws metric ws' metric' : String) (at at' : ℕ) (v : ℤ) (cs : List UsageCounter)
      → ¬ SameCounter ws metric at ws' metric' at'
      → (elim (find_where (is_counter month_start ws' metric' at') cs) [
        | none ↦ pos 0
        | some c ↦ if is_counter month_start ws metric at c then v else c.value
      ])
        ≡ value ws' metric' at' cs
  unfolding value
  unchanged ws metric ws' metric' at at' v cs ne =
      elim (Option-cases (find_where (is_counter month_start ws' metric' at') cs)) [
        | inl e ↦ rw e refl
        | inr q ↦ rw q.1 (
            rw
              (other_counter ws metric ws' metric' at at' q.0 ne
                (found_key ws' metric' at' cs q.0 q.1))
              refl)
      ]

  write-value_other :
      (ws metric ws' metric' : String) (at at' now : ℕ) (amount : ℤ) (cs : List UsageCounter)
      → ¬ SameCounter ws metric at ws' metric' at'
      → value ws' metric' at' (write_counter month_start ws metric amount at now cs).1
        ≡ value ws' metric' at' cs
  unfolding write_counter value
  write-value_other ws metric ws' metric' at at' now amount cs ne =
      elim (Option-cases (find_where (is_counter month_start ws metric at) cs)) [
        | inl e ↦
            rw (e, write_counter) (rw (new_other ws metric ws' metric' at at' now amount ne) refl)
        | inr q ↦
            rw (q.1, write_counter)
              (find-update ws metric ws' metric' at at' now (add64 q.0.value amount) cs
                ∙ unchanged ws metric ws' metric' at at' (add64 q.0.value amount) cs ne)
      ]

  -- A successful call with a positive amount returns the counter's old value plus the amount, and
  -- leaves that value in the counter.
  pub increment-value_self :
      (ws metric : String) (at now a : ℕ) (cs : List UsageCounter)
      → ws ≢ ""
      → metric ≢ ""
      → 0 < a
      → a < 2 ^ 63
      → let (answer, after) =
          increment_monthly month_start
            (record { read_failure = none; write_failure = none })
            ws
            metric
            (pos a)
            at
            now
            cs in
        (answer ≡ ok (add64 (value ws metric at cs) (pos a)))
        × (value ws metric at after ≡ add64 (value ws metric at cs) (pos a))
  unfolding increment_monthly
  increment-value_self ws metric at now a cs named measured positive small =
      let w = write-value_self ws metric at now a cs small in
      rw (==_of_ne ws "" named, ==_of_ne metric "" measured) (ground arith)

  -- Every call, failed or not, leaves every other counter alone, and a failed call leaves them all.
  pub increment-value_other :
      (d : Driver) (ws metric ws' metric' : String) (amount : ℤ) (at at' now : ℕ)
      (cs : List UsageCounter)
      → let (answer, after) = increment_monthly month_start d ws metric amount at now cs in
        (¬ SameCounter ws metric at ws' metric' at'
          → value ws' metric' at' after ≡ value ws' metric' at' cs)
        × ((message : String) → answer ≡ err message → after ≡ cs)
  unfolding increment_monthly
  increment-value_other d ws metric ws' metric' amount at at' now cs = (
    λ ne. ground (arith, write-value_other ws metric ws' metric' at at' now amount cs ne),
    λ message h. ground arith,
  )

  -- `CurrentMonthly` reads the value.
  pub current-value :
      (ws metric : String) (at : ℕ) (cs : List UsageCounter)
      → current_monthly month_start none ws metric at cs ≡ ok (value ws metric at cs)
  unfolding current_monthly value
  current-value ws metric at cs = refl
