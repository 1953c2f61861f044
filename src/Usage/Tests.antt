-- ===== src/Usage/Tests.antt =====
-- The theorems of the counters at a concrete table.
use openpostfork.Prelude.{ℕ, ◌*◌, ◌/◌, ◌≡◌, none, List, [], ◌∷◌, arith, ok}
use openpostfork.Prelude.Int.{pos, add64}
use openpostfork.Usage.{UsageCounter, Driver, increment_monthly}
use openpostfork.Usage.Counters.{value, increment-value_self}

abbrev by_hundreds : ℕ → ℕ
by_hundreds at = at / 100 * 100

abbrev table : List UsageCounter
table =
    record {
      workspace_id = "w1";
      metric = "posts";
      period_start = 300;
      value = pos 4;
      created_at = 310;
      updated_at = 320;
    }
    ∷ []

abbrev working : Driver
working = record { read_failure = none; write_failure = none }

increment-value_self_example :
    let (answer, after) =
      increment_monthly by_hundreds working "w1" "posts" (pos 2) 350 351 table in
    (answer ≡ ok (add64 (value by_hundreds "w1" "posts" 350 table) (pos 2)))
    × (value by_hundreds "w1" "posts" 350 after
        ≡ add64 (value by_hundreds "w1" "posts" 350 table) (pos 2))
increment-value_self_example =
    increment-value_self by_hundreds "w1" "posts" 350 351 2 table (λ q. cc) (λ q. cc) (omega arith)
      (omega arith)
