-- ===== src/RateLimit/Tests.antt =====
-- The theorems of the limiter at concrete requests.
use openpostfork.Prelude.{◌+◌, ◌≤◌, max, refl, none, List, [], ◌∷◌, arith}
use openpostfork.RateLimit.{Limiter, Bucket, put}
use openpostfork.RateLimit.Bound.{Request, granted, granted_bound}

abbrev first_bucket : Bucket
first_bucket = record { window_start = 1000; count = 1 }

abbrev one_call : Limiter
one_call = record { buckets = put (λ _. none) "ip" first_bucket }

abbrev calls : List Request
calls =
    record { key = "ip"; at = 1001 }
    ∷ record { key = "other"; at = 1002 }
    ∷ record { key = "ip"; at = 1099 }
    ∷ []

granted_bound_example : 1 + granted 2 100 "ip" one_call calls ≤ max 2 1
granted_bound_example =
    granted_bound 2 100 "ip" calls one_call first_bucket refl
      (omega arith, (omega arith, (omega arith, tt)))
