-- ===== src/RateLimit/Bound.antt =====
-- How many requests the limiter lets through.
use openpostfork.Prelude.{
  ℕ, suc, ◌+◌, ◌≤◌, ◌<◌, max, String, ◌≡◌, ◌∙◌, subst, ◌≢◌, ◌⊎◌, inl, inr, true, false, some, List,
  [], ◌∷◌, arith, ◌==◌, eq_iff, if◌then◌else◌, Bool-cases, ==_of_ne, All,
}
use openpostfork.RateLimit.{Limiter, Bucket, allow}

-- A request for a key at a time.
pub record Request : Type 0 where
  pub key : String
  pub at : ℕ

-- The requests of a key that are let through, where all calls have one limit and one window.
unfoldable pub granted : ℕ → ℕ → String → Limiter → List Request → ℕ
granted limit window k l [] = 0
granted limit window k l (r ∷ rs) =
    let rest = granted limit window k (allow l r.key limit window r.at).0 rs in
    if (r.key == k) then (if (allow l r.key limit window r.at).1 then suc rest else rest) else rest

-- A call for one key leaves every other key's bucket as it was.
pub allow_other :
    (l : Limiter) (key other : String) (limit window now : ℕ)
    → key ≢ other
    → (allow l key limit window now).0.buckets other ≡ l.buckets other
unfolding allow
allow_other l key other limit window now h = ground (arith, ==_of_ne key other h)

-- Within its window a bucket counts the calls that pass, and refuses them from `limit` on.
pub allow_within :
    (l : Limiter) (key : String) (limit window now : ℕ) (b : Bucket)
    → l.buckets key ≡ some b
    → now < b.window_start + window
    → (((allow l key limit window now).1 ≡ true)
        × (b.count < limit)
        × ((allow l key limit window now).0.buckets key ≡ some (record b { count = suc b.count })))
      ⊎ (((allow l key limit window now).1 ≡ false)
          × (limit ≤ b.count)
          × ((allow l key limit window now).0.buckets key ≡ some b))
unfolding allow
allow_within l key limit window now b h lt = ground (arith, eq_iff key key)

-- While the window of a bucket lasts, the calls that pass and those that it counts stay within the
-- limit together (a window counts its first call even at the limit 0).
pub granted_bound :
    (limit window : ℕ) (k : String) (rs : List Request) (l : Limiter) (b : Bucket)
    → l.buckets k ≡ some b
    → All (λ r. r.at < b.window_start + window) rs
    → b.count + granted limit window k l rs ≤ max limit b.count
unfolding granted
granted_bound limit window k [] l b h lt = omega arith
granted_bound limit window k (r ∷ rs) l b h lt = elim (Bool-cases (r.key == k)) [
  | inl e ↦ elim (allow_within l r.key limit window r.at b (rw ((eq_iff r.key k).0 e) h) lt.0) [
    | inl p ↦ ground (
      arith,
      eq_iff r.key k,
      granted_bound limit window k rs (allow l r.key limit window r.at).0
          (record b { count = suc b.count })
          (subst
            (λ j.
              (allow l r.key limit window r.at).0.buckets j
              ≡ some (record b { count = suc b.count }))
            ((eq_iff r.key k).0 e) p.2)
          lt.1,
    )
    | inr p ↦ ground (
      arith,
      eq_iff r.key k,
      granted_bound limit window k rs (allow l r.key limit window r.at).0 b
          (subst (λ j. (allow l r.key limit window r.at).0.buckets j ≡ some b)
            ((eq_iff r.key k).0 e) p.2)
          lt.1,
    )
  ]
  | inr e ↦ ground (
    arith,
    granted_bound limit window k rs (allow l r.key limit window r.at).0 b
        (allow_other l r.key k limit window r.at (λ q. cc ((eq_iff r.key k).1 q)) ∙ h) lt.1,
  )
]
