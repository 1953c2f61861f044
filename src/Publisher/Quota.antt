-- ===== src/Publisher/Quota.antt =====
-- The monthly limit of the calls that write to a platform, over the publisher, the usage counters
-- and the entitlements.
use openpostfork.Prelude.{
  ℕ, ◌+◌, ◌^◌, ◌≤◌, ◌<◌, String, ◌<>◌, ◌≡◌, refl, sym, ap, ◌∙◌, subst, ◌≢◌, inl, inr, true, none,
  some, arith, Bool-cases, Option-cases, ==_of_ne, Result, ok, err, Result-cases,
}
use openpostfork.Prelude.Int.{pos, add64, add64_pos}
use openpostfork.Entitlements.{
  Request, PlanSnapshot, Answer, lookup, check, limit_provider_write_calls_monthly,
}
use openpostfork.Entitlements.Limits.{Fits, HasRoom, HasRoomIn, check-allowed}
use openpostfork.Usage.Counters.{value, current-value, increment-value_self}
use openpostfork.Publisher.{
  Post, SocialAccount, Store, Services, PublishRequest, PublishError, read_counter, write_counter,
  check_monthly_quota, record_usage, call, decided, quota_request, failure, is_expired_token_error,
  ◌>>=◌, Reply,
}
use openpostfork.Publisher.Destination.{
  counted_publish, publish_with_retry, after_publish, refresh_and_retry,
}
use openpostfork.Publisher.Finalize.{NoFaults}

abbrev metric : String
metric = limit_provider_write_calls_monthly

-- The counter of the workspace holds a number within the limit.
abbrev pub WithinLimit : {S : Type 0} → Services S → ℕ → String → Store S → Type 0
WithinLimit v limit ws s =
    (n : ℕ) × (value v.month_start ws limit_provider_write_calls_monthly v.now s.counters ≡ pos n)
    × (n ≤ limit)

module _ {S : Type 0} (v : Services S) (quiet : NoFaults v) (plan : PlanSnapshot) (limit : ℕ)
    (checks : (req : Request) → v.quota req ≡ check plan req)
    (limited : lookup limit_provider_write_calls_monthly plan.limits ≡ some (pos limit))
    (small : limit + 1 < 2 ^ 63) (ws : String) (named : ws ≢ "") where
  decided-none : (a : Answer) → decided v metric a ≡ none → a.0.allowed ≡ true
  decided-none (decision, some message) h = cc
  decided-none (decision, none) h = ground arith

  room :
      (n : ℕ) (req : Request)
      → req ≡ quota_request v ws metric (pos n)
      → n ≤ limit
      → (check plan req).0.allowed ≡ true
      → n < limit
  unfolding quota_request
  room n req e le h =
      let fits : Fits req = rw e (omega arith) in
      let r = (check-allowed plan req fits).0 h in
      let w : HasRoomIn (some (pos limit)) (quota_request v ws metric (pos n)) =
        subst (λ o. HasRoomIn o (quota_request v ws metric (pos n))) limited
          (subst (HasRoom plan) e r.1) in
      omega (arith, w)

  has_room :
      (s : Store S) (n : ℕ)
      → value v.month_start ws metric v.now s.counters ≡ pos n
      → n ≤ limit
      → check_monthly_quota v ws metric s ≡ none
      → n < limit
  unfolding check_monthly_quota quota_request
  has_room s n e le h =
      let h₁ =
        (rw
          (
            ==_of_ne ws "" named,
            quiet (read_counter ws),
            current-value v.month_start ws metric v.now s.counters,
            e,
          )
          at h) in
      room n (quota_request v ws metric (pos n)) refl le (
        decided-none (check plan (quota_request v ws metric (pos n)))
          (subst (λ a. decided v metric a ≡ none) (checks (quota_request v ws metric (pos n))) h₁))

  recorded :
      (s : Store S) (n : ℕ)
      → value v.month_start ws metric v.now s.counters ≡ pos n
      → n < limit
      → WithinLimit v limit ws (record_usage v ws metric s)
  unfolding record_usage
  recorded s n e lt =
      let inc =
        increment-value_self v.month_start ws metric v.now v.now 1 s.counters named (λ q. cc)
          (omega arith) (omega arith) in
      rw (==_of_ne ws "" named, quiet (read_counter ws), quiet (write_counter ws))
        (n + 1, inc.1 ∙ ap (λ z. add64 z (pos 1)) e ∙ add64_pos n 1 (omega arith), omega arith)

  after_check :
      (post : Post) (s : Store S)
      → post.workspace_id ≡ ws
      → WithinLimit v limit ws s
      → check_monthly_quota v post.workspace_id metric s ≡ none
      → WithinLimit v limit ws (record_usage v post.workspace_id metric s)
  after_check post s e (n, val, le) f =
      subst (λ w. WithinLimit v limit ws (record_usage v w metric s)) (sym e)
        (recorded s n val
          (has_room s n val le (subst (λ w. check_monthly_quota v w metric s ≡ none) e f)))

  WithinLimit-call :
      (wrap : String → PublishError) (f : S → Reply S) (s : Store S)
      → WithinLimit v limit ws s
      → WithinLimit v limit ws (call wrap f s).1
  unfolding call
  WithinLimit-call wrap f s h = elim (Result-cases (f s.services).0) [
    | inl q ↦ rw (q.1, call) h
    | inr q ↦ rw (q.1, call) h
  ]

  counted :
      (post : Post) (account : SocialAccount) (key token : String) (req : PublishRequest)
      (s : Store S)
      → post.workspace_id ≡ ws
      → WithinLimit v limit ws s
      → WithinLimit v limit ws (counted_publish v post account key token req s).1
  unfolding counted_publish
  counted post account key token req s e h =
      elim (Option-cases (check_monthly_quota v post.workspace_id metric s)) [
        | inr q ↦ rw (q.1, counted_publish) h
        | inl f ↦
            rw (f, counted_publish)
              (WithinLimit-call failure (v.publish key token account.account_id req)
                (record_usage v post.workspace_id metric s) (after_check post s e h f))
      ]

  retried :
      (post : Post) (account : SocialAccount) (key : String) (req : PublishRequest) (s : Store S)
      → post.workspace_id ≡ ws
      → WithinLimit v limit ws s
      → WithinLimit v limit ws (refresh_and_retry v post account key req s).1
  unfolding refresh_and_retry ◌>>=◌
  retried post account key req s e h =
      let wrap = λ (message : String).
        failure (account.platform <> " token refresh failed after expiry: " <> message) in
      let f = v.force_refresh_access_token account.id in
      let c = WithinLimit-call wrap f s h in
      elim (Result-cases (call wrap f s).0) [
        | inl q ↦ rw (q.1, ◌>>=◌) c
        | inr q ↦ rw (q.1, ◌>>=◌) (counted post account key q.0 req (call wrap f s).1 e c)
      ]

  after_publish-WithinLimit :
      (post : Post) (account : SocialAccount) (key : String) (req : PublishRequest)
      (r : Result String String) (s : Store S)
      → post.workspace_id ≡ ws
      → WithinLimit v limit ws s
      → WithinLimit v limit ws (after_publish v post account key req r s).1
  unfolding after_publish
  after_publish-WithinLimit post account key req (ok id) s e h = h
  after_publish-WithinLimit post account key req (err message) s e h =
      elim (Bool-cases (is_expired_token_error message)) [
        | inl f ↦ rw f (retried post account key req s e h)
        | inr f ↦ rw f h
      ]

  -- A publish call of a workspace, with its retry after an expired token, keeps the month's count of
  -- write calls within the plan's limit. (No statement fails, the static plan of the workspace has
  -- the limit, which is below 2^63 - 1, and the count is within it before.)
  pub publish_with_retry-WithinLimit :
      (post : Post) (account : SocialAccount) (key token : String) (req : PublishRequest)
      (s : Store S)
      → post.workspace_id ≡ ws
      → WithinLimit v limit ws s
      → WithinLimit v limit ws (publish_with_retry v post account key token req s).1
  unfolding publish_with_retry
  publish_with_retry-WithinLimit post account key token req s e h =
      let t = record_usage v post.workspace_id metric s in
      let a = v.publish key token account.account_id req t.services in
      elim (Option-cases (check_monthly_quota v post.workspace_id metric s)) [
        | inr q ↦ rw (q.1, publish_with_retry) h
        | inl f ↦
            rw (f, publish_with_retry)
              (after_publish-WithinLimit post account key req a.0 (record t { services = a.1 }) e
                (after_check post s e h f))
      ]
