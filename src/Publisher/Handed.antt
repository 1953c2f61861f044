-- ===== src/Publisher/Handed.antt =====
-- To which accounts the later posts of a thread go.
use openpostfork.Prelude.{
  String, ◌≡◌, refl, ap, ◌∙◌, inl, inr, true, false, Option, none, List, [], ◌∷◌, Option-cases, All,
  Result, ok, err, Result-cases,
}
use openpostfork.Entitlements.{limit_published_posts_monthly}
use openpostfork.Publisher.{
  Post, PostDestination, Store, Services, PublishError, failure, linkedin_thread_reply_skipped, M,
  check_monthly_quota,
}
use openpostfork.Publisher.Single.{open_destinations, finalize_post}
use openpostfork.Publisher.Thread.{
  member, filter_destinations, publish_thread_destinations, succeeded, delivered, within_quota,
  thread_round, thread_loop, keep_first, mark_thread_outcome, Round,
}
use openpostfork.Publisher.Chain.{filtered, thread_round-Among}

module _ {S : Type 0} (v : Services S)
    (deliver deliver' : Post → PostDestination → M S (Unit {0})) where
  -- The two deliveries do the same for the destinations of these accounts.
  abbrev pub SameFor : List String → Type 0
  SameFor accounts =
      (p : Post) (d : PostDestination) (s : Store S)
      → member d.social_account_id accounts ≡ true
      → deliver p d s ≡ deliver' p d s

  same_mark :
      (id : String) (r : Result PublishError (Unit {0})) (s : Store S)
      → mark_thread_outcome v deliver id r s ≡ mark_thread_outcome v deliver' id r s
  unfolding mark_thread_outcome
  same_mark id (ok x) s = refl
  same_mark id (err linkedin_thread_reply_skipped) s = refl
  same_mark id (err (failure message)) s = refl

  same_success :
      (r : Result PublishError (Unit {0})) → succeeded v deliver r ≡ succeeded v deliver' r
  same_success (ok x) = refl
  same_success (err linkedin_thread_reply_skipped) = refl
  same_success (err (failure message)) = refl

  same_destinations :
      (accounts : List String) (post : Post) (ds : List PostDestination) (s : Store S)
      → SameFor accounts
      → All (λ d. member d.social_account_id accounts ≡ true) ds
      → publish_thread_destinations v deliver post ds s
        ≡ publish_thread_destinations v deliver' post ds s
  unfolding publish_thread_destinations
  same_destinations accounts post [] s same h = refl
  same_destinations accounts post (d ∷ ds) s same h =
      let r = deliver' post d s in
      let next = mark_thread_outcome v deliver' d.id r.0 r.1 in
      rw
        (
          same post d s h.0,
          same_mark d.id r.0 r.1,
          same_success r.0,
          same_destinations accounts post ds next same h.1,
        )
        refl

  same_delivered :
      (accounts : List String) (post : Post) (ds : List PostDestination) (s : Store S)
      → SameFor accounts
      → All (λ d. member d.social_account_id accounts ≡ true) ds
      → delivered v deliver post ds s ≡ delivered v deliver' post ds s
  unfolding delivered
  same_delivered accounts post ds s same h =
      ap (λ (r : List String × Store S). (none, r.0, finalize_post v post r.1))
        (same_destinations accounts post ds s same h)

  same_within :
      (accounts : List String) (post : Post) (ds : List PostDestination) (s : Store S)
      → SameFor accounts
      → All (λ d. member d.social_account_id accounts ≡ true) ds
      → within_quota v deliver post ds s ≡ within_quota v deliver' post ds s
  unfolding within_quota
  same_within accounts post [] s same h = same_delivered accounts post [] s same h
  same_within accounts post (d ∷ ds) s same h =
      elim (Option-cases
        (check_monthly_quota v post.workspace_id limit_published_posts_monthly s)) [
          | inl e ↦ rw (e, within_quota) (same_delivered accounts post (d ∷ ds) s same h)
          | inr q ↦ rw (q.1, within_quota) refl
        ]

  same_round :
      (accounts : List String) (post : Post) (s : Store S)
      → SameFor accounts
      → thread_round v deliver false accounts post s ≡ thread_round v deliver' false accounts post s
  unfolding thread_round
  same_round accounts post s same = elim (Result-cases (open_destinations v post.id s)) [
    | inl q ↦ rw (q.1, thread_round) refl
    | inr q ↦
        rw (q.1, thread_round)
          (let f = filter_destinations v accounts q.0 s in
            same_within accounts post f.0 f.1 same (filtered v deliver accounts q.0 s))
  ]

  -- Past the first post, a thread delivers only to the accounts that it was handed: two deliveries
  -- that do the same for the destinations of these accounts, whatever they do for others, give the
  -- same error and the same tables over all the posts that follow.
  pub thread_loop-SameFor :
      (first_error : Option PublishError) (accounts : List String) (posts : List Post) (s : Store S)
      → SameFor accounts
      → thread_loop v deliver false first_error accounts posts s
        ≡ thread_loop v deliver' false first_error accounts posts s
  unfolding thread_loop
  thread_loop-SameFor first_error accounts [] s same = refl
  thread_loop-SameFor first_error accounts (p ∷ ps) s same =
      let r = thread_round v deliver' false accounts p s in
      let fewer = thread_round-Among v deliver' accounts p s in
      ap
        (λ (x : Round v deliver).
          thread_loop v deliver false (keep_first v deliver first_error x.0) x.1 ps x.2)
        (same_round accounts p s same)
      ∙ thread_loop-SameFor (keep_first v deliver first_error r.0) r.1 ps r.2
          (λ q d t m. same q d t (fewer d.social_account_id m))
