-- ===== src/Publisher/Chain.antt =====
-- How a failure in a thread is passed on: to the later posts of the account, and to the job.
use openpostfork.Prelude.{
  String, ◌≡◌, refl, sym, subst, ◌⊎◌, inl, inr, Bool, true, false, Option, none, some, List, [],
  ◌∷◌, ◌==◌, eq_iff, Bool-cases, Option-cases, All, Result-cases,
}
use openpostfork.Entitlements.{limit_published_posts_monthly}
use openpostfork.Prelude.Table.{In}
use openpostfork.Publisher.{
  Post, PostDestination, Store, Services, PublishError, failure, M, check_monthly_quota,
}
use openpostfork.Publisher.Single.{mark_destination_failed, open_destinations}
use openpostfork.Publisher.Thread.{
  member, filter_destinations, filter_later, publish_thread_destinations, succeeded, delivered,
  within_quota, thread_round, thread_loop, publish_thread, previous_failed, mark_thread_outcome,
}

-- The accounts of the first list are among those of the second.
abbrev pub Among : List String → List String → Type 0
Among new old = (a : String) → member a new ≡ true → member a old ≡ true

member_of_All : (old new : List String) → All (λ b. member b old ≡ true) new → Among new old
unfolding member
member_of_All old [] h a m = cc
member_of_All old (b ∷ bs) h a m = elim (Bool-cases (b == a)) [
  | inl e ↦ subst (λ x. member x old ≡ true) ((eq_iff b a).0 e) h.0
  | inr e ↦ member_of_All old bs h.1 a (rw e at m)
]

module _ {S : Type 0} (v : Services S) (deliver : Post → PostDestination → M S (Unit {0})) where
  pub filtered :
      (accounts : List String) (ds : List PostDestination) (s : Store S)
      → All
          (λ d. member d.social_account_id accounts ≡ true)
          (filter_destinations v accounts ds s).0
  unfolding filter_destinations
  filtered accounts [] s = tt
  filtered accounts (d ∷ ds) s = elim (Bool-cases (member d.social_account_id accounts)) [
    | inl e ↦ rw e (e, filtered accounts ds s)
    | inr e ↦ rw e (filtered accounts ds (mark_destination_failed v d.id previous_failed s))
  ]

  accounts_of :
      (P : String → Type 0) (post : Post) (ds : List PostDestination) (s : Store S)
      → All (λ d. P d.social_account_id) ds
      → All P (publish_thread_destinations v deliver post ds s).0
  unfolding publish_thread_destinations
  accounts_of P post [] s h = tt
  accounts_of P post (d ∷ ds) s h =
      let (r, s') = deliver post d s in
      let rest = accounts_of P post ds (mark_thread_outcome v deliver d.id r s') h.1 in
      elim (Bool-cases (succeeded v deliver r)) [ inl e ↦ rw e (h.0, rest) | inr e ↦ rw e rest ]

  round_accounts :
      (P : String → Type 0) (post : Post) (ds : List PostDestination) (s : Store S)
      → All (λ d. P d.social_account_id) ds
      → All P (within_quota v deliver post ds s).1
  unfolding within_quota delivered
  round_accounts P post [] s h = accounts_of P post [] s h
  round_accounts P post (d ∷ ds) s h =
      elim (Option-cases
        (check_monthly_quota v post.workspace_id limit_published_posts_monthly s)) [
          | inl e ↦ rw (e, within_quota) (accounts_of P post (d ∷ ds) s h)
          | inr q ↦ rw (q.1, within_quota) tt
        ]

  -- The accounts that a later round hands to the next one are among those that it was handed.
  pub thread_round-Among :
      (accounts : List String) (post : Post) (s : Store S)
      → Among (thread_round v deliver false accounts post s).1 accounts
  unfolding thread_round
  thread_round-Among accounts post s = elim (Result-cases (open_destinations v post.id s)) [
    | inl q ↦ rw (q.1, thread_round) (λ a m. m)
    | inr q ↦
        rw (q.1, thread_round)
          (let f = filter_destinations v accounts q.0 s in
            member_of_All accounts (within_quota v deliver post f.0 f.1).1 (
              round_accounts (λ b. member b accounts ≡ true) post f.0 f.1
                (filtered accounts q.0 s)))
  ]

  -- The error is that of a quota check for one of the posts.
  abbrev pub IsRefused : List Post → Option PublishError → Type 0
  IsRefused posts e =
      (p : Post) × In p posts
      × (t : Store S) × (message : String) × (check_monthly_quota v p.workspace_id
            limit_published_posts_monthly t
          ≡ some message)
      × (e ≡ some (failure message))

  abbrev pub OnlyRefused : List Post → Option PublishError → Type 0
  OnlyRefused posts e = (e ≡ none) ⊎ IsRefused posts e

  within-OnlyRefused :
      (post : Post) (ds : List PostDestination) (s : Store S)
      → OnlyRefused (post ∷ []) (within_quota v deliver post ds s).0
  unfolding within_quota delivered
  within-OnlyRefused post [] s = inl refl
  within-OnlyRefused post (d ∷ ds) s =
      elim (Option-cases
        (check_monthly_quota v post.workspace_id limit_published_posts_monthly s)) [
          | inl e ↦ rw (e, within_quota) (inl refl)
          | inr q ↦ rw (q.1, within_quota) (inr (post, inl refl, s, q.0, q.1, refl))
        ]

  round-OnlyRefused :
      (first : Bool) (accounts : List String) (post : Post) (s : Store S)
      → OnlyRefused (post ∷ []) (thread_round v deliver first accounts post s).0
  unfolding thread_round
  round-OnlyRefused first accounts post s = elim (Result-cases (open_destinations v post.id s)) [
    | inl q ↦ rw (q.1, thread_round) (inl refl)
    | inr q ↦
        rw (q.1, thread_round)
          (let f = filter_later v first accounts q.0 s in within-OnlyRefused post f.0 f.1)
  ]

  of_first :
      (p : Post) (ps : List Post) (e : Option PublishError)
      → OnlyRefused (p ∷ []) e
      → OnlyRefused (p ∷ ps) e
  of_first p ps e (inl h) = inl h
  of_first p ps e (inr (q, inl i, t, message, h, k)) = inr (q, inl i, t, message, h, k)
  of_first p ps e (inr (q, inr i, t, message, h, k)) = elim i [ ]

  of_rest :
      (p : Post) (ps : List Post) (e : Option PublishError)
      → OnlyRefused ps e
      → OnlyRefused (p ∷ ps) e
  of_rest p ps e (inl h) = inl h
  of_rest p ps e (inr (q, i, t, message, h, k)) = inr (q, inr i, t, message, h, k)

  -- An error that came first stays.
  loop_keeps :
      (cause : PublishError) (accounts : List String) (posts : List Post) (s : Store S)
      → (thread_loop v deliver false (some cause) accounts posts s).0 ≡ some cause
  unfolding thread_loop
  loop_keeps cause accounts [] s = refl
  loop_keeps cause accounts (p ∷ ps) s =
      let r = thread_round v deliver false accounts p s in loop_keeps cause r.1 ps r.2

  after_round :
      (o : Option PublishError) (accounts : List String) (p : Post) (ps : List Post) (s : Store S)
      → OnlyRefused (p ∷ []) o
      → OnlyRefused ps (thread_loop v deliver false none accounts ps s).0
      → OnlyRefused (p ∷ ps) (thread_loop v deliver false o accounts ps s).0
  after_round none accounts p ps s h k =
      of_rest p ps (thread_loop v deliver false none accounts ps s).0 k
  after_round (some cause) accounts p ps s h k =
      subst (OnlyRefused (p ∷ ps)) (sym (loop_keeps cause accounts ps s))
        (of_first p ps (some cause) h)

  loop-OnlyRefused :
      (first : Bool) (accounts : List String) (posts : List Post) (s : Store S)
      → OnlyRefused posts (thread_loop v deliver first none accounts posts s).0
  unfolding thread_loop
  loop-OnlyRefused first accounts [] s = inl refl
  loop-OnlyRefused first accounts (p ∷ ps) s =
      let r = thread_round v deliver first accounts p s in
      after_round r.0 r.1 p ps r.2 (round-OnlyRefused first accounts p s)
        (loop-OnlyRefused false r.1 ps r.2)

  -- A thread ends without an error, or with the message of a quota check for one of its posts: the
  -- error of a delivery, or of the load of the destinations, is never the error of the thread.
  pub publish_thread-OnlyRefused :
      (posts : List Post) (s : Store S) → OnlyRefused posts (publish_thread v deliver posts s).0
  unfolding publish_thread
  publish_thread-OnlyRefused posts s = loop-OnlyRefused true [] posts s
