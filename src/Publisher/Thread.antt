-- ===== src/Publisher/Thread.antt =====
-- backend/internal/services/publisher/publisher.go: a thread of posts, `publishThread`.
use openpostfork.Prelude.{
  String, Bool, true, false, ◌||◌, Option, none, some, List, [], ◌∷◌, ◌==◌, if◌then◌else◌, Result,
  ok, err,
}
use openpostfork.Entitlements.{limit_published_posts_monthly}
use openpostfork.Publisher.{
  Post, PostDestination, Store, Services, PublishError, M, failure, linkedin_thread_reply_skipped,
  check_monthly_quota,
}
use openpostfork.Publisher.Single.{
  finalize_post, mark_destination_failed, mark_destination_success, mark_destinations_failed,
  open_destinations,
}

-- `successfulAccounts[id]`, a set of account ids.
unfoldable pub member : String → List String → Bool
member a [] = false
member a (b ∷ bs) = b == a || member a bs

abbrev pub previous_failed : PublishError
previous_failed = failure "previous post in thread failed for this account"

module _ {S : Type 0} (v : Services S) where
  -- `filterThreadDestinationsAfterPreviousPost`: the destinations left, and the others failed.
  unfoldable pub filter_destinations :
      List String → List PostDestination → Store S → List PostDestination × Store S
  filter_destinations accounts [] s = ([], s)
  filter_destinations accounts (d ∷ ds) s =
      let here = member d.social_account_id accounts in
      let (rest, s') =
        filter_destinations accounts ds
          (if here then s else mark_destination_failed v d.id previous_failed s) in
      (if here then d ∷ rest else rest, s')

  -- `if i > 0`.
  abbrev pub filter_later :
      Bool → List String → List PostDestination → Store S → List PostDestination × Store S
  filter_later first accounts ds s = if first then (ds, s) else filter_destinations accounts ds s

  -- `deliver` is `publishToDestination`.
  module _ (deliver : Post → PostDestination → M S (Unit {0})) where
    -- The mark of a delivery: a skipped LinkedIn reply counts as a success.
    unfoldable pub mark_thread_outcome : String → Result PublishError (Unit {0}) → Store S → Store S
    mark_thread_outcome id (ok _) s = mark_destination_success v id false s
    mark_thread_outcome id (err linkedin_thread_reply_skipped) s =
        mark_destination_success v id true s
    mark_thread_outcome id (err (failure message)) s =
        mark_destination_failed v id (failure message) s

    abbrev pub succeeded : Result PublishError (Unit {0}) → Bool
    succeeded (ok _) = true
    succeeded (err linkedin_thread_reply_skipped) = true
    succeeded (err (failure message)) = false

    -- `publishThreadDestinations`: the accounts that succeeded.
    unfoldable pub publish_thread_destinations :
        Post → List PostDestination → Store S → List String × Store S
    publish_thread_destinations post [] s = ([], s)
    publish_thread_destinations post (d ∷ ds) s =
        let (r, s') = deliver post d s in
        let (rest, s'') = publish_thread_destinations post ds (mark_thread_outcome d.id r s') in
        (if succeeded r then d.social_account_id ∷ rest else rest, s'')

    -- One round of the loop: the quota error, if there is one, the accounts that succeeded, and
    -- the tables.
    abbrev pub Round : Type 0
    Round = Option PublishError × List String × Store S

    unfoldable pub delivered : Post → List PostDestination → Store S → Round
    delivered post ds s =
        let (accounts, s') = publish_thread_destinations post ds s in
        (none, accounts, finalize_post v post s')

    -- The quota is asked where a destination is left.
    unfoldable pub within_quota : Post → List PostDestination → Store S → Round
    unfolding delivered
    within_quota post [] s = delivered post [] s
    within_quota post (d ∷ ds) s =
        elim (check_monthly_quota v post.workspace_id limit_published_posts_monthly s) [
          | some message ↦ (
            some (failure message),
            [],
            finalize_post v post (mark_destinations_failed v (d ∷ ds) (failure message) s),
          )
          | none ↦ delivered post (d ∷ ds) s
        ]

    -- A post whose destinations cannot be loaded leaves the accounts of the post before it.
    unfoldable pub thread_round : Bool → List String → Post → Store S → Round
    unfolding within_quota
    thread_round first accounts post s = elim (open_destinations v post.id s) [
      | err e ↦ (none, accounts, finalize_post v post s)
      | ok ds ↦ let (left, s') = filter_later first accounts ds s in within_quota post left s'
    ]

    abbrev pub keep_first : Option PublishError → Option PublishError → Option PublishError
    keep_first none new = new
    keep_first (some e) new = some e

    -- The loop over the posts.
    unfoldable pub thread_loop :
        Bool
        → Option PublishError
        → List String
        → List Post
        → Store S
        → Option PublishError × Store S
    thread_loop first first_error accounts [] s = (first_error, s)
    thread_loop first first_error accounts (p ∷ ps) s =
        let (e, accounts', s') = thread_round first accounts p s in
        thread_loop false (keep_first first_error e) accounts' ps s'

    -- `publishThread`.
    unfoldable pub publish_thread : List Post → Store S → Option PublishError × Store S
    unfolding thread_loop
    publish_thread posts s = thread_loop true none [] posts s
