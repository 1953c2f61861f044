-- ===== src/Publisher/Single.antt =====
-- backend/internal/services/publisher/publisher.go: a post on its own, `publishSinglePost`, and the
-- status of a post after a run, `finalizePost`.
use openpostfork.Prelude.{
  ℕ, String, Bool, false, ◌&&◌, Option, none, some, List, [], ◌∷◌, ltb, eqb, if◌then◌else◌, Result,
  ok, err,
}
use openpostfork.Prelude.Table.{select_where, count_where}
use openpostfork.Entitlements.{limit_published_posts_monthly}
use openpostfork.Publisher.{
  Post, PostDestination, Store, Statement, Services, PublishError, M, failure, error_text,
  published, success, failed, load_destinations, count_destinations, count_failed, mark_post,
  mark_destination, destination_of, is_open, is_failed, check_monthly_quota, record_usage,
  update_destination, update_post,
}

abbrev pub open_destination : String → PostDestination → Bool
open_destination post_id d = destination_of post_id d && is_open d.status

abbrev pub failed_destination : String → PostDestination → Bool
failed_destination post_id d = destination_of post_id d && is_failed d.status

abbrev pub mark_success : PostDestination → PostDestination
mark_success d = record d { status = success }

abbrev pub mark_success_clear : PostDestination → PostDestination
mark_success_clear d = record d { status = success; error_message = "" }

abbrev pub mark_failure : String → PostDestination → PostDestination
mark_failure message d = record d { status = failed; error_message = message }

module _ {S : Type 0} (v : Services S) where
  -- `totalDests, _ = … .Count(ctx)`: a failed count is 0.
  unfoldable pub count_or_zero : Statement → (PostDestination → Bool) → Store S → ℕ
  count_or_zero statement test s = elim (v.fails statement) [
    | some message ↦ 0
    | none ↦ count_where test s.destinations
  ]

  -- The update to `published`, and the usage record that follows where it succeeds.
  unfoldable pub finalize_published : Post → Store S → Store S
  finalize_published post s = elim (v.fails (mark_post post.id)) [
    | some message ↦ s
    | none ↦ record_usage v post.workspace_id limit_published_posts_monthly (
        update_post v (mark_post post.id) post.id
          (λ p. record p { status = published; published_at = v.now }) s)
  ]

  -- `finalizePost`.
  unfoldable pub finalize_post : Post → Store S → Store S
  unfolding finalize_published
  finalize_post post s =
      if eqb (count_or_zero (count_destinations post.id) (destination_of post.id) s) 0
      then update_post v (mark_post post.id) post.id (λ p. record p { status = published }) s
      else if ltb 0 (count_or_zero (count_failed post.id) (failed_destination post.id) s)
      then update_post v (mark_post post.id) post.id (λ p. record p { status = failed }) s
      else finalize_published post s

  -- `markDestinationFailed` and the update of `publishSinglePost`.
  unfoldable pub mark_destination_failed : String → PublishError → Store S → Store S
  mark_destination_failed id cause =
      update_destination v (mark_destination id) id (mark_failure (error_text cause))

  -- `markDestinationSuccess`.
  unfoldable pub mark_destination_success : String → Bool → Store S → Store S
  mark_destination_success id clear_error =
      update_destination v (mark_destination id) id
        (if clear_error then mark_success_clear else mark_success)

  -- `markDestinationsFailed`.
  unfoldable pub mark_destinations_failed : List PostDestination → PublishError → Store S → Store S
  mark_destinations_failed [] cause s = s
  mark_destinations_failed (d ∷ ds) cause s =
      mark_destinations_failed ds cause (mark_destination_failed d.id cause s)

  -- The pending and failed destinations of a post.
  unfoldable pub open_destinations : String → Store S → Result PublishError (List PostDestination)
  open_destinations post_id s = elim (v.fails (load_destinations post_id)) [
    | some message ↦ err (failure message)
    | none ↦ ok (select_where (open_destination post_id) s.destinations)
  ]

  -- `deliver` is `publishToDestination`.
  module _ (deliver : Post → PostDestination → M S (Unit {0})) where
    -- The mark of one destination after its delivery.
    unfoldable pub mark_outcome : String → Result PublishError (Unit {0}) → Store S → Store S
    mark_outcome id (ok _) s = mark_destination_success id false s
    mark_outcome id (err e) s = mark_destination_failed id e s

    -- What `firstError` holds after a delivery: it is overwritten by each error.
    abbrev pub next_error :
        Option PublishError → Result PublishError (Unit {0}) → Option PublishError
    next_error old (ok _) = old
    next_error old (err e) = some e

    -- The loop over the destinations.
    unfoldable pub publish_each :
        Post → Option PublishError → List PostDestination → Store S → Option PublishError × Store S
    publish_each post first_error [] s = (first_error, s)
    publish_each post first_error (d ∷ ds) s =
        let (r, s') = deliver post d s in
        publish_each post (next_error first_error r) ds (mark_outcome d.id r s')

    unfoldable pub publish_destinations :
        Post → List PostDestination → Store S → Option PublishError × Store S
    publish_destinations post [] s = (none, finalize_post post s)
    publish_destinations post (d ∷ ds) s =
        elim (check_monthly_quota v post.workspace_id limit_published_posts_monthly s) [
          | some message ↦ (
            some (failure message),
            finalize_post post (mark_destinations_failed (d ∷ ds) (failure message) s),
          )
          | none ↦
              let (first_error, s') = publish_each post none (d ∷ ds) s in
              (first_error, finalize_post post s')
        ]

    -- `publishSinglePost`: the error, if there is one, and the tables after it.
    unfoldable pub publish_single_post : Post → Store S → Option PublishError × Store S
    unfolding publish_destinations
    publish_single_post post s = elim (open_destinations post.id s) [
      | err e ↦ (some e, s)
      | ok ds ↦ publish_destinations post ds s
    ]
