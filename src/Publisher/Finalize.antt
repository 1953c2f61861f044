-- ===== src/Publisher/Finalize.antt =====
-- The status of a post after a run.
use openpostfork.Prelude.{
  ℕ, ◌≤◌, String, ◌≡◌, refl, ap, inl, inr, Bool, none, some, List, [], ◌∷◌, arith, ◌==◌, ltb, eqb,
  if◌then◌else◌, Bool-cases,
}
use openpostfork.Prelude.Table.{count_where, find_where, find_where-update_where}
use openpostfork.Entitlements.{limit_published_posts_monthly}
use openpostfork.Publisher.{
  Post, PostStatus, PostDestination, Store, Statement, Services, by_post_id, published, failed,
  destination_of, count_destinations, count_failed, mark_post, update_post, record_usage,
}
use openpostfork.Publisher.Single.{
  finalize_post, count_or_zero, finalize_published, failed_destination,
}

-- The driver fails no statement.
abbrev pub NoFaults : {S : Type 0} → Services S → Type 0
NoFaults v = (st : Statement) → v.fails st ≡ none

abbrev pub status_for : ℕ → PostStatus
status_for n = if ltb 0 n then failed else published

-- The row of the post has the status.
abbrev pub HasStatus : {S : Type 0} → Post → Store S → PostStatus → Type 0
HasStatus post s status =
    (row : Post) × (find_where (by_post_id post.id) s.posts ≡ some row) × (row.status ≡ status)

pub count_failed-le-count :
    (post_id : String) (ds : List PostDestination)
    → count_where (failed_destination post_id) ds ≤ count_where (destination_of post_id) ds
count_failed-le-count post_id [] = omega arith
count_failed-le-count post_id (d ∷ ds) = ground (arith, count_failed-le-count post_id ds)

module _ {S : Type 0} (v : Services S) where
  pub record_usage_keeps :
      (ws metric : String) (s : Store S)
      → ((record_usage v ws metric s).posts ≡ s.posts)
        × ((record_usage v ws metric s).destinations ≡ s.destinations)
  unfolding record_usage
  record_usage_keeps ws metric s = ground arith

  pub finalize-destinations :
      (post : Post) (s : Store S) → (finalize_post v post s).destinations ≡ s.destinations
  unfolding finalize_post update_post
  finalize-destinations post s = ground (
    arith,
    record_usage_keeps post.workspace_id limit_published_posts_monthly (
        update_post v (mark_post post.id) post.id
          (λ p. record p { status = published; published_at = v.now }) s),
  )

  -- The row of the post after an update of it.
  find-update_post :
      (post : Post) (set : Post → Post) (s : Store S) {row : Post}
      → v.fails (mark_post post.id) ≡ none
      → ((r : Post) → (set r).id ≡ r.id)
      → find_where (by_post_id post.id) s.posts ≡ some row
      → find_where (by_post_id post.id) (update_post v (mark_post post.id) post.id set s).posts
        ≡ some (set row)
  unfolding update_post
  find-update_post post set s {row} quiet keeps h =
      rw (quiet, update_post)
        (find_where-update_where (by_post_id post.id) set s.posts
          (λ r. ap (λ i. i == post.id) (keeps r)) {r = row} h)

  finalize_published-status :
      (post : Post) (s : Store S) {row : Post}
      → v.fails (mark_post post.id) ≡ none
      → find_where (by_post_id post.id) s.posts ≡ some row
      → HasStatus post (finalize_published v post s) published
  unfolding finalize_published
  finalize_published-status post s {row} quiet h =
      let set = λ (p : Post). record p { status = published; published_at = v.now } in
      (
        set row,
        rw (quiet, finalize_published)
            (rw
              (record_usage_keeps post.workspace_id limit_published_posts_monthly
                (update_post v (mark_post post.id) post.id set s)).0
              (find-update_post post set s {row = row} quiet (λ r. refl) h)),
        refl,
      )

  count_quiet :
      (st : Statement) (test : PostDestination → Bool) (s : Store S)
      → v.fails st ≡ none
      → count_or_zero v st test s ≡ count_where test s.destinations
  unfolding count_or_zero
  count_quiet st test s quiet = rw (quiet, count_or_zero)

  count_fault :
      (st : Statement) (test : PostDestination → Bool) (s : Store S) (message : String)
      → v.fails st ≡ some message
      → count_or_zero v st test s ≡ 0
  unfolding count_or_zero
  count_fault st test s message fault = rw (fault, count_or_zero)

  -- Where no count fails, the post is `failed` if one of its destinations is, and `published` if not.
  pub finalize_post-status :
      (post : Post) (s : Store S) {row : Post}
      → NoFaults v
      → find_where (by_post_id post.id) s.posts ≡ some row
      → HasStatus post
          (finalize_post v post s)
          (status_for (count_where (failed_destination post.id) s.destinations))
  unfolding finalize_post
  finalize_post-status post s {row} quiet h =
      let total = count_where (destination_of post.id) s.destinations in
      let bad = count_where (failed_destination post.id) s.destinations in
      let c =
        count_quiet (count_destinations post.id) (destination_of post.id) s
          (quiet (count_destinations post.id)) in
      let d =
        count_quiet (count_failed post.id) (failed_destination post.id) s
          (quiet (count_failed post.id)) in
      elim (Bool-cases (eqb total 0)) [
        | inl e ↦
            let z : bad ≡ 0 = ground (arith, count_failed-le-count post.id s.destinations) in
            rw (c, e, z)
              (
                record row { status = published },
                find-update_post post (λ p. record p { status = published }) s {row = row}
                    (quiet (mark_post post.id)) (λ r. refl) h,
                refl,
              )
        | inr e ↦ elim (Bool-cases (ltb 0 bad)) [
          | inl f ↦
              rw (c, e, d, f)
                (
                  record row { status = failed },
                  find-update_post post (λ p. record p { status = failed }) s {row = row}
                      (quiet (mark_post post.id)) (λ r. refl) h,
                  refl,
                )
          | inr f ↦
              rw (c, e, d, f)
                (finalize_published-status post s {row = row} (quiet (mark_post post.id)) h)
        ]
      ]

  -- Where the count of the failed destinations fails, the post is `published` whatever failed.
  pub finalize_post-count_fault :
      (post : Post) (s : Store S) (message : String) {row : Post}
      → v.fails (count_failed post.id) ≡ some message
      → v.fails (mark_post post.id) ≡ none
      → find_where (by_post_id post.id) s.posts ≡ some row
      → HasStatus post (finalize_post v post s) published
  unfolding finalize_post
  finalize_post-count_fault post s message {row} fault quiet h =
      let d = count_fault (count_failed post.id) (failed_destination post.id) s message fault in
      let total = count_or_zero v (count_destinations post.id) (destination_of post.id) s in
      elim (Bool-cases (eqb total 0)) [
        | inl e ↦ rw e (
          record row { status = published },
          find-update_post post (λ p. record p { status = published }) s {row = row} quiet
              (λ r. refl) h,
          refl,
        )
        | inr e ↦ rw (e, d) (finalize_published-status post s {row = row} quiet h)
      ]
