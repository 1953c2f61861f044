-- ===== src/Publisher/Agreement.antt =====
-- The error of a run of a single post and the status that the run leaves.
use openpostfork.Prelude.{
  String, ◌≡◌, refl, sym, ap, ◌∙◌, subst, ◌≢◌, ◌⊎◌, inl, inr, false, Option, none, some, List, [],
  ◌∷◌, map, arith, Bool-cases, Option-cases, Result, ok, err, Result-cases,
}
use openpostfork.Prelude.Table.{update_where, count_where, find_where, select_where, In, In-update}
use openpostfork.Entitlements.{limit_published_posts_monthly}
use openpostfork.Publisher.{
  Post, PostStatus, PostDestination, Store, Services, PublishError, M, by_post_id, published,
  failed, load_destinations, mark_destination, failure, error_text, check_monthly_quota,
  by_destination_id, update_destination,
}
use openpostfork.Publisher.Single.{
  finalize_post, failed_destination, open_destination, open_destinations, mark_success,
  mark_failure, mark_outcome, publish_each, next_error, publish_single_post, publish_destinations,
  mark_destination_failed, mark_destination_success, mark_destinations_failed,
}
use openpostfork.Publisher.Marks.{core, marks, KeepsMarks}
use openpostfork.Publisher.Finalize.{NoFaults, HasStatus, status_for, finalize_post-status}
use openpostfork.Publisher.Remaining.{
  id_in, Distinct, Remaining, Stuck, Listed, outcome_mark, count-Remaining, count_stuck, count_core,
  Remaining-open, map-core-set, Remaining-step, Listed-step, Stuck-step, Stuck-new,
}

-- The status of the post that a run with this error leaves.
abbrev pub agreed : Option PublishError → PostStatus
agreed none = published
agreed (some e) = failed

module _ {S : Type 0} (v : Services S) (quiet : NoFaults v)
    (deliver : Post → PostDestination → M S (Unit {0})) (keeps : KeepsMarks deliver) where
  marks-outcome :
      (id : String) (r : Result PublishError (Unit {0})) (s : Store S)
      → (marks (mark_outcome v deliver id r s)
          ≡ update_where (by_destination_id id) (outcome_mark r) (marks s))
        × ((mark_outcome v deliver id r s).posts ≡ s.posts)
  unfolding mark_outcome mark_destination_success mark_destination_failed update_destination
  marks-outcome id (ok _) s =
      rw (quiet (mark_destination id), update_destination)
        (map-core-set id mark_success (λ d. refl) s.destinations, refl)
  marks-outcome id (err e) s =
      rw (quiet (mark_destination id), update_destination)
        (map-core-set id (mark_failure (error_text e)) (λ d. refl) s.destinations, refl)

  -- The tables after the delivery and the mark of one destination.
  after : Post → PostDestination → Store S → Store S
  after post d s = mark_outcome v deliver d.id (deliver post d s).0 (deliver post d s).1

  marks-after :
      (post : Post) (d : PostDestination) (s : Store S)
      → (marks (after post d s)
          ≡ update_where (by_destination_id d.id) (outcome_mark (deliver post d s).0) (marks s))
        × ((after post d s).posts ≡ s.posts)
  unfolding after
  marks-after post d s =
      let m = marks-outcome d.id (deliver post d s).0 (deliver post d s).1 in
      let k = (keeps post d).at s in
      (
        m.0 ∙ ap (update_where (by_destination_id d.id) (outcome_mark (deliver post d s).0)) k.0,
        m.1 ∙ k.1,
      )

  each-posts :
      (post : Post) (fe : Option PublishError) (ds : List PostDestination) (s : Store S)
      → (publish_each v deliver post fe ds s).1.posts ≡ s.posts
  unfolding publish_each after
  each-posts post fe [] s = refl
  each-posts post fe (d ∷ ds) s =
      each-posts post (next_error v deliver fe (deliver post d s).0) ds (after post d s)
      ∙ (marks-after post d s).1

  error_stays :
      (post : Post) (e : PublishError) (ds : List PostDestination) (s : Store S)
      → (publish_each v deliver post (some e) ds s).0 ≢ none
  unfolding publish_each
  error_stays post e [] s h = cc
  error_stays post e (d ∷ ds) s h = elim (Result-cases (deliver post d s).0) [
    | inl q ↦ error_stays post q.0 ds _ (rw (q.1, publish_each) at h)
    | inr q ↦ error_stays post e ds _ (rw (q.1, publish_each) at h)
  ]

  each_ok :
      (post : Post) (fe : Option PublishError) (ds : List PostDestination) (s : Store S)
      → (publish_each v deliver post fe ds s).0 ≡ none
      → Remaining post.id ds (marks s)
      → Remaining post.id [] (marks (publish_each v deliver post fe ds s).1)
  unfolding publish_each after
  each_ok post fe [] s h rem = rem
  each_ok post fe (d ∷ ds) s h rem = elim (Result-cases (deliver post d s).0) [
    | inl q ↦ absurd (error_stays post q.0 ds _ (rw (q.1, publish_each) at h))
    | inr q ↦ each_ok post (next_error v deliver fe (deliver post d s).0) ds (after post d s) h (
        subst (Remaining post.id ds)
          (sym (
            subst
              (λ r.
                marks (after post d s)
                ≡ update_where (by_destination_id d.id) (outcome_mark r) (marks s))
              q.1 (marks-after post d s).0))
          (Remaining-step post.id d ds (marks s) rem))
  ]

  each_error :
      (post : Post) (fe : Option PublishError) (ds : List PostDestination) (s : Store S)
      (e : PublishError)
      → (publish_each v deliver post fe ds s).0 ≡ some e
      → Listed post.id (marks s) ds
      → Distinct ds
      → (fe ≡ none) ⊎ Stuck post.id ds (marks s)
      → Stuck post.id [] (marks (publish_each v deliver post fe ds s).1)
  unfolding publish_each after
  each_error post fe [] s e h l k (inl f) = cc
  each_error post fe [] s e h l k (inr x) = x
  each_error post fe (d ∷ ds) s e h l k start =
      let r = (deliver post d s).0 in
      let m = (marks-after post d s).0 in
      let rows = update_where (by_destination_id d.id) (outcome_mark r) (marks s) in
      let l' : Listed post.id (marks (after post d s)) ds =
        subst (λ rs. Listed post.id rs ds) (sym m) (Listed-step post.id r d.id ds (marks s) l.1) in
      elim (Result-cases r) [
        | inl q ↦ each_error post (next_error v deliver fe r) ds (after post d s) e h l' k.1 (
            inr (
              subst (Stuck post.id ds)
                (sym (
                  m
                  ∙ ap (λ o. update_where (by_destination_id d.id) (outcome_mark o) (marks s)) q.1))
                (Stuck-new post.id q.0 d ds (marks s) l k)))
        | inr q ↦
            each_error post (next_error v deliver fe r) ds (after post d s) e h l' k.1 (elim start [
              | inl f ↦ inl (ap (next_error v deliver fe) q.1 ∙ f)
              | inr x ↦
                  inr (subst (Stuck post.id ds) (sym m) (Stuck-step post.id r d ds (marks s) x))
            ])
      ]

  finalized :
      (post : Post) (e : Option PublishError) (s : Store S) {row : Post}
      → find_where (by_post_id post.id) s.posts ≡ some row
      → status_for (count_where (failed_destination post.id) s.destinations) ≡ agreed e
      → HasStatus post (finalize_post v post s) (agreed e)
  finalized post e s {row} h status =
      subst (HasStatus post (finalize_post v post s)) status
        (finalize_post-status v post s {row = row} quiet h)

  none_failed :
      (post : Post) (s : Store S)
      → Remaining post.id [] (marks s)
      → status_for (count_where (failed_destination post.id) s.destinations) ≡ published
  none_failed post s rem =
      rw (sym (count_core post.id s.destinations) ∙ count-Remaining post.id (marks s) rem) refl

  some_failed :
      (post : Post) (s : Store S)
      → Stuck post.id [] (marks s)
      → status_for (count_where (failed_destination post.id) s.destinations) ≡ failed
  some_failed post s (r, i, f, _) =
      ground (arith, count_core post.id s.destinations, count_stuck post.id (marks s) r i f)

  marks-failed :
      (ds : List PostDestination) (e : PublishError) (post_id : String) (s : Store S)
      → Stuck post_id [] (marks s)
      → Stuck post_id [] (marks (mark_destinations_failed v ds e s))
  unfolding mark_destinations_failed mark_outcome
  marks-failed [] e post_id s x = x
  marks-failed (d ∷ ds) e post_id s (r, i, f, out) =
      let m = (marks-outcome d.id (err e) s).0 in
      let s' = mark_destination_failed v d.id e s in
      let rows = update_where (by_destination_id d.id) (mark_failure (error_text e)) (marks s) in
      let j = In-update (by_destination_id d.id) (mark_failure (error_text e)) r (marks s) i in
      marks-failed ds e post_id s' (elim (Bool-cases (by_destination_id d.id r)) [
        | inl hit ↦ (
          mark_failure (error_text e) r,
          subst (In (mark_failure (error_text e) r)) (sym m)
              (subst (λ y. In y rows) (rw hit refl) j),
          ground arith,
          refl,
        )
        | inr miss ↦ (r, subst (In r) (sym m) (subst (λ y. In y rows) (rw miss refl) j), f, refl)
      ])

  posts-failed :
      (ds : List PostDestination) (e : PublishError) (s : Store S)
      → (mark_destinations_failed v ds e s).posts ≡ s.posts
  unfolding mark_destinations_failed mark_outcome
  posts-failed [] e s = refl
  posts-failed (d ∷ ds) e s =
      posts-failed ds e (mark_destination_failed v d.id e s) ∙ (marks-outcome d.id (err e) s).1

  Listed-open :
      (post_id : String) (rows all : List PostDestination)
      → ((r : PostDestination) → In r rows → In (core r) all)
      → Listed post_id all (select_where (open_destination post_id) rows)
  Listed-open post_id [] all sub = tt
  Listed-open post_id (r ∷ rs) all sub = elim (Bool-cases (open_destination post_id r)) [
    | inl e ↦ rw e (
      (core r, sub r (inl refl), refl, ground arith),
      Listed-open post_id rs all (λ x i. sub x (inr i)),
    )
    | inr e ↦ rw e (Listed-open post_id rs all (λ x i. sub x (inr i)))
  ]

  not_in_open :
      (key post_id : String) (rows : List PostDestination)
      → id_in key rows ≡ false
      → id_in key (select_where (open_destination post_id) rows) ≡ false
  not_in_open key post_id [] h = refl
  not_in_open key post_id (r ∷ rs) h = ground (arith, not_in_open key post_id rs)

  Distinct-open :
      (post_id : String) (rows : List PostDestination)
      → Distinct rows
      → Distinct (select_where (open_destination post_id) rows)
  Distinct-open post_id [] k = tt
  Distinct-open post_id (r ∷ rs) k = elim (Bool-cases (open_destination post_id r)) [
    | inl e ↦ rw e (not_in_open r.id post_id rs k.0, Distinct-open post_id rs k.1)
    | inr e ↦ rw e (Distinct-open post_id rs k.1)
  ]

  In-core :
      (rows : List PostDestination) (r : PostDestination) → In r rows → In (core r) (map core rows)
  In-core [] r i = elim i [ ]
  In-core (x ∷ xs) r (inl e) = inl (ap core e)
  In-core (x ∷ xs) r (inr i) = inr (In-core xs r i)

  quota-agree :
      (post : Post) (d : PostDestination) (ds : List PostDestination) (s : Store S)
      (message : String) {row : Post}
      → find_where (by_post_id post.id) s.posts ≡ some row
      → Distinct (d ∷ ds)
      → Listed post.id (marks s) (d ∷ ds)
      → HasStatus post
          (finalize_post v post (mark_destinations_failed v (d ∷ ds) (failure message) s))
          failed
  unfolding mark_destinations_failed mark_outcome
  quota-agree post d ds s message {row} h k l =
      let e = failure message in
      let m = (marks-outcome d.id (err e) s).0 in
      let x = Stuck-new post.id e d ds (marks s) l k in
      let t = mark_destinations_failed v (d ∷ ds) e s in
      let y =
        marks-failed ds e post.id (mark_destination_failed v d.id e s)
          (x.0, subst (In x.0) (sym m) x.1, x.2, refl) in
      finalized post (some e) t {row = row}
        (subst (λ ps. find_where (by_post_id post.id) ps ≡ some row)
          (sym (posts-failed (d ∷ ds) e s)) h)
        (some_failed post t y)

  destinations-agree :
      (post : Post) (ds : List PostDestination) (s : Store S) {row : Post}
      → find_where (by_post_id post.id) s.posts ≡ some row
      → Distinct ds
      → Listed post.id (marks s) ds
      → Remaining post.id ds (marks s)
      → let (e, s') = publish_destinations v deliver post ds s in HasStatus post s' (agreed e)
  unfolding publish_destinations
  destinations-agree post [] s {row} h k l rem =
      finalized post none s {row = row} h (none_failed post s rem)
  destinations-agree post (d ∷ ds) s {row} h k l rem =
      let each = publish_each v deliver post none (d ∷ ds) s in
      let h' : find_where (by_post_id post.id) each.1.posts ≡ some row =
        subst (λ ps. find_where (by_post_id post.id) ps ≡ some row)
          (sym (each-posts post none (d ∷ ds) s)) h in
      elim (Option-cases
        (check_monthly_quota v post.workspace_id limit_published_posts_monthly s)) [
          | inr q ↦ rw (q.1, publish_destinations) (quota-agree post d ds s q.0 {row = row} h k l)
          | inl e ↦
              rw (e, publish_destinations)
                (elim (Option-cases each.0) [
                  | inl f ↦ rw f (
                      finalized post none each.1 {row = row} h'
                        (none_failed post each.1 (each_ok post none (d ∷ ds) s f rem)))
                  | inr q ↦ rw q.1 (
                      finalized post (some q.0) each.1 {row = row} h' (
                        some_failed post each.1
                          (each_error post none (d ∷ ds) s q.0 q.1 l k (inl refl))))
                ])
        ]

  -- A run of a single post ends without an error exactly when it leaves the post `published`, and
  -- with one exactly when it leaves it `failed`. (No statement fails, the deliveries leave the marks,
  -- the ids of the destinations are distinct, and the post has a row.)
  pub publish_single_post-agrees :
      (post : Post) (s : Store S) (row : Post)
      → find_where (by_post_id post.id) s.posts ≡ some row
      → Distinct s.destinations
      → let (e, s') = publish_single_post v deliver post s in HasStatus post s' (agreed e)
  unfolding publish_single_post open_destinations
  publish_single_post-agrees post s row h k =
      let ds = select_where (open_destination post.id) s.destinations in
      rw (quiet (load_destinations post.id), publish_single_post)
        (destinations-agree post ds s {row = row} h (Distinct-open post.id s.destinations k)
          (Listed-open post.id s.destinations (marks s) (In-core s.destinations))
          (Remaining-open post.id s.destinations s.destinations (λ key e. e)))
