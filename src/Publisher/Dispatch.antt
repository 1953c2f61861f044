-- ===== src/Publisher/Dispatch.antt =====
-- backend/internal/services/publisher/publisher.go: `HandlePublishJob`, from the payload of a job to
-- the posts of its thread.
use openpostfork.Prelude.{
  ℕ, zero, suc, String, Bool, Option, none, some, List, [], ◌∷◌, ◌++◌, ◌==◌, ltb, leb,
  if◌then◌else◌, ok, err,
}
use openpostfork.Prelude.Table.{find_where, select_where}
use openpostfork.Publisher.{
  Post, PostDestination, Store, Services, PublishError, M, failure, publishing, load_post,
  mark_publishing, load_thread, load_child, update_post, by_post_id,
}
use openpostfork.Publisher.Single.{publish_single_post}
use openpostfork.Publisher.Thread.{publish_thread}

abbrev pub child_of : String → Post → Bool
child_of parent_id p = p.parent_post_id == parent_id

-- The posts whose parent is one of the given posts.
unfoldable pub children : List Post → List Post → List Post
children [] posts = []
children (p ∷ ps) posts = select_where (child_of p.id) posts ++ children ps posts

-- The recursive query: the posts level by level, each level the children of the one before it. The
-- engine stops at an empty level; `depth` bounds the levels.
unfoldable pub levels : ℕ → List Post → List Post → List Post
levels zero level posts = []
levels (suc depth) level posts =
    let rest = levels depth (children level posts) posts in
    elim level [ [] ↦ [] | p ∷ ps ↦ (p ∷ ps) ++ rest ]

-- `ORDER BY thread_sequence ASC`, stable.
unfoldable pub place_post : Post → List Post → List Post
place_post x [] = x ∷ []
place_post x (y ∷ ys) =
    if leb x.thread_sequence y.thread_sequence then x ∷ y ∷ ys else y ∷ place_post x ys

unfoldable pub sort_posts : List Post → List Post
unfolding place_post
sort_posts [] = []
sort_posts (x ∷ xs) = place_post x (sort_posts xs)

module _ {S : Type 0} (v : Services S) (depth : ℕ) where
  -- The iterative fallback: the first child in the order of the sequence, as long as there is one.
  unfoldable pub chain : ℕ → String → List Post → List Post
  chain zero parent_id posts = []
  chain (suc n) parent_id posts = elim (v.fails (load_child parent_id)) [
    | some message ↦ []
    | none ↦ elim (sort_posts (select_where (child_of parent_id) posts)) [
      | [] ↦ []
      | child ∷ others ↦ child ∷ chain n child.id posts
    ]
  ]

  -- The posts of the thread, in order; a reply alone has none.
  abbrev or_chain : Post → List Post → List Post → List Post
  or_chain post posts [] = post ∷ chain depth post.id posts
  or_chain post posts (p ∷ ps) = p ∷ ps

  unfoldable pub thread_posts : Post → Store S → List Post
  thread_posts post s =
      if ltb 0 post.thread_sequence then [] else elim (v.fails (load_thread post.id)) [
        | some message ↦ post ∷ chain depth post.id s.posts
        | none ↦
            or_chain post s.posts
              (sort_posts (levels depth (select_where (by_post_id post.id) s.posts) s.posts))
      ]

  -- `deliver` is `publishToDestination`.
  module _ (deliver : Post → PostDestination → M S (Unit {0})) where
    abbrev run_posts : Post → List Post → Store S → Option PublishError × Store S
    run_posts post (p ∷ q ∷ ps) s = publish_thread v deliver (p ∷ q ∷ ps) s
    run_posts post (p ∷ []) s = publish_single_post v deliver post s
    run_posts post [] s = publish_single_post v deliver post s

    -- Past the select: the post is marked, and published with its thread or on its own.
    unfoldable pub publish_post : Post → Store S → Option PublishError × Store S
    publish_post post s =
        let s' =
          update_post v (mark_publishing post.id) post.id (λ p. record p { status = publishing })
            s in
        run_posts post (thread_posts post s') s'

    abbrev found_post : Store S → Option Post → Option PublishError × Store S
    found_post s none = (some (failure "sql: no rows in result set"), s)
    found_post s (some post) = publish_post post s

    -- `HandlePublishJob`.
    unfoldable pub handle_publish_job : String → Store S → Option PublishError × Store S
    handle_publish_job payload s = elim (v.unmarshal_post_id payload) [
      | err message ↦ (some (failure message), s)
      | ok post_id ↦ elim (v.fails (load_post post_id)) [
        | some message ↦ (some (failure message), s)
        | none ↦ found_post s (find_where (by_post_id post_id) s.posts)
      ]
    ]
