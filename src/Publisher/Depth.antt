-- ===== src/Publisher/Depth.antt =====
-- The depth that the recursive query of a thread needs.
use openpostfork.Prelude.{
  ℕ, zero, suc, ◌+◌, ◌≤◌, ◌<◌, String, ◌≡◌, refl, ap, ◌∙◌, inl, inr, true, List, [], ◌∷◌, ◌++◌,
  arith, Bool-cases, All,
}
use openpostfork.Prelude.Table.{select_where, In, All-In}
use openpostfork.Publisher.{Post, by_post_id}
use openpostfork.Publisher.Dispatch.{child_of, children, levels}

-- Each reply has a greater sequence number than the post that it replies to.
abbrev pub RepliesFollow : List Post → Type 0
RepliesFollow posts =
    (p c : Post)
    → In p posts
    → In c posts
    → child_of p.id c ≡ true
    → p.thread_sequence < c.thread_sequence

-- Posts of the table from a sequence number on.
abbrev From : ℕ → List Post → List Post → Type 0
From i posts = All (λ p. In p posts × (i ≤ p.thread_sequence))

From-append :
    (i : ℕ) (posts a b : List Post) → From i posts a → From i posts b → From i posts (a ++ b)
From-append i posts [] b h k = k
From-append i posts (x ∷ a) b h k = (h.0, From-append i posts a b h.1 k)

From-select :
    (i : ℕ) (posts : List Post) (p : Post)
    → RepliesFollow posts
    → In p posts
    → i ≤ p.thread_sequence
    → (rows : List Post) → ((c : Post) → In c rows → In c posts)
    → From (suc i) posts (select_where (child_of p.id) rows)
From-select i posts p follow ip le [] sub = tt
From-select i posts p follow ip le (c ∷ cs) sub =
    let rest = From-select i posts p follow ip le cs (λ d j. sub d (inr j)) in
    elim (Bool-cases (child_of p.id c)) [
      | inr e ↦ rw e rest
      | inl e ↦ rw e ((sub c (inl refl), omega (arith, follow p c ip (sub c (inl refl)) e)), rest)
    ]

From-children :
    (i : ℕ) (posts level : List Post)
    → RepliesFollow posts
    → From i posts level
    → From (suc i) posts (children level posts)
unfolding children
From-children i posts [] follow h = tt
From-children i posts (p ∷ ps) follow h =
    From-append (suc i) posts (select_where (child_of p.id) posts) (children ps posts)
      (From-select i posts p follow h.0.0 h.0.1 posts (λ c j. j))
      (From-children i posts ps follow h.1)

levels_empty : (depth : ℕ) (posts : List Post) → levels depth [] posts ≡ []
unfolding levels
levels_empty zero posts = refl
levels_empty (suc depth) posts = refl

levels-From :
    (last i depth more : ℕ) (posts level : List Post)
    → RepliesFollow posts
    → All (λ p. p.thread_sequence ≤ last) posts
    → From i posts level
    → last < i + depth
    → levels (depth + more) level posts ≡ levels depth level posts
unfolding levels
levels-From last i zero more posts [] follow top h lt = levels_empty (0 + more) posts
levels-From last i zero more posts (p ∷ ps) follow top h lt = absurd (
    let l = All-In (λ (q : Post). q.thread_sequence ≤ last) p posts top h.0.0 in
    omega (arith, l, h.0.1))
levels-From last i (suc depth) more posts [] follow top h lt = levels_empty (suc depth + more) posts
levels-From last i (suc depth) more posts (p ∷ ps) follow top h lt =
    let e : suc depth + more ≡ suc (depth + more) = omega arith in
    ap (λ d. levels d (p ∷ ps) posts) e
    ∙ ap (λ rest. (p ∷ ps) ++ rest)
        (levels-From last (suc i) depth more posts (children (p ∷ ps) posts) follow top
          (From-children i posts (p ∷ ps) follow h) (omega arith))

-- A depth above every sequence number of the table is enough for the query of a thread: it finds
-- the same posts at every greater depth. (Each reply has a greater sequence number than the post
-- that it replies to.)
pub levels-depth :
    (last depth more : ℕ) (key : String) (posts : List Post)
    → RepliesFollow posts
    → All (λ p. p.thread_sequence ≤ last) posts
    → last < depth
    → levels (depth + more) (select_where (by_post_id key) posts) posts
      ≡ levels depth (select_where (by_post_id key) posts) posts
levels-depth last depth more key posts follow top lt =
    levels-From last 0 depth more posts (select_where (by_post_id key) posts) follow top
      (selected posts (λ p i. i)) (omega arith)
  where
    selected :
        (rows : List Post)
        → ((p : Post) → In p rows → In p posts)
        → From 0 posts (select_where (by_post_id key) rows)
    selected [] sub = tt
    selected (p ∷ ps) sub =
        let rest = selected ps (λ q i. sub q (inr i)) in
        elim (Bool-cases (by_post_id key p)) [
          | inl e ↦ rw e ((sub p (inl refl), omega arith), rest)
          | inr e ↦ rw e rest
        ]
