-- ===== src/McpOauth/Interleaving.antt =====
-- Exchanges of codes that interleave: each request meets the database in three steps, and the steps
-- of several requests come in any order.
use openpostfork.Prelude.{
  ℕ, suc, ◌+◌, ◌≤◌, String, ◌≡◌, refl, sym, ap, ◌∙◌, subst, ◌⊎◌, inl, inr, Bool, true, false,
  Option, none, some, List, [], ◌∷◌, ◌++◌, arith, ◌==◌, eq_iff, eqb, Bool-cases, All, Result, ok,
  err,
}
use openpostfork.Prelude.Table.{count_where, update_where}
use openpostfork.ApiTokens.{TokenError, Tables}
use openpostfork.McpOauth.{
  OauthError, TokenRequest, TokenResult, OauthCode, update_code, OauthServices,
}
use openpostfork.McpOauth.Exchange.{is_open, set_consumed, check_request, consume_code, issue_token}

-- Where a request stands in `ExchangeCode`, with its random secret.
pub data Phase : Type 0 where
  waiting : TokenRequest → Result String String → Phase
  checked : OauthCode → Result String String → Phase
  consumed : OauthCode → Result String String → ℕ → Phase
  issued : OauthCode → Result (OauthError ⊎ TokenError) TokenResult → Phase
  refused : OauthError → Phase

pub record World : Type 0 where
  pub phases : List Phase
  pub codes : List OauthCode
  pub tokens : Tables

abbrev pub after_request : Result OauthError OauthCode → Result String String → Phase
after_request (err e) secret = refused e
after_request (ok c) secret = checked c secret

abbrev pub after_update :
    OauthCode
    → Result String String
    → ℕ
    → Option OauthError × List OauthCode
    → Tables
    → Phase × List OauthCode × Tables
after_update c secret now (some e, rows) t = (refused e, rows, t)
after_update c secret now (none, rows) t = (consumed c secret now, rows, t)

abbrev pub after_issue :
    OauthCode
    → Result (OauthError ⊎ TokenError) TokenResult × Tables
    → List OauthCode
    → Phase × List OauthCode × Tables
after_issue c (answer, t) rows = (issued c answer, rows, t)

-- The request has consumed the code.
abbrev pub holds : String → Phase → Bool
holds id (waiting input secret) = false
holds id (checked c secret) = false
holds id (consumed c secret now) = c.id == id
holds id (issued c answer) = c.id == id
holds id (refused e) = false

abbrev pub IsFresh : Phase → Type 0
IsFresh (waiting input secret) = Unit
IsFresh (checked c secret) = Unit
IsFresh (consumed c secret now) = ⊥
IsFresh (issued c answer) = ⊥
IsFresh (refused e) = Unit

abbrev pub number : Bool → ℕ
number true = 1
number false = 0

-- Nobody has the code, or one request has it and it is not open any more.
abbrev pub Alone : ℕ → ℕ → Type 0
Alone holders open_rows = (holders ≡ 0) ⊎ ((holders ≡ 1) × (open_rows ≡ 0))

count_where-append :
    {A : Type 0} (test : A → Bool) (xs ys : List A)
    → count_where test (xs ++ ys) ≡ count_where test xs + count_where test ys
count_where-append test [] ys = omega arith
count_where-append test (x ∷ xs) ys = elim (Bool-cases (test x)) [
  | inl e ↦ rw e (omega (arith, count_where-append test xs ys))
  | inr e ↦ rw e (omega (arith, count_where-append test xs ys))
]

count_where-cons :
    {A : Type 0} (test : A → Bool) (x : A) (xs : List A)
    → count_where test (x ∷ xs) ≡ number (test x) + count_where test xs
count_where-cons test x xs = elim (Bool-cases (test x)) [
  | inl e ↦ rw e (omega arith)
  | inr e ↦ rw e (omega arith)
]

pub consumed_closed :
    (id : String) (now : ℕ) (rows : List OauthCode)
    → count_where (is_open id) (update_where (is_open id) (set_consumed now) rows) ≡ 0
consumed_closed id now [] = refl
consumed_closed id now (r ∷ rows) = elim (Bool-cases (is_open id r)) [
  | inl e ↦ rw e (elim (Bool-cases (r.id == id)) [
    | inl q ↦ rw q (consumed_closed id now rows)
    | inr q ↦ rw q (consumed_closed id now rows)
  ])
  | inr e ↦ rw (e, e) (consumed_closed id now rows)
]

closed_stays :
    (id other : String) (now : ℕ) (rows : List OauthCode)
    → count_where (is_open id) rows ≡ 0
    → count_where (is_open id) (update_where (is_open other) (set_consumed now) rows) ≡ 0
closed_stays id other now [] h = refl
closed_stays id other now (r ∷ rows) h = elim (Bool-cases (is_open id r)) [
  | inl e ↦
      absurd (let g : suc (count_where (is_open id) rows) ≡ 0 = (rw e at h) in omega (arith, g))
  | inr e ↦
      let g : count_where (is_open id) rows ≡ 0 = (rw e at h) in
      elim (Bool-cases (is_open other r)) [
        | inr q ↦ rw (q, e) (closed_stays id other now rows g)
        | inl q ↦ rw q (elim (Bool-cases (r.id == id)) [
          | inl s ↦ rw s (closed_stays id other now rows g)
          | inr s ↦ rw s (closed_stays id other now rows g)
        ])
      ]
]

none_more : (others open_rows : ℕ) → Alone others open_rows → Alone (0 + others) open_rows
none_more others open_rows (inl e) = inl (omega (arith, e))
none_more others open_rows (inr e) = inr (omega (arith, e.0), e.1)

none_less : (others open_rows : ℕ) → Alone (0 + others) open_rows → Alone others open_rows
none_less others open_rows (inl e) = inl (omega (arith, e))
none_less others open_rows (inr e) = inr (omega (arith, e.0), e.1)

still :
    (others open_rows after : ℕ)
    → Alone others open_rows
    → (open_rows ≡ 0 → after ≡ 0)
    → Alone others after
still others open_rows after (inl e) f = inl e
still others open_rows after (inr e) f = inr (e.0, f e.1)

one_more :
    (others open_rows after : ℕ)
    → Alone others open_rows
    → eqb open_rows 0 ≡ false
    → after ≡ 0
    → Alone (1 + others) after
one_more others open_rows after (inl e) f g = inr (omega (arith, e), g)
one_more others open_rows after (inr e) f g = absurd (ground (arith, e.1, f))

module _ (v : OauthServices) where
  -- One step of one request.
  abbrev pub advance : ℕ → Phase → List OauthCode → Tables → Phase × List OauthCode × Tables
  advance now (waiting input secret) rows t =
      (after_request (check_request v input now rows) secret, rows, t)
  advance now (checked c secret) rows t = after_update c secret now (consume_code v c.id now rows) t
  advance now (consumed c secret at) rows t = after_issue c (issue_token v c secret at t) rows
  advance now (issued c answer) rows t = (issued c answer, rows, t)
  advance now (refused e) rows t = (refused e, rows, t)

  abbrev pub moved : List Phase → Phase × List OauthCode × Tables → List Phase → World
  moved before (p, rows, t) after = record {
    phases = before ++ (p ∷ after);
    codes = rows;
    tokens = t;
  }

  pub data Step (w : World) : World → Type 0 where
    move :
        (before after : List Phase) (p : Phase) (now : ℕ)
        → w.phases ≡ before ++ (p ∷ after)
        → Step w (moved before (advance now p w.codes w.tokens) after)

  pub data Reach (w : World) : World → Type 0 where
    start : Reach w w
    later : {s t : World} → Reach w s → Step s t → Reach w t

  -- The move of one request, beside the others' holds.
  consume-Alone :
      (id : String) (others now : ℕ) (c : OauthCode) (secret : Result String String)
      (rows : List OauthCode) (t : Tables) (o : Option String)
      → v.fails update_code ≡ o
      → Alone others (count_where (is_open id) rows)
      → let r = after_update c secret now (consume_code v c.id now rows) t in
        Alone (number (holds id r.0) + others) (count_where (is_open id) r.1)
  unfolding consume_code
  consume-Alone id others now c secret rows t (some message) q h =
      rw (q, consume_code) (none_more others (count_where (is_open id) rows) h)
  consume-Alone id others now c secret rows t none q h =
      let shut =
        none_more others
          (count_where (is_open id) (update_where (is_open c.id) (set_consumed now) rows))
          (still others (count_where (is_open id) rows)
            (count_where (is_open id) (update_where (is_open c.id) (set_consumed now) rows)) h
            (closed_stays id c.id now rows)) in
      elim (Bool-cases (eqb (count_where (is_open c.id) rows) 0)) [
        | inl e ↦ rw (q, e, consume_code) shut
        | inr e ↦ elim (Bool-cases (c.id == id)) [
          | inr k ↦ rw (q, e, k, consume_code) shut
          | inl k ↦
              let same = (eq_iff c.id id).0 k in
              rw (q, e, k, consume_code)
                (one_more others (count_where (is_open id) rows)
                  (count_where (is_open id) (update_where (is_open c.id) (set_consumed now) rows)) h
                  (ap (λ x. eqb (count_where (is_open x) rows) 0) (sym same) ∙ e)
                  (ap
                      (λ x.
                        count_where (is_open id) (update_where (is_open x) (set_consumed now) rows))
                      same
                    ∙ consumed_closed id now rows))
        ]
      ]

  request-Alone :
      (id : String) (others open_rows : ℕ) (r : Result OauthError OauthCode)
      (secret : Result String String)
      → Alone (0 + others) open_rows
      → Alone (number (holds id (after_request r secret)) + others) open_rows
  request-Alone id others open_rows (err e) secret h = h
  request-Alone id others open_rows (ok c) secret h = h

  advance-Alone :
      (id : String) (others now : ℕ) (p : Phase) (rows : List OauthCode) (t : Tables)
      → Alone (number (holds id p) + others) (count_where (is_open id) rows)
      → let r = advance now p rows t in
        Alone (number (holds id r.0) + others) (count_where (is_open id) r.1)
  advance-Alone id others now (waiting input secret) rows t h =
      request-Alone id others (count_where (is_open id) rows) (check_request v input now rows)
        secret h
  advance-Alone id others now (checked c secret) rows t h =
      consume-Alone id others now c secret rows t (v.fails update_code) refl
        (none_less others (count_where (is_open id) rows) h)
  advance-Alone id others now (consumed c secret at) rows t h = h
  advance-Alone id others now (issued c answer) rows t h = h
  advance-Alone id others now (refused e) rows t h = h

  -- The requests that have consumed the code.
  abbrev pub holders : String → World → ℕ
  holders id w = count_where (holds id) w.phases

  abbrev HasOneHolder : String → World → Type 0
  HasOneHolder id w = Alone (holders id w) (count_where (is_open id) w.codes)

  holders_split :
      (id : String) (before after : List Phase) (p : Phase)
      → count_where (holds id) (before ++ (p ∷ after))
        ≡ number (holds id p) + (count_where (holds id) before + count_where (holds id) after)
  holders_split id before after p =
      omega (
        arith,
        count_where-append (holds id) before (p ∷ after),
        count_where-cons (holds id) p after,
      )

  Step-HasOneHolder :
      (id : String) {w w' : World} → Step w w' → HasOneHolder id w → HasOneHolder id w'
  Step-HasOneHolder id {w} (move before after p now e) h =
      let others = count_where (holds id) before + count_where (holds id) after in
      let r = advance now p w.codes w.tokens in
      subst (λ n. Alone n (count_where (is_open id) r.1)) (sym (holders_split id before after r.0))
        (advance-Alone id others now p w.codes w.tokens (
          subst (λ n. Alone n (count_where (is_open id) w.codes))
            (ap (count_where (holds id)) e ∙ holders_split id before after p) h))

  Reach-HasOneHolder :
      (id : String) {w w' : World} → Reach w w' → HasOneHolder id w → HasOneHolder id w'
  Reach-HasOneHolder id start h = h
  Reach-HasOneHolder id (later {s} r step) h = Step-HasOneHolder id step (Reach-HasOneHolder id r h)

  fresh_holder : (id : String) (p : Phase) → IsFresh p → holds id p ≡ false
  fresh_holder id (waiting input secret) h = refl
  fresh_holder id (checked c secret) h = refl
  fresh_holder id (consumed c secret at) h = absurd h
  fresh_holder id (issued c answer) h = absurd h
  fresh_holder id (refused e) h = refl

  none_holds : (id : String) (ps : List Phase) → All IsFresh ps → count_where (holds id) ps ≡ 0
  none_holds id [] h = refl
  none_holds id (p ∷ ps) h = rw (fresh_holder id p h.0) (none_holds id ps h.1)

  at_most_one : (n m : ℕ) → Alone n m → n ≤ 1
  at_most_one n m (inl e) = omega (arith, e)
  at_most_one n m (inr e) = omega (arith, e.0)

  -- However the steps of any number of exchanges interleave, at most one of them gets past the
  -- consumption of one code, and to a token. (None has consumed a code before.)
  pub Reach-holders :
      (id : String) {w w' : World} → All IsFresh w.phases → Reach w w' → holders id w' ≤ 1
  Reach-holders id {w} {w'} fresh r =
      at_most_one (holders id w') (count_where (is_open id) w'.codes)
        (Reach-HasOneHolder id r (inl (none_holds id w.phases fresh)))
