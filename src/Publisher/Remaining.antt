-- ===== src/Publisher/Remaining.antt =====
-- The destinations that the loop over a single post has still to deliver.
use openpostfork.Prelude.{
  ◌<◌, String, ◌≡◌, refl, ap, ◌∙◌, subst, inl, inr, Bool, true, false, ◌||◌, List, [], ◌∷◌, map,
  arith, ◌==◌, eq_iff, eq_refl, Bool-cases, All, Result, ok, err,
}
use openpostfork.Prelude.Table.{update_where, count_where, select_where, In, In-update}
use openpostfork.Publisher.{
  PostDestination, PublishError, destination_of, error_text, by_destination_id,
}
use openpostfork.Publisher.Single.{failed_destination, open_destination, mark_success, mark_failure}
use openpostfork.Publisher.Marks.{core}

-- The lists of destinations as the loop goes through them.
abbrev pub id_in : String → List PostDestination → Bool
id_in key [] = false
id_in key (d ∷ ds) = d.id == key || id_in key ds

-- The primary key: no two destinations have one id.
abbrev pub Distinct : List PostDestination → Type 0
Distinct [] = Unit {0}
Distinct (d ∷ ds) = (id_in d.id ds ≡ false) × Distinct ds

-- Every failed destination of the post is still to come in the loop.
abbrev pub Remaining : String → List PostDestination → List PostDestination → Type 0
Remaining post_id ds = All (λ r. failed_destination post_id r ≡ true → id_in r.id ds ≡ true)

-- A failed destination of the post is not in the loop any more.
abbrev pub Stuck : String → List PostDestination → List PostDestination → Type 0
Stuck post_id ds rows =
    (r : PostDestination) × In r rows
    × (failed_destination post_id r ≡ true)
    × (id_in r.id ds ≡ false)

-- The destinations of the loop have their rows.
abbrev pub Listed : String → List PostDestination → List PostDestination → Type 0
Listed post_id rows =
    All (λ d. (r : PostDestination) × In r rows × (r.id ≡ d.id) × (destination_of post_id r ≡ true))

abbrev pub outcome_mark : Result PublishError (Unit {0}) → PostDestination → PostDestination
outcome_mark (ok _) = mark_success
outcome_mark (err e) = mark_failure (error_text e)

pub count-Remaining :
    (post_id : String) (rows : List PostDestination)
    → Remaining post_id [] rows
    → count_where (failed_destination post_id) rows ≡ 0
count-Remaining post_id [] h = refl
count-Remaining post_id (r ∷ rs) h = elim (Bool-cases (failed_destination post_id r)) [
  | inl e ↦ cc (h.0 e)
  | inr e ↦ rw e (count-Remaining post_id rs h.1)
]

pub count_stuck :
    (post_id : String) (rows : List PostDestination) (r : PostDestination)
    → In r rows
    → failed_destination post_id r ≡ true
    → 0 < count_where (failed_destination post_id) rows
count_stuck post_id [] r i h = elim i [ ]
count_stuck post_id (x ∷ xs) r (inl e) h = rw (ap (failed_destination post_id) e ∙ h) (omega arith)
count_stuck post_id (x ∷ xs) r (inr i) h = ground (arith, count_stuck post_id xs r i h)

pub count_core :
    (post_id : String) (ds : List PostDestination)
    → count_where (failed_destination post_id) (map core ds)
      ≡ count_where (failed_destination post_id) ds
count_core post_id [] = refl
count_core post_id (d ∷ ds) = rw (count_core post_id ds)

-- Every failed destination is among the open ones.
id_in_later :
    (key : String) (d : PostDestination) (ds : List PostDestination)
    → id_in key ds ≡ true
    → id_in key (d ∷ ds) ≡ true
id_in_later key d ds h = ground arith

pub Remaining-open :
    (post_id : String) (all rows : List PostDestination)
    → ((key : String)
        → id_in key (select_where (open_destination post_id) rows) ≡ true
        → id_in key (select_where (open_destination post_id) all) ≡ true)
    → Remaining post_id (select_where (open_destination post_id) all) (map core rows)
Remaining-open post_id all [] sub = tt
Remaining-open post_id all (r ∷ rs) sub = (
  (λ h. sub r.id (ground (arith, eq_refl r.id))),
  Remaining-open post_id all rs (λ key h.
      sub key (ground (arith, id_in_later key r (select_where (open_destination post_id) rs) h))),
)

pub map-core-set :
    (key : String) (f : PostDestination → PostDestination)
    → ((d : PostDestination) → core (f d) ≡ f (core d))
    → (ds : List PostDestination)
    → map core (update_where (by_destination_id key) f ds)
      ≡ update_where (by_destination_id key) f (map core ds)
map-core-set key f c [] = refl
map-core-set key f c (d ∷ ds) = elim (Bool-cases (by_destination_id key d)) [
  | inl e ↦ rw (e, c d, map-core-set key f c ds)
  | inr e ↦ rw (e, map-core-set key f c ds)
]

-- After the mark of one destination the rest of the loop has what it needs.
pub Remaining-step :
    (post_id : String) (d : PostDestination) (ds rows : List PostDestination)
    → Remaining post_id (d ∷ ds) rows
    → Remaining post_id ds (update_where (by_destination_id d.id) mark_success rows)
Remaining-step post_id d ds [] h = tt
Remaining-step post_id d ds (r ∷ rs) h = (
  elim (Bool-cases (by_destination_id d.id r)) [
    | inl e ↦ rw e (λ f. ground arith)
    | inr e ↦ rw e (λ f. ground (arith, h.0 f, eq_iff d.id r.id, eq_iff r.id d.id))
  ],
  Remaining-step post_id d ds rs h.1,
)

outcome_keeps :
    (r : Result PublishError (Unit {0})) (x : PostDestination)
    → ((outcome_mark r x).id ≡ x.id) × ((outcome_mark r x).post_id ≡ x.post_id)
outcome_keeps (ok _) x = (refl, refl)
outcome_keeps (err e) x = (refl, refl)

pub Listed-step :
    (post_id : String) (r : Result PublishError (Unit {0})) (key : String)
    (ds rows : List PostDestination)
    → Listed post_id rows ds
    → Listed post_id (update_where (by_destination_id key) (outcome_mark r) rows) ds
Listed-step post_id r key [] rows h = tt
Listed-step post_id r key (d ∷ ds) rows h =
    let (x, i, e, p) = h.0 in
    (
      (elim (Bool-cases (by_destination_id key x)) [
        | inl f ↦ (
          outcome_mark r x,
          subst (λ y. In y (update_where (by_destination_id key) (outcome_mark r) rows)) (rw f refl)
              (In-update (by_destination_id key) (outcome_mark r) x rows i),
          (outcome_keeps r x).0 ∙ e,
          rw ((outcome_keeps r x).1) p,
        )
        | inr f ↦ (
          x,
          subst (λ y. In y (update_where (by_destination_id key) (outcome_mark r) rows)) (rw f refl)
              (In-update (by_destination_id key) (outcome_mark r) x rows i),
          e,
          p,
        )
      ]),
      Listed-step post_id r key ds rows h.1,
    )

pub Stuck-step :
    (post_id : String) (r : Result PublishError (Unit {0})) (d : PostDestination)
    (ds rows : List PostDestination)
    → Stuck post_id (d ∷ ds) rows
    → Stuck post_id ds (update_where (by_destination_id d.id) (outcome_mark r) rows)
Stuck-step post_id r d ds rows (x, i, f, out) =
    let miss : by_destination_id d.id x ≡ false =
      ground (arith, eq_iff d.id x.id, eq_iff x.id d.id) in
    (
      x,
      subst (λ y. In y (update_where (by_destination_id d.id) (outcome_mark r) rows)) (rw miss refl)
          (In-update (by_destination_id d.id) (outcome_mark r) x rows i),
      f,
      ground arith,
    )

-- A destination that fails is stuck, once the loop has passed it.
pub Stuck-new :
    (post_id : String) (e : PublishError) (d : PostDestination) (ds rows : List PostDestination)
    → Listed post_id rows (d ∷ ds)
    → Distinct (d ∷ ds)
    → Stuck post_id ds (update_where (by_destination_id d.id) (mark_failure (error_text e)) rows)
Stuck-new post_id e d ds rows h k =
    let (x, i, same, p) = h.0 in
    let hit : by_destination_id d.id x ≡ true = rw same (eq_refl d.id) in
    (
      mark_failure (error_text e) x,
      subst (λ y. In y (update_where (by_destination_id d.id) (mark_failure (error_text e)) rows))
          (rw hit refl) (In-update (by_destination_id d.id) (mark_failure (error_text e)) x rows i),
      ground arith,
      rw same k.0,
    )
