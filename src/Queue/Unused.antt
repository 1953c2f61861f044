-- ===== src/Queue/Unused.antt =====
-- What the media clean-up removes.
use openpostfork.Prelude.{
  String, ℕ, ◌+◌, ◌-◌, ◌*◌, ◌≤◌, ◌<◌, ◌≢◌, ltb, not, ◌&&◌, ==_of_ne, eq_refl, ◌≡◌, refl, sym, ap,
  ◌∙◌, subst, ◌⊎◌, inl, inr, Bool, true, false, Option, none, some, List, [], ◌∷◌, ◌++◌, arith,
  ◌==◌, eq_iff, Bool-cases, Option-cases, All, ok, Result-cases,
}
use openpostfork.Prelude.Int.{ℤ, pos, negsuc, pos_part, leb_ℤ}
use openpostfork.Prelude.Table.{find_where, select_where, delete_where, In, find_where-delete_where}
use openpostfork.Prelude.Clock.{hour}
use openpostfork.Queue.{add_duration}
use openpostfork.Queue.Cleanup.{
  VariantMedia, ids_of, parsed_ids, Media, Tables, CleanupServices, delete_media, select_media,
  select_variants, by_media_id, listed, cutoff, is_unattached, variant_media_ids, media_left,
  delete_unused_media, delete_each, schedule_again, schedule_next, clean_up, found_media,
}

-- The primary key of the media: a row with the id of another one is that row.
abbrev pub KeyedMedia : List Media → Type 0
KeyedMedia ms = (a b : Media) → In a ms → In b ms → a.id ≡ b.id → a ≡ b

select-In :
    (test : Media → Bool) (m : Media) (ms : List Media)
    → In m (select_where test ms)
    → In m ms × (test m ≡ true)
select-In test m [] i = elim i [ ]
select-In test m (x ∷ xs) i = elim (Bool-cases (test x)) [
  | inl e ↦ elim (rw e at i) [
    | inl q ↦ (inl q, ap test (sym q) ∙ e)
    | inr k ↦ let r = select-In test m xs k in (inr r.0, r.1)
  ]
  | inr e ↦ let r = select-In test m xs (rw e at i) in (inr r.0, r.1)
]

In-select :
    (test : Media → Bool) (m : Media) (ms : List Media)
    → In m ms
    → test m ≡ true
    → In m (select_where test ms)
In-select test m [] i h = elim i [ ]
In-select test m (x ∷ xs) (inl e) h = rw (ap test e ∙ h) (inl e)
In-select test m (x ∷ xs) (inr i) h = elim (Bool-cases (test x)) [
  | inl e ↦ rw e (inr (In-select test m xs i h))
  | inr e ↦ rw e (In-select test m xs i h)
]

kept_row :
    (test : Media → Bool) (r : Media) (ms : List Media)
    → test r ≡ false
    → In r ms
    → In r (delete_where test ms)
kept_row test r [] k i = elim i [ ]
kept_row test r (x ∷ xs) k (inl e) = rw (ap test e ∙ k) (inl e)
kept_row test r (x ∷ xs) k (inr i) = elim (Bool-cases (test x)) [
  | inl e ↦ rw e (kept_row test r xs k i)
  | inr e ↦ rw e (inr (kept_row test r xs k i))
]

find-delete :
    (found gone : Media → Bool) (ms : List Media)
    → find_where found ms ≡ none
    → find_where found (delete_where gone ms) ≡ none
find-delete found gone [] h = refl
find-delete found gone (x ∷ xs) h = elim (Bool-cases (found x)) [
  | inl e ↦ cc (rw e at h)
  | inr e ↦ elim (Bool-cases (gone x)) [
    | inl f ↦ rw f (find-delete found gone xs (rw e at h))
    | inr f ↦ rw (f, e) (find-delete found gone xs (rw e at h))
  ]
]

some_days : (days : ℤ) → leb_ℤ days (pos 0) ≡ false → 0 < pos_part days
some_days (pos n) e = ground arith
some_days (negsuc n) e = ground arith

cutoff_lem : (now days : ℕ) → 0 < days → days ≤ 106_751 → cutoff now days ≡ now - days * 24 * hour
unfolding cutoff add_duration
cutoff_lem now days positive fits = ground arith

young_test : (now at d : ℕ) → now ≤ at + d → ltb at (now - d) ≡ false
young_test now at d h = ground arith

In-listed : (key : String) (keys : List String) → In key keys → listed key keys ≡ true
In-listed key [] i = elim i [ ]
In-listed key (k ∷ ks) (inl e) = rw (ap (λ x. x == key) e ∙ eq_refl key) refl
In-listed key (k ∷ ks) (inr i) = elim (Bool-cases (k == key)) [
  | inl e ↦ rw e refl
  | inr e ↦ rw e (In-listed key ks i)
]

-- One of the three parts of a test fails.
middle_false : (a b c d : Bool) → c ≡ false → (a && b && c && d) ≡ false
middle_false true true c d h = rw h refl
middle_false true false c d h = refl
middle_false false b c d h = refl

last_false : (a b c d : Bool) → d ≡ true → (a && b && c && not d) ≡ false
last_false true true true d h = rw h refl
last_false true true false d h = refl
last_false true false c d h = refl
last_false false b c d h = refl

listed-append_left :
    (key : String) (xs ys : List String) → listed key xs ≡ true → listed key (xs ++ ys) ≡ true
listed-append_left key [] ys h = cc
listed-append_left key (x ∷ xs) ys h = elim (Bool-cases (x == key)) [
  | inl e ↦ rw e refl
  | inr e ↦ rw e (listed-append_left key xs ys (rw e at h))
]

listed-append_right :
    (key : String) (xs ys : List String) → listed key ys ≡ true → listed key (xs ++ ys) ≡ true
listed-append_right key [] ys h = h
listed-append_right key (x ∷ xs) ys h = elim (Bool-cases (x == key)) [
  | inl e ↦ rw e refl
  | inr e ↦ rw e (listed-append_right key xs ys h)
]

module _ {S : Type 0} (v : CleanupServices S) where
  -- The row is of another workspace, a favourite, or no older than the days; or a post has it
  -- attached, or the media list of a variant of a post of the workspace names it.
  abbrev pub IsKept : String → ℤ → Tables S → Media → Type 0
  IsKept workspace_id days t r =
      (r.workspace_id ≢ workspace_id)
      ⊎ (r.is_favorite ≡ true)
      ⊎ (v.now ≤ r.created_at + pos_part days * 24 * hour)
      ⊎ In r.id t.attached
      ⊎ ((variant : VariantMedia) × In variant t.variants
          × (variant.workspace_id ≡ workspace_id)
          × (ids : List String) × (v.unmarshal_ids variant.media_ids ≡ some ids)
          × In r.id ids
          × (variant.media_ids ≢ ""))

  -- The row is not found, or it is used.
  abbrev IsSpared : String → ℤ → Tables S → Media → Type 0
  IsSpared workspace_id days t r =
      (is_unattached v workspace_id (cutoff v.now (pos_part days)) t.attached r ≡ false)
      ⊎ ((used : List String)
          → variant_media_ids v workspace_id t ≡ ok used
          → listed r.id used ≡ true)

  media-schedule_next :
      (workspace_id : String) (t : Tables S) → (schedule_next v workspace_id t).media ≡ t.media
  unfolding schedule_next schedule_again
  media-schedule_next workspace_id t = ground arith

  left_keeps :
      (failed : Option String) (key : String) (r : Media) (ms : List Media)
      → by_media_id key r ≡ false
      → In r ms
      → In r (media_left v failed key ms)
  left_keeps none key r ms h i = kept_row (by_media_id key) r ms h i
  left_keeps (some message) key r ms h i = i

  each_keeps :
      (used : List String) (ms : List Media) (t : Tables S) (r : Media)
      → All (λ m. listed m.id used ≡ false → by_media_id m.id r ≡ false) ms
      → In r t.media
      → In r (delete_each v used ms t).media
  unfolding delete_each delete_unused_media
  each_keeps used [] t r h i = i
  each_keeps used (m ∷ ms) t r h i = elim (Bool-cases (listed m.id used)) [
    | inl e ↦ rw (e, delete_each) (each_keeps used ms t r h.1 i)
    | inr e ↦
        rw (e, delete_each)
          (each_keeps used ms (delete_unused_media v m t) r h.1
            (left_keeps (v.fails (delete_media m.id)) m.id r t.media (h.0 e) i))
  ]

  others :
      (used : List String) (workspace_id : String) (days : ℤ) (t : Tables S) (r : Media)
      → KeyedMedia t.media
      → In r t.media
      → IsSpared workspace_id days t r
      → variant_media_ids v workspace_id t ≡ ok used
      → (ms : List Media) → ((m : Media) → In m ms → In m (found_media v workspace_id days t))
      → All (λ m. listed m.id used ≡ false → by_media_id m.id r ≡ false) ms
  others used workspace_id days t r key i kept vars [] sub = tt
  others used workspace_id days t r key i kept vars (m ∷ ms) sub = (
    (λ free. elim (Bool-cases (r.id == m.id)) [
      | inr e ↦ e
      | inl e ↦
          let p =
            select-In (is_unattached v workspace_id (cutoff v.now (pos_part days)) t.attached) m
              t.media (sub m (inl refl)) in
          let same = key r m i p.0 ((eq_iff r.id m.id).0 e) in
          elim kept [
            | inl c ↦
                cc
                  (ap (is_unattached v workspace_id (cutoff v.now (pos_part days)) t.attached) same)
            | inr c ↦ cc (c used vars, ap (λ (k : Media). listed k.id used) same)
          ]
    ]),
    others used workspace_id days t r key i kept vars ms (λ k j. sub k (inr j)),
  )

  In-ids :
      (key : String) (ids : List String) (test : VariantMedia → Bool) (variant : VariantMedia)
      → test variant ≡ true
      → v.unmarshal_ids variant.media_ids ≡ some ids
      → In key ids
      → (rows : List VariantMedia) → In variant rows
      → listed key (ids_of v (select_where test rows)) ≡ true
  unfolding ids_of
  In-ids key ids test variant h parsed there [] i = elim i [ ]
  In-ids key ids test variant h parsed there (x ∷ rows) (inl e) =
      rw (ap test e ∙ h, ap (λ (r : VariantMedia). v.unmarshal_ids r.media_ids) e ∙ parsed)
        (listed-append_left key ids (ids_of v (select_where test rows)) (In-listed key ids there))
  In-ids key ids test variant h parsed there (x ∷ rows) (inr i) = elim (Bool-cases (test x)) [
    | inl e ↦ rw e (
        listed-append_right key (parsed_ids v (v.unmarshal_ids x.media_ids))
          (ids_of v (select_where test rows)) (In-ids key ids test variant h parsed there rows i))
    | inr e ↦ rw e (In-ids key ids test variant h parsed there rows i)
  ]

  In-used :
      (workspace_id : String) (t : Tables S) (used : List String) (variant : VariantMedia)
      (ids : List String) (key : String)
      → variant_media_ids v workspace_id t ≡ ok used
      → In variant t.variants
      → variant.workspace_id ≡ workspace_id
      → variant.media_ids ≢ ""
      → v.unmarshal_ids variant.media_ids ≡ some ids
      → In key ids
      → listed key used ≡ true
  unfolding variant_media_ids
  In-used workspace_id t used variant ids key e i own filled parsed there =
      elim (Option-cases (v.fails select_variants)) [
        | inr q ↦ cc (rw (q.1, variant_media_ids) at e)
        | inl q ↦
            let test : VariantMedia → Bool =
              λ r. r.workspace_id == workspace_id && not (r.media_ids == "") in
            let found : ok (ids_of v (select_where test t.variants)) ≡ ok used =
              (rw (q, variant_media_ids) at e) in
            let same : ids_of v (select_where test t.variants) ≡ used = cc in
            let passes : test variant ≡ true =
              rw
                (
                  ap (λ w. w == workspace_id) own ∙ eq_refl workspace_id,
                  ==_of_ne variant.media_ids "" filled,
                )
                refl in
            ap (listed key) (sym same)
            ∙ In-ids key ids test variant passes parsed there t.variants i
      ]

  kept-IsSpared :
      (workspace_id : String) (days : ℤ) (t : Tables S) (r : Media)
      → 0 < pos_part days
      → pos_part days ≤ 106_751
      → IsKept workspace_id days t r
      → IsSpared workspace_id days t r
  unfolding is_unattached
  kept-IsSpared workspace_id days t r positive fits (inl ne) =
      inl (rw (==_of_ne r.workspace_id workspace_id ne) refl)
  kept-IsSpared workspace_id days t r positive fits (inr (inl e)) =
      inl (elim (Bool-cases (r.workspace_id == workspace_id)) [
        | inl q ↦ rw (q, e) refl
        | inr q ↦ rw q refl
      ])
  kept-IsSpared workspace_id days t r positive fits (inr (inr (inl young))) = inl (
      middle_false (r.workspace_id == workspace_id) (not r.is_favorite)
        (ltb r.created_at (cutoff v.now (pos_part days))) (not (listed r.id t.attached))
        (ap (ltb r.created_at) (cutoff_lem v.now (pos_part days) positive fits)
          ∙ young_test v.now r.created_at (pos_part days * 24 * hour) young))
  kept-IsSpared workspace_id days t r positive fits (inr (inr (inr (inl i)))) = inl (
      last_false (r.workspace_id == workspace_id) (not r.is_favorite)
        (ltb r.created_at (cutoff v.now (pos_part days))) (listed r.id t.attached)
        (In-listed r.id t.attached i))
  kept-IsSpared workspace_id days t r positive fits
        (inr (inr (inr (inr (variant, i, own, ids, parsed, there, filled))))) =
      inr (λ used e. In-used workspace_id t used variant ids r.id e i own filled parsed there)

  spared_stays :
      (workspace_id : String) (days : ℤ) (t : Tables S) (r : Media)
      → KeyedMedia t.media
      → IsSpared workspace_id days t r
      → In r t.media
      → In r (clean_up v workspace_id days t).1.media
  unfolding clean_up
  spared_stays workspace_id days t r key kept i = elim (Bool-cases (leb_ℤ days (pos 0))) [
    | inl e ↦ rw e i
    | inr e ↦ elim (Option-cases (v.fails select_media)) [
      | inr q ↦ rw (e, q.1, clean_up) i
      | inl f ↦ elim (Result-cases (variant_media_ids v workspace_id t)) [
        | inl q ↦ rw (e, f, q.1, clean_up) i
        | inr q ↦
            rw
              (
                e,
                f,
                q.1,
                clean_up,
                media-schedule_next workspace_id
                    (delete_each v q.0 (found_media v workspace_id days t) t),
              )
              (each_keeps q.0 (found_media v workspace_id days t) t r
                (others q.0 workspace_id days t r key i kept q.1 (found_media v workspace_id days t)
                  (λ m j. j))
                i)
      ]
    ]
  ]

  -- A clean-up, failed or not, leaves every media row of another workspace, every favourite, every
  -- row that is no older than the given days, every row that a post has attached, and every row that
  -- the media list of a variant of a post of the workspace names. (The ids of the media are
  -- distinct, and the days are at most 106751, so that an int64 has them in nanoseconds.)
  pub clean_up-keeps :
      (workspace_id : String) (days : ℤ) (t : Tables S) (r : Media)
      → KeyedMedia t.media
      → pos_part days ≤ 106_751
      → IsKept workspace_id days t r
      → In r t.media
      → In r (clean_up v workspace_id days t).1.media
  unfolding clean_up
  clean_up-keeps workspace_id days t r key fits kept i = elim (Bool-cases (leb_ℤ days (pos 0))) [
    | inl e ↦ rw e i
    | inr e ↦
        spared_stays workspace_id days t r key
          (kept-IsSpared workspace_id days t r (some_days days e) fits kept) i
  ]

  left_none :
      (failed : Option String) (key : String) (test : Media → Bool) (ms : List Media)
      → find_where test ms ≡ none
      → find_where test (media_left v failed key ms) ≡ none
  left_none none key test ms h = find-delete test (by_media_id key) ms h
  left_none (some message) key test ms h = h

  each_none :
      (used : List String) (test : Media → Bool) (ms : List Media) (t : Tables S)
      → find_where test t.media ≡ none
      → find_where test (delete_each v used ms t).media ≡ none
  unfolding delete_each delete_unused_media
  each_none used test [] t h = h
  each_none used test (m ∷ ms) t h = elim (Bool-cases (listed m.id used)) [
    | inl e ↦ rw (e, delete_each) (each_none used test ms t h)
    | inr e ↦
        rw (e, delete_each)
          (each_none used test ms (delete_unused_media v m t)
            (left_none (v.fails (delete_media m.id)) m.id test t.media h))
  ]

  each_removes :
      (used : List String) (ms : List Media) (t : Tables S) (r : Media)
      → v.fails (delete_media r.id) ≡ none
      → listed r.id used ≡ false
      → In r ms
      → find_where (by_media_id r.id) (delete_each v used ms t).media ≡ none
  unfolding delete_each delete_unused_media
  each_removes used [] t r quiet free i = elim i [ ]
  each_removes used (m ∷ ms) t r quiet free (inl e) =
      rw (ap (λ (k : Media). listed k.id used) e ∙ free, delete_each)
        (each_none used (by_media_id r.id) ms (delete_unused_media v m t) (
          subst
            (λ (k : Media).
              find_where (by_media_id r.id)
                (media_left v (v.fails (delete_media k.id)) k.id t.media)
              ≡ none)
            (sym e)
            (subst (λ f. find_where (by_media_id r.id) (media_left v f r.id t.media) ≡ none)
              (sym quiet) (find_where-delete_where (by_media_id r.id) t.media))))
  each_removes used (m ∷ ms) t r quiet free (inr i) = elim (Bool-cases (listed m.id used)) [
    | inl e ↦ rw (e, delete_each) (each_removes used ms t r quiet free i)
    | inr e ↦ rw (e, delete_each) (each_removes used ms (delete_unused_media v m t) r quiet free i)
  ]

  -- A clean-up of a positive number of days removes every media row of its workspace that is older,
  -- no favourite, attached to no post and used by no variant. (The two queries and the deletion of
  -- the row do not fail.)
  pub clean_up-removes :
      (workspace_id : String) (days : ℤ) (t : Tables S) (r : Media) (used : List String)
      → leb_ℤ days (pos 0) ≡ false
      → v.fails select_media ≡ none
      → v.fails (delete_media r.id) ≡ none
      → variant_media_ids v workspace_id t ≡ ok used
      → In r t.media
      → is_unattached v workspace_id (cutoff v.now (pos_part days)) t.attached r ≡ true
      → listed r.id used ≡ false
      → find_where (by_media_id r.id) (clean_up v workspace_id days t).1.media ≡ none
  unfolding clean_up
  clean_up-removes workspace_id days t r used positive quiet quiet' vars i old free =
      rw
        (
          positive,
          quiet,
          vars,
          clean_up,
          media-schedule_next workspace_id
              (delete_each v used (found_media v workspace_id days t) t),
        )
        (each_removes used (found_media v workspace_id days t) t r quiet' free (
          In-select (is_unattached v workspace_id (cutoff v.now (pos_part days)) t.attached) r
            t.media i old))
