-- ===== src/Billing/Dropped.antt =====
-- Which limits an event sets.
use openpostfork.Prelude.{
  arith, String, ◌<>◌, ◌≡◌, refl, sym, ap, ◌∙◌, inl, inr, true, false, Option, none, some, [], ◌∷◌,
  ◌==◌, eq_iff, eq_refl, if◌then◌else◌, Bool-cases, ==_of_ne,
}
use openpostfork.Prelude.Int.{ℤ, pos, negsuc, leb_ℤ}
use openpostfork.Prelude.Words.{parse_int}
use openpostfork.Prelude.Cut.{cut_prefix, cut_prefix-append, cut_prefix_sound}
use openpostfork.Entitlements.{lookup}
use openpostfork.Billing.{
  null, text, float, integer, shown, MetadataValue, Metadata, BillingServices,
}
use openpostfork.Billing.Event.{nonneg, metadata_limit_as_int64, add_limit, metadata_limits}

-- The keys are distinct, as those of a Go map are.
abbrev pub HasDistinctKeys : {F : Type 0} → Metadata F → Type 0
HasDistinctKeys [] = Unit
HasDistinctKeys ((key, value) ∷ rest) = (lookup key rest ≡ none) × HasDistinctKeys rest

limit_key_same : (m metric : String) → ("limit_" <> m == "limit_" <> metric) ≡ true → m ≡ metric
limit_key_same m metric h =
    let same = (eq_iff ("limit_" <> m) ("limit_" <> metric)).0 h in
    let both : some m ≡ some metric =
      sym (cut_prefix-append "limit_" m)
      ∙ ap (λ s. cut_prefix s "limit_") same
      ∙ cut_prefix-append "limit_" metric in
    cc

limit_key_eq : (m metric : String) → ("limit_" <> m == "limit_" <> metric) ≡ (m == metric)
limit_key_eq m metric = elim (Bool-cases (m == metric)) [
  | inl e ↦
      ap (λ x. "limit_" <> m == "limit_" <> x) (sym ((eq_iff m metric).0 e))
      ∙ eq_refl ("limit_" <> m)
      ∙ sym e
  | inr e ↦
      ==_of_ne ("limit_" <> m) ("limit_" <> metric) (λ same.
        let y = limit_key_same m metric ((eq_iff ("limit_" <> m) ("limit_" <> metric)).1 same) in
        let z : true ≡ false = sym ((eq_iff m metric).1 y) ∙ e in absurd (cc))
      ∙ sym e
]

other_key :
    (key metric : String) → cut_prefix key "limit_" ≡ none → (key == "limit_" <> metric) ≡ false
other_key key metric h = elim (Bool-cases (key == "limit_" <> metric)) [
  | inr e ↦ e
  | inl e ↦
      let same = (eq_iff key ("limit_" <> metric)).0 e in
      let clash : none ≡ some metric =
        sym h ∙ ap (λ s. cut_prefix s "limit_") same ∙ cut_prefix-append "limit_" metric in
      cc
]

module _ {F : Type 0} (v : BillingServices F) where
  -- What the metadata say of a limit.
  abbrev pub limit_read : Option (MetadataValue F) → Option ℤ
  limit_read none = none
  limit_read (some value) = metadata_limit_as_int64 v value

  first_limit :
      (m metric : String) (value : MetadataValue F) (rest : Metadata F) (o : Option ℤ)
      → metadata_limit_as_int64 v value ≡ o
      → lookup ("limit_" <> m) rest ≡ none
      → lookup metric (metadata_limits v rest) ≡ limit_read (lookup ("limit_" <> metric) rest)
      → lookup metric (add_limit v (some m) o (metadata_limits v rest))
        ≡ limit_read (if m == metric then some value else lookup ("limit_" <> metric) rest)
  unfolding lookup
  first_limit m metric value rest (some z) p fresh ih = elim (Bool-cases (m == metric)) [
    | inl e ↦ rw (e, p) refl
    | inr e ↦ rw e ih
  ]
  first_limit m metric value rest none p fresh ih = elim (Bool-cases (m == metric)) [
    | inl e ↦
        rw (e, p)
          (ih
            ∙ ap (λ x. limit_read (lookup ("limit_" <> x) rest)) (sym ((eq_iff m metric).0 e))
            ∙ ap limit_read fresh)
    | inr e ↦ rw e ih
  ]

  step :
      (key metric : String) (value : MetadataValue F) (rest : Metadata F) (o : Option String)
      → cut_prefix key "limit_" ≡ o
      → lookup key rest ≡ none
      → lookup metric (metadata_limits v rest) ≡ limit_read (lookup ("limit_" <> metric) rest)
      → lookup metric (add_limit v o (metadata_limit_as_int64 v value) (metadata_limits v rest))
        ≡ limit_read
            (if key == "limit_" <> metric then some value else lookup ("limit_" <> metric) rest)
  step key metric value rest none p fresh ih = rw (other_key key metric p) ih
  step key metric value rest (some m) p fresh ih =
      let same = cut_prefix_sound key "limit_" m p in
      rw (ap (λ k. k == "limit_" <> metric) same ∙ limit_key_eq m metric) (
        first_limit m metric value rest (metadata_limit_as_int64 v value) refl
          (ap (λ k. lookup k rest) (sym same) ∙ fresh) ih)

  lookup_read :
      (metric : String) (metadata : Metadata F)
      → HasDistinctKeys metadata
      → lookup metric (metadata_limits v metadata)
        ≡ limit_read (lookup ("limit_" <> metric) metadata)
  unfolding lookup metadata_limits
  lookup_read metric [] h = refl
  lookup_read metric ((key, value) ∷ rest) h =
      step key metric value rest (cut_prefix key "limit_") refl h.0 (lookup_read metric rest h.1)

-- An integer that is not negative.
abbrev pub natural : Option ℤ → Option ℤ
natural none = none
natural (some (pos n)) = some (pos n)
natural (some (negsuc n)) = none

-- The limit that a value means, where `whole` is the integer of 64 bits that a float is, if any.
abbrev pub limit_meant : {F : Type 0} → (F → Option ℤ) → Option (MetadataValue F) → Option ℤ
limit_meant whole none = none
limit_meant whole (some null) = none
limit_meant whole (some (shown s)) = none
limit_meant whole (some (text s)) = natural (parse_int s)
limit_meant whole (some (integer z)) = natural (some z)
limit_meant whole (some (float x)) = natural (whole x)

module _ {F : Type 0} (v : BillingServices F) (whole : F → Option ℤ) where
  -- The conversions of Go: a whole float is converted without loss and compares with 0 as its
  -- integer does, and a float that equals its conversion is whole.
  abbrev pub ConvertsWholes : Type 0
  ConvertsWholes =
      ((x : F) (z : ℤ)
        → whole x ≡ some z
        → (v.to_int64 x ≡ z)
          × (v.float_eq x (v.of_int64 z) ≡ true)
          × (v.float_nonneg x ≡ leb_ℤ (pos 0) z))
      × ((x : F) → v.float_eq x (v.of_int64 (v.to_int64 x)) ≡ true → whole x ≡ some (v.to_int64 x))

  read_nonneg : (o : Option ℤ) → nonneg o ≡ natural o
  read_nonneg none = refl
  read_nonneg (some (pos n)) = ground arith
  read_nonneg (some (negsuc n)) = ground arith

  read_whole :
      (x : F) (z : ℤ)
      → ConvertsWholes
      → whole x ≡ some z
      → metadata_limit_as_int64 v (float x) ≡ natural (some z)
  unfolding metadata_limit_as_int64
  read_whole x (pos n) laws e =
      let l = laws.0 x (pos n) e in
      let above : v.float_nonneg x ≡ true = l.2 ∙ ground arith in rw (l.0, l.1, above) refl
  read_whole x (negsuc n) laws e =
      let l = laws.0 x (negsuc n) e in
      let below : v.float_nonneg x ≡ false = l.2 ∙ ground arith in rw below refl

  read_broken :
      (x : F) → ConvertsWholes → whole x ≡ none → metadata_limit_as_int64 v (float x) ≡ none
  unfolding metadata_limit_as_int64
  read_broken x laws e = elim (Bool-cases (v.float_eq x (v.of_int64 (v.to_int64 x)))) [
    | inl q ↦ let clash : none ≡ some (v.to_int64 x) = sym e ∙ laws.1 x q in absurd (cc)
    | inr q ↦ elim (Bool-cases (v.float_nonneg x)) [ inl r ↦ rw (q, r) refl | inr r ↦ rw r refl ]
  ]

  read_float :
      (x : F) (o : Option ℤ)
      → ConvertsWholes
      → whole x ≡ o
      → metadata_limit_as_int64 v (float x) ≡ natural o
  read_float x none laws e = read_broken x laws e
  read_float x (some z) laws e = read_whole x z laws e

  read_meant :
      (value : Option (MetadataValue F))
      → ConvertsWholes
      → limit_read v value ≡ limit_meant whole value
  unfolding metadata_limit_as_int64
  read_meant none laws = refl
  read_meant (some null) laws = refl
  read_meant (some (shown s)) laws = refl
  read_meant (some (text s)) laws = read_nonneg (parse_int s)
  read_meant (some (integer z)) laws = read_nonneg (some z)
  read_meant (some (float x)) laws = read_float x (whole x) laws refl

  -- The snapshot of an event has a limit exactly where the metadata have, under the key of the
  -- limit, a whole number that is not negative, as a number or as a decimal text, and has that
  -- number: a value that is missing, negative, fractional or malformed leaves the limit out. (The
  -- keys of the metadata are distinct, and the conversions between floats and integers are those of
  -- Go on amd64: a float that is not whole, or is out of the range of an int64, does not equal its
  -- conversion.)
  pub lookup-metadata_limits :
      (metric : String) (metadata : Metadata F)
      → ConvertsWholes
      → HasDistinctKeys metadata
      → lookup metric (metadata_limits v metadata)
        ≡ limit_meant whole (lookup ("limit_" <> metric) metadata)
  lookup-metadata_limits metric metadata laws h =
      lookup_read v metric metadata h ∙ read_meant (lookup ("limit_" <> metric) metadata) laws
