-- ===== src/NetGuard/Public.antt =====
-- The dialer connects to public addresses alone.
use openpostfork.Prelude.{
  ℕ, String, ◌≡◌, refl, subst, inl, inr, true, Option, none, some, List, [], ◌∷◌, Bool-cases, All,
  Result, ok, err,
}
use openpostfork.NetGuard.Address.{is_public_address}
use openpostfork.NetGuard.Guard.{
  UrlPolicy, all_public, checked_ips, resolve_public_host, tried, dial_each, dial_resolved,
  dial_context,
}

abbrev pub IsPublic : List ℕ → Type 0
IsPublic ip = is_public_address ip ≡ true

all_public-IsPublic : (ips : List (List ℕ)) → all_public ips ≡ true → All IsPublic ips
all_public-IsPublic [] h = tt
all_public-IsPublic (ip ∷ ips) h = elim (Bool-cases (is_public_address ip)) [
  | inl e ↦ (e, all_public-IsPublic ips (rw e at h))
  | inr e ↦ cc (rw e at h)
]

tried-IsPublic :
    (ip : List ℕ) (o : Option String) (rest : List (List ℕ) × Option String)
    → IsPublic ip
    → All IsPublic rest.0
    → All IsPublic (tried ip o rest).0
tried-IsPublic ip none rest h k = (h, tt)
tried-IsPublic ip (some message) (ips, last) h k = (h, k)

module _ (look_up : String → Result String (List (List ℕ))) where
  checked_ips-IsPublic :
      (p : UrlPolicy) (r : Result String (List (List ℕ))) (ips : List (List ℕ))
      → checked_ips look_up p r ≡ ok ips
      → All IsPublic ips
  checked_ips-IsPublic p (err message) ips h = absurd (let g : err _ ≡ ok ips = h in cc)
  checked_ips-IsPublic p (ok []) ips h = absurd (let g : err _ ≡ ok ips = h in cc)
  checked_ips-IsPublic p (ok (x ∷ xs)) ips h = elim (Bool-cases (all_public (x ∷ xs))) [
    | inl e ↦
        let g : ok (x ∷ xs) ≡ ok ips = (rw e at h) in
        let same : x ∷ xs ≡ ips = cc in subst (All IsPublic) same (all_public-IsPublic (x ∷ xs) e)
    | inr e ↦ cc (rw e at h)
  ]

  module _ (connect : List ℕ → String → Option String) where
    dial_each-IsPublic :
        (p : UrlPolicy) (port : String) (ips : List (List ℕ)) (last : Option String)
        → All IsPublic ips
        → All IsPublic (dial_each look_up connect p port ips last).0
    dial_each-IsPublic p port [] none h = tt
    dial_each-IsPublic p port [] (some message) h = tt
    dial_each-IsPublic p port (ip ∷ ips) last h =
        tried-IsPublic ip (connect ip port) (dial_each look_up connect p port ips (connect ip port))
          h.0 (dial_each-IsPublic p port ips (connect ip port) h.1)

    dial_resolved-IsPublic :
        (p : UrlPolicy) (port : String) (r : Result String (List (List ℕ)))
        → ((ips : List (List ℕ)) → r ≡ ok ips → All IsPublic ips)
        → All IsPublic (dial_resolved look_up connect p port r).0
    dial_resolved-IsPublic p port (err message) h = tt
    dial_resolved-IsPublic p port (ok ips) h = dial_each-IsPublic p port ips none (h ips refl)

    -- Whatever the resolver answers for a host, and whichever connections fail, the dialer tries
    -- public addresses alone.
    pub dial_context-IsPublic :
        (address : Result String (String × String)) (p : UrlPolicy)
        → All IsPublic (dial_context look_up connect address p).0
    unfolding dial_context resolve_public_host
    dial_context-IsPublic (err message) p = tt
    dial_context-IsPublic (ok (host, port)) p =
        dial_resolved-IsPublic p port (checked_ips look_up p (look_up host))
          (checked_ips-IsPublic p (look_up host))
