-- ===== src/Entitlements/Limits.antt =====
-- When the static service allows a request.
use openpostfork.Prelude.{
  ◌+◌, ◌^◌, ◌≤◌, ◌<◌, ◌≡◌, refl, ◌↔◌, inl, inr, true, false, Option, none, some, arith, Bool-cases,
}
use openpostfork.Prelude.Int.{ℤ, pos, add64_exact, leb_ℤ, neg_part, pos_part}
use openpostfork.Entitlements.{Request, PlanSnapshot, lookup, check, against}

-- The sum of the counter and the request is an int64.
abbrev pub Fits : Request → Type 0
Fits req =
    (pos_part req.current + pos_part req.amount
      < neg_part req.current + neg_part req.amount + 2 ^ 63)
    × (neg_part req.current + neg_part req.amount
        ≤ pos_part req.current + pos_part req.amount + 2 ^ 63)

-- The sum of the counter and the request, as integers, is at most the limit.
abbrev pub Within : Request → ℤ → Type 0
Within req limit =
    pos_part req.current + pos_part req.amount + neg_part limit
    ≤ pos_part limit + neg_part req.current + neg_part req.amount

abbrev pub HasRoomIn : Option ℤ → Request → Type 0
HasRoomIn none req = Unit {0}
HasRoomIn (some limit) req = Within req limit

-- The plan has no limit for the resource, or one that leaves room.
abbrev pub HasRoom : PlanSnapshot → Request → Type 0
HasRoom snapshot req = HasRoomIn (lookup req.limit snapshot.limits) req

against_iff :
    (req : Request) (found : Option ℤ)
    → Fits req
    → ((against req found).allowed ≡ true) ↔ HasRoomIn found req
against_iff req none fits = (λ h. tt, λ h. refl)
against_iff req (some limit) fits = (
  λ h. ground (arith, add64_exact req.current req.amount fits.0 fits.1),
  λ h. ground (arith, add64_exact req.current req.amount fits.0 fits.1),
)

-- A check allows a request exactly when its amount is positive and the plan has room for it, or no
-- limit. (The sum of the counter and the amount fits in an int64.)
pub check-allowed :
    (snapshot : PlanSnapshot) (req : Request)
    → Fits req
    → ((check snapshot req).0.allowed ≡ true)
      ↔ ((leb_ℤ req.amount (pos 0) ≡ false) × HasRoom snapshot req)
unfolding check
check-allowed snapshot req fits = elim (Bool-cases (leb_ℤ req.amount (pos 0))) [
  | inl e ↦ rw e (λ h. cc, λ h. cc)
  | inr e ↦ rw e (
    λ h. (refl, (against_iff req (lookup req.limit snapshot.limits) fits).0 h),
    λ h. (against_iff req (lookup req.limit snapshot.limits) fits).1 h.1,
  )
]
