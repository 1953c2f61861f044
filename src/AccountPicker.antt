-- ===== src/AccountPicker.antt =====
-- cli/internal/accountpicker/accountpicker.go: the accounts that the selectors of the command line
-- name. The comparison of names without their case (strings.EqualFold) and the quotation of a text
-- (%q) are parameters.
pub mod Best
pub mod Resolved
mod Tests
use openpostfork.Prelude.{
  ℕ, zero, suc, ◌+◌, ◌-◌, ◌*◌, ◌/◌, ◌%◌, ◌^◌, ◌≤◌, ◌<◌, min, max, String, ◌<>◌, ◌≡◌, refl, sym, ap,
  ◌∙◌, subst, fun_ext, ◌≢◌, ◌↔◌, ◌⊎◌, inl, inr, Bool, true, false, not, ◌&&◌, ◌||◌, Option, none,
  some, List, [], ◌∷◌, ◌++◌, map, arith, ◌==◌, eq_iff, eq_refl, ltb, leb, eqb, if◌then◌else◌,
  leb→le, le→leb, leb→lt, Bool-cases, Option-cases, ==_of_ne, length, All, length-append, All-map,
  Result, ok, err, ◌>>=◌, or_fail, Result-cases,
}
use Prim.Native.String.{len, slice}
use text.Mathlib.Text.{starts_with}
use openpostfork.Prelude.Cut.{cut}
use openpostfork.Prelude.Text.{trim_space}

-- `api.SocialAccount`, as far as the picker reads it.
pub record Account : Type 0 where
  pub id : String
  pub platform : String
  pub account_id : String
  pub account_username : String
  pub slug : String
  pub instance_url : String
  pub is_active : Bool

-- The constants of `accountMatch`.
abbrev pub no_account_match : ℕ
no_account_match = 0

abbrev pub account_id_match : ℕ
account_id_match = 1

abbrev pub account_slug_match : ℕ
account_slug_match = 2

abbrev pub account_platform_username_match : ℕ
account_platform_username_match = 3

abbrev pub account_bare_platform_match : ℕ
account_bare_platform_match = 4

abbrev pub account_mastodon_host_match : ℕ
account_mastodon_host_match = 5

-- `strings.TrimPrefix`.
abbrev trim_prefix : String → String → String
trim_prefix s prefix = if starts_with s prefix then slice s (len prefix) (len s) else s

abbrev up_to_slash : String → Option (String × String) → String
up_to_slash u none = u
up_to_slash u (some (before, after)) = if before == "" then u else before

-- `hostOf`.
unfoldable pub host_of : String → String
host_of url =
    let u = trim_prefix (trim_prefix url "https://") "http://" in up_to_slash u (cut b'/' u)

-- `formatAccount`.
unfoldable pub format_account : Account → String
format_account a =
    let username = if a.account_username == "" then a.account_id else a.account_username in
    if a.instance_url == ""
    then a.platform <> (":@" <> username)
    else a.platform <> (":@" <> (username <> ("@" <> host_of a.instance_url)))

-- `strings.Join`.
unfoldable pub join : String → List String → String
join separator [] = ""
join separator (x ∷ xs) =
    let rest = join separator xs in elim xs [ [] ↦ x | _ ∷ _ ↦ x <> (separator <> rest) ]

-- `disambiguateHint`.
unfoldable pub disambiguate_hint : List Account → String
disambiguate_hint matches =
    join " or " (map (λ (a : Account). "--accounts " <> format_account a) matches)

-- The loop of `resolveOne` over any items and the strength of their match: the best strength so far
-- with the items that have it, in order.
abbrev pub keep_best : {A : Type 0} → (A → ℕ) → A → ℕ × List A → ℕ × List A
keep_best strength a (best, matches) =
    let kind = strength a in
    if eqb kind 0
    then (best, matches)
    else if eqb best 0 || ltb kind best
    then (kind, a ∷ [])
    else if eqb kind best
    then (best, matches ++ (a ∷ []))
    else (best, matches)

unfoldable pub scan : {A : Type 0} → (A → ℕ) → List A → ℕ × List A → ℕ × List A
scan strength [] found = found
scan strength (a ∷ rest) found = scan strength rest (keep_best strength a found)

abbrev pub seen : String → List String → Bool
seen id [] = false
seen id (x ∷ xs) = x == id || seen id xs

-- `Resolve`: the ids so far, and the rest of the selectors.
abbrev pub add_id : String → List String → List String
add_id id out = if seen id out then out else out ++ (id ∷ [])

module _ (equal_fold : String → String → Bool) (quote : String → String) where
  abbrev is_handle : Account → Option (String × String) → Bool
  is_handle a none = false
  is_handle a (some (platform, handle)) =
      not (platform == "")
      && a.platform == platform
      && equal_fold a.account_username (trim_prefix handle "@")

  -- `accountMatches`.
  unfoldable pub account_matches : Account → String → ℕ
  account_matches a sel =
      if a.id == sel
      then account_id_match
      else if not (a.slug == "") && a.slug == sel
      then account_slug_match
      else if is_handle a (cut b':' sel)
      then account_platform_username_match
      else if a.platform == sel
      then account_bare_platform_match
      else if starts_with sel "mastodon:"
          && a.platform == "mastodon"
          && host_of a.instance_url == trim_prefix sel "mastodon:"
      then account_mastodon_host_match
      else no_account_match

  -- The strength of a match; an inactive account has none.
  abbrev pub strength : String → Account → ℕ
  strength sel a = if a.is_active then account_matches a sel else no_account_match

  abbrev pub decide : String → String → List Account → Result String String
  decide workspace_id sel [] =
      err ("no " <> (sel <> (" account matched in workspace " <> workspace_id)))
  decide workspace_id sel (a ∷ []) = ok a.id
  decide workspace_id sel (a ∷ b ∷ rest) =
      let matches = a ∷ b ∷ rest in
      err (
        "multiple matches for "
        <> (quote sel
            <> (": "
                <> (join ", " (map format_account matches)
                    <> (". Disambiguate with "
                        <> (disambiguate_hint matches <> " or with the raw account id"))))))

  -- `resolveOne`.
  unfoldable pub resolve_one : String → String → List Account → Result String String
  resolve_one workspace_id sel accounts =
      decide workspace_id sel (scan (strength sel) accounts (no_account_match, [])).1

  abbrev pub resolved : Result String String → List String → Result String (List String)
  resolved (err message) out = err message
  resolved (ok id) out = ok (add_id id out)

  unfoldable pub resolve_from :
      String → List String → List Account → List String → Result String (List String)
  resolve_from workspace_id [] accounts out = ok out
  resolve_from workspace_id (raw ∷ rest) accounts out =
      let s = trim_space raw in
      if s == ""
      then resolve_from workspace_id rest accounts out
      else elim (resolved (resolve_one workspace_id s accounts) out) [
        | err message ↦ err message
        | ok out' ↦ resolve_from workspace_id rest accounts out'
      ]

  unfoldable pub resolve : String → List String → List Account → Result String (List String)
  resolve workspace_id selectors accounts = resolve_from workspace_id selectors accounts []
