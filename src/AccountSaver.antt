-- ===== src/AccountSaver.antt =====
-- backend/internal/services/account_saver/account_saver.go with the row `SocialAccount` of
-- backend/internal/models/models.go: the account that is saved after a network has let the user in.
-- The encryption, the entitlement service and the new ids are parameters.
pub mod Slug
pub mod Free
pub mod Saved
mod Tests
use openpostfork.Prelude.{
  ℕ, zero, suc, ◌+◌, ◌-◌, ◌*◌, ◌/◌, ◌%◌, ◌^◌, ◌≤◌, ◌<◌, min, max, String, ◌<>◌, ◌≡◌, refl, sym, ap,
  ◌∙◌, subst, fun_ext, ◌≢◌, ◌↔◌, ◌⊎◌, inl, inr, Bool, true, false, not, ◌&&◌, ◌||◌, Option, none,
  some, List, [], ◌∷◌, ◌++◌, map, arith, ◌==◌, eq_iff, eq_refl, ltb, leb, eqb, if◌then◌else◌,
  leb→le, le→leb, leb→lt, Bool-cases, Option-cases, ==_of_ne, length, All, length-append, All-map,
  Result, ok, err, ◌>>=◌, or_fail, Result-cases,
}
use openpostfork.Prelude.Clock.{second}
use openpostfork.Prelude.Int.{ℤ, pos, pos_part, leb_ℤ}
use openpostfork.Prelude.Table.{count_where}
use openpostfork.Entitlements.{Request, Decision, Answer, lookup, limit_social_accounts}
use openpostfork.TokenManager.{TokenServices, TokenTables, schedule_refresh_job}
use openpostfork.AccountSaver.Slug.{SocialAccount, default_slug, unique_slug}

-- `platform.TokenResult`; the map of extra values is a list.
pub record SavedToken : Type 0 where
  pub access_token : String
  pub refresh_token : String
  pub expires_in : ℤ  -- seconds
  pub extra : List (String × String)

pub record SaveAccountInput : Type 0 where
  pub user_id : String
  pub platform_name : String
  pub workspace_id : String
  pub account_id : String
  pub account_username : String
  pub account_avatar_url : String
  pub instance_url : String
  pub token : Option SavedToken

pub record Member : Type 0 where
  pub workspace_id : String
  pub user_id : String

pub data SaverStatement : Type 0 where
  count_members count_accounts select_slug insert_account : SaverStatement

pub record SaverServices (S : Type 0) : Type 0 where
  pub encrypt : String → Result String String
  pub check : Request → Answer
  pub new_id : List SocialAccount → String
  pub fails : SaverStatement → Option String
  pub tokens : TokenServices S

pub record SaverTables (S : Type 0) : Type 0 where
  pub members : List Member
  pub accounts : List SocialAccount
  pub jobs : TokenTables S

-- `accountIDFromToken`.
abbrev or_fallback : String → Option String → String
or_fallback fallback none = fallback
or_fallback fallback (some uid) = if uid == "" then fallback else uid

unfoldable pub account_id_from_token : String → SavedToken → String
account_id_from_token fallback token = or_fallback fallback (lookup "user_id" token.extra)

-- `tokenExpiresAt`; the duration is an int64.
unfoldable pub token_expires_at : SavedToken → ℕ → ℕ
token_expires_at token now =
    let d = pos_part token.expires_in * second % 2 ^ 64 in
    if leb_ℤ token.expires_in (pos 0)
    then 0
    else if ltb d (2 ^ 63)
    then now + d
    else now - (2 ^ 64 - d)

abbrev counted : Option String → ℕ → Option String
counted (some message) n = some ("validating workspace membership: " <> message)
counted none n = if eqb n 0 then some "workspace not accessible" else none

abbrev decided : Answer → Option String
decided (d, some message) = some ("checking social account limit: " <> message)
decided (d, none) =
    if d.allowed
    then none
    else if d.reason == ""
    then some "social account limit exceeded"
    else some d.reason

module _ {S : Type 0} (v : SaverServices S) where
  -- `validateSaveAccountInput`: the token, or the error.
  unfoldable pub validate_save_account_input :
      SaveAccountInput → SaverTables S → Result String SavedToken
  validate_save_account_input input t =
      if input.user_id == ""
      then err "user id is required"
      else if input.workspace_id == ""
      then err "workspace id is required"
      else do
        token ← or_fail "token response is required" input.token
        elim (counted (v.fails count_members) (
            count_where
              (λ (m : Member). m.workspace_id == input.workspace_id && m.user_id == input.user_id)
              t.members)) [ some message ↦ err message | none ↦ ok token ]

  abbrev quota_counted : Option String → String → ℕ → Option String
  quota_counted (some message) workspace_id n = some ("loading social account usage: " <> message)
  quota_counted none workspace_id n = decided (
      v.check (record {
        organization_id = "";
        workspace_id = workspace_id;
        user_id = "";
        limit = limit_social_accounts;
        current = pos n;
        amount = pos 1;
      }))

  -- `checkSocialAccountQuota`.
  unfoldable pub check_social_account_quota : String → List SocialAccount → Option String
  check_social_account_quota workspace_id accounts =
      quota_counted (v.fails count_accounts) workspace_id (
        count_where (λ (a : SocialAccount). a.workspace_id == workspace_id && a.is_active) accounts)

  -- `encryptAccountTokens`.
  unfoldable pub encrypt_account_tokens : SavedToken → Result String (String × String)
  encrypt_account_tokens token = do
    access ← v.encrypt token.access_token
    refresh ← if token.refresh_token == "" then ok "" else v.encrypt token.refresh_token
    ok (access, refresh)

  abbrev pub new_account :
      SaveAccountInput → String → String × String → ℕ → ℕ → List SocialAccount → SocialAccount
  new_account input account_id (access, refresh) expires_at now accounts = record {
    id = v.new_id accounts;
    workspace_id = input.workspace_id;
    slug =
        unique_slug (v.fails select_slug) input.workspace_id accounts
          (default_slug input.platform_name input.account_username account_id input.instance_url);
    platform = input.platform_name;
    account_id = account_id;
    account_username = input.account_username;
    account_avatar_url = input.account_avatar_url;
    instance_url = input.instance_url;
    access_token_enc = access;
    refresh_token_enc = refresh;
    token_expires_at = expires_at;
    is_active = true;
    created_at = now;
  }

  -- The insertion, and the refresh job, whose error is only logged.
  abbrev pub insert_account_row :
      Option String → SocialAccount → SaverTables S → Result String SocialAccount × SaverTables S
  insert_account_row (some message) a t = (err message, t)
  insert_account_row none a t = (
    ok a,
    record t {
      accounts = a ∷ t.accounts;
      jobs = (schedule_refresh_job v.tokens a.id a.token_expires_at t.jobs).1;
    },
  )

  abbrev with_tokens :
      SaveAccountInput
      → String
      → Result String (String × String)
      → ℕ
      → ℕ
      → SaverTables S
      → Result String SocialAccount × SaverTables S
  with_tokens input account_id (err message) expires_at now t = (err message, t)
  with_tokens input account_id (ok secrets) expires_at now t =
      insert_account_row (v.fails insert_account)
        (new_account input account_id secrets expires_at now t.accounts) t

  abbrev within_quota :
      SaveAccountInput
      → SavedToken
      → Option String
      → ℕ
      → SaverTables S
      → Result String SocialAccount × SaverTables S
  within_quota input token (some message) now t = (err message, t)
  within_quota input token none now t =
      with_tokens input (account_id_from_token input.account_id token)
        (encrypt_account_tokens token) (token_expires_at token now) now t

  abbrev validated :
      SaveAccountInput
      → Result String SavedToken
      → ℕ
      → SaverTables S
      → Result String SocialAccount × SaverTables S
  validated input (err message) now t = (err message, t)
  validated input (ok token) now t =
      within_quota input token (check_social_account_quota input.workspace_id t.accounts) now t

  -- `SaveAccountFromInput`, with one reading of the clock.
  unfoldable pub save_account_from_input :
      SaveAccountInput → ℕ → SaverTables S → Result String SocialAccount × SaverTables S
  save_account_from_input input now t = validated input (validate_save_account_input input t) now t
