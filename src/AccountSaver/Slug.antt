-- ===== src/AccountSaver/Slug.antt =====
-- backend/internal/services/account_saver/account_saver.go: the slugs of the accounts.
use openpostfork.Prelude.{
  ℕ, zero, suc, ◌+◌, String, ◌<>◌, Bool, true, false, ◌&&◌, ◌||◌, Option, none, some, List, ◌==◌,
  ltb, leb, eqb, if◌then◌else◌, length,
}
use Prim.Native.Char.{code}
use Prim.Native.String.{len, slice}
use Prim.Native.String.{[] as end, ◌∷◌ as push}
use openpostfork.Prelude.Table.{find_where}
use openpostfork.Prelude.Text.{trim_space, to_lower, decimal}

pub record SocialAccount : Type 0 where
  pub id : String
  pub workspace_id : String
  pub slug : String
  pub platform : String
  pub account_id : String
  pub account_username : String
  pub account_avatar_url : String
  pub instance_url : String
  pub access_token_enc : String
  pub refresh_token_enc : String
  pub token_expires_at : ℕ
  pub is_active : Bool
  pub created_at : ℕ

abbrev is_safe : ℕ → Bool
is_safe c = (leb b'a' c && leb c b'z') || (leb b'0' c && leb c b'9')

-- `slugUnsafeChars.ReplaceAllString(s, "-")`: each longest run of other characters is one dash. The
-- flag says that the character before was one of them.
dashed : Bool → String → String
dashed after end = end
dashed after (push c s) =
    let safe = dashed false s in
    let unsafe = dashed true s in
    if is_safe (code c) then push c safe else if after then unsafe else push "-" unsafe

-- `strings.Trim(s, "-")`.
dashes_left : String → String
dashes_left end = end
dashes_left (push c s) = let rest = dashes_left s in if eqb (code c) b'-' then rest else push c s

dashes_right : String → String
dashes_right end = end
dashes_right (push c s) =
    let rest = dashes_right s in if eqb (code c) b'-' && rest == "" then "" else push c rest

abbrev trim_dashes : String → String
trim_dashes s = dashes_right (dashes_left s)

abbrev or_text : String → String → String
or_text a b = if a == "" then b else a

-- `defaultSlug`.
unfoldable pub default_slug : String → String → String → String → String
unfolding dashed dashes_left dashes_right
default_slug platform_name account_username account_id instance_url =
    let label =
      or_text (trim_space account_username)
        (or_text (trim_space account_id) (trim_space instance_url)) in
    let base =
      trim_dashes (dashed false (trim_dashes (to_lower (platform_name <> ("-" <> label))))) in
    let short = if ltb 63 (len base) then trim_dashes (slice base 0 63) else base in
    if short == "" then to_lower platform_name else short

-- The candidates of `uniqueSlug`: the base, base-2, base-3, and so on.
abbrev pub candidate : String → ℕ → String
candidate base zero = base
candidate base (suc i) = base <> ("-" <> decimal (i + 2))

abbrev pub has_slug : String → String → SocialAccount → Bool
has_slug workspace_id slug a = a.workspace_id == workspace_id && a.slug == slug && a.is_active

-- The candidate, or what follows where an account has it.
abbrev pub unless_found : Option SocialAccount → String → Option String → Option String
unless_found none slug rest = some slug
unless_found (some a) slug rest = rest

-- The loop of `uniqueSlug` from the candidate i, where the query does not fail.
unfoldable pub search_slug : ℕ → String → List SocialAccount → String → ℕ → Option String
search_slug zero workspace_id accounts base i = none
search_slug (suc fuel) workspace_id accounts base i =
    let rest = search_slug fuel workspace_id accounts base (suc i) in
    unless_found (find_where (has_slug workspace_id (candidate base i)) accounts) (candidate base i)
      rest

abbrev pub base_of : String → String
base_of base = if base == "" then "account" else base

abbrev pub found_slug : String → Option String → String
found_slug base none = base
found_slug base (some slug) = slug

-- `uniqueSlug`; a query that fails ends the loop at the base. The fuel is one more than the number
-- of accounts.
unfoldable pub unique_slug : Option String → String → List SocialAccount → String → String
unique_slug (some message) workspace_id accounts base = base_of base
unique_slug none workspace_id accounts base =
    found_slug (base_of base)
      (search_slug (suc (length accounts)) workspace_id accounts (base_of base) 0)
