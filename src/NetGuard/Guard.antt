-- ===== src/NetGuard/Guard.antt =====
-- backend/internal/netguard/netguard.go: ValidateURL, resolvePublicHost and the dialer of
-- NewTransport.
use openpostfork.Prelude.{
  ℕ, String, ◌<>◌, Bool, true, false, not, ◌&&◌, ◌||◌, Option, none, some, List, [], ◌∷◌, ◌==◌,
  if◌then◌else◌, Result, ok, err,
}
use openpostfork.NetGuard.Address.{is_public_address}

-- `URLPolicy`, without its resolver.
pub record UrlPolicy : Type 0 where
  pub label : String
  pub allowed_schemes : List String
  pub allow_custom_ports : Bool

-- What the code reads of a `url.URL`.
pub record RemoteUrl : Type 0 where
  pub scheme : String
  pub hostname : String
  pub port : String

-- `label`.
unfoldable pub label_of : UrlPolicy → String
label_of p = if p.label == "" then "url" else p.label

-- `defaultPort`.
unfoldable pub default_port : String → String
default_port scheme = if scheme == "http" then "80" else if scheme == "https" then "443" else ""

abbrev listed : String → List String → String
listed first [] = ", or " <> first
listed first (s ∷ rest) = ", " <> (first <> listed s rest)

-- `formatSchemes`.
unfoldable pub format_schemes : List String → String
format_schemes [] = "a supported scheme"
format_schemes (a ∷ []) = a
format_schemes (a ∷ b ∷ []) = a <> (" or " <> b)
format_schemes (a ∷ b ∷ c ∷ rest) = a <> (listed b (c ∷ rest))

abbrev has_scheme : String → List String → Bool
has_scheme s [] = false
has_scheme s (x ∷ xs) = x == s || has_scheme s xs

abbrev pub all_public : List (List ℕ) → Bool
all_public [] = true
all_public (ip ∷ ips) = is_public_address ip && all_public ips

-- What follows the try of an address.
abbrev pub tried :
    List ℕ → Option String → List (List ℕ) × Option String → List (List ℕ) × Option String
tried ip none rest = (ip ∷ [], none)
tried ip (some message) (ips, last) = (ip ∷ ips, last)

-- The addresses of a name, or the error of the resolver.
module _ (look_up : String → Result String (List (List ℕ))) where
  abbrev pub checked_ips : UrlPolicy → Result String (List (List ℕ)) → Result String (List (List ℕ))
  checked_ips p (err message) = err ("failed to resolve " <> (label_of p <> " host"))
  checked_ips p (ok []) = err (label_of p <> " host did not resolve")
  checked_ips p (ok (ip ∷ ips)) =
      if all_public (ip ∷ ips)
      then ok (ip ∷ ips)
      else err (label_of p <> " host resolves to a private or local address")

  -- `resolvePublicHost`.
  unfoldable pub resolve_public_host : String → UrlPolicy → Result String (List (List ℕ))
  resolve_public_host host p = checked_ips p (look_up host)

  abbrev error_of : Result String (List (List ℕ)) → Option String
  error_of (err message) = some message
  error_of (ok ips) = none

  -- `ValidateURL`: the error; `none` stands for a nil URL.
  unfoldable pub validate_url : Option RemoteUrl → UrlPolicy → Option String
  validate_url none p = some (label_of p <> " must be absolute")
  validate_url (some u) p =
      if u.hostname == ""
      then some (label_of p <> " must be absolute")
      else if not (has_scheme u.scheme p.allowed_schemes)
      then some (label_of p <> (" scheme must be " <> format_schemes p.allowed_schemes))
      else if not p.allow_custom_ports
          && not (u.port == "")
          && not (u.port == default_port u.scheme)
      then some (label_of p <> " cannot include a custom port")
      else error_of (resolve_public_host u.hostname p)

  -- The dialer of `NewTransport` on an address that is split (net.SplitHostPort), with the connections to the addresses at a port: the addresses
  -- that were tried, in order, and the error where none was reached.
  module _ (connect : List ℕ → String → Option String) where
    abbrev pub dial_each :
        UrlPolicy → String → List (List ℕ) → Option String → List (List ℕ) × Option String
    dial_each p port [] (some message) = ([], some message)
    dial_each p port [] none = ([], some (label_of p <> " host did not resolve"))
    dial_each p port (ip ∷ ips) last =
        let rest = dial_each p port ips (connect ip port) in tried ip (connect ip port) rest

    abbrev pub dial_resolved :
        UrlPolicy → String → Result String (List (List ℕ)) → List (List ℕ) × Option String
    dial_resolved p port (err message) = ([], some message)
    dial_resolved p port (ok ips) = dial_each p port ips none

    unfoldable pub dial_context :
        Result String (String × String) → UrlPolicy → List (List ℕ) × Option String
    dial_context (err message) p = ([], some message)
    dial_context (ok (host, port)) p = dial_resolved p port (resolve_public_host host p)
