-- ===== src/NetGuard/Tests.antt =====
-- Addresses at concrete numbers.
use openpostfork.NetGuard.Address.{is_global_unicast}
use openpostfork.NetGuard.Address.{unmap}
use openpostfork.NetGuard.Address.{contains}
use openpostfork.NetGuard.Address.{blocked_prefixes}
use openpostfork.NetGuard.Address.{addr_from_slice}
use openpostfork.Prelude.{
  ℕ, String, ◌≡◌, refl, true, false, not, Option, none, List, [], ◌∷◌, arith, All, Result, ok,
}
use openpostfork.NetGuard.Address.{is_public_address}
use openpostfork.NetGuard.Guard.{UrlPolicy, dial_context, format_schemes}
use openpostfork.NetGuard.Quads.{is_reserved, is_public_address-is_reserved}
use openpostfork.NetGuard.Public.{IsPublic, dial_context-IsPublic}

abbrev host_ip : List ℕ
host_ip = 93 ∷ 184 ∷ 216 ∷ 34 ∷ []

abbrev look_up : String → Result String (List (List ℕ))
look_up host = ok (host_ip ∷ [])

abbrev connect : List ℕ → String → Option String
connect ip port = none

abbrev policy : UrlPolicy
policy = record { label = ""; allowed_schemes = "https" ∷ []; allow_custom_ports = false }

is_public_address-is_reserved_example :
    (is_public_address (172 ∷ 20 ∷ 0 ∷ 1 ∷ []) ≡ not (is_reserved 172 20 0 1))
    × (is_public_address (0 ∷ 0 ∷ 0 ∷ 0 ∷ 0 ∷ 0 ∷ 0 ∷ 0 ∷ 0 ∷ 0 ∷ 255 ∷ 255 ∷ 172 ∷ 20 ∷ 0 ∷ 1 ∷ [])
        ≡ not (is_reserved 172 20 0 1))
is_public_address-is_reserved_example =
    is_public_address-is_reserved 172 20 0 1 (omega arith, omega arith, omega arith, omega arith)

-- 10.0.0.1 behind the NAT64 prefix 64:ff9b::/96.
nat64_is_public :
    is_public_address (0 ∷ 0x64 ∷ 0xff ∷ 0x9b ∷ 0 ∷ 0 ∷ 0 ∷ 0 ∷ 0 ∷ 0 ∷ 0 ∷ 0 ∷ 10 ∷ 0 ∷ 0 ∷ 1 ∷ [])
    ≡ true
unfolding is_public_address addr_from_slice blocked_prefixes contains unmap is_global_unicast
nat64_is_public = refl

listed_schemes : format_schemes ("http" ∷ "https" ∷ "ws" ∷ []) ≡ "http, https, or ws"
unfolding format_schemes
listed_schemes = refl

dial_context-IsPublic_example :
    All IsPublic (dial_context look_up connect (ok ("example.org", "443")) policy).0
dial_context-IsPublic_example =
    dial_context-IsPublic look_up connect (ok ("example.org", "443")) policy
