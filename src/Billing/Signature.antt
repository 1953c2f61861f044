-- ===== src/Billing/Signature.antt =====
-- backend/internal/services/billing/service.go: the signature of a webhook, after the Standard
-- Webhooks scheme, and what an accepted webhook carries.
use openpostfork.Prelude.{
  ℕ, ◌+◌, ◌*◌, String, ◌<>◌, ◌≡◌, ◌⊎◌, Bool, false, not, ◌&&◌, ◌||◌, Option, none, some, List, [],
  ◌∷◌, ◌==◌, leb, if◌then◌else◌,
}
use Prim.Native.String.{len, slice}
use text.Mathlib.Text.{starts_with}
use openpostfork.Prelude.Clock.{second, minute}
use openpostfork.Prelude.Int.{ℤ, pos_part, neg_part}
use openpostfork.Prelude.Text.{trim_space}
use openpostfork.Prelude.Words.{fields, parse_int}
use openpostfork.Billing.{BillingServices, WebhookHeaders}

-- `time.Unix(0, 0)`, from Go's zero time.
abbrev pub unix_epoch : ℕ
unix_epoch = 62_135_596_800 * second

-- `strings.TrimPrefix`.
abbrev pub trim_prefix : String → String → String
trim_prefix s prefix = if starts_with s prefix then slice s (len prefix) (len s) else s

-- The signed time and the clock are at most five minutes apart.
abbrev pub in_tolerance : ℕ → ℤ → Bool
in_tolerance now at =
    leb (now + neg_part at * second) (unix_epoch + pos_part at * second + 5 * minute)
    && leb (unix_epoch + pos_part at * second) (now + neg_part at * second + 5 * minute)

module _ {F : Type 0} (v : BillingServices F) where
  abbrev or_raw : String → Option String → String
  or_raw s none = s
  or_raw s (some decoded) = decoded

  -- `decodeWebhookSecret`.
  unfoldable pub decode_webhook_secret : String → String
  decode_webhook_secret secret =
      let s = trim_space (trim_prefix secret "whsec_") in or_raw s (v.base64_decode s)

  -- The `expected` of a body and its headers.
  abbrev pub expected_mac : String → WebhookHeaders → String
  expected_mac body h =
      v.hmac (decode_webhook_secret v.webhook_secret)
        (h.id <> ("." <> (h.timestamp <> ("." <> body))))

  abbrev pub is_mac : Option String → String → Bool
  is_mac none expected = false
  is_mac (some got) expected = got == expected

  -- The loop over the candidates.
  abbrev pub any_candidate : String → List String → Bool
  any_candidate expected [] = false
  any_candidate expected (c ∷ cs) =
      is_mac (v.base64_decode (trim_prefix c "v1,")) expected || any_candidate expected cs

  abbrev pub checked_timestamp : Option ℤ → String → WebhookHeaders → ℕ → Option String
  checked_timestamp none body h now = some "invalid webhook timestamp"
  checked_timestamp (some at) body h now =
      if not (in_tolerance now at)
      then some "webhook timestamp outside tolerance"
      else if any_candidate (expected_mac body h) (fields h.signature)
      then none
      else some "invalid webhook signature"

  -- `verifyStandardWebhook`: the error.
  unfoldable pub verify_standard_webhook : String → WebhookHeaders → ℕ → Option String
  verify_standard_webhook body h now =
      if v.webhook_secret == ""
      then some "polar webhook secret is not configured"
      else if h.id == "" || h.timestamp == "" || h.signature == ""
      then some "missing webhook signature headers"
      else checked_timestamp (parse_int h.timestamp) body h now

  -- One of the candidates decodes as the code.
  abbrev pub Carries : String → List String → Type 0
  Carries expected [] = Unit
  Carries expected (c ∷ cs) =
      (v.base64_decode (trim_prefix c "v1,") ≡ some expected) ⊎ Carries expected cs
