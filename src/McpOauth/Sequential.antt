-- ===== src/McpOauth/Sequential.antt =====
-- An exchange that nothing comes between, as the three steps of its request in a row.
use openpostfork.Prelude.{ℕ, String, ◌≡◌, refl, ◌⊎◌, inl, Option, none, some, List, Result, ok, err}
use openpostfork.ApiTokens.{TokenError, Tables}
use openpostfork.McpOauth.{OauthError, TokenRequest, TokenResult, OauthCode, OauthServices}
use openpostfork.McpOauth.Exchange.{
  check_request, consume_code, after_consume, after_check, exchange_code,
}
use openpostfork.McpOauth.Interleaving.{
  Phase, waiting, checked, consumed, issued, refused, after_request, after_update, advance,
}

-- What a request that has come to its end answers.
abbrev outcome : Phase → Option (Result (OauthError ⊎ TokenError) TokenResult)
outcome (waiting input secret) = none
outcome (checked c secret) = none
outcome (consumed c secret at) = none
outcome (issued c answer) = some answer
outcome (refused e) = some (err (inl e))

-- The answer and the tables after an exchange.
abbrev Ended : Type 0
Ended = Option (Result (OauthError ⊎ TokenError) TokenResult) × List OauthCode × Tables

abbrev seen : Phase × List OauthCode × Tables → Ended
seen (p, rows, t) = (outcome p, rows, t)

abbrev returned : Result (OauthError ⊎ TokenError) TokenResult × List OauthCode × Tables → Ended
returned (answer, rows, t) = (some answer, rows, t)

module _ (v : OauthServices) where
  abbrev next : ℕ → Phase × List OauthCode × Tables → Phase × List OauthCode × Tables
  next now (p, rows, t) = advance v now p rows t

  last_step :
      (c : OauthCode) (secret : Result String String) (now later : ℕ)
      (r : Option OauthError × List OauthCode) (t : Tables)
      → seen (next later (after_update c secret now r t))
        ≡ returned (after_consume v c secret now r t)
  last_step c secret now later (some e, rows) t = refl
  last_step c secret now later (none, rows) t = refl

  last_steps :
      (r : Result OauthError OauthCode) (secret : Result String String) (now later : ℕ)
      (rows : List OauthCode) (t : Tables)
      → seen (next later (next now (after_request r secret, rows, t)))
        ≡ returned (after_check v r secret now rows t)
  last_steps (err e) secret now later rows t = refl
  last_steps (ok c) secret now later rows t =
      last_step c secret now later (consume_code v c.id now rows) t

  -- Three steps of a request in a row answer as ExchangeCode does, and leave the same codes and
  -- tokens: the interleaved requests are the calls of the code.
  advance-exchange_code :
      (input : TokenRequest) (secret : Result String String) (checked_at now later : ℕ)
      (rows : List OauthCode) (t : Tables)
      → seen (next later (next now (advance v checked_at (waiting input secret) rows t)))
        ≡ returned (exchange_code v input secret checked_at now rows t)
  unfolding exchange_code
  advance-exchange_code input secret checked_at now later rows t =
      last_steps (check_request v input checked_at rows) secret now later rows t
