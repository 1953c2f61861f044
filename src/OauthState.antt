-- ===== src/OauthState.antt =====
-- backend/internal/services/oauthstate/store.go with the row `AuthChallenge` of
-- backend/internal/models/models.go: the states of the OAuth flows. The JSON texts and the new ids are
-- an interface, and the clock is the argument `now` of each call.
pub mod Once
mod Tests
use openpostfork.Prelude.{
  ℕ, zero, suc, ◌+◌, ◌-◌, ◌*◌, ◌/◌, ◌%◌, ◌^◌, ◌≤◌, ◌<◌, min, max, String, ◌<>◌, ◌≡◌, refl, sym, ap,
  ◌∙◌, subst, fun_ext, ◌≢◌, ◌↔◌, ◌⊎◌, inl, inr, Bool, true, false, not, ◌&&◌, ◌||◌, Option, none,
  some, List, [], ◌∷◌, ◌++◌, map, arith, ◌==◌, eq_iff, eq_refl, ltb, leb, eqb, if◌then◌else◌,
  leb→le, le→leb, leb→lt, Bool-cases, Option-cases, ==_of_ne, length, All, length-append, All-map,
  Result, ok, err, ◌>>=◌, or_fail, Result-cases,
}
use openpostfork.Prelude.Clock.{minute}
use openpostfork.Prelude.Table.{find_where, delete_where}

pub record AuthChallenge : Type 0 where
  pub id : String
  pub user_id : String
  pub kind : String  -- the column `type`
  pub payload : String
  pub expires_at : ℕ
  pub created_at : ℕ

pub record Payload : Type 0 where
  pub user_id : String
  pub workspace_id : String
  pub platform : String
  pub server_name : String

pub data StateError : Type 0 where
  invalid_state expired_state : StateError
  failure : String → StateError

pub data ChallengeStatement : Type 0 where
  insert_challenge load_challenge delete_challenge : ChallengeStatement

pub record StateServices : Type 0 where
  pub ttl : ℕ
  pub fails : ChallengeStatement → Option String
  pub marshal : Payload → Result String String
  pub unmarshal : String → Result String Payload
  pub new_id : List AuthChallenge → String

abbrev pub challenge_type : String
challenge_type = "oauth_state"

abbrev pub default_ttl : ℕ
default_ttl = 10 * minute

abbrev pub is_challenge : String → AuthChallenge → Bool
is_challenge key c = c.id == key && c.kind == challenge_type

module _ (v : StateServices) where
  abbrev pub new_challenge : Payload → String → ℕ → List AuthChallenge → AuthChallenge
  new_challenge p raw now rows = record {
    id = v.new_id rows;
    user_id = p.user_id;
    kind = challenge_type;
    payload = raw;
    expires_at = now + v.ttl;
    created_at = now;
  }

  abbrev pub insert_row :
      Option String
      → Payload
      → String
      → ℕ
      → List AuthChallenge
      → Result String String × List AuthChallenge
  insert_row (some message) p raw now rows = (err message, rows)
  insert_row none p raw now rows = (ok (v.new_id rows), new_challenge p raw now rows ∷ rows)

  abbrev pub with_raw :
      Payload
      → Result String String
      → ℕ
      → List AuthChallenge
      → Result String String × List AuthChallenge
  with_raw p (err message) now rows = (err message, rows)
  with_raw p (ok raw) now rows = insert_row (v.fails insert_challenge) p raw now rows

  -- `Create`.
  unfoldable pub create :
      Payload → ℕ → List AuthChallenge → Result String String × List AuthChallenge
  create p now rows = with_raw p (v.marshal p) now rows

  abbrev pub parsed : Result String Payload → Result StateError Payload
  parsed (err message) = err (failure message)
  parsed (ok p) = ok p

  abbrev pub opened : AuthChallenge → ℕ → Result StateError Payload
  opened c now = if ltb c.expires_at now then err expired_state else parsed (v.unmarshal c.payload)

  abbrev pub removed :
      Option String
      → AuthChallenge
      → ℕ
      → List AuthChallenge
      → Result StateError Payload × List AuthChallenge
  removed (some message) c now rows = (err (failure message), rows)
  removed none c now rows = (opened c now, delete_where (is_challenge c.id) rows)

  abbrev pub found :
      Option AuthChallenge → ℕ → List AuthChallenge → Result StateError Payload × List AuthChallenge
  found none now rows = (err invalid_state, rows)
  found (some c) now rows = removed (v.fails delete_challenge) c now rows

  -- `Consume`.
  unfoldable pub consume :
      String → ℕ → List AuthChallenge → Result StateError Payload × List AuthChallenge
  consume state now rows = elim (v.fails load_challenge) [
    | some message ↦ (err (failure message), rows)
    | none ↦ found (find_where (is_challenge state) rows) now rows
  ]
