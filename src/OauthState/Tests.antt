-- ===== src/OauthState/Tests.antt =====
-- The theorems of the states at concrete rows.
use openpostfork.Prelude.{◌+◌, ◌≡◌, refl, none, [], ◌∷◌, ltb, if◌then◌else◌, ok, err}
use openpostfork.OauthState.{
  AuthChallenge, Payload, invalid_state, expired_state, StateServices, create, consume,
}
use openpostfork.OauthState.Once.{consume-consume, create-consume}

abbrev flow : Payload
flow = record { user_id = "u1"; workspace_id = "w1"; platform = "x"; server_name = "" }

abbrev services : StateServices
services = record {
  ttl = 600;
  fails = λ st. none;
  marshal = λ p. ok p.user_id;
  unmarshal = λ raw. ok (record flow { user_id = raw });
  new_id = λ rows. "s1";
}

abbrev row : AuthChallenge
row = record {
  id = "s1";
  user_id = "u1";
  kind = "oauth_state";
  payload = "u1";
  expires_at = 700;
  created_at = 100;
}

consume-consume_example :
    (consume services "s1" 200 (consume services "s1" 100 (row ∷ [])).1).0 ≡ err invalid_state
consume-consume_example = consume-consume services "s1" 100 200 (row ∷ []) refl refl

create-consume_example :
    (consume services "s1" 300 (create services flow 100 []).1).0
    ≡ (if ltb (100 + 600) 300 then err expired_state else ok flow)
unfolding create
create-consume_example = create-consume services flow "u1" "s1" 100 300 [] refl refl refl refl refl
