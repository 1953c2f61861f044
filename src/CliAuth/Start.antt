-- ===== src/CliAuth/Start.antt =====
-- backend/internal/services/cli_auth/service.go: StartSession. The random bytes, the new ids and the
-- encoded device code are inputs.
use openpostfork.Prelude.{
  ℕ, suc, ◌+◌, ◌-◌, ◌/◌, ◌%◌, String, Bool, ◌||◌, Option, none, some, List, [], ◌∷◌, ◌==◌, leb, eqb,
  if◌then◌else◌, Result, ok, err,
}
use Prim.Native.String.{char_at, len}
use Prim.Native.String.{[] as end, ◌∷◌ as push}
use openpostfork.Prelude.Clock.{second}
use openpostfork.Prelude.Int.{ℤ, pos, sub_ℕ}
use openpostfork.Prelude.Table.{find_where}
use openpostfork.Prelude.Text.{trim_space, to_lower, contains}
use openpostfork.CliAuth.{
  pending, Session, Store, CliError, failure, insert, Services, default_lifetime, default_interval,
  hash_code,
}

pub record StartInput : Type 0 where
  pub client_name : String
  pub client_version : String
  pub client_os : String
  pub requested_scopes : String

pub record StartedSession : Type 0 where
  pub model : Session
  pub device_code : String
  pub user_code : String
  pub expires_in : ℤ

abbrev pub user_code_alphabet : String
user_code_alphabet = "ABCDEFGHJKMNPQRSTVWXYZ23456789"

-- The letters of `generateUserCode` for the bytes, with the dash before the fifth one.
letters : ℕ → List ℕ → String
letters i [] = end
letters i (b ∷ bs) =
    let rest =
      push (char_at user_code_alphabet (b % len user_code_alphabet)) (letters (suc i) bs) in
    if eqb i 4 then push "-" rest else rest

-- `generateUserCode` of its eight random bytes.
unfoldable pub generate_user_code : List ℕ → String
unfolding letters
generate_user_code bytes = letters 0 bytes

-- `int(d.Seconds())` of the time until the end.
abbrev pub seconds_until : ℕ → ℕ → ℤ
seconds_until expires_at now =
    if leb now expires_at
    then pos ((expires_at - now) / second)
    else sub_ℕ 0 ((now - expires_at) / second)

abbrev or_name : String → String → String
or_name text other = if text == "" then other else text

-- The unique columns of the row that is there agree with one of the new row.
abbrev pub clashes : Session → Session → Bool
clashes s r =
    r.id == s.id || r.device_code_hash == s.device_code_hash || r.user_code_hash == s.user_code_hash

-- One try of the loop: its new id, and its random bytes or the error of the random source.
abbrev pub Draw : Type 0
Draw = String × Result String (List ℕ)

-- What an insertion comes to.
pub data Insertion : Type 0 where
  inserted taken : Insertion
  broken : String → Insertion

module _ {T : Type 0} (v : Services T) where
  abbrev pub new_session : StartInput → String → String → String → ℕ → Session
  new_session input device user id now = record {
    id = id;
    user_id = "";
    device_code_hash = hash_code v device;
    user_code_hash = hash_code v user;
    client_name = or_name (trim_space input.client_name) "OpenPost CLI";
    client_version = trim_space input.client_version;
    client_os = trim_space input.client_os;
    requested_scopes = or_name (trim_space input.requested_scopes) v.default_scope;
    status = pending;
    interval_seconds = default_interval;
    expires_at = now + default_lifetime;
    last_polled_at = 0;
    approved_at = 0;
    denied_at = 0;
    created_at = now;
  }

  -- A row that is not unique, and a driver's error that says "unique", ask for another code.
  abbrev pub insertion : Option String → Option Session → Insertion
  insertion (some message) clash =
      if contains (to_lower message) "unique" then taken else broken message
  insertion none (some clash) = taken
  insertion none none = inserted

  abbrev pub started : Session → String → String → ℕ → StartedSession
  started s device user later = record {
    model = s;
    device_code = device;
    user_code = user;
    expires_in = seconds_until s.expires_at later;
  }

  abbrev pub after_insertion :
      Insertion
      → StartedSession
      → Store T
      → Result CliError StartedSession × Store T
      → Result CliError StartedSession × Store T
  after_insertion inserted s st next = (ok s, record st { sessions = s.model ∷ st.sessions })
  after_insertion taken s st next = next
  after_insertion (broken message) s st next = (err (failure message), st)

  abbrev pub insert_of : Session → Store T → Insertion
  insert_of s st = insertion (v.fails insert) (find_where (clashes s) st.sessions)

  -- The loop over the tries.
  unfoldable pub try_codes :
      StartInput → String → List Draw → ℕ → ℕ → Store T → Result CliError StartedSession × Store T
  try_codes input device [] now later st =
      (err (failure "failed to allocate cli auth user code"), st)
  try_codes input device ((id, err message) ∷ draws) now later st = (err (failure message), st)
  try_codes input device ((id, ok bytes) ∷ draws) now later st =
      let next = try_codes input device draws now later st in
      let user = generate_user_code bytes in
      let s = new_session input device user id now in
      after_insertion (insert_of s st) (started s device user later) st next

  -- `StartSession`, with the device code or the error of its generation, and eight draws.
  unfoldable pub start_session :
      StartInput
      → Result String String
      → List Draw
      → ℕ
      → ℕ
      → Store T
      → Result CliError StartedSession × Store T
  start_session input (err message) draws now later st = (err (failure message), st)
  start_session input (ok device) draws now later st = try_codes input device draws now later st
