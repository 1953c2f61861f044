-- ===== src/AccountSaver/Tests.antt =====
-- Accounts that are saved at concrete tables.
use openpostfork.Prelude.Text.{decimal}
use openpostfork.Prelude.Text.{trim_space}
use openpostfork.Prelude.Text.{to_lower}
use openpostfork.Prelude.{◌≡◌, refl, true, none, some, [], ◌∷◌, arith, ok, err}
use openpostfork.Prelude.Int.{pos}
use openpostfork.Prelude.Table.{find_where}
use openpostfork.Entitlements.{self_hosted, check}
use openpostfork.TokenManager.{TokenServices}
use openpostfork.AccountSaver.{
  SaveAccountInput, SaverServices, SaverTables, save_account_from_input,
}
use openpostfork.AccountSaver.Slug.{
  SocialAccount, default_slug, has_slug, search_slug, base_of, unique_slug,
}
use openpostfork.AccountSaver.Free.{unique_slug-free}
use openpostfork.AccountSaver.Saved.{IsAdded, save_account_from_input-IsAdded}

abbrev account : SocialAccount
account = record {
  id = "a1";
  workspace_id = "w1";
  slug = "x-ann";
  platform = "x";
  account_id = "17";
  account_username = "ann";
  account_avatar_url = "";
  instance_url = "";
  access_token_enc = "";
  refresh_token_enc = "";
  token_expires_at = 0;
  is_active = true;
  created_at = 1;
}

default_slug_example : default_slug "X" "Ann  B." "17" "" ≡ "x-ann-b"
unfolding default_slug to_lower trim_space
default_slug_example = refl

second_slug : unique_slug none "w1" (account ∷ []) "x-ann" ≡ "x-ann-2"
unfolding unique_slug search_slug decimal
second_slug = refl

unique_slug-free_example :
    (search_slug 2 "w1" (account ∷ []) (base_of "x-ann") 0
      ≡ some (unique_slug none "w1" (account ∷ []) "x-ann"))
    × (find_where (has_slug "w1" (unique_slug none "w1" (account ∷ []) "x-ann")) (account ∷ [])
        ≡ none)
unique_slug-free_example = unique_slug-free "w1" "x-ann" (account ∷ []) (omega arith)

abbrev input : SaveAccountInput
input = record {
  user_id = "u1";
  platform_name = "x";
  workspace_id = "w1";
  account_id = "18";
  account_username = "Ann";
  account_avatar_url = "";
  instance_url = "";
  token = some (record { access_token = "t"; refresh_token = ""; expires_in = pos 0; extra = [] });
}

abbrev toy_tokens : TokenServices (Unit {0})
toy_tokens = record {
  now = 5;
  fails = λ s. none;
  decrypt = λ s. ok s;
  encrypt = λ s. ok s;
  capability = λ key. none;
  refresh = λ key r s. (err "offline", s);
  marshal_payload = λ s. ok s;
  new_id = λ jobs. "j1";
}

abbrev toy : SaverServices (Unit {0})
toy = record {
  encrypt = λ s. ok s;
  check = check self_hosted;
  new_id = λ rows. "a2";
  fails = λ s. none;
  tokens = toy_tokens;
}

abbrev tables : SaverTables (Unit {0})
tables = record {
  members = record { workspace_id = "w1"; user_id = "u1" } ∷ [];
  accounts = account ∷ [];
  jobs = record { accounts = []; jobs = []; networks = tt };
}

save_account_from_input-IsAdded_example :
    IsAdded toy tables (save_account_from_input toy input 9 tables)
save_account_from_input-IsAdded_example =
    save_account_from_input-IsAdded toy input 9 tables refl (omega arith)
