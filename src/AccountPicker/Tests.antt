-- ===== src/AccountPicker/Tests.antt =====
-- Selectors at concrete accounts.
use openpostfork.Prelude.Cut.{cut}
use openpostfork.Prelude.Text.{trim_space}
use openpostfork.AccountPicker.{account_matches}
use openpostfork.AccountPicker.{scan}
use openpostfork.AccountPicker.{resolve_from}
use openpostfork.Prelude.{String, ◌<>◌, ◌≡◌, refl, Bool, true, List, [], ◌∷◌, ◌==◌, ok}
use openpostfork.AccountPicker.{Account, resolve_one, resolve}
use openpostfork.Prelude.Table.{select_where}
use openpostfork.AccountPicker.Resolved.{Answers, is_unbeaten, resolve_one-Answers}

abbrev same_text : String → String → Bool
same_text a b = a == b

abbrev quoted : String → String
quoted s = "'" <> (s <> "'")

abbrev account : Account
account = record {
  id = "a1";
  platform = "x";
  account_id = "17";
  account_username = "ann";
  slug = "main";
  instance_url = "";
  is_active = true;
}

abbrev accounts : List Account
accounts = account ∷ record account { id = "a2"; account_username = "bob"; slug = "x" } ∷ []

-- The slug of the second account is stronger than the platform of the first one.
resolve_one-Answers_example :
    Answers
      (select_where (is_unbeaten same_text quoted "x" accounts) accounts)
      (resolve_one same_text quoted "w1" "x" accounts)
resolve_one-Answers_example = resolve_one-Answers same_text quoted "w1" "x" accounts

resolved_ids :
    resolve same_text quoted "w1" ("x" ∷ "x:@ann" ∷ "a2" ∷ []) accounts ≡ ok ("a2" ∷ "a1" ∷ [])
unfolding resolve resolve_from trim_space resolve_one scan account_matches cut
resolved_ids = refl
