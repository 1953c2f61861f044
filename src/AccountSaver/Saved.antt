-- ===== src/AccountSaver/Saved.antt =====
-- What a saved account leaves in the tables.
use openpostfork.Prelude.{
  ℕ, ◌+◌, ◌^◌, ◌<◌, String, ◌≡◌, refl, Option, none, some, ◌∷◌, length, Result, ok, err,
}
use openpostfork.Prelude.Table.{find_where}
use openpostfork.AccountSaver.{
  SavedToken, SaveAccountInput, select_slug, insert_account, SaverServices, SaverTables,
  account_id_from_token, token_expires_at, validate_save_account_input, check_social_account_quota,
  encrypt_account_tokens, new_account, insert_account_row, with_tokens, within_quota, validated,
  save_account_from_input,
}
use openpostfork.AccountSaver.Slug.{SocialAccount, default_slug, has_slug}
use openpostfork.AccountSaver.Free.{unique_slug-free}

module _ {S : Type 0} (v : SaverServices S) where
  -- The account is new in the table, and no active account of its workspace had its slug.
  abbrev pub IsAdded : SaverTables S → Result String SocialAccount × SaverTables S → Type 0
  IsAdded t (err message, t') = t'.accounts ≡ t.accounts
  IsAdded t (ok a, t') =
      (t'.accounts ≡ a ∷ t.accounts)
      × (find_where (has_slug a.workspace_id a.slug) t.accounts ≡ none)

  row-IsAdded :
      (o : Option String) (a : SocialAccount) (t : SaverTables S)
      → find_where (has_slug a.workspace_id a.slug) t.accounts ≡ none
      → IsAdded t (insert_account_row v o a t)
  row-IsAdded (some message) a t free = refl
  row-IsAdded none a t free = (refl, free)

  with_tokens-IsAdded :
      (input : SaveAccountInput) (account_id : String) (r : Result String (String × String))
      (expires_at now : ℕ) (t : SaverTables S)
      → v.fails select_slug ≡ none
      → length t.accounts + 2 < 10 ^ 20
      → IsAdded t (with_tokens v input account_id r expires_at now t)
  with_tokens-IsAdded input account_id (err message) expires_at now t quiet b = refl
  with_tokens-IsAdded input account_id (ok (access, refresh)) expires_at now t quiet b =
      row-IsAdded (v.fails insert_account)
        (new_account v input account_id (access, refresh) expires_at now t.accounts) t
        (rw quiet
          (unique_slug-free input.workspace_id
            (default_slug input.platform_name input.account_username account_id input.instance_url)
            t.accounts b).1)

  quota-IsAdded :
      (input : SaveAccountInput) (token : SavedToken) (o : Option String) (now : ℕ)
      (t : SaverTables S)
      → v.fails select_slug ≡ none
      → length t.accounts + 2 < 10 ^ 20
      → IsAdded t (within_quota v input token o now t)
  quota-IsAdded input token (some message) now t quiet b = refl
  quota-IsAdded input token none now t quiet b =
      with_tokens-IsAdded input (account_id_from_token input.account_id token)
        (encrypt_account_tokens v token) (token_expires_at token now) now t quiet b

  validated-IsAdded :
      (input : SaveAccountInput) (r : Result String SavedToken) (now : ℕ) (t : SaverTables S)
      → v.fails select_slug ≡ none
      → length t.accounts + 2 < 10 ^ 20
      → IsAdded t (validated v input r now t)
  validated-IsAdded input (err message) now t quiet b = refl
  validated-IsAdded input (ok token) now t quiet b =
      quota-IsAdded input token (check_social_account_quota v input.workspace_id t.accounts) now t
        quiet b

  -- A save that ends without an error adds one account, whose slug no active account of its
  -- workspace had; one that ends with an error leaves the accounts. (The query of the slugs does not
  -- fail, and there are fewer than 10^20 - 2 accounts.)
  pub save_account_from_input-IsAdded :
      (input : SaveAccountInput) (now : ℕ) (t : SaverTables S)
      → v.fails select_slug ≡ none
      → length t.accounts + 2 < 10 ^ 20
      → IsAdded t (save_account_from_input v input now t)
  unfolding save_account_from_input
  save_account_from_input-IsAdded input now t quiet b =
      validated-IsAdded input (validate_save_account_input v input t) now t quiet b
