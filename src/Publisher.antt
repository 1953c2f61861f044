-- ===== src/Publisher.antt =====
-- backend/internal/services/publisher/publisher.go with the rows of
-- backend/internal/models/models.go: the tables that the publisher works on, the services that it
-- calls, and the small steps that every part of it takes.
pub mod Media
pub mod Destination
pub mod Single
pub mod Thread
pub mod Dispatch
pub mod Depth
pub mod Quota
pub mod Marks
pub mod Finalize
pub mod Remaining
pub mod Agreement
pub mod Chain
pub mod Handed
mod Tests
use openpostfork.Prelude.{
  ℕ, zero, suc, ◌+◌, ◌-◌, ◌*◌, ◌/◌, ◌%◌, ◌^◌, ◌≤◌, ◌<◌, min, max, String, ◌<>◌, ◌≡◌, refl, sym, ap,
  ◌∙◌, subst, fun_ext, ◌≢◌, ◌↔◌, ◌⊎◌, inl, inr, Bool, true, false, not, ◌&&◌, ◌||◌, Option, none,
  some, List, [], ◌∷◌, ◌++◌, map, arith, ◌==◌, eq_iff, eq_refl, ltb, leb, eqb, if◌then◌else◌,
  leb→le, le→leb, leb→lt, Bool-cases, Option-cases, ==_of_ne, length, All, length-append, All-map,
  Result, ok, err, or_fail, Result-cases,
}
use openpostfork.Prelude.Int.{ℤ, pos}
use openpostfork.Prelude.Table.{find_where, update_where, select_where, count_where}
use openpostfork.Prelude.Text.{to_lower, contains}
use openpostfork.Entitlements.{
  Request, Answer, limit_published_posts_monthly, limit_provider_write_calls_monthly,
}
use openpostfork.Usage.{UsageCounter, Driver, current_monthly, increment_monthly}

pub data PostStatus : Type 0 where
  draft scheduled publishing published failed : PostStatus

pub data DestinationStatus : Type 0 where
  pending success failed : DestinationStatus

pub record Post : Type 0 where
  pub id : String
  pub workspace_id : String
  pub content : String
  pub parent_post_id : String
  pub thread_sequence : ℕ
  pub status : PostStatus
  pub published_at : ℕ

pub record PostDestination : Type 0 where
  pub id : String
  pub post_id : String
  pub social_account_id : String
  pub external_id : String
  pub status : DestinationStatus
  pub error_message : String

pub record SocialAccount : Type 0 where
  pub id : String
  pub platform : String
  pub instance_url : String
  pub account_id : String

pub record PostVariant : Type 0 where
  pub post_id : String
  pub social_account_id : String
  pub content : String
  pub media_ids : String  -- a JSON list
  pub is_unsynced : Bool

pub record MediaAttachment : Type 0 where
  pub id : String
  pub file_path : String
  pub mime_type : String
  pub size : ℕ
  pub original_filename : String
  pub alt_text : String

pub record PostMedia : Type 0 where
  pub post_id : String
  pub media_id : String
  pub display_order : ℕ

pub record ProviderMediaState : Type 0 where
  pub post_id : String
  pub social_account_id : String
  pub media_id : String
  pub platform : String
  pub platform_media_id : String
  pub is_ready : Bool  -- the status is "ready" or "failed"
  pub error_message : String

-- The tables of the publisher, and the state of the services behind the interfaces.
pub record Store (S : Type 0) : Type 0 where
  pub posts : List Post
  pub destinations : List PostDestination
  pub accounts : List SocialAccount
  pub variants : List PostVariant
  pub media : List MediaAttachment
  pub post_media : List PostMedia
  pub media_states : List ProviderMediaState
  pub counters : List UsageCounter
  pub services : S

-- The statements of the publisher, by the row that they are about.
pub data Statement : Type 0 where
  load_post mark_publishing load_thread load_child : String → Statement
  load_destinations count_destinations count_failed mark_post : String → Statement
  mark_destination save_external_id load_account variant_media post_media_of : String → Statement
  load_variant_of load_parent load_parent_destination : String → String → Statement
  load_media_state save_media_state : String → String → String → Statement
  read_counter write_counter : String → Statement

pub record MediaItem : Type 0 where
  pub id : String
  pub mime_type : String
  pub size : ℕ
  pub original_filename : String

-- `platform.PublishRequest`.
pub record PublishRequest : Type 0 where
  pub content : String
  pub platform_media_ids : List String
  pub media_alt_texts : List String
  pub media : List MediaItem
  pub reply_to_id : String

-- `platform.UploadMediaRequest`.
pub record UploadRequest : Type 0 where
  pub mime_type : String
  pub filename : String
  pub title : String
  pub description : String

-- What a call of a service answers, and the services after it.
abbrev pub Reply : Type 0 → Type 0
Reply S = Result String String × S

-- The publisher's fields and the code behind them: the token manager, the provider adapters (by
-- provider key), the entitlement service, the media storage and signer, `encoding/json`, the
-- clock, and the database driver (`fails` gives the error text of a statement that fails).
pub record Services (S : Type 0) : Type 0 where
  pub now : ℕ
  pub month_start : ℕ → ℕ
  pub fails : Statement → Option String
  pub disable_linkedin_thread_replies : Bool
  pub has_provider : String → Bool
  pub get_valid_access_token : String → S → Reply S
  pub force_refresh_access_token : String → S → Reply S
  pub publish : String → String → String → PublishRequest → S → Reply S
  pub takes_metadata : String → Bool
  pub upload_media_with_metadata : String → String → String → UploadRequest → String → S → Reply S
  pub upload_media : String → String → String → String → String → S → Reply S
  pub quota : Request → Answer
  pub has_storage : Bool
  pub open_file : String → Option String  -- the error, if there is one
  pub base_name : String → String  -- filepath.Base
  pub public_media_url : String
  pub signed_query : String → String
  pub unmarshal_media_ids : String → Option (List String)
  pub unmarshal_post_id : String → Result String String

-- Go's errors: the sentinel value, or a text.
pub data PublishError : Type 0 where
  linkedin_thread_reply_skipped : PublishError
  failure : String → PublishError

abbrev pub error_text : PublishError → String
error_text linkedin_thread_reply_skipped = "linkedin thread reply skipped"
error_text (failure message) = message

-- The monad of the code that may return early with an error, over the tables.
abbrev pub M : Type 0 → Type 0 → Type 0
M S A = Store S → Result PublishError A × Store S

infixl 5 ◌>>=◌ ◌>>◌
unfoldable pub ◌>>=◌ : {S A B : Type 0} → M S A → (A → M S B) → M S B
◌>>=◌ m f s = let (r, s') = m s in elim r [ ok a ↦ f a s' | err e ↦ (err e, s') ]

abbrev pub ◌>>◌ : {S B : Type 0} → M S (Unit {0}) → M S B → M S B
m >> k = m >>= λ _. k

unfoldable pub pure : {S A : Type 0} → A → M S A
pure a s = (ok a, s)

unfoldable pub fail : {S A : Type 0} → String → M S A
fail message s = (err (failure message), s)

-- A query whose error is wrapped in a text.
unfoldable pub query : {S A : Type 0} → Option String → String → (Store S → A) → M S A
query none context read s = (ok (read s), s)
query (some message) context read s = (err (failure (context <> message)), s)

-- A call of a service.
unfoldable pub call : {S : Type 0} → (String → PublishError) → (S → Reply S) → M S String
call wrap f s =
    let (r, services) = f s.services in
    elim r [
      | ok a ↦ (ok a, record s { services = services })
      | err message ↦ (err (wrap message), record s { services = services })
    ]

abbrev pub destination_of : String → PostDestination → Bool
destination_of post_id d = d.post_id == post_id

abbrev pub is_open : DestinationStatus → Bool
is_open pending = true
is_open success = false
is_open failed = true

abbrev pub is_failed : DestinationStatus → Bool
is_failed failed = true
is_failed _ = false

abbrev pub by_destination_id : String → PostDestination → Bool
by_destination_id key d = d.id == key

abbrev pub by_post_id : String → Post → Bool
by_post_id key p = p.id == key

-- `isExpiredTokenError`.
unfoldable pub is_expired_token_error : String → Bool
is_expired_token_error message =
    let msg = to_lower message in
    contains msg "expiredtoken"
    || contains msg "token has expired"
    || (contains msg "expired" && contains msg "token")

module _ {S : Type 0} (v : Services S) where
  unfoldable pub quota_request : String → String → ℤ → Request
  quota_request workspace_id limit current = record {
    organization_id = "";
    workspace_id = workspace_id;
    user_id = "";
    limit = limit;
    current = current;
    amount = pos 1;
  }

  -- The decision as an error of the publisher.
  abbrev pub decided : String → Answer → Option String
  decided limit (decision, some message) = some ("checking quota for " <> limit <> ": " <> message)
  decided limit (decision, none) =
      if decision.allowed
      then none
      else if decision.reason == ""
      then some ("quota exceeded: " <> limit)
      else some ("quota exceeded: " <> decision.reason)

  -- `checkMonthlyQuota`: the error, if there is one.
  unfoldable pub check_monthly_quota : String → String → Store S → Option String
  unfolding quota_request
  check_monthly_quota workspace_id limit s =
      if workspace_id == ""
      then none
      else elim (current_monthly v.month_start (v.fails (read_counter workspace_id)) workspace_id
          limit v.now s.counters) [
            | err message ↦ some ("loading usage for " <> limit <> ": " <> message)
            | ok current ↦ decided limit (v.quota (quota_request workspace_id limit current))
          ]

  -- `recordUsage`: an error is logged only.
  unfoldable pub record_usage : String → String → Store S → Store S
  record_usage workspace_id metric s = if workspace_id == "" then s else record s {
    counters =
        (increment_monthly v.month_start
          (record {
            read_failure = v.fails (read_counter workspace_id);
            write_failure = v.fails (write_counter workspace_id);
          })
          workspace_id metric (pos 1) v.now v.now s.counters).1;
  }

  -- An `UPDATE` of the destinations whose failure is logged only.
  unfoldable pub update_destination :
      Statement → String → (PostDestination → PostDestination) → Store S → Store S
  update_destination statement key set s = elim (v.fails statement) [
    | some message ↦ s
    | none ↦ record s { destinations = update_where (by_destination_id key) set s.destinations }
  ]

  unfoldable pub update_post : Statement → String → (Post → Post) → Store S → Store S
  update_post statement key set s = elim (v.fails statement) [
    | some message ↦ s
    | none ↦ record s { posts = update_where (by_post_id key) set s.posts }
  ]
