-- ===== src/Publisher/Destination.antt =====
-- backend/internal/services/publisher/publisher.go: `publishToDestination`, one post on its way to
-- one account.
use openpostfork.Prelude.{
  String, ◌<>◌, Bool, false, not, ◌&&◌, Option, none, some, List, [], ◌∷◌, ◌++◌, map, ◌==◌, ltb,
  leb, if◌then◌else◌, Result, ok, err,
}
use openpostfork.Prelude.Table.{find_where, select_where, delete_where}
use openpostfork.Entitlements.{limit_provider_write_calls_monthly}
use openpostfork.Publisher.{
  Post, PostDestination, SocialAccount, PostVariant, MediaAttachment, PostMedia, Store, Services,
  MediaItem, PublishRequest, M, ◌>>=◌, ◌>>◌, pure, fail, query, call, failure, error_text,
  linkedin_thread_reply_skipped, is_expired_token_error, check_monthly_quota, record_usage,
  load_account, load_variant_of, variant_media, post_media_of, load_parent, load_parent_destination,
  save_external_id, update_destination, by_post_id,
}
use openpostfork.Publisher.Media.{platform_media_id_for_destination}

-- The key of an adapter: Mastodon has one for each server.
unfoldable pub provider_key : SocialAccount → String
provider_key a = if a.platform == "mastodon" then "mastodon:" <> a.instance_url else a.platform

-- `WHERE id IN (…) ORDER BY CASE id WHEN … END`, with `buildOrderClause`: each row stands at the
-- first place of its id.
unfoldable pub in_order : List String → List MediaAttachment → List MediaAttachment
in_order [] rows = []
in_order (id ∷ ids) rows =
    select_where (λ m. m.id == id) rows ++ in_order ids (delete_where (λ m. m.id == id) rows)

-- `ORDER BY display_order`, stable.
unfoldable pub place : PostMedia → List PostMedia → List PostMedia
place x [] = x ∷ []
place x (y ∷ ys) = if leb x.display_order y.display_order then x ∷ y ∷ ys else y ∷ place x ys

unfoldable pub sort_media : List PostMedia → List PostMedia
sort_media [] = []
sort_media (x ∷ xs) = place x (sort_media xs)

unfoldable pub join_media : List PostMedia → List MediaAttachment → List MediaAttachment
join_media [] rows = []
join_media (x ∷ xs) rows = select_where (λ m. m.id == x.media_id) rows ++ join_media xs rows

-- The media of a post in their display order.
unfoldable pub media_of_post : String → List PostMedia → List MediaAttachment → List MediaAttachment
unfolding place sort_media join_media
media_of_post post_id links rows =
    join_media (sort_media (select_where (λ x. x.post_id == post_id) links)) rows

abbrev pub overrides_media : Option PostVariant → Bool
overrides_media none = false
overrides_media (some x) = x.is_unsynced && not (x.media_ids == "")

-- The text to publish.
unfoldable pub publish_content : Post → Option PostVariant → String
publish_content post none = post.content
publish_content post (some x) =
    if x.is_unsynced && not (x.content == "") then x.content else post.content

unfoldable pub media_item : MediaAttachment → MediaItem
media_item m = record {
  id = m.id;
  mime_type = m.mime_type;
  size = m.size;
  original_filename = m.original_filename;
}

module _ {S : Type 0} (v : Services S) where
  unfoldable pub find_account : String → M S SocialAccount
  find_account id =
      query (v.fails (load_account id)) "account not found: "
        (λ s. find_where (λ a. a.id == id) s.accounts)
      >>= λ found. elim found [
        | none ↦ fail "account not found: sql: no rows in result set"
        | some a ↦ pure a
      ]

  -- `loadVariant`; `none` is Go's `nil`.
  unfoldable pub load_variant : String → String → M S (Option PostVariant)
  load_variant post_id account_id =
      query (v.fails (load_variant_of post_id account_id)) "fetching post variant: "
        λ s. find_where (λ x. x.post_id == post_id && x.social_account_id == account_id) s.variants

  unfoldable pub parent_media : Post → M S (List MediaAttachment)
  parent_media post =
      query (v.fails (post_media_of post.id)) "fetching media: "
        (λ s. media_of_post post.id s.post_media s.media)

  -- The media that a variant lists; an unreadable list falls back on the post's own.
  unfoldable pub listed_media :
      Post → PostDestination → Option (List String) → M S (List MediaAttachment)
  unfolding parent_media
  listed_media post dest none = parent_media post
  listed_media post dest (some []) = pure []
  listed_media post dest (some (id ∷ ids)) =
      query (v.fails (variant_media dest.id)) "fetching variant media: "
        (λ s. in_order (id ∷ ids) s.media)

  unfoldable pub destination_media :
      Post → PostDestination → Option PostVariant → M S (List MediaAttachment)
  unfolding parent_media
  destination_media post dest none = parent_media post
  destination_media post dest (some x) =
      if overrides_media (some x)
      then listed_media post dest (v.unmarshal_media_ids x.media_ids)
      else parent_media post

  -- The platform's id of one medium; an error names the medium.
  unfoldable pub upload_one :
      Post
      → PostDestination
      → SocialAccount
      → String
      → String
      → String
      → MediaAttachment
      → M S String
  upload_one post dest account key token content m s =
      let (r, s') = platform_media_id_for_destination v post dest account key token m content s in
      elim r [
        | err e ↦ (err (failure ("media upload failed for " <> m.id <> ": " <> error_text e)), s')
        | ok id ↦ (ok id, s')
      ]

  unfoldable pub upload_all :
      Post
      → PostDestination
      → SocialAccount
      → String
      → String
      → String
      → List MediaAttachment
      → M S (List String)
  upload_all post dest account key token content [] = pure []
  upload_all post dest account key token content (m ∷ ms) =
      upload_one post dest account key token content m >>= λ id.
      (upload_all post dest account key token content ms >>= λ ids. pure (id ∷ ids))

  -- `getPreviousPostExternalID`, whose error the caller drops.
  abbrev pub external_id_of : Option PostDestination → String
  external_id_of none = ""
  external_id_of (some d) = d.external_id

  unfoldable pub parent_destination_id : String → Option Post → Store S → String
  parent_destination_id account_id none s = ""
  parent_destination_id account_id (some parent) s =
      elim (v.fails (load_parent_destination parent.id account_id)) [
        | some message ↦ ""
        | none ↦ external_id_of (
            find_where (λ d. d.post_id == parent.id && d.social_account_id == account_id)
              s.destinations)
      ]

  unfoldable pub parent_of : String → Store S → Option Post
  parent_of post_id s = elim (find_where (by_post_id post_id) s.posts) [
    | none ↦ none
    | some p ↦ find_where (by_post_id p.parent_post_id) s.posts
  ]

  unfoldable pub previous_post_external_id : String → String → Store S → String
  unfolding parent_destination_id parent_of
  previous_post_external_id post_id account_id s = elim (v.fails (load_parent post_id account_id)) [
    | some message ↦ ""
    | none ↦ parent_destination_id account_id (parent_of post_id s) s
  ]

  -- The post to reply to; a reply on LinkedIn may be skipped by configuration.
  unfoldable pub reply_target : Post → PostDestination → SocialAccount → M S String
  unfolding previous_post_external_id
  reply_target post dest account s =
      if ltb 0 post.thread_sequence && not (post.parent_post_id == "")
      then (if v.disable_linkedin_thread_replies && account.platform == "linkedin"
          then (err linkedin_thread_reply_skipped, s)
          else (ok (previous_post_external_id post.id dest.social_account_id s), s))
      else (ok "", s)

  -- One call of the provider, within the monthly quota, which it counts first.
  unfoldable pub counted_publish :
      Post → SocialAccount → String → String → PublishRequest → M S String
  counted_publish post account key token req s =
      elim (check_monthly_quota v post.workspace_id limit_provider_write_calls_monthly s) [
        | some message ↦ (err (failure message), s)
        | none ↦
            call failure (v.publish key token account.account_id req)
              (record_usage v post.workspace_id limit_provider_write_calls_monthly s)
      ]

  unfoldable pub refresh_and_retry : Post → SocialAccount → String → PublishRequest → M S String
  unfolding counted_publish
  refresh_and_retry post account key req =
      call
        (λ message. failure (account.platform <> " token refresh failed after expiry: " <> message))
        (v.force_refresh_access_token account.id)
      >>= λ token. counted_publish post account key token req

  -- After the first answer: one more try where the token has expired.
  unfoldable pub after_publish :
      Post → SocialAccount → String → PublishRequest → Result String String → M S String
  after_publish post account key req (ok id) s = (ok id, s)
  after_publish post account key req (err message) s =
      if is_expired_token_error message
      then refresh_and_retry post account key req s
      else (err (failure message), s)

  -- `provider.Publish` within the quota, with the second try.
  unfoldable pub publish_with_retry :
      Post → SocialAccount → String → String → PublishRequest → M S String
  publish_with_retry post account key token req s =
      elim (check_monthly_quota v post.workspace_id limit_provider_write_calls_monthly s) [
        | some message ↦ (err (failure message), s)
        | none ↦
            let s₁ = record_usage v post.workspace_id limit_provider_write_calls_monthly s in
            let (r, services) = v.publish key token account.account_id req s₁.services in
            after_publish post account key req r (record s₁ { services = services })
      ]

  unfoldable pub save_id : PostDestination → String → M S (Unit {0})
  save_id dest external_id s = if external_id == "" then (ok tt, s) else (
    ok tt,
    update_destination v (save_external_id dest.id) dest.id
        (λ d. record d { external_id = external_id }) s,
  )

  unfoldable pub request : String → List String → List MediaAttachment → String → PublishRequest
  request content ids media reply_to = record {
    content = content;
    platform_media_ids = ids;
    media_alt_texts = map (λ (m : MediaAttachment). m.alt_text) media;
    media = map media_item media;
    reply_to_id = reply_to;
  }

  unfoldable pub guard_provider : SocialAccount → M S (Unit {0})
  guard_provider account =
      if v.has_provider (provider_key account)
      then pure tt
      else fail (
          "unsupported platform: " <> account.platform <> " (instance: " <> account.instance_url
          <> ")")

  -- `publishToDestination`.
  unfoldable pub publish_to_destination : Post → PostDestination → M S (Unit {0})
  unfolding find_account guard_provider load_variant destination_media upload_all reply_target
      publish_with_retry save_id request media_item
  publish_to_destination post dest = do
    account ← find_account dest.social_account_id
    guard_provider account
    token ←
        call (λ message. failure ("auth error: " <> message)) (v.get_valid_access_token account.id)
    variant ← load_variant post.id dest.social_account_id
    media ← destination_media post dest variant
    let content = publish_content post variant
    ids ← upload_all post dest account (provider_key account) token content media
    reply_to ← reply_target post dest account
    external_id ←
        publish_with_retry post account (provider_key account) token
          (request content ids media reply_to)
    save_id dest external_id
