-- ===== src/Publisher/Media.antt =====
-- backend/internal/services/publisher/publisher.go: the media of a post on their way to a platform.
use openpostfork.Prelude.{
  String, ◌<>◌, Bool, true, false, not, ◌&&◌, ◌||◌, Option, none, some, List, [], ◌∷◌, ◌==◌, eqb,
  if◌then◌else◌, ok, err,
}
use Prim.Native.Char.{code}
use openpostfork.Prelude.Table.{find_where}
use openpostfork.Prelude.Text.{trim_space, to_lower}
use openpostfork.Publisher.{
  Post, PostDestination, SocialAccount, MediaAttachment, ProviderMediaState, Store, Services,
  UploadRequest, M, ◌>>=◌, pure, fail, query, call, failure, error_text, load_media_state,
  save_media_state,
}

-- `usesPublicMediaURLProvider`.
unfoldable pub uses_public_media_url_provider : String → Bool
uses_public_media_url_provider name =
    name == "threads" || name == "tiktok" || name == "facebook" || name == "instagram"

-- `publicMediaExtension`.
unfoldable pub public_media_extension : String → String
public_media_extension mime_type =
    let m = to_lower mime_type in
    if m == "image/jpeg" || m == "image/jpg"
    then ".jpg"
    else if m == "image/png"
    then ".png"
    else if m == "image/gif"
    then ".gif"
    else if m == "image/webp"
    then ".webp"
    else if m == "video/mp4"
    then ".mp4"
    else if m == "video/quicktime"
    then ".mov"
    else if m == "video/webm"
    then ".webm"
    else ""

-- `strings.Split(content, "\n")`: the first line and the others.
unfoldable pub split_lines : String → String × List String
split_lines String.[] = ("", [])
split_lines (String.◌∷◌ c s) =
    let (line, lines) = split_lines s in
    if eqb (code c) 10 then ("", line ∷ lines) else (String.◌∷◌ c line, lines)

unfoldable pub first_nonblank : List String → String
first_nonblank [] = ""
first_nonblank (line ∷ lines) =
    let rest = first_nonblank lines in
    let trimmed = trim_space line in if trimmed == "" then rest else trimmed

-- `firstContentLine`.
unfoldable pub first_content_line : String → String
unfolding split_lines first_nonblank
first_content_line content =
    let (line, lines) = split_lines content in first_nonblank (line ∷ lines)

-- `firstNonEmptyPublisherString`.
unfoldable pub first_non_empty : List String → String
first_non_empty [] = ""
first_non_empty (value ∷ values) =
    let rest = first_non_empty values in if trim_space value == "" then rest else value

module _ {S : Type 0} (v : Services S) where
  -- `getPublicMediaURL`.
  unfoldable pub get_public_media_url : MediaAttachment → String
  get_public_media_url m =
      let name = "/" <> m.id <> public_media_extension m.mime_type <> v.signed_query m.id in
      if v.public_media_url == "" then "/media" <> name else v.public_media_url <> name

  unfoldable pub upload_request : MediaAttachment → String → UploadRequest
  upload_request m content = record {
    mime_type = m.mime_type;
    filename = first_non_empty (m.original_filename ∷ v.base_name m.file_path ∷ []);
    title = first_content_line content;
    description = trim_space content;
  }

  -- The upload of an opened file.
  unfoldable pub send : SocialAccount → String → String → MediaAttachment → String → M S String
  unfolding upload_request
  send account key token m content =
      if v.takes_metadata key
      then call failure (
          v.upload_media_with_metadata key token account.account_id (upload_request m content)
            m.file_path)
      else call failure (v.upload_media key token account.account_id m.mime_type m.file_path)

  -- `uploadMediaToPlatform`.
  unfoldable pub upload_media_to_platform :
      SocialAccount → String → String → MediaAttachment → String → M S String
  unfolding send
  upload_media_to_platform account key token m content =
      if uses_public_media_url_provider account.platform
      then pure (get_public_media_url m)
      else if not v.has_storage
      then fail "media storage is not configured"
      else elim (v.open_file (v.base_name m.file_path)) [
        | some message ↦ fail ("opening media file " <> m.file_path <> ": " <> message)
        | none ↦ send account key token m content
      ]

  abbrev pub is_state : String → String → String → ProviderMediaState → Bool
  is_state post_id account_id media_id r =
      r.post_id == post_id && r.social_account_id == account_id && r.media_id == media_id

  abbrev platform_media_id_of : Option ProviderMediaState → String
  platform_media_id_of none = ""
  platform_media_id_of (some r) = r.platform_media_id

  -- `loadReadyProviderMediaState`.
  unfoldable pub load_ready_provider_media_state : String → String → String → M S String
  load_ready_provider_media_state post_id account_id media_id =
      query (v.fails (load_media_state post_id account_id media_id))
        "loading provider media state: "
        λ s.
          platform_media_id_of
            (find_where (λ r. is_state post_id account_id media_id r && r.is_ready) s.media_states)

  -- The `INSERT … ON CONFLICT … DO UPDATE`.
  unfoldable pub upsert : ProviderMediaState → List ProviderMediaState → List ProviderMediaState
  upsert new [] = new ∷ []
  upsert new (r ∷ rs) =
      if is_state new.post_id new.social_account_id new.media_id r
      then new ∷ rs
      else r ∷ upsert new rs

  -- `saveProviderMediaState`, whose error both callers log only.
  unfoldable pub save_provider_media_state : ProviderMediaState → Store S → Store S
  unfolding upsert
  save_provider_media_state new s =
      elim (v.fails (save_media_state new.post_id new.social_account_id new.media_id)) [
        | some message ↦ s
        | none ↦ record s { media_states = upsert new s.media_states }
      ]

  unfoldable pub media_state :
      Post → PostDestination → SocialAccount → MediaAttachment → ProviderMediaState
  media_state post dest account m = record {
    post_id = post.id;
    social_account_id = dest.social_account_id;
    media_id = m.id;
    platform = account.platform;
    platform_media_id = "";
    is_ready = false;
    error_message = "";
  }

  -- The upload of a medium that the platform does not have yet, with the record of its outcome.
  unfoldable pub upload_and_record :
      Post
      → PostDestination
      → SocialAccount
      → String
      → String
      → MediaAttachment
      → String
      → M S String
  unfolding media_state
  upload_and_record post dest account key token m content s =
      let (r, s') = upload_media_to_platform account key token m content s in
      let row = media_state post dest account m in
      elim r [
        | err e ↦
            (err e, save_provider_media_state (record row { error_message = error_text e }) s')
        | ok id ↦ (
          ok id,
          save_provider_media_state (record row { platform_media_id = id; is_ready = true }) s',
        )
      ]

  -- `platformMediaIDForDestination`.
  unfoldable pub platform_media_id_for_destination :
      Post
      → PostDestination
      → SocialAccount
      → String
      → String
      → MediaAttachment
      → String
      → M S String
  unfolding upload_and_record
  platform_media_id_for_destination post dest account key token m content =
      if uses_public_media_url_provider account.platform
      then upload_media_to_platform account key token m content
      else (load_ready_provider_media_state post.id dest.social_account_id m.id >>= λ known.
          if known == ""
          then upload_and_record post dest account key token m content
          else pure known)
