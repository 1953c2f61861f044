-- ===== src/Publisher/Marks.antt =====
-- What a delivery may change: the marks of the destinations and the posts are the publisher's own.
use openpostfork.Prelude.{
  String, ◌≡◌, refl, ◌∙◌, inl, inr, Bool, true, false, not, Option, none, some, List, [], ◌∷◌, map,
  arith, ◌==◌, if◌then◌else◌, Bool-cases, Option-cases, Result, ok, err, Result-cases,
}
use openpostfork.Prelude.Table.{update_where}
use openpostfork.Publisher.{
  Post, PostDestination, PostVariant, SocialAccount, MediaAttachment, ProviderMediaState,
  PublishRequest, Store, Services, PublishError, M, ◌>>=◌, query, call, pure, fail, failure,
  by_destination_id, record_usage, update_destination, is_expired_token_error, check_monthly_quota,
  Reply,
}
use openpostfork.Entitlements.{limit_provider_write_calls_monthly}
use openpostfork.Publisher.Media.{
  platform_media_id_for_destination, upload_media_to_platform, load_ready_provider_media_state,
  save_provider_media_state, upload_and_record, send, uses_public_media_url_provider,
}
use openpostfork.Publisher.Destination.{
  publish_to_destination, upload_one, upload_all, find_account, destination_media, listed_media,
  overrides_media, reply_target, publish_with_retry, after_publish, refresh_and_retry,
  counted_publish, save_id, guard_provider, load_variant,
}

-- A destination without the id that the platform gave it.
abbrev pub core : PostDestination → PostDestination
core d = record d { external_id = "" }

-- The ids, accounts, statuses and messages of the destinations.
abbrev pub marks : {S : Type 0} → Store S → List PostDestination
marks s = map core s.destinations

abbrev pub SameMarks : {S : Type 0} → Store S → Store S → Type 0
SameMarks s t = (marks t ≡ marks s) × (t.posts ≡ s.posts)

-- Whatever it answers, a computation leaves the marks and the posts.
pub record Keeps {S A : Type 0} (m : M S A) : Type 0 where
  pub at : (s : Store S) → SameMarks s (m s).1

abbrev pub KeepsMarks : {S : Type 0} → (Post → PostDestination → M S (Unit {0})) → Type 0
KeepsMarks deliver = (post : Post) (d : PostDestination) → Keeps (deliver post d)

-- An update of the ids that the platform gave does not change a mark.
map-core-update :
    (key external_id : String) (ds : List PostDestination)
    → map core
        (update_where (by_destination_id key) (λ d. record d { external_id = external_id }) ds)
      ≡ map core ds
map-core-update key external_id [] = refl
map-core-update key external_id (d ∷ ds) = ground (arith, map-core-update key external_id ds)

module _ {S : Type 0} where
  Keeps-bind :
      {A B : Type 0} {m : M S A} {f : A → M S B}
      → Keeps m
      → ((a : A) → Keeps (f a))
      → Keeps (m >>= f)
  unfolding ◌>>=◌
  Keeps-bind {m} {f} hm hf = record {
    at = λ s. elim (Result-cases (m s).0) [
      | inl q ↦ rw (q.1, ◌>>=◌) (hm.at s)
      | inr q ↦
          rw (q.1, ◌>>=◌)
            (((hf q.0).at (m s).1).0 ∙ (hm.at s).0, ((hf q.0).at (m s).1).1 ∙ (hm.at s).1)
    ];
  }

  Keeps-pure : {A : Type 0} (a : A) → Keeps {S = S} (pure a)
  unfolding pure
  Keeps-pure a = record { at = λ s. (refl, refl) }

  Keeps-fail :
      {A : Type 0} (message : String) → Keeps {S = S} {A = A} (fail {S = S} {A = A} message)
  unfolding fail
  Keeps-fail message = record { at = λ s. (refl, refl) }

  Keeps-query :
      {A : Type 0} (failed : Option String) (context : String) (read : Store S → A)
      → Keeps (query failed context read)
  unfolding query
  Keeps-query none context read = record { at = λ s. (refl, refl) }
  Keeps-query (some message) context read = record { at = λ s. (refl, refl) }

  Keeps-call : (wrap : String → PublishError) (f : S → Reply S) → Keeps (call wrap f)
  unfolding call
  Keeps-call wrap f = record { at = λ s. ground arith }

  Keeps-if : {A : Type 0} (b : Bool) {m n : M S A} → Keeps m → Keeps n → Keeps (if b then m else n)
  Keeps-if true hm hn = hm
  Keeps-if false hm hn = hn

module _ {S : Type 0} (v : Services S) where
  Keeps-upload :
      (account : SocialAccount) (key token : String) (m : MediaAttachment) (content : String)
      → Keeps (upload_media_to_platform v account key token m content)
  unfolding upload_media_to_platform send
  Keeps-upload account key token m content =
      Keeps-if (uses_public_media_url_provider account.platform) (Keeps-pure _) (
        Keeps-if (not v.has_storage) (Keeps-fail _)
          (elim (Option-cases (v.open_file (v.base_name m.file_path))) [
            | inl e ↦ rw e (Keeps-if (v.takes_metadata key) (Keeps-call _ _) (Keeps-call _ _))
            | inr q ↦ rw q.1 (Keeps-fail _)
          ]))

  Keeps-save :
      (s : Store S) (row : ProviderMediaState) → SameMarks s (save_provider_media_state v row s)
  unfolding save_provider_media_state
  Keeps-save s row = ground arith

  Keeps-record :
      (post : Post) (dest : PostDestination) (account : SocialAccount) (key token : String)
      (m : MediaAttachment) (content : String)
      → Keeps (upload_and_record v post dest account key token m content)
  unfolding upload_and_record
  Keeps-record post dest account key token m content = record {
    at = λ s.
        let u = (Keeps-upload account key token m content).at s in
        elim (Result-cases (upload_media_to_platform v account key token m content s).0) [
          | inl q ↦ rw (q.1, upload_and_record) ((Keeps-save _ _).0 ∙ u.0, (Keeps-save _ _).1 ∙ u.1)
          | inr q ↦ rw (q.1, upload_and_record) ((Keeps-save _ _).0 ∙ u.0, (Keeps-save _ _).1 ∙ u.1)
        ];
  }

  Keeps-media :
      (post : Post) (dest : PostDestination) (account : SocialAccount) (key token : String)
      (m : MediaAttachment) (content : String)
      → Keeps (platform_media_id_for_destination v post dest account key token m content)
  unfolding platform_media_id_for_destination load_ready_provider_media_state
  Keeps-media post dest account key token m content =
      Keeps-if (uses_public_media_url_provider account.platform)
        (Keeps-upload account key token m content)
        (Keeps-bind (Keeps-query _ _ _) λ known.
          Keeps-if (known == "") (Keeps-record post dest account key token m content)
            (Keeps-pure known))

  Keeps-upload_one :
      (post : Post) (dest : PostDestination) (account : SocialAccount) (key token content : String)
      (m : MediaAttachment)
      → Keeps (upload_one v post dest account key token content m)
  unfolding upload_one
  Keeps-upload_one post dest account key token content m = record {
    at = λ s.
        let u = (Keeps-media post dest account key token m content).at s in
        elim (Result-cases
          (platform_media_id_for_destination v post dest account key token m content s).0) [
            | inl q ↦ rw (q.1, upload_one) u
            | inr q ↦ rw (q.1, upload_one) u
          ];
  }

  Keeps-upload_all :
      (post : Post) (dest : PostDestination) (account : SocialAccount) (key token content : String)
      (ms : List MediaAttachment)
      → Keeps (upload_all v post dest account key token content ms)
  unfolding upload_all
  Keeps-upload_all post dest account key token content [] = Keeps-pure []
  Keeps-upload_all post dest account key token content (m ∷ ms) =
      Keeps-bind (Keeps-upload_one post dest account key token content m) λ id.
        Keeps-bind (Keeps-upload_all post dest account key token content ms) λ ids. Keeps-pure _

  Keeps-find_account : (id : String) → Keeps (find_account v id)
  unfolding find_account
  Keeps-find_account id = Keeps-bind (Keeps-query _ _ _) λ found. elim (Option-cases found) [
    | inl e ↦ rw e (Keeps-fail _)
    | inr q ↦ rw q.1 (Keeps-pure q.0)
  ]

  Keeps-listed :
      (post : Post) (dest : PostDestination) (ids : Option (List String))
      → Keeps (listed_media v post dest ids)
  unfolding listed_media
  Keeps-listed post dest none = Keeps-query _ _ _
  Keeps-listed post dest (some []) = Keeps-pure []
  Keeps-listed post dest (some (id ∷ ids)) = Keeps-query _ _ _

  Keeps-destination_media :
      (post : Post) (dest : PostDestination) (variant : Option PostVariant)
      → Keeps (destination_media v post dest variant)
  unfolding destination_media
  Keeps-destination_media post dest none = Keeps-query _ _ _
  Keeps-destination_media post dest (some x) =
      Keeps-if (overrides_media (some x))
        (Keeps-listed post dest (v.unmarshal_media_ids x.media_ids)) (Keeps-query _ _ _)

  Keeps-reply_target :
      (post : Post) (dest : PostDestination) (account : SocialAccount)
      → Keeps (reply_target v post dest account)
  unfolding reply_target
  Keeps-reply_target post dest account = record { at = λ s. ground arith }

  SameMarks-record_usage :
      (workspace_id metric : String) (s : Store S)
      → SameMarks s (record_usage v workspace_id metric s)
  unfolding record_usage
  SameMarks-record_usage workspace_id metric s = ground arith

  Keeps-counted_publish :
      (post : Post) (account : SocialAccount) (key token : String) (req : PublishRequest)
      → Keeps (counted_publish v post account key token req)
  unfolding counted_publish
  Keeps-counted_publish post account key token req = record {
    at = λ s.
        let u = SameMarks-record_usage post.workspace_id limit_provider_write_calls_monthly s in
        elim (Option-cases
          (check_monthly_quota v post.workspace_id limit_provider_write_calls_monthly s)) [
            | inr q ↦ rw (q.1, counted_publish) (refl, refl)
            | inl e ↦
                let c =
                  (Keeps-call failure (v.publish key token account.account_id req)).at
                    (record_usage v post.workspace_id limit_provider_write_calls_monthly s) in
                rw (e, counted_publish) (c.0 ∙ u.0, c.1 ∙ u.1)
          ];
  }

  Keeps-refresh_and_retry :
      (post : Post) (account : SocialAccount) (key : String) (req : PublishRequest)
      → Keeps (refresh_and_retry v post account key req)
  unfolding refresh_and_retry
  Keeps-refresh_and_retry post account key req =
      Keeps-bind (Keeps-call _ _) λ token. Keeps-counted_publish post account key token req

  Keeps-after_publish :
      (post : Post) (account : SocialAccount) (key : String) (req : PublishRequest)
      (r : Result String String)
      → Keeps (after_publish v post account key req r)
  unfolding after_publish
  Keeps-after_publish post account key req (ok id) = record { at = λ s. (refl, refl) }
  Keeps-after_publish post account key req (err message) = record {
    at = λ s.
        let u = (Keeps-refresh_and_retry post account key req).at s in
        elim (Bool-cases (is_expired_token_error message)) [
          | inl e ↦ rw e u
          | inr e ↦ rw e (refl, refl)
        ];
  }

  Keeps-publish_with_retry :
      (post : Post) (account : SocialAccount) (key token : String) (req : PublishRequest)
      → Keeps (publish_with_retry v post account key token req)
  unfolding publish_with_retry
  Keeps-publish_with_retry post account key token req = record {
    at = λ s.
        let t = record_usage v post.workspace_id limit_provider_write_calls_monthly s in
        let u = SameMarks-record_usage post.workspace_id limit_provider_write_calls_monthly s in
        let a = v.publish key token account.account_id req t.services in
        let c = (Keeps-after_publish post account key req a.0).at (record t { services = a.1 }) in
        elim (Option-cases
          (check_monthly_quota v post.workspace_id limit_provider_write_calls_monthly s)) [
            | inr q ↦ rw (q.1, publish_with_retry) (refl, refl)
            | inl e ↦ rw (e, publish_with_retry) (c.0 ∙ u.0, c.1 ∙ u.1)
          ];
  }

  Keeps-save_id :
      (dest : PostDestination) (external_id : String) → Keeps (save_id v dest external_id)
  unfolding save_id update_destination
  Keeps-save_id dest external_id = record {
    at = λ s. ground (arith, map-core-update dest.id external_id s.destinations);
  }

  -- The delivery of a post to one account changes no mark of a destination and no post, on every
  -- path, errors included.
  pub publish_to_destination-KeepsMarks : KeepsMarks (publish_to_destination v)
  unfolding publish_to_destination guard_provider load_variant
  publish_to_destination-KeepsMarks post dest =
      Keeps-bind (Keeps-find_account dest.social_account_id) λ account.
        Keeps-bind (Keeps-if _ (Keeps-pure tt) (Keeps-fail _)) λ _.
          Keeps-bind (Keeps-call _ _) λ token. Keeps-bind (Keeps-query _ _ _) λ variant.
            Keeps-bind (Keeps-destination_media post dest variant) λ media.
              Keeps-bind (Keeps-upload_all post dest account _ token _ media) λ ids.
                Keeps-bind (Keeps-reply_target post dest account) λ reply_to.
                  Keeps-bind (Keeps-publish_with_retry post account _ token _)
                    λ id. Keeps-save_id dest id
