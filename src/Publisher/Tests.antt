-- ===== src/Publisher/Tests.antt =====
-- The theorems of the publisher at a concrete post with one open destination.
use openpostfork.Prelude.{
  List, ◌/◌, String, ◌≡◌, refl, true, false, Option, none, some, [], ◌∷◌, arith, ok, subst, inl,
  inr, ◌<◌, ◌==◌, err, Bool-cases, if◌then◌else◌,
}
use openpostfork.Prelude.Int.{pos}
use openpostfork.Entitlements.{PlanSnapshot, check, lookup, limit_provider_write_calls_monthly}
use openpostfork.Usage.Counters.{value}
use openpostfork.Publisher.{
  failure, Post, PostDestination, SocialAccount, PublishRequest, Store, Statement, Services, M,
  publishing, failed, count_failed,
}
use openpostfork.Publisher.Dispatch.{child_of}
use openpostfork.Publisher.Depth.{RepliesFollow}
use openpostfork.Prelude.Table.{In}
use openpostfork.Publisher.Single.{publish_single_post}
use openpostfork.Publisher.Thread.{member, thread_loop, publish_thread}
use openpostfork.Publisher.Destination.{publish_to_destination, publish_with_retry}
use openpostfork.Publisher.Marks.{Keeps, publish_to_destination-KeepsMarks}
use openpostfork.Publisher.Finalize.{NoFaults, HasStatus}
use openpostfork.Publisher.Agreement.{agreed, publish_single_post-agrees}
use openpostfork.Publisher.Chain.{OnlyRefused, publish_thread-OnlyRefused}
use openpostfork.Publisher.Handed.{SameFor, thread_loop-SameFor}
use openpostfork.Publisher.Quota.{WithinLimit, publish_with_retry-WithinLimit}

abbrev plan : PlanSnapshot
plan = record { plan_id = "pro"; limits = (limit_provider_write_calls_monthly, pos 5) ∷ [] }

-- Every service works, and no statement fails.
abbrev services : Services (Unit {0})
services = record {
  now = 1000;
  month_start = λ at. at / 100;
  fails = λ st. none;
  disable_linkedin_thread_replies = false;
  has_provider = λ key. true;
  get_valid_access_token = λ id u. (ok "token", u);
  force_refresh_access_token = λ id u. (ok "token", u);
  publish = λ key token account request u. (ok "remote-1", u);
  takes_metadata = λ key. false;
  upload_media_with_metadata = λ key token account request content u. (ok "media-1", u);
  upload_media = λ key token account mime content u. (ok "media-1", u);
  quota = check plan;
  has_storage = true;
  open_file = λ path. none;
  base_name = λ path. path;
  public_media_url = "";
  signed_query = λ path. "";
  unmarshal_media_ids = λ raw. some [];
  unmarshal_post_id = λ raw. ok raw;
}

-- The count of the failed destinations fails.
abbrev count_breaks : Statement → Option String
count_breaks (count_failed key) = some "locked"
count_breaks _ = none

abbrev broken : Services (Unit {0})
broken = record services { fails = count_breaks }

abbrev post : Post
post = record {
  id = "p1";
  workspace_id = "w1";
  content = "hello";
  parent_post_id = "";
  thread_sequence = 0;
  status = publishing;
  published_at = 0;
}

abbrev destination : PostDestination
destination = record {
  id = "d1";
  post_id = "p1";
  social_account_id = "a1";
  external_id = "";
  status = failed;
  error_message = "down";
}

abbrev account : SocialAccount
account = record { id = "a1"; platform = "x"; instance_url = ""; account_id = "1" }

abbrev store : Store (Unit {0})
store = record {
  posts = post ∷ [];
  destinations = destination ∷ [];
  accounts = account ∷ [];
  variants = [];
  media = [];
  post_media = [];
  media_states = [];
  counters = [];
  services = tt;
}

abbrev deliver : Post → PostDestination → M (Unit {0}) (Unit {0})
deliver = publish_to_destination services

abbrev request : PublishRequest
request = record {
  content = "hello";
  platform_media_ids = [];
  media_alt_texts = [];
  media = [];
  reply_to_id = "";
}

no_faults : NoFaults services
no_faults st = refl

publish_to_destination-KeepsMarks_example : Keeps (publish_to_destination services post destination)
publish_to_destination-KeepsMarks_example =
    publish_to_destination-KeepsMarks services post destination

publish_single_post-agrees_example :
    let (e, s') = publish_single_post services deliver post store in HasStatus post s' (agreed e)
publish_single_post-agrees_example =
    publish_single_post-agrees services no_faults deliver
      (publish_to_destination-KeepsMarks services) post store post refl (refl, tt)

-- Another delivery to the account "a1" alone.
abbrev only_first : Post → PostDestination → M (Unit {0}) (Unit {0})
only_first p d s =
    if "a1" == d.social_account_id then deliver p d s else (err (failure "another account"), s)

first-SameFor : SameFor services deliver only_first ("a1" ∷ [])
unfolding member
first-SameFor p d s m = elim (Bool-cases ("a1" == d.social_account_id)) [
  | inl e ↦ rw e refl
  | inr e ↦ cc (rw e at m)
]

thread_loop-SameFor_example :
    thread_loop services deliver false none ("a1" ∷ []) (post ∷ []) store
    ≡ thread_loop services only_first false none ("a1" ∷ []) (post ∷ []) store
thread_loop-SameFor_example =
    thread_loop-SameFor services deliver only_first none ("a1" ∷ []) (post ∷ []) store first-SameFor

-- Every delivery fails, and the thread has no error.
abbrev failing : Post → PostDestination → M (Unit {0}) (Unit {0})
failing p d s = (err (failure "offline"), s)

publish_thread-OnlyRefused_example :
    OnlyRefused services failing (post ∷ []) (publish_thread services failing (post ∷ []) store).0
publish_thread-OnlyRefused_example = publish_thread-OnlyRefused services failing (post ∷ []) store

plan_limit : lookup limit_provider_write_calls_monthly plan.limits ≡ some (pos 5)
unfolding lookup
plan_limit = refl

publish_with_retry-WithinLimit_example :
    WithinLimit services 5 "w1"
      (publish_with_retry services post account "x" "token" request store).1
unfolding value
publish_with_retry-WithinLimit_example =
    publish_with_retry-WithinLimit services no_faults plan 5 (λ req. refl) plan_limit (omega arith)
      "w1" (λ q. cc) post account "x" "token" request store refl (0, refl, omega arith)

abbrev reply : Post
reply = record post { id = "p2"; parent_post_id = "p1"; thread_sequence = 1 }

abbrev thread : List Post
thread = post ∷ reply ∷ []

abbrev Follows : Post → Post → Type 0
Follows p c = child_of p.id c ≡ true → p.thread_sequence < c.thread_sequence

post-Follows : (c : Post) → In c thread → Follows post c
post-Follows c (inl e) = subst (Follows post) e (λ h. cc)
post-Follows c (inr (inl e)) = subst (Follows post) e (λ h. omega arith)
post-Follows c (inr (inr i)) = elim i [ ]

reply-Follows : (c : Post) → In c thread → Follows reply c
reply-Follows c (inl e) = subst (Follows reply) e (λ h. cc)
reply-Follows c (inr (inl e)) = subst (Follows reply) e (λ h. cc)
reply-Follows c (inr (inr i)) = elim i [ ]

thread-RepliesFollow : RepliesFollow thread
thread-RepliesFollow p c (inl e) j = subst (λ (q : Post). Follows q c) e (post-Follows c j)
thread-RepliesFollow p c (inr (inl e)) j = subst (λ (q : Post). Follows q c) e (reply-Follows c j)
thread-RepliesFollow p c (inr (inr i)) j = elim i [ ]
