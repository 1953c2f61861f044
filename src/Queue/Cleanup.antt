-- ===== src/Queue/Cleanup.antt =====
-- The media clean-up of backend/internal/queue/worker.go: the job that removes the unused media of a
-- workspace, and the scheduling of that job. The file storage, the JSON texts, the operator LIKE of
-- the engine and the new ids are an interface.
use openpostfork.Prelude.{
  ℕ, ◌+◌, ◌-◌, ◌*◌, ◌%◌, ◌^◌, String, ◌<>◌, Bool, false, not, ◌&&◌, ◌||◌, Option, none, some, List,
  [], ◌∷◌, ◌++◌, ◌==◌, ltb, if◌then◌else◌, Result, ok, err,
}
use openpostfork.Prelude.Clock.{hour}
use openpostfork.Prelude.Int.{ℤ, pos, pos_part, leb_ℤ}
use openpostfork.Prelude.Table.{find_where, select_where, delete_where}
use openpostfork.Queue.{Job, pending, add_duration}

pub record Media : Type 0 where
  pub id : String
  pub workspace_id : String
  pub file_path : String
  pub thumbnails : String  -- a JSON object
  pub is_favorite : Bool
  pub created_at : ℕ

-- A row of `post_variants` with the workspace of its post.
pub record VariantMedia : Type 0 where
  pub workspace_id : String
  pub media_ids : String  -- a JSON list

pub record CleanupWorkspace : Type 0 where
  pub id : String
  pub media_cleanup_days : ℤ

-- The tables of the clean-up, and the file storage.
pub record Tables (S : Type 0) : Type 0 where
  pub media : List Media
  pub attached : List String  -- `SELECT media_id FROM post_media`
  pub variants : List VariantMedia
  pub workspaces : List CleanupWorkspace
  pub jobs : List Job
  pub storage : S

pub data CleanupStatement : Type 0 where
  select_media select_variants load_workspace insert_job delete_jobs find_job : CleanupStatement
  delete_media : String → CleanupStatement

pub record CleanupServices (S : Type 0) : Type 0 where
  pub now : ℕ
  pub fails : CleanupStatement → Option String
  pub unmarshal_payload : String → Result String (String × ℤ)
  pub marshal_payload : String → ℤ → Result String String
  pub unmarshal_ids : String → Option (List String)
  pub unmarshal_thumbnails : String → Option (String × String)
  pub base_name : String → String
  pub delete_file : String → S → S
  pub new_id : List Job → String
  pub like : String → String → Bool  -- the text, then the pattern

abbrev pub listed : String → List String → Bool
listed key [] = false
listed key (k ∷ ks) = k == key || listed key ks

abbrev pub by_media_id : String → Media → Bool
by_media_id key m = m.id == key

-- `now.Add(-time.Duration(days) * 24 * time.Hour)`, on the bits of an int64.
unfoldable pub cutoff : ℕ → ℕ → ℕ
cutoff now days = add_duration now ((2 ^ 64 - days * 24 * hour % 2 ^ 64) % 2 ^ 64)

module _ {S : Type 0} (v : CleanupServices S) where
  -- The rows of the first query of `handleMediaCleanup`.
  unfoldable pub is_unattached : String → ℕ → List String → Media → Bool
  is_unattached workspace_id before attached m =
      m.workspace_id == workspace_id
      && not m.is_favorite
      && ltb m.created_at before
      && not (listed m.id attached)

  abbrev pub parsed_ids : Option (List String) → List String
  parsed_ids none = []
  parsed_ids (some ids) = ids

  -- The loop of `variantMediaIDs`, over the rows of its query.
  unfoldable pub ids_of : List VariantMedia → List String
  ids_of [] = []
  ids_of (r ∷ rs) = parsed_ids (v.unmarshal_ids r.media_ids) ++ ids_of rs

  -- `variantMediaIDs`.
  unfoldable pub variant_media_ids : String → Tables S → Result String (List String)
  variant_media_ids workspace_id t = elim (v.fails select_variants) [
    | some message ↦ err message
    | none ↦ ok (
        ids_of (
          select_where (λ r. r.workspace_id == workspace_id && not (r.media_ids == "")) t.variants))
  ]

  abbrev pub delete_named : String → S → S
  delete_named name s = if name == "" then s else v.delete_file name s

  abbrev pub delete_both : Option (String × String) → S → S
  delete_both none s = s
  delete_both (some (sm, md)) s = delete_named md (delete_named sm s)

  abbrev pub delete_thumbnails : String → S → S
  delete_thumbnails raw s = if raw == "" then s else delete_both (v.unmarshal_thumbnails raw) s

  abbrev pub media_left : Option String → String → List Media → List Media
  media_left (some message) key media = media
  media_left none key media = delete_where (by_media_id key) media

  -- `deleteUnusedMedia`: errors are logged only.
  unfoldable pub delete_unused_media : Media → Tables S → Tables S
  delete_unused_media m t = record t {
    media = media_left (v.fails (delete_media m.id)) m.id t.media;
    storage = delete_thumbnails m.thumbnails (v.delete_file (v.base_name m.file_path) t.storage);
  }

  -- The loop of `handleMediaCleanup`.
  unfoldable pub delete_each : List String → List Media → Tables S → Tables S
  delete_each used [] t = t
  delete_each used (m ∷ ms) t =
      delete_each used ms (if listed m.id used then t else delete_unused_media m t)

  abbrev pub cleanup_job : String → List Job → Job
  cleanup_job payload jobs = record {
    id = v.new_id jobs;
    kind = "media_cleanup";
    payload = payload;
    status = pending;
    run_at = v.now + 24 * hour;
    attempts = 0;
    max_attempts = 3;
    last_error = "";
    locked_at = some 0;
    locked_by = "";
  }

  abbrev pub inserted : Option String → String → Tables S → Option String × Tables S
  inserted (some message) payload t = (some message, t)
  inserted none payload t = (none, record t { jobs = cleanup_job payload t.jobs ∷ t.jobs })

  -- The marshalling and the insert that end both functions that schedule a clean-up.
  abbrev pub insert_cleanup : Result String String → Tables S → Option String × Tables S
  insert_cleanup (err message) t = (some message, t)
  insert_cleanup (ok payload) t = inserted (v.fails insert_job) payload t

  -- `scheduleMediaCleanup`.
  unfoldable pub schedule_again : String → ℤ → Tables S → Option String × Tables S
  schedule_again workspace_id days t =
      if leb_ℤ days (pos 0)
      then (none, t)
      else insert_cleanup (v.marshal_payload workspace_id days) t

  abbrev pub reschedule : String → Option CleanupWorkspace → Tables S → Tables S
  reschedule workspace_id none t = t
  reschedule workspace_id (some w) t =
      if leb_ℤ w.media_cleanup_days (pos 0)
      then t
      else (schedule_again workspace_id w.media_cleanup_days t).1

  -- The end of `handleMediaCleanup`: the next clean-up.
  unfoldable pub schedule_next : String → Tables S → Tables S
  schedule_next workspace_id t = elim (v.fails load_workspace) [
    | some message ↦ t
    | none ↦
        reschedule workspace_id
          (find_where (λ (w : CleanupWorkspace). w.id == workspace_id) t.workspaces) t
  ]

  -- The media that the first query finds.
  abbrev pub found_media : String → ℤ → Tables S → List Media
  found_media workspace_id days t =
      select_where (is_unattached workspace_id (cutoff v.now (pos_part days)) t.attached) t.media

  abbrev pub with_used :
      String → ℤ → Result String (List String) → Tables S → Option String × Tables S
  with_used workspace_id days (err message) t = (some message, t)
  with_used workspace_id days (ok used) t =
      (none, schedule_next workspace_id (delete_each used (found_media workspace_id days t) t))

  -- `handleMediaCleanup` past the decoding of the payload.
  unfoldable pub clean_up : String → ℤ → Tables S → Option String × Tables S
  clean_up workspace_id days t =
      if leb_ℤ days (pos 0) then (none, t) else elim (v.fails select_media) [
        | some message ↦ (some message, t)
        | none ↦ with_used workspace_id days (variant_media_ids workspace_id t) t
      ]

  -- `handleMediaCleanup`.
  unfoldable pub handle_media_cleanup : String → Tables S → Option String × Tables S
  handle_media_cleanup payload t = elim (v.unmarshal_payload payload) [
    | err message ↦ (some message, t)
    | ok job ↦ clean_up job.0 job.1 t
  ]

  abbrev pub is_cleanup_of : String → Job → Bool
  is_cleanup_of workspace_id j =
      j.kind == "media_cleanup" && v.like j.payload ("%" <> workspace_id <> "%")

  -- `CancelMediaCleanup`.
  unfoldable pub cancel_media_cleanup : String → Tables S → Option String × Tables S
  cancel_media_cleanup workspace_id t = elim (v.fails delete_jobs) [
    | some message ↦ (some message, t)
    | none ↦ (none, record t { jobs = delete_where (is_cleanup_of workspace_id) t.jobs })
  ]

  abbrev pub find_cleanup : Option String → String → List Job → Option Job
  find_cleanup (some message) workspace_id jobs = none
  find_cleanup none workspace_id jobs = find_where (is_cleanup_of workspace_id) jobs

  abbrev pub unless_found : Option Job → String → Tables S → Option String × Tables S
  unless_found (some j) payload t = (none, t)
  unless_found none payload t = inserted (v.fails insert_job) payload t

  abbrev pub schedule_payload : String → Result String String → Tables S → Option String × Tables S
  schedule_payload workspace_id (err message) t = (some message, t)
  schedule_payload workspace_id (ok payload) t =
      unless_found (find_cleanup (v.fails find_job) workspace_id t.jobs) payload t

  -- `ScheduleMediaCleanup`.
  unfoldable pub schedule_media_cleanup : String → ℤ → Tables S → Option String × Tables S
  unfolding cancel_media_cleanup
  schedule_media_cleanup workspace_id days t =
      if leb_ℤ days (pos 0)
      then cancel_media_cleanup workspace_id t
      else schedule_payload workspace_id (v.marshal_payload workspace_id days) t
