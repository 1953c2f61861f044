-- ===== src/Queue/CleanupTests.antt =====
-- The theorems of the media clean-up at concrete tables.
use openpostfork.Prelude.{
  ◌*◌, String, ◌<>◌, ◌≡◌, refl, sym, ◌∙◌, subst, inl, inr, true, false, none, some, List, [], ◌∷◌,
  ◌==◌, ok, arith,
}
use openpostfork.Prelude.Int.{pos}
use openpostfork.Prelude.Clock.{hour}
use openpostfork.Prelude.Table.{find_where, In}
use openpostfork.Queue.{add_duration}
use openpostfork.Queue.Cleanup.{
  Media, Tables, CleanupServices, by_media_id, clean_up, handle_media_cleanup, is_unattached,
  cutoff, variant_media_ids, ids_of,
}
use openpostfork.Queue.Unused.{KeyedMedia, clean_up-keeps, clean_up-removes}
use openpostfork.Queue.Again.{AddsOneLater, handle_media_cleanup-AddsOneLater}
use openpostfork.Queue.Scheduled.{PayloadsMatch}

-- Every service works; the payload is the id of the workspace, and the pattern is its id in signs.
abbrev services : CleanupServices (List String)
services = record {
  now = 1000 * 24 * hour;
  fails = λ st. none;
  unmarshal_payload = λ payload. ok (payload, pos 30);
  marshal_payload = λ ws days. ok ws;
  unmarshal_ids = λ raw. some (raw ∷ []);
  unmarshal_thumbnails = λ raw. some (raw, "");
  base_name = λ path. path;
  delete_file = λ name files. name ∷ files;
  new_id = λ jobs. "new";
  like = λ text pattern. "%" <> text <> "%" == pattern;
}

abbrev old_media : Media
old_media = record {
  id = "m1";
  workspace_id = "w1";
  file_path = "a.png";
  thumbnails = "";
  is_favorite = false;
  created_at = 5;
}

abbrev favourite : Media
favourite = record old_media { id = "m2"; is_favorite = true }

abbrev tables : Tables (List String)
tables = record {
  media = old_media ∷ favourite ∷ [];
  attached = "m3" ∷ [];
  variants = record { workspace_id = "w1"; media_ids = "m4" } ∷ [];
  workspaces = record { id = "w1"; media_cleanup_days = pos 30 } ∷ [];
  jobs = [];
  storage = [];
}

-- A row of four days before, where thirty days are kept.
abbrev young_media : Media
young_media = record old_media { id = "m5"; created_at = 996 * 24 * hour }

abbrev young_tables : Tables (List String)
young_tables = record tables { media = young_media ∷ [] }

young-KeyedMedia : KeyedMedia young_tables.media
young-KeyedMedia a b (inl e) (inl f) same = sym e ∙ f
young-KeyedMedia a b (inr i) j same = elim i [ ]
young-KeyedMedia a b (inl e) (inr j) same = elim j [ ]

clean_up-keeps_example : In young_media (clean_up services "w1" (pos 30) young_tables).1.media
clean_up-keeps_example =
    clean_up-keeps services "w1" (pos 30) young_tables young_media young-KeyedMedia (omega arith)
      (inr (inr (inl (omega arith)))) (inl refl)

clean_up-removes_example :
    find_where (by_media_id "m1") (clean_up services "w1" (pos 30) tables).1.media ≡ none
unfolding is_unattached variant_media_ids ids_of cutoff add_duration
clean_up-removes_example =
    clean_up-removes services "w1" (pos 30) tables old_media ("m4" ∷ []) refl refl refl refl
      (inl refl) refl refl

handle_media_cleanup-AddsOneLater_example :
    AddsOneLater services tables.jobs (handle_media_cleanup services "w1" tables).1.jobs
handle_media_cleanup-AddsOneLater_example = handle_media_cleanup-AddsOneLater services "w1" tables

services-PayloadsMatch : PayloadsMatch services "w1"
services-PayloadsMatch days payload e =
    let f : "w1" ≡ payload = cc in subst (λ p. (("%" <> p <> "%") == "%w1%") ≡ true) f refl
