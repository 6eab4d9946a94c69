-- ===== src/Tests/Scans.antt =====
-- A sweep of scans on the small drive.
use denizen.Prelude.{◌≡◌, refl, some, none, [], ◌∷◌, text, text_eq}
use denizen.Prelude.Int.{pos}
use denizen.Result.{ok}
use denizen.Repo.Index.{list_pending}
use denizen.Repo.Users.{get_by_id}
use denizen.Repo.Items.{row}
use denizen.Items.Scan.{Scanner, run_ocr_sweep}
use denizen.Items.Scan.Drain.{IsDrained, run_ocr_sweep-IsDrained}
use denizen.World.{World}
use denizen.Tests.{env, ann, note, world}

abbrev scanner : Scanner
scanner = record { scan_pdf = λ content. none; scan_image = λ content. some content }

-- The note awaits a scan.
abbrev queued : World
queued = record world {
  db = record world.db { ocr_queue = record { item_id = text "f"; at = pos 1 } ∷ [] };
}

run_ocr_sweep-IsDrained_example :
    (w : World) × (run_ocr_sweep env scanner 3 queued ≡ (ok 1, w)) × IsDrained (note ∷ []) queued w
unfolding list_pending get_by_id row text_eq
run_ocr_sweep-IsDrained_example = run_ocr_sweep-IsDrained env scanner 3 queued ((ann, refl), tt)
