-- ===== src/Items/Content.antt =====
-- The checksum and the search index of a file's bytes: Store.Checksum of internal/storage/storage.go,
-- and indexContent and TriggerOCRSweep of internal/service/item.go.
use denizen.Prelude.{
  ◌≡◌, refl, arith, inl, inr, Option-cases, Bool, true, false, not, Option, none, some, Text,
  if◌then◌else◌,
}
use denizen.Prelude.Int.{ℤ}
use denizen.Model.{Db}
use denizen.Result.{ok, err, ◌>>=◌}
use denizen.Storage.{FilePath}
use denizen.Storage.Disk.{Disk, read_file}
use denizen.Repo.Index as Index
use denizen.Extract.{ext_for, is_supported, is_ocr_eligible, has_real_text}
use denizen.World.{Env, World, Service}

-- Store.Checksum
unfoldable pub checksum : Env → FilePath → Service Text
unfolding read_file
checksum env path w = (read_file path w.disk >>= λ content. ok (env.sha256 content), w)

-- The text that extraction finds, if it is tried and ends well.
unfoldable pub extracted : Env → Disk → Text → FilePath → Option Text
extracted env disk extension path =
    if is_supported extension
    then elim (read_file path disk) [ ok content ↦ env.extract extension content | err e ↦ none ]
    else none

abbrev needs_ocr : Option Text → Bool
needs_ocr none = true
needs_ocr (some content) = not (has_real_text content)

abbrev store_text : Text → Option Text → Db → Db
store_text id none db = db
store_text id (some content) db = Index.index_content id content db

-- indexContent
unfoldable pub index_content : Env → Text → Text → FilePath → World → World
unfolding extracted
index_content env id name path w =
    let extension = ext_for name in
    let content = extracted env w.disk extension path in
    let db = store_text id content w.db in
    record w {
      db =
          if is_ocr_eligible extension
          then Index.set_queued id (needs_ocr content) w.now db
          else db;
    }

set_queued-items :
    (id : Text) (queued : Bool) (at : ℤ) (db : Db)
    → (Index.set_queued id queued at db).items ≡ db.items
unfolding Index.set_queued
set_queued-items id false at db = refl
set_queued-items id true at db = ground arith

-- The index and the queue of scans are apart from the items.
pub index_content-items :
    (env : Env) (id name : Text) (path : FilePath) (w : World)
    → (index_content env id name path w).db.items ≡ w.db.items
unfolding index_content Index.index_content Index.remove_content
index_content-items env id name path w =
    elim (Option-cases (extracted env w.disk (ext_for name) path)) [
      | inl missing ↦ ground (arith, set_queued-items id true w.now w.db)
      | inr found ↦ ground (
        arith,
        set_queued-items id (not (has_real_text found.0)) w.now
            (Index.index_content id found.0 w.db),
      )
    ]

-- TriggerOCRSweep, up to the start of the sweep: a sweep that runs keeps a second one from starting.
unfoldable pub trigger_ocr_sweep : World → World
trigger_ocr_sweep w = record w { ocr_sweeping = true }
