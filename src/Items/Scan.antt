-- ===== src/Items/Scan.antt =====
-- RunOCRSweep and ReindexAllContent of internal/service/item.go. Both callers of a sweep, and that of a
-- rebuild, pass a context that is never done. The scan by outside tools is a parameter.
pub mod Drain
use denizen.Prelude.{
  ℕ, Bool, true, false, Option, none, some, List, [], ◌∷◌, Text, text, ◌==◌, text_eq, length,
  if◌then◌else◌,
}
use denizen.Prelude.Int.{ℤ}
use denizen.Model.{Item, Db}
use denizen.Result.{Result, ok, err}
use denizen.Exec.{pure, ◌>>=◌, ◌>>◌}
use denizen.Storage.{FilePath}
use denizen.Storage.Disk.{Disk, read_file}
use denizen.Repo.Index as Index
use denizen.Repo.Items.{list_all_files}
use denizen.Extract.{ext_for}
use denizen.World.{Env, World, Service}
use denizen.Items.Paths.{username, path_on_disk}
use denizen.Items.Content.{index_content}

-- ExtractOCRPDF and ExtractOCRImage of internal/textextract, on the bytes of a file.
pub record Scanner : Type 0 where
  pub scan_pdf : Text → Option Text
  pub scan_image : Text → Option Text

-- The names that were read, by the owner.
abbrev pub Names : Type 0
Names = List (Text × Text)

unfoldable pub name_read : Names → Text → Option Text
name_read [] owner_id = none
name_read ((id, name) ∷ names) owner_id =
    let rest = name_read names owner_id in if id == owner_id then some name else rest

-- The name of an owner, read at most once, and the names read by then
unfoldable pub owner_name : Db → Names → Text → Result (Text × Names)
unfolding name_read
owner_name db names owner_id = elim (name_read names owner_id) [
  | some name ↦ ok (name, names)
  | none ↦ elim (username db owner_id) [
    | err e ↦ err e
    | ok name ↦ ok (name, (owner_id, name) ∷ names)
  ]
]

abbrev text_or_empty : Option Text → Text
text_or_empty none = []
text_or_empty (some content) = content

-- The text that a scan finds: "" where there is no path, or where the scan fails
unfoldable pub scanned : Scanner → Disk → Text → Result FilePath → Text
unfolding ext_for
scanned scanner disk name (err e) = []
scanned scanner disk name (ok path) = elim (read_file path disk) [
  | err e ↦ []
  | ok content ↦
      if ext_for name == text "pdf"
      then text_or_empty (scanner.scan_pdf content)
      else text_or_empty (scanner.scan_image content)
]

-- One candidate: its text is stored if there is any, and it is marked in any case.
unfoldable pub scan_item : Env → Scanner → Item → Text → World → World
unfolding scanned
scan_item env scanner item name w =
    let content = scanned scanner w.disk item.name (path_on_disk env w.db name item) in
    let stored = Index.index_content item.id content w.db in
    record w { db = Index.mark_attempted item.id w.now (if content == [] then w.db else stored) }

-- The loop of RunOCRSweep
unfoldable pub sweep_from : Env → Scanner → List Item → Names → Service (Unit {0})
unfolding owner_name
sweep_from env scanner [] names w = (ok tt, w)
sweep_from env scanner (item ∷ items) names w = elim (owner_name w.db names item.owner_id) [
  | err e ↦ (err e, w)
  | ok (name, names) ↦ sweep_from env scanner items names (scan_item env scanner item name w)
]

-- RunOCRSweep: the number of candidates
unfoldable pub run_ocr_sweep : Env → Scanner → ℕ → Service ℕ
unfolding sweep_from
run_ocr_sweep env scanner batch_size w =
    let candidates = Index.list_pending w.db batch_size in
    (sweep_from env scanner candidates [] >> pure (length candidates)) w

abbrev reindex_one : Env → Item → Result FilePath → World → World
reindex_one env item (err e) w = w
reindex_one env item (ok path) w = index_content env item.id item.name path w

-- The loop of ReindexAllContent
unfoldable pub reindex_from : Env → List Item → Names → Service (Unit {0})
unfolding owner_name
reindex_from env [] names w = (ok tt, w)
reindex_from env (item ∷ items) names w = elim (owner_name w.db names item.owner_id) [
  | err e ↦ (err e, w)
  | ok (name, names) ↦
      reindex_from env items names (reindex_one env item (path_on_disk env w.db name item) w)
]

-- ReindexAllContent: the number of files
unfoldable pub reindex_all_content : Env → Service ℕ
unfolding reindex_from
reindex_all_content env w =
    let files = list_all_files w.db in (reindex_from env files [] >> pure (length files)) w
