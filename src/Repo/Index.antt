-- ===== src/Repo/Index.antt =====
-- internal/repository/ocr.go, and the writes of internal/repository/search.go.
use denizen.Prelude.{
  ℕ, Bool, true, false, ◌&&◌, ◌||◌, not, none, some, List, [], ◌∷◌, map, Text, ◌==◌, text_eq,
  select, any, take, if◌then◌else◌,
}
use denizen.Prelude.Int.{ℤ, lt_int}
use denizen.Model.{Item, is_folder, Indexed, Stamp, Db, is_null}
use denizen.Repo.Items.{order_by, row, is_active}

abbrev pub stamps : Text → Stamp → Bool
stamps id s = s.item_id == id

-- SearchRepository.RemoveContent
unfoldable pub remove_content : Text → Db → Db
remove_content id db = record db {
  index = select (λ (x : Indexed). not (x.item_id == id)) db.index;
}

-- SearchRepository.IndexContent
unfoldable pub index_content : Text → Text → Db → Db
unfolding remove_content
index_content id content db =
    let db' = remove_content id db in
    record db' { index = record { item_id = id; content = content } ∷ db'.index }

-- OCRRepository.SetQueued
unfoldable pub set_queued : Text → Bool → ℤ → Db → Db
set_queued id false at db = record db { ocr_queue = select (λ q. not (stamps id q)) db.ocr_queue }
set_queued id true at db =
    if any (stamps id) db.ocr_attempts || any (stamps id) db.ocr_queue
    then db
    else record db { ocr_queue = record { item_id = id; at = at } ∷ db.ocr_queue }

-- OCRRepository.MarkAttempted, of an item that is there: ocr_attempts refers to items.
unfoldable pub mark_attempted : Text → ℤ → Db → Db
mark_attempted id at db = record db {
  ocr_attempts = record { item_id = id; at = at } ∷ select (λ q. not (stamps id q)) db.ocr_attempts;
  ocr_queue = select (λ q. not (stamps id q)) db.ocr_queue;
}

-- OCRRepository.ClearAttempt
unfoldable pub clear_attempt : Text → Db → Db
clear_attempt id db = record db { ocr_attempts = select (λ q. not (stamps id q)) db.ocr_attempts }

abbrev pub awaits_ocr : Item → Bool
awaits_ocr i = not (is_folder i.type) && is_active i && is_null i.target_id

join_items : Db → List Stamp → List (Stamp × Item)
unfolding row
join_items db [] = []
join_items db (q ∷ qs) =
    let rest = join_items db qs in
    elim (row db.items q.item_id) [ none ↦ rest | some item ↦ (q, item) ∷ rest ]

queued_first : Stamp × Item → Stamp × Item → Bool
queued_first (p, i) (q, j) =
    lt_int p.at q.at || not (lt_int q.at p.at) && lt_int i.created_at j.created_at

-- OCRRepository.ListPending
unfoldable pub list_pending : Db → ℕ → List Item
unfolding join_items queued_first order_by
list_pending db limit = take limit (
    map (λ (q, i). i)
      (order_by queued_first (select (λ (q, i). awaits_ocr i) (join_items db db.ocr_queue))))
