-- ===== src/Items/Scan/Drain.antt =====
-- What a sweep leaves behind: no candidate awaits a scan any more.
use denizen.Prelude.{
  ℕ, ◌≡◌, refl, sym, ap, ◌∙◌, arith, Bool, true, not, List, [], ◌∷◌, Text, text_eq, All, any,
  select, select-select, select_same, select_all, any-select, length, Option-cases, inl, inr,
}
use denizen.Prelude.Int.{ℤ}
use denizen.Model.{Item, Stamp, User, Db}
use denizen.Result.{ok}
use denizen.Repo.Index as Index
use denizen.Repo.Index.{stamps}
use denizen.Repo.Users as Users
use denizen.World.{Env, World}
use denizen.Items.Paths.{username}
use denizen.Items.Scan.{Scanner, Names, name_read, owner_name, scan_item, sweep_from, run_ocr_sweep}

-- Each owner has a row.
abbrev pub HasOwners : Db → List Item → Type 0
HasOwners db items = All (λ (i : Item). (u : User) × (Users.get_by_id db i.owner_id ≡ ok u)) items

-- The stamp is that of one of the items.
abbrev pub is_for : List Item → Stamp → Bool
is_for items q = any (λ (i : Item). stamps i.id q) items

marked_here :
    (id other : Text) (now : ℤ) (rows : List Stamp)
    → any (stamps other) rows ≡ true
    → any (stamps other) (record { item_id = id; at = now } ∷ select (λ q. not (stamps id q)) rows)
      ≡ true
marked_here id other now rows e = elim (text_eq.dec id other) [
  | yes same ↦ ground (arith, same)
  | no apart ↦
      let kept =
        any-select (stamps other) (λ q. not (stamps id q)) rows (λ q h. ground (arith, h, apart))
          e in
      ground (arith, kept)
]

module _ (env : Env) (scanner : Scanner) (item : Item) (name : Text) (w : World) where
  scan_item-queue :
      (scan_item env scanner item name w).db.ocr_queue
      ≡ select (λ q. not (stamps item.id q)) w.db.ocr_queue
  unfolding scan_item Index.mark_attempted Index.index_content Index.remove_content
  scan_item-queue = ground arith

  scan_item-attempts :
      (scan_item env scanner item name w).db.ocr_attempts
      ≡ record { item_id = item.id; at = w.now }
        ∷ select (λ q. not (stamps item.id q)) w.db.ocr_attempts
  unfolding scan_item Index.mark_attempted Index.index_content Index.remove_content
  scan_item-attempts = ground arith

  scan_item-users : (scan_item env scanner item name w).db.users ≡ w.db.users
  unfolding scan_item Index.mark_attempted Index.index_content Index.remove_content
  scan_item-users = ground arith

  scan_item-items : (scan_item env scanner item name w).db.items ≡ w.db.items
  unfolding scan_item Index.mark_attempted Index.index_content Index.remove_content
  scan_item-items = ground arith

owner_name_found :
    (db : Db) (names : Names) (owner_id : Text) (u : User)
    → Users.get_by_id db owner_id ≡ ok u
    → (name : Text) × (names' : Names) × (owner_name db names owner_id ≡ ok (name, names'))
unfolding owner_name username
owner_name_found db names owner_id u found = elim (Option-cases (name_read names owner_id)) [
  | inl missing ↦ (u.username, (owner_id, u.username) ∷ names, rw (owner_name, missing, found) refl)
  | inr known ↦ (known.0, names, rw (owner_name, known.1) refl)
]

HasOwners-same :
    (db db' : Db) (items : List Item)
    → db'.users ≡ db.users
    → HasOwners db items
    → HasOwners db' items
unfolding Users.get_by_id
HasOwners-same db db' [] same owned = tt
HasOwners-same db db' (item ∷ items) same owned =
    ((owned.0.0, rw same owned.0.1), HasOwners-same db db' items same owned.1)

-- The items left the queue and are marked, all that was marked before still is, and the table of items
-- is as it was.
abbrev pub IsDrained : List Item → World → World → Type 0
IsDrained items w w' =
    (w'.db.ocr_queue ≡ select (λ q. not (is_for items q)) w.db.ocr_queue)
    × All (λ (i : Item). any (stamps i.id) w'.db.ocr_attempts ≡ true) items
    × ((id : Text)
        → any (stamps id) w.db.ocr_attempts ≡ true
        → any (stamps id) w'.db.ocr_attempts ≡ true)
    × (w'.db.items ≡ w.db.items)

none_for : (rows : List Stamp) → rows ≡ select (λ q. not (is_for [] q)) rows
none_for rows = sym (select_all (λ q. not (is_for [] q)) rows (λ q. refl))

module _ (env : Env) (scanner : Scanner) where
  IsDrained-cons :
      (item : Item) (items : List Item) (name : Text) (w w' : World)
      → IsDrained items (scan_item env scanner item name w) w'
      → IsDrained (item ∷ items) w w'
  IsDrained-cons item items name w w' (queue, marked, kept, same) =
      let stays = scan_item-attempts env scanner item name w in
      (
        queue
            ∙ (ap (select (λ q. not (is_for items q))) (scan_item-queue env scanner item name w)
                ∙ (select-select (λ q. not (is_for items q)) (λ q. not (stamps item.id q))
                      w.db.ocr_queue
                    ∙ select_same _ (λ q. not (is_for (item ∷ items) q)) w.db.ocr_queue
                        (λ q. ground arith))),
        (kept item.id (rw stays (ground arith)), marked),
        λ id e. kept id (rw stays (marked_here item.id id w.now w.db.ocr_attempts e)),
        same ∙ scan_item-items env scanner item name w,
      )

  -- The loop, from any names that were read.
  sweep_from-IsDrained :
      (items : List Item) (names : Names) (w : World)
      → HasOwners w.db items
      → (w' : World) × (sweep_from env scanner items names w ≡ (ok tt, w')) × IsDrained items w w'
  unfolding sweep_from
  sweep_from-IsDrained [] names w owned = (w, refl, (none_for w.db.ocr_queue, tt, λ id e. e, refl))
  sweep_from-IsDrained (item ∷ items) names w owned =
      let (name, names', read) = owner_name_found w.db names item.owner_id owned.0.0 owned.0.1 in
      let scan = scan_item env scanner item name w in
      let users = scan_item-users env scanner item name w in
      let (w', ends, drained) =
        sweep_from-IsDrained items names' scan (HasOwners-same w.db scan.db items users owned.1) in
      (w', rw (sweep_from, read) ends, IsDrained-cons item items name w w' drained)

  -- A sweep ends with the number of its candidates, whatever the scans find or fail to find: each
  -- candidate leaves the queue and is marked, so that it is not scanned again, all that was marked
  -- before still is, and the items are as they were; if the owners of the candidates have rows.
  pub run_ocr_sweep-IsDrained :
      (batch_size : ℕ) (w : World)
      → let candidates = Index.list_pending w.db batch_size in
        HasOwners w.db candidates
        → (w' : World) × (run_ocr_sweep env scanner batch_size w ≡ (ok (length candidates), w'))
          × IsDrained candidates w w'
  unfolding run_ocr_sweep
  run_ocr_sweep-IsDrained batch_size w owned =
      let (w', ends, drained) =
        sweep_from-IsDrained (Index.list_pending w.db batch_size) [] w owned in
      (w', rw ends refl, drained)
