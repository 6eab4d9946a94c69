-- ===== src/Items/Written.antt =====
-- SetMimeType, ReplaceContent and the callback of an editor keep the invariant of the table `items`.
use denizen.Prelude.{◌≡◌, refl, some, Text, inl, inr, Bool-cases, ◌⊎◌, length}
use denizen.Prelude.Int.{ℤ, pos}
use denizen.Model.{Item, Db}
use denizen.Result.{Result, ok, err, Result-cases}
use denizen.Exec.{pure}
use denizen.Exec.Keeps.{Keeps, Keeps->>=}
use denizen.Text.{trim_space}
use denizen.Storage.{FilePath, join, staging_root}
use denizen.Storage.Disk as Disk
use denizen.Repo.Items.{update_mime_type, update_content, replaced}
use denizen.Repo.Users.{increment_storage_used}
use denizen.Repo.Index.{clear_attempt}
use denizen.Items.Sound.{IsSound}
use denizen.OnlyOffice.{Client}
use denizen.OnlyOffice.Document.{Fetch, saved_document}
use denizen.OnlyOffice.Callback.{
  CallbackRequest, CallbackBody, callback, act, checks, acknowledge, asks_to_save,
  save_callback_document,
}
use denizen.Items.Access.{check_quota}
use denizen.Items.Move.{prepare_mime_type}
use denizen.Items.Move.Commit.{set_mime_type}
use denizen.Items.Content.{checksum, index_content-items, trigger_ocr_sweep}
use denizen.Items.Create.{prepare_replace, growth}
use denizen.Items.Create.Replace.{install, stage_and_install, replace_content}
use denizen.Items.Trash.Sound.{HasSoundItems, updated-IsSound, exec_sql-Keeps}
use denizen.World.{Env, World, exec_sql}

update_mime_type-IsSound :
    (id mime_type : Text) (db db' : Db)
    → IsSound db.items
    → update_mime_type id mime_type db ≡ ok db'
    → IsSound db'.items
unfolding update_mime_type
update_mime_type-IsSound id mime_type =
    updated-IsSound (λ i. record i { mime_type = some mime_type }) (λ i. refl) (λ i. refl)
      (λ i. refl) (λ i. refl) id

update_content-IsSound :
    (id : Text) (size : ℤ) (sum : Text) (now : ℤ) (db db' : Db)
    → IsSound db.items
    → update_content id size sum now db ≡ ok db'
    → IsSound db'.items
unfolding update_content
update_content-IsSound id size sum now =
    updated-IsSound (replaced size sum now) (λ i. refl) (λ i. refl) (λ i. refl) (λ i. refl) id

-- SetMimeType keeps the invariant of the table `items`, whether it succeeds or fails.
pub set_mime_type-IsSound :
    (caller id mime_type : Text) (w : World)
    → IsSound w.db.items
    → IsSound (set_mime_type caller id mime_type w).1.db.items
unfolding set_mime_type
set_mime_type-IsSound caller id mime_type w sound =
    elim (Result-cases (prepare_mime_type w.db caller id mime_type)) [
      | inr failed ↦ rw failed.1 sound
      | inl planned ↦ rw planned.1 (
          Keeps->>= HasSoundItems (exec_sql (update_mime_type id (trim_space mime_type)))
            (λ _. pure (record planned.0 { mime_type = some (trim_space mime_type) }))
            (exec_sql-Keeps (update_mime_type id (trim_space mime_type))
              (update_mime_type-IsSound id (trim_space mime_type)))
            (λ _ s p. p) w sound)
    ]

-- What ReplaceContent leaves of the table: the old rows, or those that the update has let in.
install_items :
    (env : Env) (id : Text) (item : Item) (path stage : FilePath) (content : Text) (w : World)
    → ((install env id item path stage content w).1.db.items ≡ w.db.items)
      ⊎ ((sum : Text) × (db' : Db) × (update_content id (pos (length content)) sum w.now w.db
            ≡ ok db')
          × ((install env id item path stage content w).1.db.items ≡ db'.items))
unfolding install checksum increment_storage_used clear_attempt trigger_ocr_sweep
install_items env id item path stage content w =
    elim (Result-cases
      (check_quota w.db (env.free_bytes w.disk) item.owner_id (growth item content))) [
        | inr over ↦ inl (rw over.1)
        | inl fits ↦ elim (Result-cases (Disk.read_file stage w.disk)) [
          | inr unread ↦ inl (rw (fits.1, unread.1))
          | inl bytes ↦ elim (Result-cases (Disk.rename stage path w.disk).0) [
            | inr stuck ↦ inl (rw (fits.1, bytes.1, stuck.1))
            | inl moved ↦
                elim (Result-cases
                  (update_content id (pos (length content)) (env.sha256 bytes.0) w.now w.db)) [
                    | inr refused ↦ inl (rw (fits.1, bytes.1, moved.1, refused.1))
                    | inl made ↦ inr (
                      env.sha256 bytes.0,
                      made.0,
                      made.1,
                      rw (fits.1, bytes.1, moved.1, made.1, index_content-items),
                    )
                  ]
          ]
        ]
      ]

install-Keeps :
    (env : Env) (id : Text) (item : Item) (path stage : FilePath) (content : Text)
    → Keeps HasSoundItems (install env id item path stage content)
install-Keeps env id item path stage content w sound =
    elim (install_items env id item path stage content w) [
      | inl same ↦ rw same sound
      | inr (sum, db', made, same) ↦
          rw same (update_content-IsSound id (pos (length content)) sum w.now w.db db' sound made)
    ]

stage-Keeps :
    (env : Env) (id : Text) (item : Item) (path : FilePath) (content : Text)
    → Keeps HasSoundItems (stage_and_install env id item path content)
unfolding stage_and_install
stage-Keeps env id item path content w sound =
    elim (Result-cases (Disk.create_folder (staging_root env.data_dir) w.disk).0) [
      | inr failed ↦ rw failed.1 sound
      | inl made ↦
          elim (Result-cases
            (Disk.write_file (join (staging_root env.data_dir) (env.id w.drawn)) content
              (Disk.create_folder (staging_root env.data_dir) w.disk).1).0) [
                | inr failed ↦ rw (made.1, failed.1) sound
                | inl wrote ↦
                    rw (made.1, wrote.1)
                      (install-Keeps env id item path
                        (join (staging_root env.data_dir) (env.id w.drawn)) content _ sound)
              ]
    ]

-- ReplaceContent keeps the invariant of the table `items`, whether it succeeds or fails.
pub replace_content-IsSound :
    (env : Env) (caller id content : Text) (w : World)
    → IsSound w.db.items
    → IsSound (replace_content env caller id content w).1.db.items
unfolding replace_content
replace_content-IsSound env caller id content w sound =
    elim (Result-cases (prepare_replace env w.db caller id)) [
      | inr failed ↦ rw failed.1 sound
      | inl planned ↦
          let ((item, path), e) = planned in rw e (stage-Keeps env id item path content w sound)
    ]

save-Keeps :
    (env : Env) (fetch : Fetch) (item_id url : Text)
    → Keeps HasSoundItems (save_callback_document env fetch item_id url)
unfolding save_callback_document
save-Keeps env fetch item_id url w sound =
    elim (Result-cases (saved_document fetch w.db item_id url)) [
      | inr failed ↦ rw failed.1 sound
      | inl found ↦
          let ((item, content), e) = found in
          rw e (replace_content-IsSound env item.owner_id item_id content w sound)
    ]

acknowledge-after : (r : Result Item × World) → (acknowledge r).1 ≡ r.1
acknowledge-after (ok _, w) = refl
acknowledge-after (err _, w) = refl

act-Keeps :
    (env : Env) (fetch : Fetch) (id : Text) (payload : CallbackBody)
    → Keeps HasSoundItems (act env fetch id payload)
unfolding act
act-Keeps env fetch id payload w sound = elim (Bool-cases (asks_to_save payload.status)) [
  | inr ignored ↦ rw ignored sound
  | inl save ↦
      rw (save, acknowledge-after (save_callback_document env fetch id payload.url w))
        (save-Keeps env fetch id payload.url w sound)
]

-- The callback of an editor keeps the invariant of the table `items`, whether it succeeds or fails.
pub callback-IsSound :
    (env : Env) (client : Client) (fetch : Fetch) (req : CallbackRequest) (w : World)
    → IsSound w.db.items
    → IsSound (callback env client fetch req w).1.db.items
unfolding callback
callback-IsSound env client fetch req w sound = elim (Result-cases (checks client req w)) [
  | inr refused ↦ rw refused.1 sound
  | inl payload ↦ rw payload.1 (act-Keeps env fetch req.path_id payload.0 w sound)
]
