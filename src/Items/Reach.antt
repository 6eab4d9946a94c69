-- ===== src/Items/Reach.antt =====
-- Any sequence of the operations on items of internal/service/item.go, and of other changes that
-- leave the table `items`: the tables that can be reached are forests.
use denizen.Prelude.{◌≡◌, Option, some, [], Text}
use denizen.Prelude.Int.{ℤ}
use denizen.Model.{Item}
use denizen.Storage.{FilePath}
use denizen.Repo.Items.{row}
use denizen.Items.Sound.{IsSound, HasKeys}
use denizen.Items.Copy.{copy}
use denizen.Items.Copy.Sound.{copy-IsSound}
use denizen.Items.Create.Blank.{create_blank_document}
use denizen.Items.Create.Blank.Sound.{create_blank_document-IsSound}
use denizen.OnlyOffice.{Client}
use denizen.OnlyOffice.Document.{Fetch}
use denizen.OnlyOffice.Callback.{CallbackRequest, callback}
use denizen.Items.Move.{MoveInput}
use denizen.Items.Move.Commit.{move, set_mime_type}
use denizen.Items.Move.Sound.{IsNoFolderShortcut, move-IsSound}
use denizen.Items.Create.Commit.{create_folder, create_shortcut, finalize_upload}
use denizen.Items.Create.Replace.{replace_content}
use denizen.Items.Create.Sound.{
  create_folder-IsSound, create_shortcut-IsSound, finalize_upload-IsSound,
}
use denizen.Items.Trash.Commit.{delete, restore_item, permanently_delete}
use denizen.Items.Trash.Purge.{purge_expired_trash}
use denizen.Items.Trash.Sound.Whole.{
  delete-IsSound, restore_item-IsSound, permanently_delete-IsSound, purge_expired_trash-IsSound,
}
use denizen.Items.Written.{set_mime_type-IsSound, replace_content-IsSound, callback-IsSound}
use denizen.World.{Env, World}

-- One operation of the service on the items, whatever its result.
pub data Step (env : Env) (w : World) : World → Type 0 where
  by_create_folder :
      (caller : Text) (parent_id : Option Text) (name : Text)
      → Step env w (create_folder env caller parent_id name w).1
  by_create_shortcut :
      (caller target_id : Text) (parent_id : Option Text)
      → Step env w (create_shortcut env caller target_id parent_id w).1
  by_finalize_upload :
      (caller : Text) (parent_id : Option Text) (name : Text) (source_path : FilePath) (size : ℤ)
      (mime_type : Text)
      → Step env w (finalize_upload env caller parent_id name source_path size mime_type w).1
  by_create_blank_document :
      (caller : Text) (parent_id : Option Text) (e name : Text)
      → Step env w (create_blank_document env caller parent_id e name w).1
  by_copy :
      (caller id : Text) (parent_id : Option Text)
      → HasKeys w.db.items
      → Step env w (copy env caller id parent_id w).1
  by_callback :
      (client : Client) (fetch : Fetch) (req : CallbackRequest)
      → Step env w (callback env client fetch req w).1
  by_move :
      (caller id : Text) (input : MoveInput)
      → ((i : Item) → row w.db.items id ≡ some i → IsNoFolderShortcut i)
      → Step env w (move env caller id input w).1
  by_replace_content :
      (caller id content : Text) → Step env w (replace_content env caller id content w).1
  by_set_mime_type :
      (caller id mime_type : Text) → Step env w (set_mime_type caller id mime_type w).1
  by_delete : (caller id : Text) → Step env w (delete env caller id w).1
  by_restore : (owner_id id : Text) → Step env w (restore_item env owner_id id w).1
  by_permanently_delete : (owner_id id : Text) → Step env w (permanently_delete env owner_id id w).1
  by_purge : (retention : ℤ) → Step env w (purge_expired_trash env retention w).after
  by_other : (w' : World) → w'.db.items ≡ w.db.items → Step env w w'

-- The states that steps lead to, from one with no item.
pub data Reachable (env : Env) : World → Type 0 where
  start : (w : World) → w.db.items ≡ [] → Reachable env w
  next : {w w' : World} → Reachable env w → Step env w w' → Reachable env w'

Step-IsSound : {env : Env} {w w' : World} → Step env w w' → IsSound w.db.items → IsSound w'.db.items
Step-IsSound {env} {w} (by_create_folder c p n) sound = create_folder-IsSound env c p n w sound
Step-IsSound {env} {w} (by_create_shortcut c t p) sound = create_shortcut-IsSound env c t p w sound
Step-IsSound {env} {w} (by_finalize_upload c p n s z m) sound =
    finalize_upload-IsSound env c p n s z m w sound
Step-IsSound {env} {w} (by_create_blank_document c p e n) sound =
    create_blank_document-IsSound env c p e n w sound
Step-IsSound {env} {w} (by_copy c i p keys) sound = copy-IsSound env c i p w sound keys
Step-IsSound {env} {w} (by_callback client fetch req) sound =
    callback-IsSound env client fetch req w sound
Step-IsSound {env} {w} (by_move c i input real) sound = move-IsSound env c i input w sound real
Step-IsSound {w = w} (by_set_mime_type c i m) sound = set_mime_type-IsSound c i m w sound
Step-IsSound {env} {w} (by_replace_content c i x) sound = replace_content-IsSound env c i x w sound
Step-IsSound {env} {w} (by_delete c i) sound = delete-IsSound env c i w sound
Step-IsSound {env} {w} (by_restore o i) sound = restore_item-IsSound env o i w sound
Step-IsSound {env} {w} (by_permanently_delete o i) sound =
    permanently_delete-IsSound env o i w sound
Step-IsSound {env} {w} (by_purge r) sound = purge_expired_trash-IsSound env r w sound
Step-IsSound (by_other w' same) sound = rw same sound

pub empty-IsSound : IsSound []
unfolding row
empty-IsSound = record {
  forest = λ id i e. cc;
  parents = λ id p i q e f g. cc;
  names = λ id i e. cc;
}

-- In every state that operations on items, and changes that leave the table `items`, lead to from an
-- empty table, the items are a forest whose parents are folders and whose names are single segments of
-- a path, if no step moves a shortcut to a folder, and each copy starts where the rows have different
-- ids.
pub Reachable-IsSound : (env : Env) (w : World) → Reachable env w → IsSound w.db.items
Reachable-IsSound env w (start _ empty) = rw empty empty-IsSound
Reachable-IsSound env w (next {w = w₀} r step) = Step-IsSound step (Reachable-IsSound env w₀ r)
