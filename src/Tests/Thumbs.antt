-- ===== src/Tests/Thumbs.antt =====
-- A thumbnail on the small drive.
use denizen.Prelude.{◌≡◌, refl, some, none, ◌∷◌, text, text_eq}
use denizen.Model.{Item}
use denizen.Result.{ok}
use denizen.Items.Thumb.{Renderer, thumbnail}
use denizen.Items.Thumb.Again.{thumbnail_again}
use denizen.World.{World}
use denizen.Items.Thumb.{find_image}
use denizen.Items.Walk.{resolve_grant, path_of}
use denizen.Repo.Items.{get_by_id}
use denizen.Repo.Users as Users
use denizen.Repo.Shares.{find_grant}
use denizen.Storage.{join, dir, path_eq, user_files_root}
use denizen.Storage.Cache.{thumbnail_path}
use denizen.Storage.Disk.{bytes, mkdir_all, write_new, os_rename}
use denizen.Text.{ext, split_slash, decimal_int}
use denizen.Tests.{env, note, db, world, root}

abbrev renderer : Renderer
renderer = record { of_image = λ content. some (b'j' ∷ content); of_pdf = λ content. none }

abbrev photo : Item
photo = record note { id = text "p"; name = text "a.png" }

abbrev pictures : World
pictures = record world {
  db = record db { items = photo ∷ db.items };
  disk = (join root (text "docs/a.png"), bytes (text "abc")) ∷ world.disk;
}

thumbnail_again_example :
    thumbnail env renderer
      (text "2")
      (text "bob")
      (text "p")
      (thumbnail env renderer (text "1") (text "ann") (text "p") pictures).1
    ≡ (ok (text "jabc"), (thumbnail env renderer (text "1") (text "ann") (text "p") pictures).1)
unfolding thumbnail find_image get_by_id text_eq ext resolve_grant find_grant mkdir_all dir
    thumbnail_path join split_slash decimal_int path_eq user_files_root write_new os_rename
    Users.get_by_id path_of
thumbnail_again_example =
    thumbnail_again env renderer (text "1") (text "2") (text "ann") (text "bob") (text "p") photo
      (text "jabc") pictures (thumbnail env renderer (text "1") (text "ann") (text "p") pictures).1
      refl refl (λ e h. refl) refl
