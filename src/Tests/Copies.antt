-- ===== src/Tests/Copies.antt =====
-- Copy on the small drive.
use denizen.Prelude.{refl, none, text, text_eq}
use denizen.Repo.Items.{row}
use denizen.Items.Sound.{HasKeys}
use denizen.Items.Copy.{copy_real}
use denizen.Items.Copy.Rows.{IsCopied}
use denizen.Items.Copy.Sound.{copy_real-IsCopied}
use denizen.Tests.{env, docs, db, world, db-IsSound}

db-keys : HasKeys db.items
unfolding row text_eq
db-keys = (refl, (refl, (refl, (refl, tt))))

copy_real-IsCopied_example :
    IsCopied db.items (copy_real env (text "ann") docs none world).1.db.items
unfolding row text_eq
copy_real-IsCopied_example =
    copy_real-IsCopied env (text "ann") (text "d") docs none world db-IsSound db-keys refl
