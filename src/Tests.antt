-- ===== src/Tests.antt =====
-- A small drive, and the theorems of the library at work on it.
pub mod Drive
pub mod Access
pub mod Accounts
pub mod Tokens
pub mod Editors
pub mod Searches
pub mod Copies
pub mod Server
pub mod Scans
pub mod Thumbs
use denizen.Prelude.{
  ◌≡◌, refl, ap, ℕ, zero, suc, ◌+◌, Bool, true, false, Option, none, some, List, [], ◌∷◌, ◌++◌,
  Text, text, ◌==◌, text_eq, arith, ◌⊎◌, inl, inr, ◌≢◌, ◌≤◌, ◌<◌, ◌↔◌, if◌then◌else◌,
}
use denizen.Prelude.Int.{ℤ, pos}
use denizen.Model.{
  User, Invite, RefreshToken, Item, ItemType, file, folder, Share, UserShare, view, edit, Db,
  empty_db, Error,
}
use denizen.Result.{Result, ok, err}
use denizen.Text.{contains_any}
use denizen.Storage.{FilePath, join, user_files_root}
use denizen.Storage.Disk.{Disk, directory, bytes}
use denizen.Storage.Laws.{IsSafe, join-step_back}
use denizen.Repo.Items.{row, name_exists, update_name_parent}
use denizen.World.{Env, World}
use denizen.Items.Sound.{IsSound}
use denizen.Items.Sound.Created.{IsSound-cons}
use denizen.Items.Names.{validate_name}
use denizen.Items.Names.Laws.{validate_name-IsSafe}
use denizen.Items.Reach.{empty-IsSound}

abbrev pub env : Env
env = record {
  data_dir = text "data" ∷ [];
  id = λ n. b'#' ∷ n ∷ [];
  opaque = λ n. b'%' ∷ n ∷ [];
  sha256 = λ s. b'h' ∷ s;
  bcrypt = λ p. ok (b'$' ∷ p);
  bcrypt_matches = λ h p. h == b'$' ∷ p;
  access_token = λ id admin now. ok id;
  free_bytes = λ d. pos 1000;
  extract = λ e content. some content;
  template = λ e. text "blank";
  default_quota = pos 100;
  refresh_ttl = pos 60;
}

abbrev pub ann : User
ann = record {
  id = text "ann";
  username = text "ann";
  password_hash = b'$' ∷ text "password";
  is_admin = true;
  quota_bytes = pos 100;
  storage_used_bytes = pos 3;
  disabled = false;
  created_at = pos 0;
}

abbrev pub bob : User
bob = record ann { id = text "bob"; username = text "bob"; is_admin = false }

-- A folder in the root of ann's drive.
abbrev pub docs : Item
docs = record {
  id = text "d";
  owner_id = text "ann";
  parent_id = none;
  name = text "docs";
  type = folder;
  size_bytes = pos 0;
  mime_type = none;
  checksum = none;
  target_id = none;
  deleted_at = none;
  created_at = pos 0;
  updated_at = pos 0;
}

-- A file in that folder.
abbrev pub note : Item
note = record docs {
  id = text "f";
  parent_id = some (text "d");
  name = text "a.txt";
  type = file;
  size_bytes = pos 3;
}

-- A file in the trash.
abbrev pub old : Item
old = record note { id = text "o"; name = text "old.txt"; deleted_at = some (pos 1) }

-- A shortcut to the folder.
abbrev pub link : Item
link = record docs { id = text "s"; name = text "link"; target_id = some (text "d") }

abbrev pub grant : UserShare
grant = record {
  id = text "g";
  item_id = text "d";
  owner_id = text "ann";
  shared_with_id = text "bob";
  permission = view;
  created_at = pos 0;
}

abbrev pub invite : Invite
invite = record {
  id = text "i";
  code = text "code";
  created_by = text "ann";
  grants_admin = false;
  quota_bytes = none;
  expires_at = pos 90;
  used_at = none;
  used_by = none;
  created_at = pos 0;
}

abbrev pub token : RefreshToken
token = record {
  id = text "t";
  user_id = text "ann";
  token_hash = text "hraw";
  expires_at = pos 90;
  revoked_at = none;
  created_at = pos 0;
}

abbrev pub db : Db
db = record empty_db {
  users = ann ∷ bob ∷ [];
  invites = invite ∷ [];
  refresh_tokens = token ∷ [];
  items = link ∷ old ∷ note ∷ docs ∷ [];
  grants = grant ∷ [];
}

abbrev pub root : FilePath
root = user_files_root (text "data" ∷ []) (text "ann")

abbrev pub world : World
world = record {
  db = db;
  disk =
      (join root (text "docs/a.txt"), bytes (text "abc"))
      ∷ (join root (text "docs"), directory)
      ∷ (root, directory)
      ∷ (text "upload" ∷ [], bytes (text "new"))
      ∷ [];
  now = pos 50;
  drawn = 0;
  ocr_sweeping = false;
}

some-inj : {A : Type 0} {a b : A} → some a ≡ some b → a ≡ b
some-inj e = cc

-- The items of the drive are a forest.
pub db-IsSound : IsSound db.items
unfolding row text_eq contains_any
db-IsSound =
    let in_docs : (items : List Item)
        → row items (text "d") ≡ some docs
        → (p : Text) → note.parent_id ≡ some p
        → (q : Item) × (row items p ≡ some q) × (q.type ≡ folder) =
      λ items e p f. (docs, cc (ap (row items) (some-inj f)), refl) in
    IsSound-cons link (old ∷ note ∷ docs ∷ []) refl
      (IsSound-cons old (note ∷ docs ∷ []) refl
        (IsSound-cons note (docs ∷ []) refl
          (IsSound-cons docs [] refl empty-IsSound (λ p e. cc)
            (record { nonempty = cc; not_dot = cc; not_dots = cc; no_slash = refl }))
          (in_docs (docs ∷ []) refl)
          (record { nonempty = cc; not_dot = cc; not_dots = cc; no_slash = refl }))
        (in_docs (note ∷ docs ∷ []) refl)
        (record { nonempty = cc; not_dot = cc; not_dots = cc; no_slash = refl }))
      (λ p e. cc) (record { nonempty = cc; not_dot = cc; not_dots = cc; no_slash = refl })
