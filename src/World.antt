-- ===== src/World.antt =====
-- The state of the server, and what it takes from outside: the data directory, settings, random
-- draws, hashes, the free space, and the text that the extraction tools find in a file.
use denizen.Prelude.{ℕ, ◌+◌, Bool, Option, Text}
use denizen.Prelude.Int.{ℤ}
use denizen.Model.{Db}
use denizen.Result.{Result, ok, err}
use denizen.Exec.{Exec}
use denizen.Storage.{FilePath}
use denizen.Storage.Disk.{Disk}

pub record Env : Type 0 where
  pub data_dir : FilePath
  -- The n-th id of idgen.New, and the n-th raw token of token.NewOpaque.
  pub id : ℕ → Text
  pub opaque : ℕ → Text
  -- SHA-256 in hexadecimal, of a token and of the bytes of a file.
  pub sha256 : Text → Text
  -- bcrypt: the hash of a password, if it has one, and the comparison with a hash.
  pub bcrypt : Text → Result Text
  pub bcrypt_matches : Text → Text → Bool
  -- The access token that the JWT library signs for a user, an admin or not, at a time.
  pub access_token : Text → Bool → ℤ → Result Text
  -- Store.FreeBytes, as an int64.
  pub free_bytes : Disk → ℤ
  -- textextract.Extract for an extension and the bytes of a file.
  pub extract : Text → Text → Option Text
  -- The bytes of the files of internal/blanktemplates, by their extension.
  pub template : Text → Text
  pub default_quota : ℤ
  pub refresh_ttl : ℤ

pub record World : Type 0 where
  pub db : Db
  pub disk : Disk
  -- The clock, in Unix seconds.
  pub now : ℤ
  -- How many random values were drawn.
  pub drawn : ℕ
  -- ItemService.ocrSweeping
  pub ocr_sweeping : Bool

abbrev pub Service : Type 0 → Type 0
Service A = Exec World A

-- A statement that changes the tables, or fails and changes nothing.
abbrev pub exec_sql : (Db → Result Db) → Service (Unit {0})
exec_sql f w = elim (f w.db) [ ok db ↦ (ok tt, record w { db = db }) | err e ↦ (err e, w) ]

-- A statement that does not fail.
abbrev pub exec_sql' : (Db → Db) → Service (Unit {0})
exec_sql' f w = (ok tt, record w { db = f w.db })

-- A call of the store.
abbrev pub on_disk : {A : Type 0} → Exec Disk A → Service A
on_disk m w = let (r, d) = m w.disk in (r, record w { disk = d })

-- A call whose error is dropped: `_ = s.storage.Remove(path)`.
abbrev pub quietly : Exec Disk (Unit {0}) → World → World
quietly m w = record w { disk = (m w.disk).1 }

-- idgen.New
abbrev pub new_id : Env → Service Text
new_id env w = (ok (env.id w.drawn), record w { drawn = w.drawn + 1 })

-- token.NewOpaque: the raw token
abbrev pub new_opaque : Env → Service Text
new_opaque env w = (ok (env.opaque w.drawn), record w { drawn = w.drawn + 1 })

-- A step that reports no error.
abbrev pub quiet : (World → World) → Service (Unit {0})
quiet f w = (ok tt, f w)
