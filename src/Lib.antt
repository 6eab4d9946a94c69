-- ===== src/Lib.antt =====
-- Denizen, a self-hosted drive: the services behind its HTTP interface, over a model of its tables and
-- of its disk.
--
-- The program is a server in Go. internal/service holds its logic, over internal/repository (SQL
-- statements on SQLite) and internal/storage (files below a data directory). Items form a tree of
-- folders for each user; a shortcut is an item with a target and no bytes; a grant on a folder reaches
-- all that lies below it; a deleted item waits in the trash of its owner.
--
-- Which file models which part:
--   Prelude, Result, Exec: shared helpers. Exec is code that changes a state and may fail: what was
--     written before an error stays written, and only what the source undoes is undone.
--   Model: the rows of internal/model/model.go and the errors of internal/apperr/apperr.go.
--   Text, Extract: the functions on strings, and the decisions of internal/textextract/textextract.go.
--   Storage: the paths and the operations of internal/storage/storage.go, over a list of nodes; Cache is
--     the cache of thumbnails.
--   Repo: internal/repository, one function per statement on the tables, with the constraints that
--     internal/db/migrations declares: keys, references, and one active name in a folder.
--   World: the state of the server (tables, disk, clock, draws) and what it takes from outside.
--   Items: internal/service/item.go. Walk (pathOf, resolveGrant, checkNotSelfOrDescendant), Access,
--     Names, Paths, Content (indexContent), Create, Move, Trash, Lists (favorites and what a folder
--     shows); Forest and Sound hold the invariant, Reach the sequences of operations, Quota the bound of
--     CheckQuota.
--   Auth: internal/service/auth.go. Shares: internal/service/share.go and user_share.go. Users:
--     internal/service/user.go.
--   Items also has Search (with Repo/Search for the statements and Repo/Like for the operator LIKE), Copy,
--     Create/Blank (CreateBlankDocument), Written (the writes of content), Scan (RunOCRSweep,
--     ReindexAllContent), Thumb (Thumbnail, with internal/thumbnail/thumbnail.go), and Shared
--     (SharedUsernames).
--   Token: internal/token/token.go. Middleware: internal/middleware/auth.go. Auth/Bearer joins the two
--     with the sessions.
--   OnlyOffice: internal/onlyoffice/onlyoffice.go and internal/handler/onlyoffice.go; the body of a
--     callback is a tree of JSON.
--   Uploads: the hooks of internal/upload/upload.go and the collection of internal/upload/gc.go.
--   Migrations: the runner of internal/db/db.go.
--   Tests: a small drive, on which the theorems are applied.
--
-- An operation is split where the source goes from reading to writing: `prepare_move`, `find_place` or
-- `check_register` return what the source has read and checked, and `move`, `create_folder` or
-- `register` go on with the writes in the order of the source. Each statement is one step; statements
-- of two requests that run at the same time are not interleaved, but for `register_beside`, where another
-- request runs before an invite is marked.
--
-- Walks and recursions run on fuel: as many steps as there are rows, and one. `diverges` is the result
-- of one that has not ended by then. In a forest the walks up end within that, and so does the descent
-- of a search.
--
-- Outside: the hash of a password, SHA-256, random draws, the free space, the blank templates, and the
-- text that outside tools find in a file are fields of `Env`, any functions. The JWT library, LIKE and
-- the full-text engine of SQLite, the HTTP client that fetches a saved document, the tools that scan or
-- shrink an image, the scripts of the migrations, and the MIME type for an extension are arguments of
-- what uses them. Where a theorem relies on the JWT library, it says so by `ReadsBack`: what was signed
-- is read back. Where one relies on LIKE, it says so by `ReadsPatterns`: LIKE is as documented for UTF-8
-- with no NUL byte and none of the characters U+FFC0 to U+FFFF, and for a pattern of no more than the
-- 50,000 bytes that SQLite takes. The full-text
-- engine may refuse an expression. That SQLite or the disk fail for a reason of their own is not
-- modelled.
--
-- Not modelled: the extraction of text and the thumbnails beyond their decisions, the
-- handlers other than those of OnlyOffice and the router, the configuration, the pragmas of db.Open, and
-- the web interface.
pub mod Prelude
pub mod Model
pub mod Result
pub mod Exec
pub mod Text
pub mod Storage
pub mod Repo
pub mod World
pub mod Items
pub mod Auth
pub mod Shares
pub mod Users
pub mod Token
pub mod Middleware
pub mod OnlyOffice
pub mod Migrations
pub mod Uploads
pub mod Tests
pub mod Extract
