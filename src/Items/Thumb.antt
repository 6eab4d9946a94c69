-- ===== src/Items/Thumb.antt =====
-- Thumbnail of internal/service/item.go, with Supported and Generate of internal/thumbnail/thumbnail.go.
-- The libraries and tools that turn the bytes of an image or a PDF into those of a small JPEG are
-- parameters.
pub mod Again
use denizen.Prelude.{
  Bool, true, false, ◌||◌, not, Option, none, some, List, [], ◌∷◌, Text, text, ◌==◌, text_eq,
  contains, if◌then◌else◌,
}
use denizen.Model.{Item, Db, not_found}
use denizen.Result.{Result, ok, err, ◌>>=◌, ◌>>◌, fail_if}
use denizen.Exec.{pure, read}
use denizen.Storage.{FilePath}
use denizen.Storage.Cache.{thumbnail_path, write_cache_file}
use denizen.Storage.Disk.{Disk, read_file}
use denizen.Extract.{ext_for}
use denizen.World.{Env, World, Service, quietly}
use denizen.Items.Access.{resolve_content_item}
use denizen.Items.Paths.{file_path}

-- What generateFromImage and generateFromPDF make of the bytes of a file.
pub record Renderer : Type 0 where
  pub of_image : Text → Option Text
  pub of_pdf : Text → Option Text

-- ImageExts
abbrev image_exts : List Text
image_exts = text "jpg" ∷ text "jpeg" ∷ text "png" ∷ []

-- thumbnail.Supported
unfoldable pub has_thumbnail : Text → Bool
has_thumbnail e = contains image_exts e || e == text "pdf"

abbrev rendered : Option Text → Result Text
rendered none = err not_found
rendered (some jpeg) = ok jpeg

-- thumbnail.Generate, with the error that Thumbnail returns for any of its errors
unfoldable pub generate : Renderer → Text → Result Text → Result Text
generate renderer e (err _) = err not_found
generate renderer e (ok content) =
    if contains image_exts e
    then rendered (renderer.of_image content)
    else if e == text "pdf"
    then rendered (renderer.of_pdf content)
    else err not_found

unfoldable pub find_image : Db → Text → Text → Result Item
unfolding resolve_content_item has_thumbnail ext_for
find_image db caller id = do
  item ← resolve_content_item db caller id
  fail_if (not (has_thumbnail (ext_for item.name))) not_found
  ok item

-- The thumbnail of an item, from its bytes
unfoldable pub render : Env → Renderer → Item → World → Result Text
unfolding file_path generate read_file ext_for
render env renderer item w = do
  path ← file_path env w.db item
  generate renderer (ext_for item.name) (read_file path w.disk)

abbrev pub cache_path : Env → Item → FilePath
cache_path env item = thumbnail_path env.data_dir item.id item.updated_at

-- Where the cache has nothing: the thumbnail is made, and written to the cache, whether that works or not.
unfoldable pub make_thumbnail : Env → Renderer → Text → Item → Service Text
unfolding render write_cache_file
make_thumbnail env renderer drawn item w = elim (render env renderer item w) [
  | err e ↦ (err e, w)
  | ok jpeg ↦ (ok jpeg, quietly (write_cache_file drawn (cache_path env item) jpeg) w)
]

unfoldable pub cached_or_made : Env → Renderer → Text → Item → Service Text
unfolding make_thumbnail
cached_or_made env renderer drawn item w = elim (read_file (cache_path env item) w.disk) [
  | ok cached ↦ (ok cached, w)
  | err e ↦ make_thumbnail env renderer drawn item w
]

-- Thumbnail, with what os.CreateTemp draws
unfoldable pub thumbnail : Env → Renderer → Text → Text → Text → Service Text
unfolding find_image cached_or_made
thumbnail env renderer drawn caller id w = elim (find_image w.db caller id) [
  | err e ↦ (err e, w)
  | ok item ↦ cached_or_made env renderer drawn item w
]
