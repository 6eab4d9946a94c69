-- ===== src/Items/Thumb/Again.antt =====
-- The cache of thumbnails: what a call returns, the next one finds.
use denizen.Prelude.{◌≡◌, refl, ap, ◌∙◌, sym, Text, inl, inr}
use denizen.Model.{Item, Error}
use denizen.Result.{Result, ok, err, Result-cases}
use denizen.Storage.Cache.{write_cache_file, write_cache_file-read_file}
use denizen.Storage.Disk.{read_file}
use denizen.World.{Env, World}
use denizen.Items.Thumb.{
  Renderer, find_image, render, cache_path, make_thumbnail, cached_or_made, thumbnail,
}

-- The write to the cache works, where one is made.
abbrev pub Caches : Env → Text → Item → Text → World → Type 0
Caches env drawn item jpeg w =
    (e : Error)
    → read_file (cache_path env item) w.disk ≡ err e
    → (write_cache_file drawn (cache_path env item) jpeg w.disk).0 ≡ ok tt

same_text : (a b : Text) (w w' : World) → ◌≡◌ {A = Result Text × World} (ok a, w) (ok b, w') → a ≡ b
same_text a b w w' h = ap (λ (r : Result Text × World). elim r.0 [ ok x ↦ x | err e ↦ a ]) h

module _ (env : Env) (renderer : Renderer) (drawn : Text) (item : Item) (jpeg : Text)
    (w w' : World) where
  -- After a call the cache holds what the call has returned, and the tables are as they were.
  holds_after :
      cached_or_made env renderer drawn item w ≡ (ok jpeg, w')
      → Caches env drawn item jpeg w
      → (read_file (cache_path env item) w'.disk ≡ ok jpeg) × (w'.db ≡ w.db)
  unfolding cached_or_made make_thumbnail
  holds_after h works = elim (Result-cases (read_file (cache_path env item) w.disk)) [
    | inl cached ↦
        let returned = rw (cached_or_made, cached.1) at h in
        let same : w ≡ w' = ap (λ (r : Result Text × World). r.1) returned in
        (
          rw (← same) (cached.1 ∙ ap ok (same_text cached.0 jpeg w w' returned)),
          ap (λ (v : World). v.db) (sym same),
        )
    | inr missing ↦ elim (Result-cases (render env renderer item w)) [
      | inr failed ↦ cc (rw (cached_or_made, missing.1, make_thumbnail, failed.1) at h)
      | inl made ↦
          let returned = rw (cached_or_made, missing.1, make_thumbnail, made.1) at h in
          let written = write_cache_file drawn (cache_path env item) made.0 w.disk in
          let e = same_text made.0 jpeg (record w { disk = written.1 }) w' returned in
          let same : record w { disk = written.1 } ≡ w' =
            ap (λ (r : Result Text × World). r.1) returned in
          let wrote : written.0 ≡ ok tt = rw e (works missing.0 missing.1) in
          let held =
            write_cache_file-read_file drawn (cache_path env item) made.0 w.disk written.1
              (ap (λ (r : Result (Unit {0})). (r, written.1)) wrote) in
          (rw (← same) (held ∙ ap ok e), ap (λ (v : World). v.db) (sym same))
    ]
  ]

-- A thumbnail that was returned once is what the next call returns, to whoever may read the item, and
-- that call changes nothing, if the write to the cache has worked where one was made.
pub thumbnail_again :
    (env : Env) (renderer : Renderer) (drawn later caller other id : Text) (item : Item)
    (jpeg : Text) (w w' : World)
    → find_image w.db caller id ≡ ok item
    → find_image w.db other id ≡ ok item
    → Caches env drawn item jpeg w
    → thumbnail env renderer drawn caller id w ≡ (ok jpeg, w')
    → thumbnail env renderer later other id w' ≡ (ok jpeg, w')
unfolding thumbnail cached_or_made
thumbnail_again env renderer drawn later caller other id item jpeg w w' found readable works h =
    let (held, same) =
      holds_after env renderer drawn item jpeg w w' (rw (thumbnail, found) at h) works in
    let found_again : find_image w'.db other id ≡ ok item =
      ap (λ db. find_image db other id) same ∙ readable in
    rw (thumbnail, found_again, cached_or_made, held) refl
