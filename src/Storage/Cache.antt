-- ===== src/Storage/Cache.antt =====
-- The cache of internal/storage/storage.go: ThumbnailPath and WriteCacheFile, and that a file of the
-- cache is read as it was written.
use denizen.Prelude.{
  ◌≡◌, ◌≢◌, ◌⊎◌, refl, ap, sym, ◌∙◌, arith, true, none, some, [], ◌∷◌, ◌++◌, Text, text, ◌==◌,
  ==_iff, text_eq, Bool-cases, Option-cases, inl, inr,
}
use denizen.Prelude.Int.{ℤ}
use denizen.Model.{is_null}
use denizen.Result.{Result, ok, err, Result-cases}
use denizen.Exec.{Exec, ◌>>◌, ◌on_error◌, undo_with, on_ok-eq-ok}
use denizen.Text.{decimal_int}
use denizen.Storage.{FilePath, path_eq, dir, below, join}
use denizen.Storage.Disk.{
  Node, is_directory, directory, bytes, Disk, stat, mkdir_all, relocate, move_tree, remove_all,
  os_rename, rename_fresh, rename_over, write_new, read_file, attempt,
}

-- Store.ThumbnailPath
unfoldable pub thumbnail_path : FilePath → Text → ℤ → FilePath
thumbnail_path data_dir item_id updated_at =
    join (join data_dir (text "thumbnails"))
      (item_id ++ (text "_" ++ (decimal_int updated_at ++ text ".jpg")))

-- The file that os.CreateTemp makes beside another, under the name that it draws
abbrev pub beside : FilePath → Text → FilePath
beside path drawn = dir path ++ (text ".tmp-" ++ drawn) ∷ []

-- Store.WriteCacheFile, with what os.CreateTemp draws
unfoldable pub write_cache_file : Text → FilePath → Text → Exec Disk (Unit {0})
unfolding attempt
write_cache_file drawn path content = do
  attempt (mkdir_all (dir path))
  attempt (write_new (beside path drawn) content)
  (attempt (os_rename (beside path drawn) path)) on_error remove_all (beside path drawn)

path_same : (p : FilePath) → (p == p) ≡ true
path_same p = ground arith

below_same : (p : FilePath) → below p p ≡ some []
unfolding below
below_same [] = refl
below_same (s ∷ p) = ground (arith, below_same p)

append_nothing : (p : FilePath) → p ++ [] ≡ p
append_nothing [] = refl
append_nothing (s ∷ p) = ap (λ (q : FilePath). s ∷ q) (append_nothing p)

-- A file beside another does not lie below it.
below-beside :
    (s : Text) (p : FilePath) (t : Text)
    → (below (s ∷ p) (dir (s ∷ p) ++ t ∷ []) ≡ none) ⊎ (dir (s ∷ p) ++ t ∷ [] ≡ s ∷ p)
unfolding below dir
below-beside s [] t = ground arith
below-beside s (u ∷ p) t = elim (below-beside u p t) [
  | inl apart ↦ inl (ground (arith, apart))
  | inr same ↦ inr (ap (λ (q : FilePath). s ∷ q) same)
]

-- What stands first in a list of nodes is what stands at its path.
stat-cons : (s : Text) (p : FilePath) (n : Node) (d : Disk) → stat ((s ∷ p, n) ∷ d) (s ∷ p) ≡ some n
unfolding stat
stat-cons s p n d = rw (path_same (s ∷ p)) refl

attempt-ok : (f : Disk → Result Disk) (d d' : Disk) → attempt f d ≡ (ok tt, d') → f d ≡ ok d'
unfolding attempt
attempt-ok f d d' h = elim (Result-cases (f d)) [
  | inl done ↦ done.1 ∙ ap (λ (r : Result (Unit {0}) × Disk). ok r.1) (rw (attempt, done.1) at h)
  | inr failed ↦ cc (rw (attempt, failed.1) at h)
]

kept_after_undo :
    (r : Result (Unit {0}) × Disk) (undo : Disk → Disk) (d' : Disk)
    → undo_with r undo ≡ (ok tt, d')
    → r ≡ (ok tt, d')
kept_after_undo (ok tt, d) undo d' h = h
kept_after_undo (err e, d) undo d' h = cc

same_disk : (d d' : Disk) → ok d ≡ ok d' → d ≡ d'
same_disk d d' h = ap (λ (r : Result Disk). elim r [ ok x ↦ x | err e ↦ d ]) h

write_new-eq :
    (p : FilePath) (content : Text) (d d' : Disk)
    → write_new p content d ≡ ok d'
    → d' ≡ (p, bytes content) ∷ d
unfolding write_new
write_new-eq p content d d' h = elim (Bool-cases (is_null (stat d p))) [
  | inr taken ↦ cc (rw (write_new, taken) at h)
  | inl free ↦ elim (Bool-cases (is_directory (stat d (dir p)))) [
    | inr nowhere ↦ cc (rw (write_new, free, nowhere) at h)
    | inl there ↦ sym (same_disk _ d' (rw (write_new, free, there) at h))
  ]
]

relocate_self : (t p : FilePath) → relocate t p t ≡ p
unfolding relocate
relocate_self t p = rw (relocate, below_same t) (append_nothing p)

-- Where a file stands first, a move of it puts it first at the new path, unless it lies below that path.
module _ (t : Text) (q : FilePath) (s : Text) (p : FilePath) (content : Text) (d d' : Disk) where
  moved_first :
      (rest : Disk)
      → move_tree (t ∷ q) (s ∷ p) ((t ∷ q, bytes content) ∷ rest) ≡ d'
      → stat d' (s ∷ p) ≡ some (bytes content)
  unfolding move_tree
  moved_first rest same = rw (← same) (
      ap (λ r. stat ((r, bytes content) ∷ move_tree (t ∷ q) (s ∷ p) rest) (s ∷ p))
        (relocate_self (t ∷ q) (s ∷ p))
      ∙ stat-cons s p (bytes content) (move_tree (t ∷ q) (s ∷ p) rest))

  over_first :
      (below (s ∷ p) (t ∷ q) ≡ none) ⊎ (t ∷ q ≡ s ∷ p)
      → rename_over (t ∷ q) (s ∷ p) (bytes content) ((t ∷ q, bytes content) ∷ d) ≡ ok d'
      → stat d' (s ∷ p) ≡ some (bytes content)
  unfolding rename_over remove_all
  over_first apart h = elim (Bool-cases (t ∷ q == s ∷ p)) [
    | inl one ↦
        let same = (==_iff (t ∷ q) (s ∷ p)).0 one in
        rw (← same_disk _ d' (rw (rename_over, one) at h))
          (rw (← same) (stat-cons t q (bytes content) d))
    | inr two ↦ elim apart [
      | inr same ↦ cc (two, (==_iff (t ∷ q) (s ∷ p)).1 same)
      | inl beyond ↦
          moved_first (remove_all (s ∷ p) d)
            (same_disk _ d' (rw (rename_over, two, remove_all, beyond) at h))
    ]
  ]

  fresh_first :
      rename_fresh (t ∷ q) (s ∷ p) ((t ∷ q, bytes content) ∷ d) ≡ ok d'
      → stat d' (s ∷ p) ≡ some (bytes content)
  unfolding rename_fresh
  fresh_first h =
      elim (Bool-cases (is_directory (stat ((t ∷ q, bytes content) ∷ d) (dir (s ∷ p))))) [
        | inr nowhere ↦ cc (rw (rename_fresh, nowhere) at h)
        | inl there ↦ elim (Bool-cases (is_null (below (t ∷ q) (s ∷ p)))) [
          | inr inside ↦ cc (rw (rename_fresh, there, inside) at h)
          | inl apart ↦ moved_first d (same_disk _ d' (rw (rename_fresh, there, apart) at h))
        ]
      ]

  os_rename-stat :
      (below (s ∷ p) (t ∷ q) ≡ none) ⊎ (t ∷ q ≡ s ∷ p)
      → os_rename (t ∷ q) (s ∷ p) ((t ∷ q, bytes content) ∷ d) ≡ ok d'
      → stat d' (s ∷ p) ≡ some (bytes content)
  unfolding os_rename
  os_rename-stat apart h =
      let h' = rw (os_rename, stat-cons t q (bytes content) d) at h in
      elim (Option-cases (stat ((t ∷ q, bytes content) ∷ d) (s ∷ p))) [
        | inl free ↦ fresh_first (rw free at h')
        | inr (directory, e) ↦ cc (rw e at h')
        | inr (bytes old, e) ↦ over_first apart (rw e at h')
      ]

segment_last : (p : FilePath) (x : Text) → (u : Text) × (q : FilePath) × (p ++ x ∷ [] ≡ u ∷ q)
segment_last [] x = (x, [], refl)
segment_last (s ∷ p) x = (s, p ++ x ∷ [], refl)

os_rename-root : (t : FilePath) (d d' : Disk) → os_rename t [] d ≢ ok d'
unfolding os_rename
os_rename-root t d d' h = elim (Option-cases (stat d t)) [
  | inl missing ↦ cc (rw (os_rename, missing) at h)
  | inr there ↦ cc (rw (os_rename, there.1) at h)
]

moved-read :
    (drawn : Text) (path : FilePath) (content : Text) (d d' : Disk)
    → os_rename (beside path drawn) path ((beside path drawn, bytes content) ∷ d) ≡ ok d'
    → stat d' path ≡ some (bytes content)
moved-read drawn [] content d d' h = absurd (os_rename-root (beside [] drawn) _ d' h)
moved-read drawn (s ∷ p) content d d' h =
    let (u, q, shape) = segment_last (dir (s ∷ p)) (text ".tmp-" ++ drawn) in
    let apart = below-beside s p (text ".tmp-" ++ drawn) in
    os_rename-stat u q s p content d d' (rw shape at apart) (rw shape at h)

-- A file of the cache is read as it was written.
pub write_cache_file-read_file :
    (drawn : Text) (path : FilePath) (content : Text) (d d' : Disk)
    → write_cache_file drawn path content d ≡ (ok tt, d')
    → read_file path d' ≡ ok content
unfolding write_cache_file read_file
write_cache_file-read_file drawn path content d d' h =
    let tmp = beside path drawn in
    let step : Exec Disk (Unit {0}) = attempt (write_new tmp content) in
    let last : Exec Disk (Unit {0}) = attempt (os_rename tmp path) on_error remove_all tmp in
    let (_, d₁, made, h₁) =
      on_ok-eq-ok (attempt (mkdir_all (dir path)) d) (λ _. step >> last) tt d' h in
    let (_, d₂, wrote, h₂) = on_ok-eq-ok (step d₁) (λ _. last) tt d' h₁ in
    let first =
      write_new-eq (beside path drawn) content d₁ d₂
        (attempt-ok (write_new tmp content) d₁ d₂ wrote) in
    let moved =
      attempt-ok (os_rename tmp path) d₂ d'
        (kept_after_undo (attempt (os_rename tmp path) d₂) (remove_all tmp) d' h₂) in
    rw (read_file, moved-read drawn path content d₁ d' (rw first at moved)) refl
