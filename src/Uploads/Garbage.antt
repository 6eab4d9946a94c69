-- ===== src/Uploads/Garbage.antt =====
-- internal/upload/gc.go: the files of abandoned uploads are removed from the staging folder.
use denizen.Prelude.{
  ℕ, suc, ◌≡◌, ap, sym, ◌∙◌, arith, Bool, true, ◌&&◌, ◌||◌, not, List, [], ◌∷◌, Text, text, ◌==◌,
  text_eq, any, select, select-select, select_same, select_all, length, Bool-cases, inl, inr,
  if◌then◌else◌,
}
use denizen.Prelude.Int.{ℤ, ◌-ℤ◌, lt_int}
use denizen.Text.{has_suffix, trim_suffix}

-- A directory entry, with whether a directory has entries of its own, and the time of its last change.
pub record Staged : Type 0 where
  pub name : Text
  pub is_dir : Bool
  pub has_entries : Bool
  pub mod_time : ℤ

abbrev pub is_full_dir : Staged → Bool
is_full_dir f = f.is_dir && f.has_entries

-- os.Remove of a name in the folder: a directory with entries stays. No upload has an empty id.
unfoldable pub remove_name : Text → List Staged → List Staged
remove_name name files = select (λ (f : Staged). is_full_dir f || not (f.name == name)) files

-- An entry that the loop does not skip
unfoldable pub is_abandoned : ℤ → Staged → Bool
unfolding has_suffix
is_abandoned cutoff entry =
    not entry.is_dir && has_suffix entry.name (text ".info") && not (lt_int cutoff entry.mod_time)

abbrev upload_id : Staged → Text
upload_id entry = trim_suffix entry.name (text ".info")

-- The loop of CollectGarbage over the entries that were read, with the number of uploads removed
unfoldable pub collect : ℤ → List Staged → List Staged → List Staged × ℕ
unfolding remove_name is_abandoned trim_suffix
collect cutoff [] files = (files, 0)
collect cutoff (entry ∷ entries) files =
    let skipped = collect cutoff entries files in
    let (rest, removed) =
      collect cutoff entries (remove_name (upload_id entry) (remove_name entry.name files)) in
    if is_abandoned cutoff entry then (rest, suc removed) else skipped

-- CollectGarbage
unfoldable pub collect_garbage : ℤ → ℤ → List Staged → List Staged × ℕ
unfolding collect
collect_garbage now older_than files = collect (now -ℤ older_than) files files

-- The file belongs to one of the abandoned uploads.
abbrev pub belongs_to : List Staged → Staged → Bool
belongs_to abandoned f = any (λ e. f.name == e.name || f.name == upload_id e) abandoned

abbrev pub stays : List Staged → Staged → Bool
stays abandoned f = is_full_dir f || not (belongs_to abandoned f)

stays_unclaimed : (f : Staged) → stays [] f ≡ true
stays_unclaimed f = ground arith

stays-cons :
    (entry : Staged) (abandoned : List Staged) (f : Staged)
    → ((is_full_dir f || not (f.name == entry.name))
        && ((is_full_dir f || not (f.name == upload_id entry)) && stays abandoned f))
      ≡ stays (entry ∷ abandoned) f
stays-cons entry abandoned f = ground arith

-- The removal of the two files of an upload, in front of the rest.
removed_both :
    (entry : Staged) (abandoned files : List Staged)
    → select (stays abandoned) (remove_name (upload_id entry) (remove_name entry.name files))
      ≡ select (stays (entry ∷ abandoned)) files
unfolding remove_name
removed_both entry abandoned files =
    select-select (stays abandoned) _ (remove_name entry.name files)
    ∙ (select-select _ _ files ∙ select_same _ _ files (stays-cons entry abandoned))

collect-eq :
    (cutoff : ℤ) (entries files : List Staged)
    → collect cutoff entries files ≡ (
      select (stays (select (is_abandoned cutoff) entries)) files,
      length (select (is_abandoned cutoff) entries),
    )
unfolding collect remove_name
collect-eq cutoff [] files = ap (λ fs. (fs, 0)) (sym (select_all (stays []) files stays_unclaimed))
collect-eq cutoff (entry ∷ entries) files = elim (Bool-cases (is_abandoned cutoff entry)) [
  | inr kept ↦ rw (collect, kept) (collect-eq cutoff entries files)
  | inl old ↦
      rw (collect, old)
        (let rest =
            collect-eq cutoff entries
              (remove_name (upload_id entry) (remove_name entry.name files)) in
          ap (λ (r : List Staged × ℕ). (r.0, suc r.1)) rest
          ∙ ap (λ fs. (fs, suc (length (select (is_abandoned cutoff) entries))))
              (removed_both entry (select (is_abandoned cutoff) entries) files))
]

-- CollectGarbage removes exactly what belongs to abandoned uploads: an `.info` file that was not written
-- after the cutoff, and what stands under the same name without `.info`, but for a directory with
-- entries; all else stays as it was, and the number it returns is that of the abandoned uploads.
pub collect_garbage-eq :
    (now older_than : ℤ) (files : List Staged)
    → let abandoned = select (is_abandoned (now -ℤ older_than)) files in
      collect_garbage now older_than files ≡ (select (stays abandoned) files, length abandoned)
unfolding collect_garbage
collect_garbage-eq now older_than files = collect-eq (now -ℤ older_than) files files
