-- ===== src/Items/Names/Laws.antt =====
-- A name that is accepted is one segment of a path, and the name that is chosen for an item is free in
-- its folder and is one segment too.
use mathlib.Core.List.{append-nil}
use denizen.Prelude.{
  ℕ, zero, suc, ◌+◌, ◌≡◌, refl, ap, Bool, false, Option, [], ◌∷◌, ◌++◌, arith, Text, text, text_eq,
  length, length-append, Bool-cases, inl, inr,
}
use denizen.Text.{trim_space, contains_any, decimal}
use denizen.Text.Laws.{NoSlash, base_ext, NoSlash-append, NoSlash-of_append, NoSlash-decimal}
use denizen.Storage.Laws.{IsSafe}
use denizen.Model.{ItemType, file, folder, Db}
use denizen.Result.{ok}
use denizen.Repo.Items.{name_exists}
use denizen.Items.Names.{
  validate_name, numbered, extension_of, base_of, unique_from, unique_name, attempt_limit, is_taken,
}

slash_of_either :
    (s : Text) → contains_any s (b'/' ∷ 0 ∷ []) ≡ false → contains_any s (b'/' ∷ []) ≡ false
unfolding contains_any
slash_of_either [] h = refl
slash_of_either (c ∷ s) h = ground (arith, slash_of_either s)

-- A name that validateName accepts is, once trimmed, one segment of a path.
pub validate_name-IsSafe : (name : Text) → validate_name name ≡ ok tt → IsSafe (trim_space name)
unfolding validate_name
validate_name-IsSafe name h = record {
  nonempty = ground arith;
  not_dot = ground arith;
  not_dots = ground arith;
  no_slash = slash_of_either (trim_space name) (ground arith);
}

-- The base and the extension of a name make up the name.
base-extension :
    (type : ItemType) (name : Text) → base_of type name ++ extension_of type name ≡ name
base-extension file name = base_ext name
base-extension folder name = append-nil name

-- A numbered name is one segment if the name is.
numbered-IsSafe :
    (base : Text) (i : ℕ) (extension : Text)
    → NoSlash base
    → NoSlash extension
    → IsSafe (numbered base i extension)
unfolding numbered
numbered-IsSafe base i extension h k =
    let tail : Text = decimal i ++ (text ")" ++ extension) in
    let long : length (base ++ (text " (" ++ tail)) ≡ length base + (2 + length tail) =
      omega (arith, length-append base (text " (" ++ tail)) in
    let longer : length tail ≡ length (decimal i) + (1 + length extension) =
      omega (arith, length-append (decimal i) (text ")" ++ extension)) in
    record {
      nonempty = λ e. omega (arith, ap length e, long, longer);
      not_dot = λ e. omega (arith, ap length e, long, longer);
      not_dots = λ e. omega (arith, ap length e, long, longer);
      no_slash = NoSlash-append base _ h (
          NoSlash-append (text " (") _ (unfold contains_any in refl) (
            NoSlash-append (decimal i) _ (NoSlash-decimal i)
              (NoSlash-append (text ")") _ (unfold contains_any in refl) k)));
    }

module _ (exists : Text → Bool) (base extension : Text) where
  -- The name that is chosen is free.
  unique_from-free :
      (attempts i : ℕ) (candidate name : Text)
      → unique_from exists attempts i base extension candidate ≡ ok name
      → exists name ≡ false
  unfolding unique_from
  unique_from-free zero i candidate name h = cc
  unique_from-free (suc attempts) i candidate name h =
      ground (arith, unique_from-free attempts (i + 1) (numbered base i extension) name)

  unique_from-IsSafe :
      NoSlash base
      → NoSlash extension
      → (attempts i : ℕ) (candidate name : Text) → IsSafe candidate
      → unique_from exists attempts i base extension candidate ≡ ok name
      → IsSafe name
  unfolding unique_from
  unique_from-IsSafe b e zero i candidate name s h = cc
  unique_from-IsSafe b e (suc attempts) i candidate name s h =
      elim (Bool-cases (exists candidate)) [
        | inl taken ↦
            unique_from-IsSafe b e attempts (i + 1) (numbered base i extension) name
              (numbered-IsSafe base i extension b e) (rw (taken, unique_from) at h)
        | inr free ↦ let same : candidate ≡ name = cc (rw (free, unique_from) at h) in rw (← same) s
      ]

module _ (db : Db) (owner_id : Text) (parent_id : Option Text) (type : ItemType)
    (name exclude_id chosen : Text)
    (h : unique_name db owner_id parent_id type name exclude_id ≡ ok chosen) where
  -- The name that uniqueName returns is not that of another active item in the folder.
  pub unique_name-free : name_exists db owner_id parent_id chosen exclude_id ≡ false
  unfolding unique_name
  unique_name-free =
      unique_from-free (is_taken db owner_id parent_id exclude_id) (base_of type name)
        (extension_of type name) attempt_limit 1 name chosen h

  -- It is one segment of a path if the wanted name is.
  pub unique_name-IsSafe : IsSafe name → IsSafe chosen
  unfolding unique_name
  unique_name-IsSafe s =
      let parts =
        NoSlash-of_append (base_of type name) (extension_of type name)
          (rw (base-extension type name) s.no_slash) in
      unique_from-IsSafe (is_taken db owner_id parent_id exclude_id) (base_of type name)
        (extension_of type name) parts.0 parts.1 attempt_limit 1 name chosen s h

unique_from-keeps :
    (exists : Text → Bool) (attempts i : ℕ) (base extension candidate : Text)
    → exists candidate ≡ false
    → unique_from exists (suc attempts) i base extension candidate ≡ ok candidate
unfolding unique_from
unique_from-keeps exists attempts i base extension candidate free = rw (free, unique_from)

-- A name that is free is kept.
pub unique_name-keeps :
    (db : Db) (owner_id : Text) (parent_id : Option Text) (type : ItemType) (name exclude_id : Text)
    → name_exists db owner_id parent_id name exclude_id ≡ false
    → unique_name db owner_id parent_id type name exclude_id ≡ ok name
unfolding unique_name
unique_name-keeps db owner_id parent_id type name exclude_id free =
    unique_from-keeps (is_taken db owner_id parent_id exclude_id) 9999 1 (base_of type name)
      (extension_of type name) name free
