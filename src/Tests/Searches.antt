-- ===== src/Tests/Searches.antt =====
-- The theorems on the searches, on the small drive.
use denizen.Prelude.{
  ◌≡◌, ◌↔◌, ◌⊎◌, refl, arith, true, false, none, some, List, [], ◌∷◌, Text, text, text_eq, contains,
  length,
}
use denizen.Model.{Item, Error}
use denizen.Result.{ok, err}
use denizen.Text.{trim_space}
use denizen.Text.Fields.{fields}
use denizen.Repo.Items.{row}
use denizen.Repo.Like.{
  Like, like_escape, contains_pattern, parts, matches, ReadsPatterns, plain_from,
}
use denizen.Repo.Like.Laws.{Contains, like_iff_Contains}
use denizen.Repo.Search.{Engine, subtree, search_content, sanitize_fts5_query}
use denizen.Repo.Search.Quoting.{read_terms, sanitize_fts5_query-reads}
use denizen.Items.Search.{search_items, search_result_limit}
use denizen.Items.Search.Results.{IsGood}
use denizen.Items.Search.Hits.{IsHit}
use denizen.Items.Sound.{HasKeys}
use denizen.Items.Search.Descent.{Below, subtree_iff}
use denizen.Items.Search.Exact.{search_items-IsGood}
use denizen.Tests.{note, db, db-IsSound}

-- LIKE for the patterns that it reads.
abbrev reading_like : Like
reading_like p s = elim (parts false p) [ none ↦ false | some ws ↦ matches ws s ]

reading_like-ReadsPatterns : ReadsPatterns reading_like
reading_like-ReadsPatterns p s ws plain plain_s short e = rw (reading_like, e) refl

-- An engine that finds the first row of the index.
abbrev engine : Engine
engine = record { find = λ index query. ok (text "f" ∷ []); like = reading_like }

db-HasKeys : HasKeys db.items
unfolding row text_eq
db-HasKeys = (refl, (refl, (refl, (refl, tt))))

like_iff_Contains_example :
    (reading_like (contains_pattern (text "50%_\\A")) (text "the 50%_\\a.txt") ≡ true)
    ↔ Contains (text "50%_\\A") (text "the 50%_\\a.txt")
unfolding contains_pattern like_escape plain_from
like_iff_Contains_example =
    like_iff_Contains reading_like (text "50%_\\A") (text "the 50%_\\a.txt")
      reading_like-ReadsPatterns refl refl (omega arith)

sanitize_fts5_query-reads_example :
    read_terms
      (length (fields (text " say \"hi\" OR* ")))
      (sanitize_fts5_query (text " say \"hi\" OR* "))
    ≡ some (text "say" ∷ text "\"hi\"" ∷ text "OR*" ∷ [])
unfolding fields
sanitize_fts5_query-reads_example = sanitize_fts5_query-reads (text " say \"hi\" OR* ")

subtree_iff_example :
    (ids : List Text) × (subtree db (text "d") ≡ ok ids)
    × ((id : Text) → (contains ids id ≡ true) ↔ Below db (text "d") id)
subtree_iff_example = subtree_iff db (text "d") db-IsSound.forest db-HasKeys

search_items-IsGood_example :
    ((items : List Item) × (search_items engine db (text "bob") (text " A.t") ≡ ok items)
      × IsGood (IsHit engine db (text "bob") (trim_space (text " A.t"))) items)
    ⊎ ((e : Error) × (search_content engine db (trim_space (text " A.t")) search_result_limit
          ≡ err e)
        × (search_items engine db (text "bob") (text " A.t") ≡ err e))
unfolding contains_pattern trim_space
search_items-IsGood_example =
    search_items-IsGood engine db (text "bob") db-IsSound.forest db-HasKeys (text " A.t")
      (omega arith)

found : search_items engine db (text "bob") (text " A.t") ≡ ok (note ∷ [])
unfolding search_items parts matches
found = refl
