-- ===== src/Repo/Like.antt =====
-- The pattern that internal/repository/item.go makes of a query, and what SQLite documents of LIKE with
-- ESCAPE '\'. SQLite folds the letters of ASCII only.
pub mod Laws
use denizen.Prelude.{
  ℕ, zero, suc, ◌≡◌, ◌≤◌, Bool, true, false, ◌&&◌, ◌||◌, Option, none, some, List, [], ◌∷◌, ◌++◌,
  Text, eqb, ltb, leb, length, if◌then◌else◌,
}
use denizen.Text.{lower_byte}

-- likeEscape: a backslash before each backslash, percent sign and underscore
unfoldable pub like_escape : Text → Text
like_escape [] = []
like_escape (c ∷ s) =
    let rest = like_escape s in
    if eqb c b'\\' || eqb c b'%' || eqb c b'_' then b'\\' ∷ c ∷ rest else c ∷ rest

-- "%" + likeEscape(query) + "%"
unfoldable pub contains_pattern : Text → Text
unfolding like_escape
contains_pattern query = b'%' ∷ like_escape query ++ (b'%' ∷ [])

-- text LIKE pattern ESCAPE '\', for the pattern and the text
abbrev pub Like : Type 0
Like = Text → Text → Bool

-- The longest pattern that SQLite takes, in bytes
abbrev pub like_limit : ℕ
like_limit = 50000

-- What the first byte of a character of UTF-8 says: how many bytes follow, and the range of the next
-- one. A NUL byte is left out, and so are the characters U+FFC0 to U+FFFF: SQLite takes the last two for
-- U+FFFD.
unfoldable pub lead : ℕ → Option (ℕ × ℕ × ℕ)
lead c =
    if eqb c 0
    then none
    else if ltb c 128
    then some (0, 128, 191)
    else if ltb c 194
    then none
    else if ltb c 224
    then some (1, 128, 191)
    else if eqb c 224
    then some (2, 160, 191)
    else if eqb c 237
    then some (2, 128, 159)
    else if ltb c 239
    then some (2, 128, 191)
    else if eqb c 239
    then some (2, 128, 190)
    else if eqb c 240
    then some (3, 144, 191)
    else if ltb c 244
    then some (3, 128, 191)
    else if eqb c 244
    then some (3, 128, 143)
    else none

-- UTF-8 from within a character of which so many bytes are to come, the next one in a range
unfoldable pub plain_from : ℕ → ℕ → ℕ → Text → Bool
unfolding lead
plain_from zero low high [] = true
plain_from (suc n) low high [] = false
plain_from zero low high (c ∷ s) = elim (lead c) [
  | none ↦ false
  | some (n, low, high) ↦ plain_from n low high s
]
plain_from (suc n) low high (c ∷ s) =
    let rest = plain_from n 128 191 s in leb low c && (leb c high && rest)

-- UTF-8 with no NUL byte and none of the characters U+FFC0 to U+FFFF
abbrev pub is_plain : Text → Bool
is_plain s = plain_from 0 128 191 s

-- The parts of a pattern: `%`, and a byte that stands for itself.
pub data Wild : Type 0 where
  many : Wild
  exactly : ℕ → Wild

-- The parts of a pattern, after the escape character or not: none for a pattern that ends with the escape
-- character, or has an underscore that is not escaped.
unfoldable pub parts : Bool → Text → Option (List Wild)
parts true [] = none
parts false [] = some []
parts true (c ∷ p) = elim (parts false p) [ none ↦ none | some ws ↦ some (exactly c ∷ ws) ]
parts false (c ∷ p) =
    let escaped = parts true p in
    let rest = parts false p in
    let part = if eqb c b'%' then many else exactly c in
    if eqb c b'\\'
    then escaped
    else if eqb c b'_'
    then none
    else elim rest [ none ↦ none | some ws ↦ some (part ∷ ws) ]

-- Some suffix of a text passes a test.
abbrev pub some_suffix : (Text → Bool) → Text → Bool
some_suffix f [] = f []
some_suffix f (c ∷ s) = f (c ∷ s) || some_suffix f s

abbrev pub same_letter : ℕ → ℕ → Bool
same_letter c d = eqb (lower_byte c) (lower_byte d)

unfoldable pub matches : List Wild → Text → Bool
matches [] [] = true
matches [] (c ∷ s) = false
matches (many ∷ ws) s = some_suffix (matches ws) s
matches (exactly d ∷ ws) [] = false
matches (exactly d ∷ ws) (c ∷ s) = same_letter d c && matches ws s

-- What SQLite documents of LIKE: `%` stands for any characters, and a character for itself or for the
-- same letter of ASCII in the other case. This is for plain texts, where no character stands within
-- another, so that bytes may be compared for characters, and for a pattern that is not too long. SQLite
-- ends a text at a NUL byte, and reads bytes that are not UTF-8 in its own way.
abbrev pub ReadsPatterns : Like → Type 0
ReadsPatterns like =
    (p s : Text) (ws : List Wild)
    → is_plain p ≡ true
    → is_plain s ≡ true
    → length p ≤ like_limit
    → parts false p ≡ some ws
    → like p s ≡ matches ws s
