-- ===== src/Text/Fields.antt =====
-- strings.Fields, strings.ReplaceAll for one byte and strings.Join: the words of a query.
use denizen.Prelude.{
  ℕ, zero, suc, none, some, List, [], ◌∷◌, ◌++◌, Text, eqb, length, if◌then◌else◌,
}
use denizen.Text.{after_one_of, spaces}

-- The word read so far, in front of the words behind it, if it is not empty.
add_word : Text → List Text → List Text
add_word [] words = words
add_word (c ∷ word) words = (c ∷ word) ∷ words

-- The fuel is the length of the text.
fields_from : ℕ → Text → Text → List Text
unfolding after_one_of add_word
fields_from zero word s = add_word word []
fields_from (suc fuel) word [] = add_word word []
fields_from (suc fuel) word (c ∷ s) = elim (after_one_of spaces (c ∷ s)) [
  | some rest ↦ add_word word (fields_from fuel [] rest)
  | none ↦ fields_from fuel (word ++ (c ∷ [])) s
]

-- strings.Fields
unfoldable pub fields : Text → List Text
unfolding fields_from
fields s = fields_from (length s) [] s

-- strings.ReplaceAll(s, c, cc) for a byte c
unfoldable pub double : ℕ → Text → Text
double q [] = []
double q (c ∷ s) = let rest = double q s in if eqb c q then q ∷ c ∷ rest else c ∷ rest

-- strings.Join
unfoldable pub join_with : Text → List Text → Text
join_with sep [] = []
join_with sep (t ∷ []) = t
join_with sep (t ∷ u ∷ ts) = t ++ (sep ++ join_with sep (u ∷ ts))
