-- ===== src/Repo/Search/Quoting.antt =====
-- The MATCH expression of sanitizeFTS5Query, read back by the rules of FTS5 for strings: a string stands
-- between double quotes, two of them in it stand for one, a star behind it asks for a prefix, and a
-- space joins two strings.
use denizen.Prelude.{
  ℕ, zero, suc, ◌≡◌, refl, ap, arith, Bool, true, false, Option, none, some, List, [], ◌∷◌, ◌++◌,
  map, Text, text, eqb, any, length, Bool-cases, inl, inr, if◌then◌else◌,
}
use denizen.Text.Fields.{fields, double, join_with}
use denizen.Repo.Search.{quote, sanitize_fts5_query}

abbrev onto : ℕ → Option (Text × Text) → Option (Text × Text)
onto c none = none
onto c (some (s, rest)) = some (c ∷ s, rest)

-- A string from behind its opening quote, or from behind a quote in it, and what follows its closing
-- quote. FTS5 ends the expression at a NUL byte, so that a string with one is not closed.
unfoldable pub read_string : Bool → Text → Option (Text × Text)
read_string false [] = none
read_string true [] = some ([], [])
read_string false (c ∷ s) =
    let closing = read_string true s in
    let rest = read_string false s in
    if eqb c b'"' then closing else if eqb c 0 then none else onto c rest
read_string true (c ∷ s) =
    let rest = read_string false s in if eqb c b'"' then onto b'"' rest else some ([], c ∷ s)

abbrev pub has_nul : Text → Bool
has_nul s = any (λ c. eqb c 0) s

read_string-double :
    (term rest : Text)
    → read_string false (double b'"' term ++ (b'"' ∷ b'*' ∷ rest))
      ≡ (if has_nul term then none else some (term, b'*' ∷ rest))
unfolding read_string double
read_string-double [] rest = refl
read_string-double (c ∷ term) rest = elim (Bool-cases (eqb c b'"')) [
  | inl quoted ↦ rw (quoted, read_string, read_string-double term rest, quoted) (ground arith)
  | inr plain ↦ rw (plain, read_string, plain, read_string-double term rest) (ground arith)
]

abbrev add_term : Text → Option (List Text) → Option (List Text)
add_term t none = none
add_term t (some ts) = some (t ∷ ts)

-- The star behind a string, and the space in front of the next one.
abbrev next_term : Text → Option Text
next_term [] = none
next_term (c ∷ []) = if eqb c b'*' then some [] else none
next_term (c ∷ d ∷ s) = if eqb c b'*' then (if eqb d b' ' then some s else none) else none

-- The strings of an expression, of as many as the fuel at most.
unfoldable pub read_terms : ℕ → Text → Option (List Text)
unfolding read_string
read_terms fuel [] = some []
read_terms zero (c ∷ s) = none
read_terms (suc fuel) (c ∷ s) = elim (eqb c b'"') [
  | false ↦ none
  | true ↦ elim (read_string false s) [
    | none ↦ none
    | some (t, rest) ↦ elim (next_term rest) [
      | none ↦ none
      | some s' ↦ add_term t (read_terms fuel s')
    ]
  ]
]

append_assoc : (s t u : Text) → (s ++ t) ++ u ≡ s ++ (t ++ u)
append_assoc [] t u = refl
append_assoc (c ∷ s) t u = ap (λ r. c ∷ r) (append_assoc s t u)

add_term-if :
    (t : Text) (ts : List Text) (cut : Bool)
    → add_term t (if cut then none else some ts) ≡ (if cut then none else some (t ∷ ts))
add_term-if t ts true = refl
add_term-if t ts false = refl

read_terms-join :
    (terms : List Text)
    → read_terms (length terms) (join_with (text " ") (map quote terms))
      ≡ (if any has_nul terms then none else some terms)
unfolding read_terms join_with quote
read_terms-join [] = refl
read_terms-join (t ∷ []) = rw (read_terms, read_string-double t []) (ground arith)
read_terms-join (t ∷ u ∷ terms) =
    let more = join_with (text " ") (map quote (u ∷ terms)) in
    let first = read_string-double t (b' ' ∷ more) in
    let rest = read_terms-join (u ∷ terms) in
    rw (read_terms, append_assoc (double b'"' t) (text "\"*") (text " " ++ more), first)
      (elim (Bool-cases (has_nul t)) [
        | inl cut ↦ rw cut refl
        | inr whole ↦ rw (whole, rest) (add_term-if t (u ∷ terms) (any has_nul (u ∷ terms)))
      ])

-- The expression of sanitizeFTS5Query reads as the words of the query, as strings in double quotes, each
-- with a star, with a space between two, if no word holds a NUL byte. If one does, the expression has a
-- string that is not closed.
pub sanitize_fts5_query-reads :
    (query : Text)
    → read_terms (length (fields query)) (sanitize_fts5_query query)
      ≡ (if any has_nul (fields query) then none else some (fields query))
unfolding sanitize_fts5_query
sanitize_fts5_query-reads query = read_terms-join (fields query)
