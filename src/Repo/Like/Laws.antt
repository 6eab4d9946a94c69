-- ===== src/Repo/Like/Laws.antt =====
-- What LIKE does with the pattern of a query: it looks for the query, up to the case of ASCII letters.
use denizen.Prelude.{
  ℕ, zero, suc, ◌≡◌, ◌≤◌, ◌∙◌, sym, length, ◌↔◌, refl, arith, inl, inr, Bool, true, false, some,
  List, [], ◌∷◌, ◌++◌, Text, Bool-cases, Option-cases, eqb, leb, ◌||◌,
}
use denizen.Text.{lower}
use denizen.Repo.Like.{
  like_escape, contains_pattern, Wild, many, exactly, parts, some_suffix, matches, Like,
  ReadsPatterns, is_plain, lead, plain_from, like_limit,
}

-- The query stands in the text, up to the case of ASCII letters.
pub record Contains (query s : Text) : Type 0 where
  pub before : Text
  pub found : Text
  pub behind : Text
  pub whole : s ≡ before ++ (found ++ behind)
  pub same : lower found ≡ lower query

literal : Text → List Wild
literal [] = many ∷ []
literal (c ∷ query) = exactly c ∷ literal query

parts-like_escape :
    (query : Text) → parts false (like_escape query ++ (b'%' ∷ [])) ≡ some (literal query)
unfolding parts like_escape literal
parts-like_escape [] = refl
parts-like_escape (c ∷ query) = ground (arith, parts-like_escape query)

prefix_sound :
    (query s : Text)
    → matches (literal query) s ≡ true
    → (found : Text) × (behind : Text) × (s ≡ found ++ behind) × (lower found ≡ lower query)
unfolding matches literal lower
prefix_sound [] s h = ([], s, refl, refl)
prefix_sound (d ∷ query) [] h = cc
prefix_sound (d ∷ query) (c ∷ s) h =
    let (found, behind, e, same) = prefix_sound query s (ground arith) in
    (c ∷ found, behind, cc, ground arith)

anything : (s : Text) → some_suffix (matches []) s ≡ true
unfolding matches
anything [] = refl
anything (c ∷ s) = anything s

prefix_complete :
    (query found behind : Text)
    → lower found ≡ lower query
    → matches (literal query) (found ++ behind) ≡ true
unfolding matches literal lower
prefix_complete [] [] [] h = refl
prefix_complete [] [] (c ∷ behind) h = ground (arith, anything (c ∷ behind))
prefix_complete [] (c ∷ found) behind h = cc
prefix_complete (d ∷ query) [] behind h = cc
prefix_complete (d ∷ query) (c ∷ found) behind h =
    let rest = prefix_complete query found behind (ground arith) in ground (arith, rest)

suffix_sound :
    (f : Text → Bool) (s : Text)
    → some_suffix f s ≡ true
    → (before : Text) × (behind : Text) × (s ≡ before ++ behind) × (f behind ≡ true)
suffix_sound f [] h = ([], [], refl, h)
suffix_sound f (c ∷ s) h = elim (Bool-cases (f (c ∷ s))) [
  | inl here ↦ ([], c ∷ s, refl, here)
  | inr later ↦
      let (before, behind, e, ok) = suffix_sound f s (rw later at h) in (c ∷ before, behind, cc, ok)
]

suffix_complete :
    (f : Text → Bool) (before behind : Text)
    → f behind ≡ true
    → some_suffix f (before ++ behind) ≡ true
suffix_complete f [] [] h = h
suffix_complete f [] (c ∷ behind) h = rw h
suffix_complete f (c ∷ before) behind h = ground (arith, suffix_complete f before behind h)

lead-low : (c n low high : ℕ) → lead c ≡ some (n, low, high) → 128 ≤ low
unfolding lead
lead-low c n low high h = ground arith

plain_after_backslash :
    (low high : ℕ) (s : Text) → plain_from 0 low high (b'\\' ∷ s) ≡ plain_from 0 128 191 s
unfolding plain_from lead
plain_after_backslash low high s = refl

plain_after :
    (c n low high low' high' : ℕ) (s : Text)
    → lead c ≡ some (n, low', high')
    → plain_from 0 low high (c ∷ s) ≡ plain_from n low' high' s
unfolding plain_from
plain_after c n low high low' high' s e = rw (plain_from, e) refl

no_special :
    (c low : ℕ) → 128 ≤ low → leb low c ≡ true → (eqb c b'\\' || eqb c b'%' || eqb c b'_') ≡ false
no_special c low above over = ground arith

-- Escapes leave UTF-8 as it is: they stand in front of single bytes.
plain_from-like_escape :
    (n low high : ℕ) (query : Text)
    → 128 ≤ low
    → plain_from n low high query ≡ true
    → plain_from n low high (like_escape query ++ (b'%' ∷ [])) ≡ true
unfolding plain_from like_escape
plain_from-like_escape zero low high [] above h = refl
plain_from-like_escape (suc n) low high [] above h = cc
plain_from-like_escape zero low high (c ∷ query) above h = elim (Option-cases (lead c)) [
  | inl wrong ↦ cc (rw (plain_from, wrong) at h)
  | inr ((n, low', high'), e) ↦
      let tail = like_escape query ++ (b'%' ∷ []) in
      let rest =
        plain_from-like_escape n low' high' query (lead-low c n low' high' e)
          (sym (plain_after c n low high low' high' query e) ∙ h) in
      elim (Bool-cases (eqb c b'\\' || eqb c b'%' || eqb c b'_')) [
        | inl special ↦
            rw (like_escape, special)
              (plain_after_backslash low high (c ∷ tail)
                ∙ (plain_after c n 128 191 low' high' tail e ∙ rest))
        | inr ordinary ↦
            rw (like_escape, ordinary) (plain_after c n low high low' high' tail e ∙ rest)
      ]
]
plain_from-like_escape (suc n) low high (c ∷ query) above h = elim (Bool-cases (leb low c)) [
  | inr under ↦ cc (rw (plain_from, under) at h)
  | inl over ↦ elim (Bool-cases (leb c high)) [
    | inr beyond ↦ cc (rw (plain_from, over, beyond) at h)
    | inl within ↦
        rw (like_escape, no_special c low above over, plain_from, over, within)
          (plain_from-like_escape n 128 191 query (omega arith)
            (rw (plain_from, over, within) at h))
  ]
]

-- For a LIKE that reads patterns as SQLite documents, for a query and a name that are UTF-8 with no NUL
-- byte and none of the characters U+FFC0 to U+FFFF, and a query whose pattern is not too long: the name matches the pattern of the query exactly if
-- the query stands in the name, up to the case of ASCII letters, whatever wildcards and escapes the
-- query holds.
pub like_iff_Contains :
    (like : Like) (query s : Text)
    → ReadsPatterns like
    → is_plain query ≡ true
    → is_plain s ≡ true
    → length (contains_pattern query) ≤ like_limit
    → (like (contains_pattern query) s ≡ true) ↔ Contains query s
unfolding contains_pattern matches parts plain_from
like_iff_Contains like query s reads plain plain_s short =
    let read : like (contains_pattern query) s ≡ some_suffix (matches (literal query)) s =
      reads (contains_pattern query) s (many ∷ literal query)
        (plain_from-like_escape 0 128 191 query (omega arith) plain) plain_s short
        (rw (parts-like_escape query) refl) in
    (
      λ h.
          let (before, rest, e, hit) = suffix_sound (matches (literal query)) s (rw read at h) in
          let (found, behind, f, same) = prefix_sound query rest hit in
          record { before = before; found = found; behind = behind; whole = cc; same = same },
      λ c.
          read
          ∙ rw c.whole (
              suffix_complete (matches (literal query)) c.before (c.found ++ c.behind)
                (prefix_complete query c.found c.behind c.same)),
    )
