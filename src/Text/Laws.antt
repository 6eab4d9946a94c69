-- ===== src/Text/Laws.antt =====
-- Laws of the text functions: an extension and its base make up the name, a text with no slash is
-- one part.
use mathlib.Core.List.{reverse, append-nil, reverse-append, reverse-reverse}
use denizen.Prelude.{
  ℕ, zero, suc, ◌+◌, ◌/◌, ◌%◌, ltb, ◌≡◌, refl, sym, ap, ◌∙◌, true, false, some, List, [], ◌∷◌, ◌++◌,
  arith, Text, text, text_eq, ◌==◌, eqb, Bool-cases, inl, inr,
}
use denizen.Text.{
  after_prefix, trim_space, contains_any, decimal_digits, split_cons, ext_cons, ext, trim_suffix,
  decimal, split_slash,
}

trims : trim_space (text "  a b \t") ≡ text "a b"
unfolding trim_space
trims = refl

exts : (ext (text "a.tar.gz") ≡ text ".gz") × (ext (text "b") ≡ []) × (ext (text ".x/y") ≡ [])
unfolding ext
exts = (refl, refl, refl)

trims_suffix : trim_suffix (text "a.pdf") (text ".pdf") ≡ text "a"
unfolding trim_suffix
trims_suffix = refl

decimals : (decimal 0 ≡ text "0") × (decimal 10203 ≡ text "10203")
unfolding decimal
decimals = (refl, refl)

parts : split_slash (text "a//b") ≡ text "a" ∷ [] ∷ text "b" ∷ []
unfolding split_slash
parts = refl

equal : (text "ab" == text "ab") ≡ true
unfolding text_eq
equal = refl

after_prefix-append : (p s : Text) → after_prefix p (p ++ s) ≡ some s
unfolding after_prefix
after_prefix-append [] s = refl
after_prefix-append (c ∷ p) s = ground (arith, after_prefix-append p s)

ext_cons-suffix :
    (c : ℕ) (s e base : Text) → s ≡ base ++ e → (base : Text) × (c ∷ s ≡ base ++ ext_cons c s e)
unfolding ext_cons
ext_cons-suffix c s (d ∷ e) base h = (c ∷ base, cc)
ext_cons-suffix c s [] base h = elim (Bool-cases (eqb c b'.')) [
  | inr other ↦ (c ∷ s, rw other (cc (append-nil s)))
  | inl dot ↦ elim (Bool-cases (contains_any s (b'/' ∷ []))) [
    | inl slash ↦ (c ∷ s, rw (dot, slash) (cc (append-nil s)))
    | inr last ↦ ([], rw (dot, last))
  ]
]

-- The extension is a suffix.
pub ext-suffix : (s : Text) → (base : Text) × (s ≡ base ++ ext s)
unfolding ext
ext-suffix [] = ([], refl)
ext-suffix (c ∷ s) = let (base, e) = ext-suffix s in ext_cons-suffix c s (ext s) base e

pub trim_suffix-append : (base e : Text) → trim_suffix (base ++ e) e ≡ base
unfolding trim_suffix
trim_suffix-append base e =
    rw (reverse-append base e, after_prefix-append (reverse e) (reverse base), reverse-reverse)

-- The base and the extension of a name make up the name.
pub base_ext : (s : Text) → trim_suffix s (ext s) ++ ext s ≡ s
base_ext s =
    let (base, e) = ext-suffix s in
    let trimmed : trim_suffix s (ext s) ≡ base =
      ap (λ t. trim_suffix t (ext s)) e ∙ trim_suffix-append base (ext s) in
    rw trimmed (sym e)

-- A text with no slash is one part.
pub split_slash_of_no_slash :
    (s : Text) → contains_any s (b'/' ∷ []) ≡ false → split_slash s ≡ s ∷ []
unfolding split_slash contains_any
split_slash_of_no_slash [] h = refl
split_slash_of_no_slash (c ∷ s) h = rw (split_slash_of_no_slash s (ground arith)) (ground arith)

-- A text with no slash.
abbrev pub NoSlash : Text → Type 0
NoSlash s = contains_any s (b'/' ∷ []) ≡ false

pub NoSlash-append : (s t : Text) → NoSlash s → NoSlash t → NoSlash (s ++ t)
unfolding contains_any
NoSlash-append [] t h k = k
NoSlash-append (c ∷ s) t h k = ground (arith, NoSlash-append s t)

pub NoSlash-of_append : (s t : Text) → NoSlash (s ++ t) → NoSlash s × NoSlash t
unfolding contains_any
NoSlash-of_append [] t h = (refl, h)
NoSlash-of_append (c ∷ s) t h = ground (arith, NoSlash-of_append s t)

NoSlash-digit : (d : ℕ) → NoSlash ((48 + d) ∷ [])
unfolding contains_any
NoSlash-digit d = ground arith

NoSlash-decimal_digits : (fuel n : ℕ) → NoSlash (decimal_digits fuel n)
unfolding decimal_digits
NoSlash-decimal_digits zero n = unfold contains_any in refl
NoSlash-decimal_digits (suc fuel) n = elim (Bool-cases (ltb n 10)) [
  | inl last ↦ rw last (NoSlash-digit n)
  | inr more ↦ rw more (
      NoSlash-append (decimal_digits fuel (n / 10)) _ (NoSlash-decimal_digits fuel (n / 10))
        (NoSlash-digit (n % 10)))
]

pub NoSlash-decimal : (n : ℕ) → NoSlash (decimal n)
unfolding decimal
NoSlash-decimal n = NoSlash-decimal_digits (suc n) n

split_slash-nonempty :
    (s : Text) → (part : Text) × (rest : List Text) × (split_slash s ≡ part ∷ rest)
unfolding split_slash split_cons
split_slash-nonempty [] = ([], [], refl)
split_slash-nonempty (c ∷ s) =
    let (part, rest, e) = split_slash-nonempty s in
    elim (Bool-cases (eqb c b'/')) [
      | inl slash ↦ ([], part ∷ rest, rw e (rw slash))
      | inr other ↦ (c ∷ part, rest, rw e (rw other))
    ]

-- The parts of a text whose first part has no slash.
pub split_slash-append :
    (s t : Text) → NoSlash s → split_slash (s ++ (b'/' ∷ t)) ≡ s ∷ split_slash t
unfolding split_slash contains_any split_cons
split_slash-append [] t h = let (part, rest, e) = split_slash-nonempty t in rw e
split_slash-append (c ∷ s) t h = rw (split_slash-append s t (ground arith)) (ground arith)
