-- ===== src/Text.antt =====
-- The functions of Go's `strings`, `strconv` and `path/filepath` that the program calls on names
-- and ids, over the bytes of a text.
pub mod Laws
pub mod Fields
use mathlib.Core.List.{reverse}
use mathlib.Core.Option
use denizen.Prelude.Int.{ℤ, pos, negsuc}
use denizen.Prelude.{
  ℕ, zero, suc, ◌+◌, ◌-◌, ◌/◌, ◌%◌, Bool, true, false, ◌||◌, Option, none, some, List, [], ◌∷◌,
  ◌++◌, map, Text, text, ◌==◌, text_eq, length, take, any, ltb, leb, eqb, ◌&&◌, if◌then◌else◌,
}

-- The rest of the text behind a prefix, if the text has that prefix.
unfoldable pub after_prefix : Text → Text → Option Text
after_prefix [] s = some s
after_prefix (p ∷ ps) [] = none
after_prefix (p ∷ ps) (c ∷ s) = let rest = after_prefix ps s in if eqb p c then rest else none

-- The rest behind the first of the prefixes that the text has.
after_one_of : List Text → Text → Option Text
unfolding after_prefix
after_one_of [] s = none
after_one_of (p ∷ ps) s =
    let rest = after_one_of ps s in elim (after_prefix p s) [ none ↦ rest | some t ↦ some t ]

-- Drops prefixes for as long as there are any; the fuel is the length of the text.
strip : ℕ → List Text → Text → Text
unfolding after_one_of
strip zero ps s = s
strip (suc fuel) ps s = elim (after_one_of ps s) [ none ↦ s | some t ↦ strip fuel ps t ]

-- The characters of unicode.IsSpace in UTF-8.
abbrev spaces : List Text
spaces =
    (0x09 ∷ [])
    ∷ (0x0a ∷ [])
    ∷ (0x0b ∷ [])
    ∷ (0x0c ∷ [])
    ∷ (0x0d ∷ [])
    ∷ (0x20 ∷ [])
    ∷ (0xc2 ∷ 0x85 ∷ [])
    ∷ (0xc2 ∷ 0xa0 ∷ [])
    ∷ (0xe1 ∷ 0x9a ∷ 0x80 ∷ [])
    ∷ (0xe2 ∷ 0x80 ∷ 0x80 ∷ [])
    ∷ (0xe2 ∷ 0x80 ∷ 0x81 ∷ [])
    ∷ (0xe2 ∷ 0x80 ∷ 0x82 ∷ [])
    ∷ (0xe2 ∷ 0x80 ∷ 0x83 ∷ [])
    ∷ (0xe2 ∷ 0x80 ∷ 0x84 ∷ [])
    ∷ (0xe2 ∷ 0x80 ∷ 0x85 ∷ [])
    ∷ (0xe2 ∷ 0x80 ∷ 0x86 ∷ [])
    ∷ (0xe2 ∷ 0x80 ∷ 0x87 ∷ [])
    ∷ (0xe2 ∷ 0x80 ∷ 0x88 ∷ [])
    ∷ (0xe2 ∷ 0x80 ∷ 0x89 ∷ [])
    ∷ (0xe2 ∷ 0x80 ∷ 0x8a ∷ [])
    ∷ (0xe2 ∷ 0x80 ∷ 0xa8 ∷ [])
    ∷ (0xe2 ∷ 0x80 ∷ 0xa9 ∷ [])
    ∷ (0xe2 ∷ 0x80 ∷ 0xaf ∷ [])
    ∷ (0xe2 ∷ 0x81 ∷ 0x9f ∷ [])
    ∷ (0xe3 ∷ 0x80 ∷ 0x80 ∷ [])
    ∷ []

-- strings.TrimSpace
unfoldable pub trim_space : Text → Text
unfolding strip
trim_space s =
    let left = strip (length s) spaces s in
    reverse (strip (length left) (map reverse spaces) (reverse left))

-- strings.ContainsAny for a set of bytes
unfoldable pub contains_any : Text → Text → Bool
contains_any s set = any (λ c. any (λ d. eqb c d) set) s

-- The extension of a text from that of its tail.
ext_cons : ℕ → Text → Text → Text
unfolding contains_any
ext_cons c s [] = if eqb c b'.' then (if contains_any s (b'/' ∷ []) then [] else c ∷ s) else []
ext_cons c s (d ∷ e) = d ∷ e

-- filepath.Ext: from the last dot on, if no slash stands behind it.
unfoldable pub ext : Text → Text
unfolding ext_cons
ext [] = []
ext (c ∷ s) = ext_cons c s (ext s)

-- strings.TrimPrefix(ext, ".")
unfoldable pub without_dot : Text → Text
without_dot [] = []
without_dot (c ∷ s) = if eqb c b'.' then s else c ∷ s

-- strings.ToLower on the letters of ASCII. No other letter turns into one of the extensions that
-- the program knows: they have no i and no k.
abbrev pub lower_byte : ℕ → ℕ
lower_byte c = if leb b'A' c && leb c b'Z' then c + 32 else c

unfoldable pub lower : Text → Text
lower [] = []
lower (c ∷ s) = lower_byte c ∷ lower s

-- strings.TrimSuffix
unfoldable pub trim_suffix : Text → Text → Text
unfolding after_prefix
trim_suffix s suffix =
    Option.get_or (Option.map reverse (after_prefix (reverse suffix) (reverse s))) s

-- strings.HasSuffix
unfoldable pub has_suffix : Text → Text → Bool
unfolding after_prefix
has_suffix s suffix = elim (after_prefix (reverse suffix) (reverse s)) [
  | none ↦ false
  | some _ ↦ true
]

-- strings.IndexByte, and the text in front of the byte: none if it is not there, or stands first.
unfoldable pub before_byte : ℕ → Text → Option Text
before_byte b [] = none
before_byte b (c ∷ s) = if eqb c b then none else front b (c ∷ []) s
  where
    front : ℕ → Text → Text → Option Text
    front b seen [] = none
    front b seen (d ∷ s) =
        let rest = front b (seen ++ (d ∷ [])) s in if eqb d b then some seen else rest

-- The digits of a number, for `%d`; the fuel is any number above it.
decimal_digits : ℕ → ℕ → Text
decimal_digits zero n = []
decimal_digits (suc fuel) n =
    let high = decimal_digits fuel (n / 10) in
    if ltb n 10 then (48 + n) ∷ [] else high ++ ((48 + n % 10) ∷ [])

unfoldable pub decimal : ℕ → Text
unfolding decimal_digits
decimal n = decimal_digits (suc n) n

-- The digits of an int64, for `%d`
unfoldable pub decimal_int : ℤ → Text
unfolding decimal
decimal_int (pos n) = decimal n
decimal_int (negsuc n) = b'-' ∷ decimal (suc n)

-- The parts of a text from those of its tail.
split_cons : ℕ → List Text → List Text
split_cons c [] = (c ∷ []) ∷ []
split_cons c (part ∷ parts) = if eqb c b'/' then [] ∷ part ∷ parts else (c ∷ part) ∷ parts

-- The parts of a text between slashes.
unfoldable pub split_slash : Text → List Text
unfolding split_cons
split_slash [] = [] ∷ []
split_slash (c ∷ s) = split_cons c (split_slash s)
