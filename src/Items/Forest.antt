-- ===== src/Items/Forest.antt =====
-- The rows of `items` as a forest: the parents of a row end at a row with no parent. In a forest
-- every walk up ends within as many steps as there are rows.
use denizen.Prelude.{
  ℕ, zero, suc, ◌≤◌, ◌<◌, ◌≡◌, ◌≢◌, refl, ◌∙◌, ap, none, some, List, arith, Text, text_eq, length,
}
use denizen.Model.{Item}
use denizen.Repo.Items.{row}
use denizen.Repo.Items.Laws.{without, row-without_ne, length-without-lt}

-- The row with this id exists, and the chain of its parents ends.
pub data Rooted (items : List Item) : Text → Type 0 where
  top : {id : Text} (i : Item) → row items id ≡ some i → i.parent_id ≡ none → Rooted items id
  under :
      {id : Text} (i : Item) (p : Text)
      → row items id ≡ some i
      → i.parent_id ≡ some p
      → Rooted items p
      → Rooted items id

abbrev pub IsForest : List Item → Type 0
IsForest items = (id : Text) (i : Item) → row items id ≡ some i → Rooted items id

pub row_of_Rooted :
    {items : List Item} {id : Text} → Rooted items id → (i : Item) × (row items id ≡ some i)
row_of_Rooted (top i e n) = (i, e)
row_of_Rooted (under i p e f r) = (i, e)

-- The number of rows on the chain.
unfoldable pub height : {items : List Item} {id : Text} → Rooted items id → ℕ
height (top i e n) = 1
height (under i p e f r) = suc (height r)

height_unique :
    {items : List Item} {a b : Text} (r : Rooted items a) (s : Rooted items b)
    → a ≡ b
    → height r ≡ height s
unfolding height
height_unique (top i e n) (top j f m) h = refl
height_unique {items} (top i e n) (under j p f g s) h = cc (ap (row items) h)
height_unique {items} (under i p e f r) (top j g m) h = cc (ap (row items) h)
height_unique {items} (under i p e f r) (under j q g k s) h =
    let same : i ≡ j = cc (ap (row items) h) in
    ap suc (height_unique r s (cc (ap (λ (x : Item). x.parent_id) same)))

-- A chain that is shorter than that of a row does not pass the row, and stays without it.
Rooted-without :
    {items : List Item} {x : Text} (s : Rooted items x) {id : Text} (r : Rooted items id)
    → height r < height s
    → (t : Rooted (without x items) id) × (height t ≡ height r)
unfolding height
Rooted-without {items} {x} s {id} (top i e n) h =
    let other : id ≢ x = λ same. omega (arith, height_unique (top i e n) s same) in
    (top i (row-without_ne items x id other ∙ e) n, refl)
Rooted-without {items} {x} s {id} (under i p e f r) h =
    let other : id ≢ x = λ same. omega (arith, height_unique (under i p e f r) s same) in
    let (t, same) = Rooted-without s r (omega arith) in
    (under i p (row-without_ne items x id other ∙ e) f t, ap suc same)

height-le_of_length :
    (n : ℕ) (items : List Item) {id : Text} (r : Rooted items id) → length items ≤ n → height r ≤ n
unfolding height
height-le_of_length zero items {id} (top i e n) h = omega (arith, length-without-lt items id i e)
height-le_of_length (suc n) items (top i e f) h = omega arith
height-le_of_length zero items {id} (under i p e f r) h =
    omega (arith, length-without-lt items id i e)
height-le_of_length (suc n) items {id} (under i p e f r) h =
    let (t, same) = Rooted-without (under i p e f r) r (omega arith) in
    omega (
      arith,
      same,
      length-without-lt items id i e,
      height-le_of_length n (without id items) t (omega (arith, length-without-lt items id i e)),
    )

-- A chain has no more rows than the table.
pub height-le-length :
    {items : List Item} {id : Text} (r : Rooted items id) → height r ≤ length items
height-le-length {items} r = height-le_of_length (length items) items r (omega arith)
