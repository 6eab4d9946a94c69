-- ===== src/Repo/Items/Laws.antt =====
-- What the reads and the writes of `items` have to do with one another.
use mathlib.Core.Option
use denizen.Prelude.{
  ◌≡◌, refl, ◌≢◌, Bool, true, false, not, none, some, List, [], ◌∷◌, arith, Text, ◌==◌, text_eq,
  Option-cases, Bool-cases, All, inl, inr, ◌<◌, length, length-select, select, any, if◌then◌else◌,
}
use denizen.Model.{Item}
use denizen.Repo.Items.{row, has_id, set_row, insert_by, order_by}

pub id-row : (items : List Item) (id : Text) (i : Item) → row items id ≡ some i → i.id ≡ id
unfolding row
id-row [] id i h = cc
id-row (j ∷ items) id i h = ground (arith, id-row items id i)

module _ (change : Item → Item) (keeps : (i : Item) → (change i).id ≡ i.id) where
  pub row-set_row :
      (items : List Item) (x y : Text)
      → row (set_row change x items) y
        ≡ (if y == x then Option.map change (row items y) else row items y)
  unfolding row set_row
  row-set_row [] x y = ground arith
  row-set_row (i ∷ items) x y = ground (arith, row-set_row items x y, keeps i)

abbrev pub without : Text → List Item → List Item
without x = select (λ i. not (has_id x i))

pub row-without :
    (items : List Item) (x y : Text)
    → row (without x items) y ≡ (if y == x then none else row items y)
unfolding row
row-without [] x y = ground arith
row-without (i ∷ items) x y = ground (arith, row-without items x y)

pub row-without_ne :
    (items : List Item) (x y : Text) → y ≢ x → row (without x items) y ≡ row items y
row-without_ne items x y h = ground (arith, row-without items x y, h)

pub length-without-lt :
    (items : List Item) (x : Text) (i : Item)
    → row items x ≡ some i
    → length (without x items) < length items
unfolding row
length-without-lt [] x i h = cc
length-without-lt (j ∷ items) x i h =
    ground (arith, length-without-lt items x i, length-select (λ k. not (has_id x k)) items)

pub any-has_id_of_row :
    (items : List Item) (x : Text) (i : Item) → row items x ≡ some i → any (has_id x) items ≡ true
unfolding row
any-has_id_of_row [] x i h = cc
any-has_id_of_row (j ∷ items) x i h = ground (arith, any-has_id_of_row items x i)

not-any-has_id_of_row :
    (items : List Item) (x : Text) → row items x ≡ none → any (has_id x) items ≡ false
unfolding row
not-any-has_id_of_row [] x h = refl
not-any-has_id_of_row (j ∷ items) x h = ground (arith, not-any-has_id_of_row items x)

pub row_of_any-has_id :
    (items : List Item) (x : Text)
    → any (has_id x) items ≡ true
    → (i : Item) × (row items x ≡ some i)
row_of_any-has_id items x h = elim (Option-cases (row items x)) [
  | inl missing ↦ cc (not-any-has_id_of_row items x missing)
  | inr found ↦ found
]

pub any-false-row :
    (p : Item → Bool) (items : List Item) (x : Text) (i : Item)
    → any p items ≡ false
    → row items x ≡ some i
    → p i ≡ false
unfolding row
any-false-row p [] x i h e = cc
any-false-row p (j ∷ items) x i h e = ground (arith, any-false-row p items x i)

module _ {A : Type 0} (P : A → Type 0) where
  All-insert_by :
      (before : A → A → Bool) (x : A) (xs : List A) → P x → All P xs → All P (insert_by before x xs)
  unfolding insert_by
  All-insert_by before x [] h hs = (h, tt)
  All-insert_by before x (y ∷ ys) h hs = elim (Bool-cases (before y x)) [
    | inl later ↦ rw later (hs.0, All-insert_by before x ys h hs.1)
    | inr first ↦ rw first (h, hs)
  ]

  pub All-order_by : (before : A → A → Bool) (xs : List A) → All P xs → All P (order_by before xs)
  unfolding order_by
  All-order_by before [] h = tt
  All-order_by before (x ∷ xs) h =
      All-insert_by before x (order_by before xs) h.0 (All-order_by before xs h.1)
