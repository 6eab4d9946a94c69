-- ===== src/Items/Sound/Created.antt =====
-- A new row keeps the invariant.
use denizen.Prelude.{
  ◌≡◌, ◌≢◌, ◌∙◌, ap, sym, none, some, List, ◌∷◌, arith, Text, text_eq, Option-cases, inl, inr,
}
use denizen.Model.{Item, folder, Db}
use denizen.Result.{ok}
use denizen.Storage.Laws.{IsSafe}
use denizen.Repo.Items.{row, create}
use denizen.Repo.Items.Laws.{any-has_id_of_row}
use denizen.Items.Forest.{Rooted, top, under, row_of_Rooted}
use denizen.Items.Sound.{IsSound}

-- The row that a row of a forest names as its parent.
pub row_above :
    (items : List Item) {id : Text} {i : Item} (p : Text)
    → Rooted items id
    → row items id ≡ some i
    → i.parent_id ≡ some p
    → (q : Item) × (row items p ≡ some q)
row_above items p (top j g n) e f = cc
row_above items p (under j p' g h r) e f =
    let (q, k) = row_of_Rooted r in let same : p' ≡ p = cc in (q, rw (← same) k)

module _ (item : Item) (items : List Item) (fresh : row items item.id ≡ none) where
  pub row_self : row (item ∷ items) item.id ≡ some item
  unfolding row
  row_self = ground arith

  pub row-other : (y : Text) (i : Item) → row items y ≡ some i → row (item ∷ items) y ≡ some i
  unfolding row
  row-other y i e = elim (text_eq.dec item.id y) [
    | yes same ↦ cc (ap (row items) same)
    | no other ↦ ground arith
  ]

  is_new : (y : Text) (i : Item) → item.id ≡ y → row (item ∷ items) y ≡ some i → item ≡ i
  is_new y i same e = cc (row_self, ap (row (item ∷ items)) same)

  row-ne : (y : Text) → item.id ≢ y → row (item ∷ items) y ≡ row items y
  unfolding row
  row-ne y other = ground arith

  Rooted-grow : {y : Text} → Rooted items y → Rooted (item ∷ items) y
  Rooted-grow {y} (top i e n) = top i (row-other y i e) n
  Rooted-grow {y} (under i p e f r) = under i p (row-other y i e) f (Rooted-grow r)

  -- A new row keeps the invariant if its id is new, its parent is a folder of the table and its name
  -- is one segment.
  pub IsSound-cons :
      IsSound items
      → ((p : Text)
          → item.parent_id ≡ some p
          → (q : Item) × (row items p ≡ some q) × (q.type ≡ folder))
      → IsSafe item.name
      → IsSound (item ∷ items)
  IsSound-cons sound parent name = record {
    forest = λ id i e. elim (text_eq.dec item.id id) [
      | no other ↦ Rooted-grow (sound.forest id i (sym (row-ne id other) ∙ e))
      | yes same ↦ rw (← same) (elim (Option-cases item.parent_id) [
        | inl root ↦ top item row_self root
        | inr above ↦
            let (q, f, _) = parent above.0 above.1 in
            under item above.0 row_self above.1 (Rooted-grow (sound.forest above.0 q f))
      ])
    ];
    parents = λ id p i q e f g. elim (text_eq.dec item.id id) [
      | yes same ↦
          let here : item ≡ i = is_new id i same e in
          let (q', f', isfolder) = parent p (ap (λ (k : Item). k.parent_id) here ∙ f) in
          let both : q' ≡ q = cc (row-other p q' f') in rw (← both) isfolder
      | no other ↦
          let e' : row items id ≡ some i = sym (row-ne id other) ∙ e in
          let (q', f') = row_above items p (sound.forest id i e') e' f in
          let both : q' ≡ q = cc (row-other p q' f') in
          rw (← both) (sound.parents id p i q' e' f f')
    ];
    names = λ id i e. elim (text_eq.dec item.id id) [
      | yes same ↦ let here : item ≡ i = is_new id i same e in rw (← here) name
      | no other ↦ sound.names id i (sym (row-ne id other) ∙ e)
    ];
  }

pub create_fresh :
    (item : Item) (db db' : Db)
    → create item db ≡ ok db'
    → (row db.items item.id ≡ none) × (db'.items ≡ item ∷ db.items)
unfolding create
create_fresh item db db' h = elim (Option-cases (row db.items item.id)) [
  | inl missing ↦ (missing, ground arith)
  | inr found ↦ cc (rw (any-has_id_of_row db.items item.id found.0 found.1, create) at h)
]
