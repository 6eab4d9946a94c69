-- ===== src/Items/Sound/Kept.antt =====
-- The writes to `items` keep the invariant.
use denizen.Prelude.{
  ℕ, zero, suc, ◌≡◌, ◌≢◌, refl, ◌∙◌, ap, sym, none, some, List, arith, Text, text_eq, Option-cases,
  inl, inr, ◌⊎◌,
}
use denizen.Model.{Item, folder, validation, diverges}
use denizen.Result.{ok, err}
use denizen.Storage.Laws.{IsSafe}
use denizen.Repo.Items.{row, set_row}
use denizen.Repo.Items.Laws.{row-set_row}
use denizen.Items.Walk.{check_from}
use denizen.Items.Forest.{Rooted, top, under}
use denizen.Items.Sound.{IsSound}

-- A change of a row that leaves its id.
module _ (change : Item → Item) (keeps : (i : Item) → (change i).id ≡ i.id) (items : List Item)
    (x : Text) where
  pub row-set_row_ne : (y : Text) → y ≢ x → row (set_row change x items) y ≡ row items y
  row-set_row_ne y h = ground (arith, row-set_row change keeps items x y, h)

  pub row-set_row_self :
      (i : Item) → row items x ≡ some i → row (set_row change x items) x ≡ some (change i)
  row-set_row_self i e = rw row-set_row (ground arith)

  check_out_of_steps : (current : Text) → check_from zero items x current ≡ err diverges
  unfolding check_from
  check_out_of_steps current = refl

  check_self :
      (fuel : ℕ) (current : Text)
      → current ≡ x
      → check_from (suc fuel) items x current
        ≡ err (validation "cannot move a folder into itself or one of its own subfolders")
  unfolding check_from
  check_self fuel current same = ground arith

  check_missing :
      (fuel : ℕ) (current : Text)
      → current ≢ x
      → row items current ≡ none
      → check_from (suc fuel) items x current ≡ err (validation "parent folder not found")
  unfolding check_from
  check_missing fuel current other missing = ground arith

  check_up :
      (fuel : ℕ) (current : Text) (i : Item) (p : Text)
      → current ≢ x
      → row items current ≡ some i
      → i.parent_id ≡ some p
      → check_from (suc fuel) items x current ≡ check_from fuel items x p
  unfolding check_from
  check_up fuel current i p other e f = ground arith

  -- A walk that passes the check before a move does not meet the row that moves.
  pub Rooted-of_check :
      (fuel : ℕ) (current : Text)
      → check_from fuel items x current ≡ ok tt
      → Rooted (set_row change x items) current
  Rooted-of_check zero current h = cc (check_out_of_steps current)
  Rooted-of_check (suc fuel) current h = elim (text_eq.dec current x) [
    | yes same ↦ cc (rw (check_self fuel current same) at h)
    | no other ↦ elim (Option-cases (row items current)) [
      | inl missing ↦ cc (rw (check_missing fuel current other missing) at h)
      | inr found ↦ elim (Option-cases found.0.parent_id) [
        | inl root ↦ top found.0 (row-set_row_ne current other ∙ found.1) root
        | inr above ↦ under found.0 above.0 (row-set_row_ne current other ∙ found.1) above.1 (
            Rooted-of_check fuel above.0
              (sym (check_up fuel current found.0 above.0 other found.1 above.1) ∙ h))
      ]
    ]
  ]

  -- If the changed row is rooted, the other rows stay so.
  pub Rooted-set_row :
      Rooted (set_row change x items) x
      → {id : Text} → Rooted items id
      → Rooted (set_row change x items) id
  Rooted-set_row r {id} (top i e n) = elim (text_eq.dec id x) [
    | yes same ↦ rw same r
    | no other ↦ top i (row-set_row_ne id other ∙ e) n
  ]
  Rooted-set_row r {id} (under i p e f s) = elim (text_eq.dec id x) [
    | yes same ↦ rw same r
    | no other ↦ under i p (row-set_row_ne id other ∙ e) f (Rooted-set_row r s)
  ]

  -- A change that leaves the parent of the row leaves the forest.
  pub Rooted-set_row_same :
      (i₀ : Item)
      → row items x ≡ some i₀
      → (change i₀).parent_id ≡ i₀.parent_id
      → {id : Text} → Rooted items id
      → Rooted (set_row change x items) id
  Rooted-set_row_same i₀ e₀ same {id} (top i e n) = elim (text_eq.dec id x) [
    | yes at ↦ top (change i₀) (rw at (row-set_row_self i₀ e₀)) (same ∙ cc (ap (row items) at))
    | no other ↦ top i (row-set_row_ne id other ∙ e) n
  ]
  Rooted-set_row_same i₀ e₀ same {id} (under i p e f s) = elim (text_eq.dec id x) [
    | yes at ↦
        under (change i₀) p (rw at (row-set_row_self i₀ e₀)) (same ∙ cc (ap (row items) at))
          (Rooted-set_row_same i₀ e₀ same s)
    | no other ↦ under i p (row-set_row_ne id other ∙ e) f (Rooted-set_row_same i₀ e₀ same s)
  ]

  -- Where a row of the changed table comes from.
  pub row_before :
      (id : Text) (j : Item)
      → row (set_row change x items) id ≡ some j
      → (i : Item) × (row items id ≡ some i) × (((id ≡ x) × (j ≡ change i)) ⊎ ((id ≢ x) × (j ≡ i)))
  row_before id j e = elim (Option-cases (row items id)) [
    | inl missing ↦ cc (gone id missing)
    | inr found ↦ (
      found.0,
      found.1,
      elim (text_eq.dec id x) [
        | yes at ↦ inl (
          at,
          cc (
            row-set_row_self found.0 (ap (row items) (sym at) ∙ found.1),
            ap (row (set_row change x items)) at,
          ),
        )
        | no other ↦ inr (other, cc (row-set_row_ne id other))
      ],
    )
  ]
    where
      gone : (id : Text) → row items id ≡ none → row (set_row change x items) id ≡ none
      gone id missing = ground (arith, row-set_row change keeps items x id)

module _ (change : Item → Item) (keeps : (i : Item) → (change i).id ≡ i.id)
    (keeps_type : (i : Item) → (change i).type ≡ i.type) (items : List Item) (x : Text) (i₀ : Item)
    (e₀ : row items x ≡ some i₀) (sound : IsSound items) where
  unchanged : (i : Item) (id : Text) → id ≡ x → row items id ≡ some i → i₀ ≡ i
  unchanged i id at e = cc (ap (row items) at)

  type_before :
      (p : Text) (q : Item)
      → row (set_row change x items) p ≡ some q
      → (q' : Item) × (row items p ≡ some q') × (q.type ≡ q'.type)
  type_before p q g =
      let (q', g', from) = row_before change keeps items x p q g in
      (
        q',
        g',
        elim from [
          | inl at ↦ ap (λ (k : Item). k.type) at.1 ∙ keeps_type q'
          | inr other ↦ ap (λ (k : Item). k.type) other.1
        ],
      )

  -- A change of a row keeps the invariant if the row is rooted after it, its new parent is a folder
  -- and its new name is one segment.
  pub IsSound-set_row :
      ((id : Text) → Rooted items id → Rooted (set_row change x items) id)
      → ((p : Text) (q : Item)
          → (change i₀).parent_id ≡ some p
          → row items p ≡ some q
          → q.type ≡ folder)
      → IsSafe (change i₀).name
      → IsSound (set_row change x items)
  IsSound-set_row rooted parent name = record {
    forest = λ id j e.
        let (i, e', _) = row_before change keeps items x id j e in rooted id (sound.forest id i e');
    parents = λ id p j q e f g.
        let (i, e', from) = row_before change keeps items x id j e in
        let (q', g', same) = type_before p q g in
        same ∙ elim from [
          | inl at ↦
              parent p q'
                (ap (λ (k : Item). (change k).parent_id) (unchanged i id at.0 e')
                  ∙ ap (λ (k : Item). k.parent_id) (sym at.1)
                  ∙ f)
                g'
          | inr other ↦
              sound.parents id p i q' e' (ap (λ (k : Item). k.parent_id) (sym other.1) ∙ f) g'
        ];
    names = λ id j e.
        let (i, e', from) = row_before change keeps items x id j e in
        elim from [
          | inl at ↦ rw (at.1, ← (unchanged i id at.0 e')) name
          | inr other ↦ rw other.1 (sound.names id i e')
        ];
  }

  -- A change that leaves the parent and the name keeps the invariant.
  pub IsSound-set_row_same :
      (change i₀).parent_id ≡ i₀.parent_id
      → (change i₀).name ≡ i₀.name
      → IsSound (set_row change x items)
  IsSound-set_row_same parent name =
      IsSound-set_row (λ id r. Rooted-set_row_same change keeps items x i₀ e₀ parent r)
        (λ p q e f. sound.parents x p i₀ q e₀ (sym parent ∙ e) f) (rw name (sound.names x i₀ e₀))
