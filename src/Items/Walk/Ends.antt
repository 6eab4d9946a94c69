-- ===== src/Items/Walk/Ends.antt =====
-- In a forest the walks of Items/Walk.antt end, and the walk to a grant finds the nearest one.
use denizen.Prelude.{
  ℕ, zero, suc, ◌<◌, ◌≡◌, ◌≢◌, ◌↔◌, refl, ap, Option, none, some, List, arith, Text, text_eq,
  Option-cases, inl, inr,
}
use denizen.Model.{Item, UserShare, Db, diverges}
use denizen.Result.{ok, err}
use denizen.Storage.{FilePath, join}
use denizen.Repo.Items.{row}
use denizen.Repo.Shares.{find_grant}
use denizen.Items.Walk.{
  steps, path_from, path_of, grant_from, resolve_grant, check_from, check_not_self_or_descendant,
}
use denizen.Items.Forest.{Rooted, top, under, IsForest, row_of_Rooted, height, height-le-length}

path_from-ends :
    (fuel : ℕ) (db : Db) (root : FilePath) {id : Text} (r : Rooted db.items id) (item : Item)
    → row db.items id ≡ some item
    → height r < fuel
    → (p : FilePath) × (path_from fuel db root item ≡ ok p)
unfolding path_from height
path_from-ends zero db root r item e h = elim h [ ]
path_from-ends (suc fuel) db root (top i f n) item e h =
    let none_above : item.parent_id ≡ none = cc in (join root item.name, rw none_above)
path_from-ends (suc fuel) db root (under i p f g r) item e h =
    let above : item.parent_id ≡ some p = cc in
    let (parent, k) = row_of_Rooted r in
    let (q, e') = path_from-ends fuel db root r parent k (omega arith) in
    (join q item.name, rw (above, k, e'))

-- In a forest every row has a path on disk.
path_of_total :
    (db : Db) (root : FilePath) (id : Text) (item : Item)
    → IsForest db.items
    → row db.items id ≡ some item
    → (p : FilePath) × (path_of db root item ≡ ok p)
unfolding path_of
path_of_total db root id item forest e =
    let r = forest id item e in
    path_from-ends (steps db.items) db root r item e (omega (arith, height-le-length r))

-- The grant that reaches an item: one on the item, or else the one that reaches its parent.
pub data Inherits (db : Db) (caller : Text) : Item → UserShare → Type 0 where
  direct : {i : Item} {g : UserShare} → find_grant db i.id caller ≡ some g → Inherits db caller i g
  inherited :
      {i : Item} {g : UserShare} (p : Text) (parent : Item)
      → find_grant db i.id caller ≡ none
      → i.parent_id ≡ some p
      → row db.items p ≡ some parent
      → Inherits db caller parent g
      → Inherits db caller i g

grant_from-ends :
    (fuel : ℕ) (db : Db) (caller : Text) {id : Text} (r : Rooted db.items id) (item : Item)
    → row db.items id ≡ some item
    → height r < fuel
    → (o : Option UserShare) × (grant_from fuel db caller item ≡ ok o)
unfolding grant_from height
grant_from-ends zero db caller r item e h = elim h [ ]
grant_from-ends (suc fuel) db caller (top i f n) item e h =
    let none_above : item.parent_id ≡ none = cc in
    elim (Option-cases (find_grant db item.id caller)) [
      | inl missing ↦ (none, rw (missing, grant_from, none_above))
      | inr found ↦ (some found.0, rw (found.1, grant_from))
    ]
grant_from-ends (suc fuel) db caller (under i p f g r) item e h =
    let above : item.parent_id ≡ some p = cc in
    let (parent, k) = row_of_Rooted r in
    let (o, e') = grant_from-ends fuel db caller r parent k (omega arith) in
    elim (Option-cases (find_grant db item.id caller)) [
      | inl missing ↦ (o, rw (missing, grant_from, above, k, e'))
      | inr found ↦ (some found.0, rw (found.1, grant_from))
    ]

-- In a forest the search for a grant ends.
pub resolve_grant_total :
    (db : Db) (id : Text) (item : Item) (caller : Text)
    → IsForest db.items
    → row db.items id ≡ some item
    → (o : Option UserShare) × (resolve_grant db item caller ≡ ok o)
unfolding resolve_grant
resolve_grant_total db id item caller forest e =
    let r = forest id item e in
    grant_from-ends (steps db.items) db caller r item e (omega (arith, height-le-length r))

grant_from_sound :
    (fuel : ℕ) (db : Db) (caller : Text) (item : Item) (g : UserShare)
    → grant_from fuel db caller item ≡ ok (some g)
    → Inherits db caller item g
unfolding grant_from
grant_from_sound zero db caller item g h = cc
grant_from_sound (suc fuel) db caller item g h =
    elim (Option-cases (find_grant db item.id caller)) [
      | inr found ↦ direct (ground arith)
      | inl missing ↦ elim (Option-cases item.parent_id) [
        | inl root ↦ cc (rw (missing, grant_from, root) at h)
        | inr above ↦ elim (Option-cases (row db.items above.0)) [
          | inl dangling ↦ cc (rw (missing, grant_from, above.1, dangling) at h)
          | inr parent ↦ inherited above.0 parent.0 missing above.1 parent.1 (
              grant_from_sound fuel db caller parent.0 g
                (rw (missing, grant_from, above.1, parent.1) at h))
        ]
      ]
    ]

Inherits-ne-none :
    (fuel : ℕ) (db : Db) (caller : Text) (item : Item) (g : UserShare)
    → Inherits db caller item g
    → grant_from fuel db caller item ≢ ok none
unfolding grant_from
Inherits-ne-none zero db caller item g i h = cc
Inherits-ne-none (suc fuel) db caller item g (direct found) h = cc (rw (found, grant_from) at h)
Inherits-ne-none (suc fuel) db caller item g (inherited p parent missing above e i) h =
    Inherits-ne-none fuel db caller parent g i (rw (missing, grant_from, above, e) at h)

Inherits-unique :
    {db : Db} {caller : Text} {item other : Item} {g k : UserShare}
    → Inherits db caller item g
    → Inherits db caller other k
    → item ≡ other
    → g ≡ k
Inherits-unique {db} {caller} (direct found) (direct found') same =
    cc (ap (λ (i : Item). find_grant db i.id caller) same)
Inherits-unique {db} {caller} (direct found) (inherited p parent missing above e i) same =
    cc (ap (λ (i : Item). find_grant db i.id caller) same)
Inherits-unique {db} {caller} (inherited p parent missing above e i) (direct found) same =
    cc (ap (λ (i : Item). find_grant db i.id caller) same)
Inherits-unique {db} {caller} (inherited p parent missing above e i)
      (inherited q parent' missing' above' e' i') same =
    let p-eq-q : p ≡ q = cc (ap (λ (i : Item). i.parent_id) same) in
    Inherits-unique i i' (cc (ap (row db.items) p-eq-q))

found_of_Inherits :
    (fuel : ℕ) (db : Db) (caller : Text) (item : Item) (g : UserShare) (o : Option UserShare)
    → grant_from fuel db caller item ≡ ok o
    → Inherits db caller item g
    → grant_from fuel db caller item ≡ ok (some g)
found_of_Inherits fuel db caller item g none h i =
    absurd (Inherits-ne-none fuel db caller item g i h)
found_of_Inherits fuel db caller item g (some k) h i =
    cc (Inherits-unique i (grant_from_sound fuel db caller item k h) refl)

none_of_not-Inherits :
    (fuel : ℕ) (db : Db) (caller : Text) (item : Item) (o : Option UserShare)
    → grant_from fuel db caller item ≡ ok o
    → ((g : UserShare) → ¬ Inherits db caller item g)
    → grant_from fuel db caller item ≡ ok none
none_of_not-Inherits fuel db caller item none h all = h
none_of_not-Inherits fuel db caller item (some k) h all =
    absurd (all k (grant_from_sound fuel db caller item k h))

module _ (db : Db) (id : Text) (item : Item) (caller : Text) (forest : IsForest db.items)
    (e : row db.items id ≡ some item) where
  -- In a forest the search returns a grant exactly if it is the one that the item inherits.
  pub resolve_grant-iff_Inherits :
      (g : UserShare) → (resolve_grant db item caller ≡ ok (some g)) ↔ Inherits db caller item g
  unfolding resolve_grant
  resolve_grant-iff_Inherits g =
      let (o, h) = resolve_grant_total db id item caller forest e in
      (
        grant_from_sound (steps db.items) db caller item g,
        found_of_Inherits (steps db.items) db caller item g o h,
      )

  -- In a forest the search returns no grant exactly if the item inherits none.
  pub resolve_grant-none_iff :
      (resolve_grant db item caller ≡ ok none) ↔ ((g : UserShare) → ¬ Inherits db caller item g)
  unfolding resolve_grant
  resolve_grant-none_iff =
      let (o, h) = resolve_grant_total db id item caller forest e in
      (
        λ found g i. Inherits-ne-none (steps db.items) db caller item g i found,
        none_of_not-Inherits (steps db.items) db caller item o h,
      )

check_from-ends :
    (fuel : ℕ) (items : List Item) (item_id : Text) {id : Text} (r : Rooted items id)
    → height r < fuel
    → check_from fuel items item_id id ≢ err diverges
unfolding check_from height
check_from-ends zero items item_id r h = elim h [ ]
check_from-ends (suc fuel) items item_id (top i f n) h = ground arith
check_from-ends (suc fuel) items item_id {id} (under i p f g r) h =
    ground (arith, check_from-ends fuel items item_id r (omega arith))

-- In a forest the check before a move ends, whatever its target.
pub check_not_self_or_descendant-ends :
    (db : Db) (item_id target : Text)
    → IsForest db.items
    → check_not_self_or_descendant db item_id target ≢ err diverges
unfolding check_not_self_or_descendant check_from
check_not_self_or_descendant-ends db item_id target forest =
    elim (Option-cases (row db.items target)) [
      | inl missing ↦ ground arith
      | inr found ↦
          let r = forest target found.0 found.1 in
          check_from-ends (steps db.items) db.items item_id r (omega (arith, height-le-length r))
    ]
