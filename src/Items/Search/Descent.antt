-- ===== src/Items/Search/Descent.antt =====
-- The recursive query of SearchByNameInSubtree: in a forest it ends, and finds what lies below the root.
use denizen.Prelude.{
  ℕ, zero, suc, ◌+◌, ◌≤◌, ◌<◌, ◌≡◌, ◌↔◌, refl, ap, arith, true, ◌&&◌, ◌||◌, none, some, List, [],
  ◌∷◌, ◌++◌, map, Text, ◌==◌, text_eq, option_text_eq, contains, All, All-append, select, length,
  Bool-cases, inl, inr,
}
use denizen.Model.{Item, Db}
use denizen.Result.{ok, Result-cases}
use denizen.Repo.Items.{row, is_active}
use denizen.Repo.Search.{children_of, next_level, subtree_from, subtree}
use denizen.Items.Sound.{HasKeys}
use denizen.Items.Forest.{Rooted, top, under, IsForest, height, height-le-length}

-- The root, and the items below it that are not in the trash.
pub data Below (db : Db) (root : Text) : Text → Type 0 where
  here : Below db root root
  step :
      (i : Item) (p : Text)
      → row db.items i.id ≡ some i
      → i.parent_id ≡ some p
      → i.deleted_at ≡ none
      → Below db root p
      → Below db root i.id

-- The rows of a level: below the root, at least so deep, and in the table from the second level on.
record IsDeep (db : Db) (root : Text) (n : ℕ) (id : Text) : Type 0 where
  below : Below db root id
  depth : (id' : Text) (r : Rooted db.items id') → id' ≡ id → n ≤ height r
  there : 0 < n → (i : Item) × (row db.items id ≡ some i)

deeper :
    (db : Db) (n : ℕ) (p id : Text) (i : Item)
    → ((id' : Text) (r : Rooted db.items id') → id' ≡ p → n ≤ height r)
    → row db.items id ≡ some i
    → i.parent_id ≡ some p
    → (id' : Text) (r : Rooted db.items id') → id' ≡ id
    → suc n ≤ height r
unfolding height
deeper db n p id i deep e f id' (top j g none_above) same =
    let eq : j ≡ i = cc (ap (row db.items) same) in cc (ap (λ (k : Item). k.parent_id) eq)
deeper db n p id i deep e f id' (under j q g above r) same =
    let eq : j ≡ i = cc (ap (row db.items) same) in
    let parent : q ≡ p = cc (ap (λ (k : Item). k.parent_id) eq) in omega (arith, deep q r parent)

child-IsDeep :
    (db : Db) (root : Text) (n : ℕ) (p : Text) (i : Item)
    → IsDeep db root n p
    → row db.items i.id ≡ some i
    → i.parent_id ≡ some p
    → i.deleted_at ≡ none
    → IsDeep db root (suc n) i.id
child-IsDeep db root n p i deep e f active = record {
  below = step i p e f active deep.below;
  depth = deeper db n p i.id i deep.depth e f;
  there = λ _. (i, e);
}

-- The rows of `children_of`, over a part of the table.
children-IsDeep :
    (db : Db) (root : Text) (n : ℕ) (p : Text) (items : List Item)
    → IsDeep db root n p
    → All (λ (i : Item). row db.items i.id ≡ some i) items
    → All
        (IsDeep db root (suc n))
        (map (λ (i : Item). i.id) (select (λ i. i.parent_id == some p && is_active i) items))
children-IsDeep db root n p [] deep keys = tt
children-IsDeep db root n p (i ∷ items) deep keys =
    let rest = children-IsDeep db root n p items deep keys.1 in
    elim (Bool-cases (i.parent_id == some p && is_active i)) [
      | inr other ↦ rw other rest
      | inl child ↦
          rw child (child-IsDeep db root n p i deep keys.0 (ground arith) (ground arith), rest)
    ]

next_level-IsDeep :
    (db : Db) (root : Text) (n : ℕ) (ids : List Text)
    → HasKeys db.items
    → All (IsDeep db root n) ids
    → All (IsDeep db root (suc n)) (next_level db ids)
unfolding next_level children_of
next_level-IsDeep db root n [] keys deep = tt
next_level-IsDeep db root n (id ∷ ids) keys deep =
    All-append (IsDeep db root (suc n)) _ _ (children-IsDeep db root n id db.items deep.0 keys)
      (next_level-IsDeep db root n ids keys deep.1)

belows :
    (db : Db) (root : Text) (n : ℕ) (ids : List Text)
    → All (IsDeep db root n) ids
    → All (Below db root) ids
belows db root n [] deep = tt
belows db root n (id ∷ ids) deep = (deep.0.below, belows db root n ids deep.1)

nothing_below : (fuel : ℕ) (db : Db) → subtree_from fuel db [] ≡ ok []
unfolding subtree_from
nothing_below zero db = refl
nothing_below (suc fuel) db = refl

subtree_from-ends :
    (fuel : ℕ) (db : Db) (root : Text) (n : ℕ) (level : List Text)
    → IsForest db.items
    → HasKeys db.items
    → All (IsDeep db root n) level
    → length db.items < n + fuel
    → (ids : List Text) × (subtree_from fuel db level ≡ ok ids) × All (Below db root) ids
unfolding subtree_from
subtree_from-ends fuel db root n [] forest keys deep enough = ([], nothing_below fuel db, tt)
subtree_from-ends zero db root n (id ∷ ids) forest keys deep enough =
    let (i, e) = deep.0.there (omega arith) in
    let r = forest id i e in absurd (omega (arith, deep.0.depth id r refl, height-le-length r))
subtree_from-ends (suc fuel) db root n (id ∷ ids) forest keys deep enough =
    let (rest, e, below) =
      subtree_from-ends fuel db root (suc n) (next_level db (id ∷ ids)) forest keys
        (next_level-IsDeep db root n (id ∷ ids) keys deep) (omega arith) in
    (
      (id ∷ ids) ++ rest,
      rw e,
      All-append (Below db root) (id ∷ ids) rest (belows db root n (id ∷ ids) deep) below,
    )

-- In a forest the recursive query ends, and all that it finds is the root or lies below it.
pub subtree_sound :
    (db : Db) (root : Text)
    → IsForest db.items
    → HasKeys db.items
    → (ids : List Text) × (subtree db root ≡ ok ids) × All (Below db root) ids
unfolding subtree
subtree_sound db root forest keys =
    subtree_from-ends (suc (suc (length db.items))) db root 0 (root ∷ []) forest keys
      (
        record {
          below = here;
          depth = λ id' r same. omega arith;
          there = λ h. absurd (omega arith);
        },
        tt,
      )
      (omega arith)

contains-append :
    (xs ys : List Text) (id : Text) → contains (xs ++ ys) id ≡ (contains xs id || contains ys id)
contains-append [] ys id = refl
contains-append (x ∷ xs) ys id = ground (arith, contains-append xs ys id)

child_in :
    (items : List Item) (p : Text) (i : Item)
    → row items i.id ≡ some i
    → i.parent_id ≡ some p
    → i.deleted_at ≡ none
    → contains
        (map (λ (i : Item). i.id) (select (λ i. i.parent_id == some p && is_active i) items))
        i.id
      ≡ true
unfolding row
child_in [] p i e f active = cc
child_in (j ∷ items) p i e f active = ground (arith, child_in items p i)

-- The children of a row of a level are in the next level.
child_in_next_level :
    (db : Db) (ids : List Text) (p : Text) (i : Item)
    → contains ids p ≡ true
    → row db.items i.id ≡ some i
    → i.parent_id ≡ some p
    → i.deleted_at ≡ none
    → contains (next_level db ids) i.id ≡ true
unfolding next_level children_of
child_in_next_level db [] p i at e f active = cc
child_in_next_level db (q ∷ ids) p i at e f active =
    rw (contains-append (children_of db q) (next_level db ids) i.id) (elim (Bool-cases (p == q)) [
      | inl same ↦ ground (arith, child_in db.items q i e)
      | inr other ↦ ground (arith, child_in_next_level db ids p i)
    ])

-- The ids that the query yields for a level: the level itself, and those for the next one.
level_then :
    (fuel : ℕ) (db : Db) (id : Text) (level ids : List Text)
    → subtree_from (suc fuel) db (id ∷ level) ≡ ok ids
    → (below : List Text) × (subtree_from fuel db (next_level db (id ∷ level)) ≡ ok below)
      × (ids ≡ (id ∷ level) ++ below)
unfolding subtree_from
level_then fuel db id level ids h =
    elim (Result-cases (subtree_from fuel db (next_level db (id ∷ level)))) [
      | inr failed ↦ cc (rw failed.1 at h)
      | inl found ↦ (found.0, found.1, cc (rw found.1 at h))
    ]

level_in :
    (fuel : ℕ) (db : Db) (level ids : List Text) (p : Text)
    → subtree_from fuel db level ≡ ok ids
    → contains level p ≡ true
    → contains ids p ≡ true
unfolding subtree_from
level_in fuel db [] ids p h at = cc
level_in zero db (id ∷ level) ids p h at = cc
level_in (suc fuel) db (id ∷ level) ids p h at =
    let (below, _, same) = level_then fuel db id level ids h in
    rw (same, contains-append (id ∷ level) below p) (ground (arith, at))

-- What the query yields holds the children of all that it yields.
closed :
    (fuel : ℕ) (db : Db) (level ids : List Text) (p : Text) (i : Item)
    → subtree_from fuel db level ≡ ok ids
    → contains ids p ≡ true
    → row db.items i.id ≡ some i
    → i.parent_id ≡ some p
    → i.deleted_at ≡ none
    → contains ids i.id ≡ true
unfolding subtree_from
closed zero db [] ids p i h at e f active = cc
closed (suc fuel) db [] ids p i h at e f active = cc
closed zero db (id ∷ level) ids p i h at e f active = cc
closed (suc fuel) db (id ∷ level) ids p i h at e f active =
    let (below, found, same) = level_then fuel db id level ids h in
    rw (same, contains-append (id ∷ level) below i.id)
      (elim (Bool-cases (contains (id ∷ level) p)) [
        | inl above ↦
            let next =
              level_in fuel db (next_level db (id ∷ level)) below i.id found
                (child_in_next_level db (id ∷ level) p i above e f active) in
            ground (arith, next)
        | inr lower ↦
            let at' = rw (same, contains-append (id ∷ level) below p, lower) at at in
            ground
              (arith, closed fuel db (next_level db (id ∷ level)) below p i found at' e f active)
      ])

Below-contained :
    (db : Db) (root : Text) (ids : List Text) (id : Text)
    → subtree db root ≡ ok ids
    → Below db root id
    → contains ids id ≡ true
unfolding subtree
Below-contained db root ids id h here =
    level_in (suc (suc (length db.items))) db (root ∷ []) ids root h (ground arith)
Below-contained db root ids id h (step i p e f active b) =
    closed (suc (suc (length db.items))) db (root ∷ []) ids p i h
      (Below-contained db root ids p h b) e f active

same_text : (s t : Text) → (s == t) ≡ true → s ≡ t
same_text s t h = ground arith

All-contains :
    (P : Text → Type 0) (ids : List Text) (id : Text) → All P ids → contains ids id ≡ true → P id
All-contains P [] id all h = cc
All-contains P (x ∷ ids) id all h = elim (Bool-cases (id == x)) [
  | inl same ↦ rw (same_text id x same) all.0
  | inr other ↦ All-contains P ids id all.1 (ground arith)
]

-- In a forest whose rows have different ids, the recursive query of SearchByNameInSubtree ends, and
-- yields exactly the root and the items below it that are not in the trash.
pub subtree_iff :
    (db : Db) (root : Text)
    → IsForest db.items
    → HasKeys db.items
    → (ids : List Text) × (subtree db root ≡ ok ids)
      × ((id : Text) → (contains ids id ≡ true) ↔ Below db root id)
subtree_iff db root forest keys =
    let (ids, found, below) = subtree_sound db root forest keys in
    (
      ids,
      found,
      λ id. (All-contains (Below db root) ids id below, Below-contained db root ids id found),
    )
