-- ===== src/Container/Sets.antt =====
-- The `BTreeSet`s and `BTreeMap`s of src/container.rs: lists in the order of a comparison.
use Prim.Native.String.{compare as compare_text}
use mathlib.Core.Option.{get_or}
use pacman_ostree.Base.{
  String, string_eq, Ordering, ◌==◌, ◌≡◌, inl, inr, refl, Bool, true, false, ◌||◌, some, List, [],
  ◌∷◌, if◌then◌else◌, contains, arith, Bool-cases,
}
use pacman_ostree.Base.Dict.{Dict, lookup, insert, lookup-insert}
use pacman_ostree.Base.Text.{split_char}

-- The order of paths is that of their components.
abbrev compare_pieces : List String → List String → Ordering
compare_pieces [] [] = Ordering.eq
compare_pieces [] (b ∷ bs) = Ordering.lt
compare_pieces (a ∷ l) [] = Ordering.gt
compare_pieces (a ∷ l) (b ∷ bs) =
    let rest = compare_pieces l bs in elim (compare_text a b) [ Ordering.eq ↦ rest | other ↦ other ]

unfoldable pub compare_paths : String → String → Ordering
unfolding split_char
compare_paths a b = compare_pieces (split_char b'/' a) (split_char b'/' b)

-- `BTreeSet::insert`
unfoldable pub set_insert : (String → String → Ordering) → String → List String → List String
set_insert cmp x [] = x ∷ []
set_insert cmp x (y ∷ ys) =
    let rest = set_insert cmp x ys in
    if y == x then y ∷ ys else elim (cmp x y) [ Ordering.lt ↦ x ∷ (y ∷ ys) | _ ↦ y ∷ rest ]

pub contains-set_insert :
    (cmp : String → String → Ordering) (x : String) (ys : List String) (a : String)
    → contains (set_insert cmp x ys) a ≡ (contains ys a || x == a)
unfolding set_insert
contains-set_insert cmp x [] a = ground arith
contains-set_insert cmp x (y ∷ ys) a = elim (Bool-cases (y == x)) [
  | inl same ↦ ground (arith, string_eq.beq_iff y x, string_eq.beq_iff x a, string_eq.beq_iff y a)
  | inr other ↦ ground (arith, contains-set_insert cmp x ys a)
]

module _ {V : Type 0} where
  -- `BTreeMap::insert`
  unfoldable pub btree_insert : String → V → Dict String V → Dict String V
  btree_insert k v [] = (k, v) ∷ []
  btree_insert k v ((j, w) ∷ m) =
      let rest = btree_insert k v m in
      if j == k
      then (j, v) ∷ m
      else elim (compare_text k j) [ Ordering.lt ↦ (k, v) ∷ ((j, w) ∷ m) | _ ↦ (j, w) ∷ rest ]

  pub lookup-btree_insert :
      (new key : String) (v : V) (m : Dict String V)
      → lookup key (btree_insert new v m) ≡ (if new == key then some v else lookup key m)
  unfolding lookup btree_insert
  lookup-btree_insert new key v [] = refl
  lookup-btree_insert new key v ((j, w) ∷ m) = ground (
    arith,
    string_eq.beq_iff new key,
    string_eq.beq_iff j new,
    string_eq.beq_iff j key,
    lookup-btree_insert new key v m,
  )

-- `entry(k).or_default().insert(v)`, on a `BTreeMap` of sets of paths.
unfoldable pub add_path : String → String → Dict String (List String) → Dict String (List String)
unfolding btree_insert set_insert compare_paths lookup
add_path k path m = btree_insert k (set_insert compare_paths path (get_or (lookup k m) [])) m

-- The same on a `HashMap` of sets of content ids.
unfoldable pub add_id : String → String → Dict String (List String) → Dict String (List String)
unfolding insert set_insert lookup
add_id k id m = insert k (set_insert compare_text id (get_or (lookup k m) [])) m

abbrev pub holds : String → String → Dict String (List String) → Bool
holds k v m = contains (get_or (lookup k m) []) v

pub holds-add_path :
    (k path : String) (m : Dict String (List String)) (j other : String)
    → holds j other (add_path k path m)
      ≡ (holds j other m || elim (k == j) [ true ↦ path == other | false ↦ false ])
unfolding add_path
holds-add_path k path m j other = elim (Bool-cases (k == j)) [
  | inr differ ↦ ground (
    arith,
    differ,
    lookup-btree_insert k j (set_insert compare_paths path (get_or (lookup k m) [])) m,
  )
  | inl same ↦
      let at = (string_eq.beq_iff k j).0 same in
      ground (
        arith,
        same,
        at,
        lookup-btree_insert k j (set_insert compare_paths path (get_or (lookup k m) [])) m,
        contains-set_insert compare_paths path (get_or (lookup k m) []) other,
      )
]

pub holds-add_id :
    (k id : String) (m : Dict String (List String)) (j other : String)
    → holds j other (add_id k id m)
      ≡ (holds j other m || elim (k == j) [ true ↦ id == other | false ↦ false ])
unfolding add_id
holds-add_id k id m j other = elim (Bool-cases (k == j)) [
  | inr differ ↦
      ground
        (arith, differ, lookup-insert k j (set_insert compare_text id (get_or (lookup k m) [])) m)
  | inl same ↦
      let at = (string_eq.beq_iff k j).0 same in
      ground (
        arith,
        same,
        at,
        lookup-insert k j (set_insert compare_text id (get_or (lookup k m) [])) m,
        contains-set_insert compare_text id (get_or (lookup k m) []) other,
      )
]
