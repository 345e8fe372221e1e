-- ===== src/Base/Sort.antt =====
-- `sort_by` of the standard library: a stable sort by a comparator.
pub mod Laws
use Prim.Native.Nat.{Ordering}
use mathlib.Core.List.{List, [], ◌∷◌}

-- Before `y`, unless it is greater: then behind it, where `rest` has it.
abbrev pub place {ℓ} : {A : Type ℓ} → Ordering → A → A → List A → List A → List A
place Ordering.lt x y ys rest = x ∷ y ∷ ys
place Ordering.eq x y ys rest = x ∷ y ∷ ys
place Ordering.gt x y ys rest = y ∷ rest

module _ {ℓ} {A : Type ℓ} (cmp : A → A → Ordering) where
  unfoldable pub insert_by : A → List A → List A
  insert_by x [] = x ∷ []
  insert_by x (y ∷ ys) = let rest = insert_by x ys in place (cmp x y) x y ys rest

  unfoldable pub sort_by : List A → List A
  unfolding insert_by
  sort_by [] = []
  sort_by (x ∷ xs) = insert_by x (sort_by xs)
