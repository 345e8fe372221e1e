-- ===== src/Base/Dict.antt =====
-- Maps as association lists in the order of insertion: `HashMap`, and `IndexMap`, which also counts
-- its entries and reads them by position.
use mathlib.Core.Path.{◌≡◌, refl}
use mathlib.Core.Option.{Option, none, some, get_or}
use mathlib.Core.List.{List, [], ◌∷◌, ◌++◌}
use native.Mathlib.Omega.{arith}
use pacman_ostree.Base.Tests.{Eq, ◌==◌, if◌then◌else◌}

abbrev pub Dict {ℓ κ} : Type ℓ → Type κ → Type (ℓ ⊔ κ)
Dict K V = List (K × V)

module _ {ℓ κ} {K : Type ℓ} {V : Type κ} ⦃e : Eq K⦄ where
  -- `get`
  unfoldable pub lookup : K → Dict K V → Option V
  lookup k [] = none
  lookup k ((j, v) ∷ m) = let later = lookup k m in if j == k then some v else later

  -- `insert`: an old key keeps its place.
  unfoldable pub insert : K → V → Dict K V → Dict K V
  insert k v [] = (k, v) ∷ []
  insert k v ((j, w) ∷ m) = let rest = insert k v m in if j == k then (j, v) ∷ m else (j, w) ∷ rest

  pub lookup-insert :
      (new key : K) (val : V) (m : Dict K V)
      → lookup key (insert new val m) ≡ (if new == key then some val else lookup key m)
  unfolding lookup insert
  lookup-insert new key val [] = refl
  lookup-insert new key val ((old, w) ∷ m) =
      ground (
        arith,
        e.beq_iff new key,
        e.beq_iff old new,
        e.beq_iff old key,
        lookup-insert new key val m,
      )

  pub lookup-append :
      (j : K) (m n : Dict K V)
      → lookup j (m ++ n) ≡ elim (lookup j m) [ none ↦ lookup j n | some v ↦ some v ]
  unfolding lookup
  lookup-append j [] n = refl
  lookup-append j ((i, w) ∷ m) n = ground (arith, lookup-append j m n)

module _ {ℓ κ} {K : Type ℓ} {V : Type κ} ⦃e : Eq K⦄ where
  -- `entry(k).or_default().push(v)` on a map of vectors
  unfoldable pub entry_push : K → V → Dict K (List V) → Dict K (List V)
  unfolding insert lookup
  entry_push k v m = insert k (get_or (lookup k m) [] ++ v ∷ []) m

  pub lookup-entry_push :
      (k j : K) (v : V) (m : Dict K (List V))
      → lookup j (entry_push k v m)
        ≡ (if k == j then some (get_or (lookup k m) [] ++ v ∷ []) else lookup j m)
  unfolding entry_push
  lookup-entry_push k j v m = lookup-insert k j (get_or (lookup k m) [] ++ v ∷ []) m
