-- ===== src/Base/Sort/Laws.antt =====
-- The elements of a sorted list, and their order.
use Prim.Native.Nat.{Ordering}
use mathlib.Core.Path.{◌≡◌, refl, ◌∙◌}
use mathlib.Core.Logic.{◌≢◌}
use mathlib.Core.List.{List, [], ◌∷◌, Perm}
use mathlib.Core.List.Perm
use native.Mathlib.Omega.{arith}
use pacman_ostree.Base.Tests.{Eq}
use pacman_ostree.Base.Lists.{All, contains}
use pacman_ostree.Base.Sort.{place, insert_by, sort_by}

-- What a comparator promises: of two elements one is not greater, and that is transitive.
pub record IsPreorder {ℓ} {A : Type ℓ} (cmp : A → A → Ordering) : Type ℓ where
  pub total : (a b : A) → cmp a b ≡ Ordering.gt → cmp b a ≢ Ordering.gt
  pub trans : (a b c : A) → cmp a b ≢ Ordering.gt → cmp b c ≢ Ordering.gt → cmp a c ≢ Ordering.gt

module _ {ℓ} {A : Type ℓ} (cmp : A → A → Ordering) where
  abbrev pub Le : A → A → Type 0
  Le a b = cmp a b ≢ Ordering.gt

  abbrev pub SortedBy : List A → Type ℓ
  SortedBy [] = Unit
  SortedBy (x ∷ xs) = All (Le x) xs × SortedBy xs

  place-perm :
      (o : Ordering) (x y : A) (ys rest : List A)
      → Perm rest (x ∷ ys)
      → Perm (place o x y ys rest) (x ∷ y ∷ ys)
  place-perm Ordering.lt x y ys rest h = Perm.refl _
  place-perm Ordering.eq x y ys rest h = Perm.refl _
  place-perm Ordering.gt x y ys rest h = Perm.trans (Perm.cons y h) (Perm.swap x y ys)

  insert_by-perm : (x : A) (xs : List A) → Perm (insert_by cmp x xs) (x ∷ xs)
  unfolding insert_by
  insert_by-perm x [] = Perm.refl _
  insert_by-perm x (y ∷ ys) = place-perm (cmp x y) x y ys (insert_by cmp x ys) (insert_by-perm x ys)

  pub sort_by-perm : (xs : List A) → Perm (sort_by cmp xs) xs
  unfolding sort_by
  sort_by-perm [] = Perm.refl _
  sort_by-perm (x ∷ xs) =
      Perm.trans (insert_by-perm x (sort_by cmp xs)) (Perm.cons x (sort_by-perm xs))

  All-place :
      (P : A → Type 0) (o : Ordering) (x y : A) (ys rest : List A)
      → P x
      → P y
      → All P ys
      → All P rest
      → All P (place o x y ys rest)
  All-place P Ordering.lt x y ys rest hx hy hs hr = (hx, (hy, hs))
  All-place P Ordering.eq x y ys rest hx hy hs hr = (hx, (hy, hs))
  All-place P Ordering.gt x y ys rest hx hy hs hr = (hy, hr)

  All-insert_by :
      (P : A → Type 0) (x : A) (ys : List A) → P x → All P ys → All P (insert_by cmp x ys)
  unfolding insert_by
  All-insert_by P x [] hx hs = (hx, tt)
  All-insert_by P x (y ∷ ys) hx (hy, hs) =
      All-place P (cmp x y) x y ys (insert_by cmp x ys) hx hy hs (All-insert_by P x ys hx hs)

  pub All-sort_by : (P : A → Type 0) (xs : List A) → All P xs → All P (sort_by cmp xs)
  unfolding sort_by
  All-sort_by P [] h = tt
  All-sort_by P (x ∷ xs) (hx, h) = All-insert_by P x (sort_by cmp xs) hx (All-sort_by P xs h)

  module _ (p : IsPreorder cmp) where
    All-Le : (x y : A) (ys : List A) → Le x y → All (Le y) ys → All (Le x) ys
    All-Le x y [] h hs = tt
    All-Le x y (z ∷ zs) h (hz, hs) = (p.trans x y z h hz, All-Le x y zs h hs)

    place-SortedBy :
        (o : Ordering) (x y : A) (ys : List A)
        → cmp x y ≡ o
        → SortedBy (y ∷ ys)
        → SortedBy (insert_by cmp x ys)
        → SortedBy (place o x y ys (insert_by cmp x ys))
    place-SortedBy Ordering.lt x y ys e (hy, hs) hr =
        let le : Le x y = (λ g. ground arith) in ((le, All-Le x y ys le hy), (hy, hs))
    place-SortedBy Ordering.eq x y ys e (hy, hs) hr =
        let le : Le x y = (λ g. ground arith) in ((le, All-Le x y ys le hy), (hy, hs))
    place-SortedBy Ordering.gt x y ys e (hy, hs) hr =
        (All-insert_by (Le y) x ys (p.total x y e) hy, hr)

    insert_by-SortedBy : (x : A) (xs : List A) → SortedBy xs → SortedBy (insert_by cmp x xs)
    unfolding insert_by
    insert_by-SortedBy x [] h = (tt, tt)
    insert_by-SortedBy x (y ∷ ys) h =
        place-SortedBy (cmp x y) x y ys refl h (insert_by-SortedBy x ys h.1)

    pub sort_by-SortedBy : (xs : List A) → SortedBy (sort_by cmp xs)
    unfolding sort_by
    sort_by-SortedBy [] = tt
    sort_by-SortedBy (x ∷ xs) = insert_by-SortedBy x (sort_by cmp xs) (sort_by-SortedBy xs)

module _ {ℓ} {A : Type ℓ} ⦃e : Eq A⦄ (cmp : A → A → Ordering) where
  contains-place :
      (o : Ordering) (x y : A) (ys rest : List A) (a : A)
      → contains rest a ≡ contains (x ∷ ys) a
      → contains (place o x y ys rest) a ≡ contains (x ∷ y ∷ ys) a
  contains-place Ordering.lt x y ys rest a h = refl
  contains-place Ordering.eq x y ys rest a h = refl
  contains-place Ordering.gt x y ys rest a h = ground arith

  contains-insert_by :
      (x : A) (xs : List A) (a : A) → contains (insert_by cmp x xs) a ≡ contains (x ∷ xs) a
  unfolding insert_by
  contains-insert_by x [] a = refl
  contains-insert_by x (y ∷ ys) a =
      contains-place (cmp x y) x y ys (insert_by cmp x ys) a (contains-insert_by x ys a)

  pub contains-sort_by : (xs : List A) (a : A) → contains (sort_by cmp xs) a ≡ contains xs a
  unfolding sort_by
  contains-sort_by [] a = refl
  contains-sort_by (x ∷ xs) a =
      contains-insert_by x (sort_by cmp xs) a ∙ ground (arith, contains-sort_by xs a)
