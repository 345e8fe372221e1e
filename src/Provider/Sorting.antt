-- ===== src/Provider/Sorting.antt =====
-- The order that `sort_candidates` of src/package_solver/provider.rs gives to the solver.
use mathlib.Core.List.{Perm}
use mathlib.Core.List.Perm
use pacman_ostree.Base.{
  ℕ, ◌<◌, ◌≡◌, ◌≢◌, refl, ◌∙◌, false, List, [], ◌∷◌, arith, Ordering, ok, length, get_elem?-some,
  All, try_map, ltb, false,
}
use pacman_ostree.Base.Sort.{sort_by}
use pacman_ostree.Base.Sort.Laws.{SortedBy, sort_by-perm, sort_by-SortedBy}
use pacman_ostree.Pool.Types.{AlpmPool, Solvable}
use pacman_ostree.Pool.Query.{resolve_solvable}
use pacman_ostree.Pool.Candidates.{compare_versions, version_at}
use pacman_ostree.Pool.Laws.Favored.{
  VersionCmp, IsVersionOrder, compare_versions-IsPreorder, compare_versions-eq,
}
use pacman_ostree.Provider.Interner.{sort_candidates}

-- No solvable is newer than a later one.
abbrev pub IsOldestFirst : VersionCmp → AlpmPool → List ℕ → Type 0
IsOldestFirst vercmp p = SortedBy (λ a b. vercmp (version_at p a) (version_at p b))

resolve-All :
    (p : AlpmPool) (ids : List ℕ)
    → All (λ i. i < length p.solvables) ids
    → (ss : List Solvable) × (try_map (resolve_solvable p) ids ≡ ok ss)
unfolding resolve_solvable
resolve-All p [] h = ([], refl)
resolve-All p (i ∷ ids) (lt, h) =
    let (s, at) = get_elem?-some p.solvables i lt in
    let (ss, e) = resolve-All p ids h in (s ∷ ss, ground arith)

All-map :
    (vercmp : VersionCmp) (p : AlpmPool) (x : ℕ) (xs : List ℕ)
    → IsVersionOrder vercmp
    → All (λ y. compare_versions vercmp p x y ≢ Ordering.gt) xs
    → All (λ y. vercmp (version_at p x) (version_at p y) ≢ Ordering.gt) xs
All-map vercmp p x [] v h = tt
All-map vercmp p x (y ∷ ys) v (le, h) =
    (λ g. le (compare_versions-eq vercmp p x y v ∙ g), All-map vercmp p x ys v h)

oldest_first :
    (vercmp : VersionCmp) (p : AlpmPool) (l : List ℕ)
    → IsVersionOrder vercmp
    → SortedBy (compare_versions vercmp p) l
    → IsOldestFirst vercmp p l
oldest_first vercmp p [] v h = tt
oldest_first vercmp p (x ∷ xs) v (least, h) =
    (All-map vercmp p x xs v least, oldest_first vercmp p xs v h)

not_short : (x y : ℕ) (ids : List ℕ) → ltb (length (x ∷ y ∷ ids)) 2 ≡ false
not_short x y ids = ground arith

-- Where versions are ordered, at ids of solvables `sort_candidates` does not panic: it rearranges
-- them from the oldest version to the newest, the opposite of what the comment beside the
-- comparator says.
pub sort_candidates-IsOldestFirst :
    (vercmp : VersionCmp) (p : AlpmPool) (ids : List ℕ)
    → IsVersionOrder vercmp
    → All (λ i. i < length p.solvables) ids
    → (l : List ℕ) × (sort_candidates vercmp p ids ≡ ok l) × Perm l ids × IsOldestFirst vercmp p l
unfolding sort_candidates
sort_candidates-IsOldestFirst vercmp p [] v h = ([], refl, Perm.refl _, tt)
sort_candidates-IsOldestFirst vercmp p (x ∷ []) v h = (x ∷ [], refl, Perm.refl _, (tt, tt))
sort_candidates-IsOldestFirst vercmp p (x ∷ y ∷ ids) v h =
    let cmp = compare_versions vercmp p in
    let all = x ∷ y ∷ ids in
    let (ss, e) = resolve-All p all h in
    (
      sort_by cmp all,
      rw (not_short x y ids, e),
      sort_by-perm cmp all,
      oldest_first vercmp p (sort_by cmp all) v
          (sort_by-SortedBy cmp (compare_versions-IsPreorder vercmp p v) all),
    )
