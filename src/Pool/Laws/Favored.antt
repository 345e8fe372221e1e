-- ===== src/Pool/Laws/Favored.antt =====
-- `get_favored_solvable` of src/package_solver/pool.rs. What libalpm documents of `vercmp` is the
-- hypothesis `IsVersionOrder`.
use native.Mathlib.Decide.{dec_le}
use mathlib.Core.Path.{subst}
use pacman_ostree.Base.{
  ℕ, ◌<◌, ◌≤◌, String, string_eq, nat_eq, ◌==◌, ◌≡◌, refl, sym, ◌∙◌, ap, ◌≢◌, Bool, true, false,
  ◌&&◌, some, List, [], ◌∷◌, arith, inl, inr, Bool-cases, Ordering, ◌>>=◌, ok, length,
  get_elem?-some, contains, All, retain, contains-retain, is_empty, first, try_map, All_contains,
  map, nat_beq_iff,
}
use pacman_ostree.Base.Sort.{sort_by}
use pacman_ostree.Base.Sort.Laws.{IsPreorder, SortedBy, sort_by-SortedBy, contains-sort_by}
use pacman_ostree.Pool.Types.{AlpmPool}
use pacman_ostree.Pool.Query.{resolve_solvable}
use pacman_ostree.Pool.Candidates.{
  repo_priority, repo_at, version_at, flip, minimum, compare_versions, get_favored_solvable,
}

abbrev pub VersionCmp : Type 0
VersionCmp = String → String → Ordering

-- `vercmp(b, a)` is the reverse of `vercmp(a, b)`, and "not newer than" is transitive.
pub record IsVersionOrder (vercmp : VersionCmp) : Type 0 where
  pub swap : (a b : String) → vercmp b a ≡ flip (vercmp a b)
  pub trans :
      (a b c : String)
      → vercmp a b ≢ Ordering.gt
      → vercmp b c ≢ Ordering.gt
      → vercmp a c ≢ Ordering.gt

-- The comparator turns `vercmp` round twice: it compares as `vercmp` does.
pub compare_versions-eq :
    (vercmp : VersionCmp) (p : AlpmPool) (a b : ℕ)
    → IsVersionOrder vercmp
    → compare_versions vercmp p a b ≡ vercmp (version_at p a) (version_at p b)
unfolding compare_versions
compare_versions-eq vercmp p a b v = sym (v.swap (version_at p b) (version_at p a))

pub compare_versions-IsPreorder :
    (vercmp : VersionCmp) (p : AlpmPool)
    → IsVersionOrder vercmp
    → IsPreorder (compare_versions vercmp p)
compare_versions-IsPreorder vercmp p v = record {
  total = λ a b g h. ground (
    arith,
    compare_versions-eq vercmp p a b v,
    compare_versions-eq vercmp p b a v,
    v.swap (version_at p a) (version_at p b),
  );
  trans = λ a b c f g e.
      v.trans (version_at p a) (version_at p b) (version_at p c)
        (λ x. f (compare_versions-eq vercmp p a b v ∙ x))
        (λ x. g (compare_versions-eq vercmp p b c v ∙ x))
        (sym (compare_versions-eq vercmp p a c v) ∙ e);
}

abbrev pub priority_at : AlpmPool → ℕ → ℕ
priority_at p i = repo_priority (repo_at p i)

pub minimum-le : (f : ℕ → ℕ) (xs : List ℕ) (x : ℕ) → contains xs x ≡ true → minimum (map f xs) ≤ f x
minimum-le f [] x c = cc
minimum-le f (y ∷ []) x c = ground (arith, nat_beq_iff y x)
minimum-le f (y ∷ z ∷ zs) x c = elim (Bool-cases (y == x)) [
  | inl same ↦ let e = ap f ((nat_beq_iff y x).0 same) in omega (arith, e)
  | inr differ ↦ omega (arith, minimum-le f (z ∷ zs) x (ground arith))
]

minimum_attained :
    (f : ℕ → ℕ) (x : ℕ) (xs : List ℕ)
    → (y : ℕ) × (contains (x ∷ xs) y ≡ true) × (f y ≡ minimum (map f (x ∷ xs)))
minimum_attained f x [] = (x, ground (arith, nat_beq_iff x x), refl)
minimum_attained f x (z ∷ zs) =
    let (y, c, e) = minimum_attained f z zs in
    elim (dec_le (f x) (minimum (map f (z ∷ zs)))) [
      | yes le ↦ (x, ground (arith, nat_beq_iff x x), omega arith)
      | no gt ↦ (y, ground arith, omega (arith, e))
    ]

and_left : (a b : Bool) → (a && b) ≡ true → a ≡ true
and_left a b h = ground arith

and_right : (a b : Bool) → (a && b) ≡ true → b ≡ true
and_right a b h = ground arith

-- Indexing ids that are all in range.
try_map_priorities :
    (p : AlpmPool) (ids : List ℕ)
    → All (λ i. i < length p.solvables) ids
    → try_map (λ sid. resolve_solvable p sid >>= λ s. ok (repo_priority s.repo)) ids
      ≡ ok (map (priority_at p) ids)
unfolding resolve_solvable
try_map_priorities p [] h = refl
try_map_priorities p (i ∷ ids) (lt, h) =
    let (s, at) = get_elem?-some p.solvables i lt in ground (arith, try_map_priorities p ids h)

-- The head of a list in order.
first_least :
    (cmp : ℕ → ℕ → Ordering) (l : List ℕ) (y : ℕ)
    → IsPreorder cmp
    → SortedBy cmp l
    → contains l y ≡ true
    → (f : ℕ) × (first l ≡ some f)
      × (contains l f ≡ true)
      × ((j : ℕ) → contains l j ≡ true → cmp f j ≢ Ordering.gt)
first_least cmp [] y pre h c = cc
first_least cmp (f ∷ l) y pre (least, h) c = (
  f,
  refl,
  ground (arith, nat_beq_iff f f),
  λ j cj. elim (Bool-cases (f == j)) [
    | inl same ↦
        subst (λ k. cmp f k ≢ Ordering.gt) ((nat_beq_iff f j).0 same) (λ g. pre.total f f g g)
    | inr differ ↦ All_contains (λ k. cmp f k ≢ Ordering.gt) l j least (ground arith)
  ],
)

best_of : AlpmPool → List ℕ → List ℕ
best_of p ids = retain (λ sid. priority_at p sid == minimum (map (priority_at p) ids)) ids

contains-best_of :
    (p : AlpmPool) (ids : List ℕ) (i : ℕ)
    → contains (best_of p ids) i
      ≡ (contains ids i && priority_at p i == minimum (map (priority_at p) ids))
unfolding best_of
contains-best_of p ids =
    contains-retain (λ sid. priority_at p sid == minimum (map (priority_at p) ids)) ids

not_empty : (l : List ℕ) (f : ℕ) → contains l f ≡ true → is_empty l ≡ false
not_empty [] f c = cc
not_empty (x ∷ l) f c = refl

get_favored_solvable_eq :
    (vercmp : VersionCmp) (p : AlpmPool) (x : ℕ) (xs : List ℕ) (y : ℕ)
    → All (λ i. i < length p.solvables) (x ∷ xs)
    → contains (best_of p (x ∷ xs)) y ≡ true
    → get_favored_solvable vercmp p (x ∷ xs)
      ≡ ok (first (sort_by (compare_versions vercmp p) (best_of p (x ∷ xs))))
unfolding get_favored_solvable best_of
get_favored_solvable_eq vercmp p x xs y valid c =
    rw (try_map_priorities p (x ∷ xs) valid) (rw (not_empty (best_of p (x ∷ xs)) y c))

-- What the favoured solvable has over the others: no other has a better repository, and none of
-- those in an equally good repository has an older version.
pub record IsOldestOfBest (vercmp : VersionCmp) (p : AlpmPool) (ids : List ℕ) (f : ℕ) : Type 0 where
  pub offered : contains ids f ≡ true
  pub best : (j : ℕ) → contains ids j ≡ true → priority_at p f ≤ priority_at p j
  pub oldest :
      (j : ℕ)
      → contains ids j ≡ true
      → priority_at p j ≡ priority_at p f
      → vercmp (version_at p f) (version_at p j) ≢ Ordering.gt

contains-sorted :
    (vercmp : VersionCmp) (p : AlpmPool) (ids : List ℕ) (i : ℕ)
    → contains (sort_by (compare_versions vercmp p) (best_of p ids)) i
      ≡ (contains ids i && priority_at p i == minimum (map (priority_at p) ids))
contains-sorted vercmp p ids i =
    contains-sort_by (compare_versions vercmp p) (best_of p ids) i ∙ contains-best_of p ids i

in_sorted :
    (vercmp : VersionCmp) (p : AlpmPool) (ids : List ℕ) (i : ℕ)
    → contains ids i ≡ true
    → priority_at p i ≡ minimum (map (priority_at p) ids)
    → contains (sort_by (compare_versions vercmp p) (best_of p ids)) i ≡ true
in_sorted vercmp p ids i c e =
    contains-sorted vercmp p ids i ∙ rw (c, (nat_beq_iff (priority_at p i) _).1 e)

oldest_of_sorted :
    (vercmp : VersionCmp) (p : AlpmPool) (ids : List ℕ) (f : ℕ)
    → IsVersionOrder vercmp
    → contains (sort_by (compare_versions vercmp p) (best_of p ids)) f ≡ true
    → ((j : ℕ)
        → contains (sort_by (compare_versions vercmp p) (best_of p ids)) j ≡ true
        → compare_versions vercmp p f j ≢ Ordering.gt)
    → IsOldestOfBest vercmp p ids f
oldest_of_sorted vercmp p ids f v cf least =
    let m = minimum (map (priority_at p) ids) in
    let both : (contains ids f && priority_at p f == m) ≡ true =
      sym (contains-sorted vercmp p ids f) ∙ cf in
    let is_min : priority_at p f ≡ m =
      (nat_beq_iff (priority_at p f) m).0
        (and_right (contains ids f) (priority_at p f == m) both) in
    record {
      offered = and_left (contains ids f) (priority_at p f == m) both;
      best = λ j cj. omega (arith, minimum-le (priority_at p) ids j cj, is_min);
      oldest = λ j cj same g.
          least j (in_sorted vercmp p ids j cj (same ∙ is_min))
            (compare_versions-eq vercmp p f j v ∙ g);
    }

-- Where versions are ordered: of one or more solvables that exist, one is favoured. It is of the
-- best repository, and there it is one of the oldest versions, not the newest.
pub get_favored_solvable_oldest :
    (vercmp : VersionCmp) (p : AlpmPool) (x : ℕ) (xs : List ℕ)
    → IsVersionOrder vercmp
    → All (λ i. i < length p.solvables) (x ∷ xs)
    → (f : ℕ) × (get_favored_solvable vercmp p (x ∷ xs) ≡ ok (some f))
      × IsOldestOfBest vercmp p (x ∷ xs) f
get_favored_solvable_oldest vercmp p x xs v valid =
    let cmp = compare_versions vercmp p in
    let pre = compare_versions-IsPreorder vercmp p v in
    let (y, cy, ey) = minimum_attained (priority_at p) x xs in
    let there = in_sorted vercmp p (x ∷ xs) y cy ey in
    let best_y = sym (contains-sort_by cmp (best_of p (x ∷ xs)) y) ∙ there in
    let (f, head, cf, least) =
      first_least cmp (sort_by cmp (best_of p (x ∷ xs))) y pre
        (sort_by-SortedBy cmp pre (best_of p (x ∷ xs))) there in
    (
      f,
      get_favored_solvable_eq vercmp p x xs y valid best_y ∙ ap ok head,
      oldest_of_sorted vercmp p (x ∷ xs) f v cf least,
    )
