-- ===== src/Pool/Laws/Choice.antt =====
-- `get_candidates_for` of src/package_solver/pool.rs, on a well-formed pool.
use pacman_ostree.Base.{
  ℕ, ◌<◌, String, string_eq, nat_eq, ◌==◌, ◌≡◌, refl, sym, ◌∙◌, ap, Bool, true, false, ◌&&◌, Option,
  none, some, List, [], ◌∷◌, arith, inl, inr, ◌⊎◌, Bool-cases, Option-cases, ok, length,
  get_elem?-some, contains, All, retain, contains-retain, find, try_filter, nat_beq_iff,
}
use pacman_ostree.Pool.Types.{AlpmPool}
use pacman_ostree.Pool.Names.{lookup_name}
use pacman_ostree.Pool.Candidates.{
  Candidates, repo_at, all_candidates, is_local, find_local, get_favored_solvable,
  get_candidates_for,
}
use pacman_ostree.Pool.Wf.Invariant.{IsWf}
use pacman_ostree.Pool.Laws.Answers.{answers, all_candidates-answers, all_candidates-valid}
use pacman_ostree.Pool.Laws.Favored.{
  VersionCmp, IsVersionOrder, IsOldestOfBest, get_favored_solvable_oldest,
}

abbrev pub local_at : AlpmPool → ℕ → Bool
local_at p i = repo_at p i == "local"

abbrev pub Valid : AlpmPool → List ℕ → Type 0
Valid p = All (λ i. i < length p.solvables)

is_local-eq : (p : AlpmPool) (i : ℕ) → i < length p.solvables → is_local p i ≡ ok (local_at p i)
unfolding is_local
is_local-eq p i lt = let (s, at) = get_elem?-some p.solvables i lt in ground arith

find_local-eq :
    (p : AlpmPool) (ids : List ℕ) → Valid p ids → find_local p ids ≡ ok (find (local_at p) ids)
unfolding find_local
find_local-eq p [] h = refl
find_local-eq p (i ∷ ids) (lt, h) = ground (arith, is_local-eq p i lt, find_local-eq p ids h)

try_filter-is_local :
    (p : AlpmPool) (ids : List ℕ)
    → Valid p ids
    → try_filter (is_local p) ids ≡ ok (retain (local_at p) ids)
try_filter-is_local p [] h = refl
try_filter-is_local p (i ∷ ids) (lt, h) =
    ground (arith, is_local-eq p i lt, try_filter-is_local p ids h)

find-none :
    (p : ℕ → Bool) (ids : List ℕ) (i : ℕ) → find p ids ≡ none → contains ids i ≡ true → p i ≡ false
find-none p [] i h c = cc
find-none p (x ∷ ids) i h c = elim (Bool-cases (x == i)) [
  | inl same ↦ let e = (nat_beq_iff x i).0 same in ground (arith, ap p e)
  | inr differ ↦ find-none p ids i (ground arith) (ground arith)
]

find-some :
    (p : ℕ → Bool) (ids : List ℕ) {i : ℕ}
    → find p ids ≡ some i
    → (p i ≡ true) × (contains ids i ≡ true)
find-some p [] h = cc
find-some p (x ∷ ids) {i} h = elim (Bool-cases (p x)) [
  | inl hit ↦ let e : x ≡ i = ground arith in (sym (ap p e) ∙ hit, ground (arith, nat_beq_iff x i))
  | inr miss ↦ let (l, r) = find-some p ids {i = i} (ground arith) in (l, ground arith)
]

-- The choice among the solvables that answer to the name.
pub data IsChoice (vercmp : VersionCmp) (p : AlpmPool) (name : String) (c : Candidates)
    : Type 0 where
  -- Something is installed: only what is installed is offered, and one such solvable is locked.
  installed :
      (i : ℕ)
      → c.locked ≡ some i
      → c.favored ≡ some i
      → local_at p i ≡ true
      → answers p.packages name i ≡ true
      → ((j : ℕ) → contains c.candidates j ≡ (answers p.packages name j && local_at p j))
      → IsChoice vercmp p name c
  -- Nothing is: all are offered, none is locked, and the oldest of the best repository is favoured.
  available :
      (f : ℕ)
      → c.locked ≡ none
      → c.favored ≡ some f
      → ((j : ℕ) → answers p.packages name j ≡ true → local_at p j ≡ false)
      → ((j : ℕ) → contains c.candidates j ≡ answers p.packages name j)
      → IsOldestOfBest vercmp p c.candidates f
      → IsChoice vercmp p name c

abbrev chosen : List ℕ → Option ℕ → Option ℕ → Candidates
chosen ids locked favored = record {
  candidates = ids;
  locked = locked;
  favored = favored;
  excluded = [];
}

get_candidates_for-none :
    (vercmp : VersionCmp) (p : AlpmPool) (nid : ℕ)
    → all_candidates p nid ≡ []
    → get_candidates_for vercmp p nid ≡ ok none
unfolding get_candidates_for
get_candidates_for-none vercmp p nid e = rw e

get_candidates_for-locked :
    (vercmp : VersionCmp) (p : AlpmPool) (nid x : ℕ) (xs : List ℕ) {i : ℕ}
    → all_candidates p nid ≡ x ∷ xs
    → Valid p (x ∷ xs)
    → find (local_at p) (x ∷ xs) ≡ some i
    → get_candidates_for vercmp p nid
      ≡ ok (some (chosen (retain (local_at p) (x ∷ xs)) (some i) (some i)))
unfolding get_candidates_for
get_candidates_for-locked vercmp p nid x xs {i} e valid found =
    rw (e, find_local-eq p (x ∷ xs) valid) (rw found (rw (try_filter-is_local p (x ∷ xs) valid)))

get_candidates_for-free :
    (vercmp : VersionCmp) (p : AlpmPool) (nid x : ℕ) (xs : List ℕ) {f : ℕ}
    → all_candidates p nid ≡ x ∷ xs
    → Valid p (x ∷ xs)
    → find (local_at p) (x ∷ xs) ≡ none
    → get_favored_solvable vercmp p (x ∷ xs) ≡ ok (some f)
    → get_candidates_for vercmp p nid ≡ ok (some (chosen (x ∷ xs) none (some f)))
unfolding get_candidates_for
get_candidates_for-free vercmp p nid x xs e valid found best =
    rw (e, find_local-eq p (x ∷ xs) valid) (rw found (rw best))

choose :
    (vercmp : VersionCmp) (p : AlpmPool) (name : String) (nid x : ℕ) (xs : List ℕ)
    → IsVersionOrder vercmp
    → all_candidates p nid ≡ x ∷ xs
    → Valid p (x ∷ xs)
    → ((i : ℕ) → contains (x ∷ xs) i ≡ answers p.packages name i)
    → (c : Candidates) × (get_candidates_for vercmp p nid ≡ ok (some c)) × IsChoice vercmp p name c
choose vercmp p name nid x xs v e valid exact = elim (Option-cases (find (local_at p) (x ∷ xs))) [
  | inr (i, found) ↦
      let (is_loc, there) = find-some (local_at p) (x ∷ xs) {i = i} found in
      (
        chosen (retain (local_at p) (x ∷ xs)) (some i) (some i),
        get_candidates_for-locked vercmp p nid x xs e valid found,
        installed i refl refl is_loc (sym (exact i) ∙ there)
            (λ j. contains-retain (local_at p) (x ∷ xs) j ∙ ap (λ b. b && local_at p j) (exact j)),
      )
  | inl absent ↦
      let (f, best, oldest) = get_favored_solvable_oldest vercmp p x xs v valid in
      (
        chosen (x ∷ xs) none (some f),
        get_candidates_for-free vercmp p nid x xs e valid absent best,
        available f refl refl (λ j a. find-none (local_at p) (x ∷ xs) j absent (exact j ∙ a)) exact
            oldest,
      )
]

-- Where versions are ordered and the pool is well-formed, `get_candidates_for` does not panic at
-- the id of a name. It answers `none` exactly when no package has or provides the name. Otherwise,
-- if one that does is installed, exactly the installed ones are offered, and one of them is locked
-- and favoured; if none is, all that do are offered, none is locked, and the favoured one is of the
-- best repository among them, and there of an oldest version.
pub get_candidates_for-IsChoice :
    (vercmp : VersionCmp) (p : AlpmPool) (name : String) {nid : ℕ}
    → IsVersionOrder vercmp
    → IsWf p
    → lookup_name p name ≡ some nid
    → ((get_candidates_for vercmp p nid ≡ ok none) × ((i : ℕ) → answers p.packages name i ≡ false))
      ⊎ ((c : Candidates) × (get_candidates_for vercmp p nid ≡ ok (some c))
          × IsChoice vercmp p name c)
get_candidates_for-IsChoice vercmp p name {nid} v h found =
    go (all_candidates p nid) refl (all_candidates-valid p nid h)
      (λ i. all_candidates-answers p name {nid = nid} i h found)
  where
    go :
        (all : List ℕ)
        → all_candidates p nid ≡ all
        → Valid p (all_candidates p nid)
        → ((i : ℕ) → contains (all_candidates p nid) i ≡ answers p.packages name i)
        → ((get_candidates_for vercmp p nid ≡ ok none)
            × ((i : ℕ) → answers p.packages name i ≡ false))
          ⊎ ((c : Candidates) × (get_candidates_for vercmp p nid ≡ ok (some c))
              × IsChoice vercmp p name c)
    go [] e valid exact = inl (get_candidates_for-none vercmp p nid e, λ i. sym (rw e at (exact i)))
    go (x ∷ xs) e valid exact =
        inr (choose vercmp p name nid x xs v e (rw e at valid) (λ i. rw e at (exact i)))
