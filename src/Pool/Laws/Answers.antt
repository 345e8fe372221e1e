-- ===== src/Pool/Laws/Answers.antt =====
-- Which solvables are the candidates of a name, in src/package_solver/pool.rs.
use pacman_ostree.Base.{
  ℕ, zero, suc, ◌<◌, ◌≤◌, String, string_eq, nat_eq, ◌==◌, ◌≡◌, refl, sym, ◌∙◌, ap, Bool, true,
  false, ◌||◌, none, some, List, [], ◌∷◌, arith, inl, inr, Bool-cases, Option-cases, length,
  get_elem?, contains, All, All-of_contains,
}
use pacman_ostree.Base.Dict.{Dict, lookup}
use pacman_ostree.Pool.Types.{AlpmProvide, AlpmPackage, Solvable, AlpmPool}
use pacman_ostree.Pool.Intern.{get_elem?_of_lookup, lookup_of_get_elem?}
use pacman_ostree.Pool.Names.{lookup_name, resolve_name}
use pacman_ostree.Pool.Candidates.{all_candidates}
use pacman_ostree.Pool.Wf.Own.{own, is_named}
use pacman_ostree.Pool.Wf.Provide.{
  providers, has_sid, provides, provides_at, contains-add_providers,
}
use pacman_ostree.Pool.Wf.Align.{AlignedFrom, Aligned-lengths}
use pacman_ostree.Pool.Wf.Invariant.{IsWf}

-- Whether package `i` has the name or provides it.
abbrev pub answers : List AlpmPackage → String → ℕ → Bool
answers [] name i = false
answers (q ∷ qs) name zero = q.name == name || provides name q.provides
answers (q ∷ qs) name (suc i) = answers qs name i

answers_aligned :
    (n : ℕ) (ss : List Solvable) (is : List ℕ) (qs : List AlpmPackage)
    (pss : List (List AlpmProvide)) (name : String) (i : ℕ)
    → AlignedFrom n ss is qs pss
    → (is_named ss name i || provides_at pss name i) ≡ answers qs name i
answers_aligned n [] [] [] [] name i h = refl
answers_aligned n (s ∷ ss) (j ∷ is) (q ∷ qs) (ps ∷ pss) name zero (e, st, p, h) =
    ground (arith, st.name, ap (provides name) p)
answers_aligned n (s ∷ ss) (j ∷ is) (q ∷ qs) (ps ∷ pss) name (suc i) (e, st, p, h) =
    answers_aligned (suc n) ss is qs pss name i h
answers_aligned n _ _ _ _ name i h = elim h [ ]

-- What `all_candidates` holds, whatever the id.
contains-all_candidates :
    (p : AlpmPool) (nid i : ℕ)
    → contains (all_candidates p nid) i ≡ (
        contains (own p.name_candidates nid) i
        || has_sid i (providers p.virtuals (resolve_name p nid)))
unfolding all_candidates
contains-all_candidates p nid i = elim (Option-cases (lookup (resolve_name p nid) p.virtuals)) [
  | inl absent ↦ ground arith
  | inr (prs, found) ↦ ground (arith, contains-add_providers prs (own p.name_candidates nid) i)
]

resolves :
    (p : AlpmPool) (name : String) {nid : ℕ}
    → IsWf p
    → lookup_name p name ≡ some nid
    → resolve_name p nid ≡ name
unfolding lookup_name resolve_name
resolves p name {nid} h found =
    ground (arith, get_elem?_of_lookup name p.name_to_id {i = nid} h.named.numbered found)

-- In a well-formed pool the candidates of a known name are exactly the solvables whose package has
-- the name or provides it.
pub all_candidates-answers :
    (p : AlpmPool) (name : String) {nid : ℕ} (i : ℕ)
    → IsWf p
    → lookup_name p name ≡ some nid
    → contains (all_candidates p nid) i ≡ answers p.packages name i
all_candidates-answers p name {nid} i h found =
    let known : lookup name p.name_to_id ≡ some nid = (unfold lookup_name in found) in
    ground (
      arith,
      contains-all_candidates p nid i,
      resolves p name {nid = nid} h found,
      h.named.owned name nid i known,
      h.provided name i,
      answers_aligned 0 p.solvables p.solvable_to_pkg p.packages p.pkg_provides name i h.aligned,
    )

answers-lt_length :
    (qs : List AlpmPackage) (name : String) (i : ℕ) → answers qs name i ≡ true → i < length qs
answers-lt_length [] name i h = cc
answers-lt_length (q ∷ qs) name zero h = omega arith
answers-lt_length (q ∷ qs) name (suc i) h = omega (arith, answers-lt_length qs name i h)

-- What answers is a solvable.
pub answers-lt :
    (p : AlpmPool) (name : String) (i : ℕ)
    → IsWf p
    → answers p.packages name i ≡ true
    → i < length p.solvables
answers-lt p name i h a =
    let (l, m, k) =
      Aligned-lengths 0 p.solvables p.solvable_to_pkg p.packages p.pkg_provides h.aligned in
    omega (arith, answers-lt_length p.packages name i a)

is_named-lt :
    (ss : List Solvable) (name : String) (i : ℕ) → is_named ss name i ≡ true → i < length ss
is_named-lt [] name i h = cc
is_named-lt (s ∷ ss) name zero h = omega arith
is_named-lt (s ∷ ss) name (suc i) h = omega (arith, is_named-lt ss name i h)

provides_at-lt :
    (pss : List (List AlpmProvide)) (name : String) (i : ℕ)
    → provides_at pss name i ≡ true
    → i < length pss
provides_at-lt [] name i h = cc
provides_at-lt (ps ∷ pss) name zero h = omega arith
provides_at-lt (ps ∷ pss) name (suc i) h = omega (arith, provides_at-lt pss name i h)

own-lt :
    (p : AlpmPool) (nid i : ℕ)
    → IsWf p
    → contains (own p.name_candidates nid) i ≡ true
    → i < length p.solvables
own-lt p nid i h c = elim (Option-cases (get_elem? p.name_to_id nid)) [
  | inl absent ↦ absurd (ground (arith, h.named.fresh nid, get_elem?-le p.name_to_id nid absent))
  | inr ((name, v), found) ↦
      let (same, known) = lookup_of_get_elem? name nid p.name_to_id h.named.numbered found in
      is_named-lt p.solvables name i (sym (h.named.owned name nid i (known ∙ ap some same)) ∙ c)
]
  where
    get_elem?-le : (m : Dict String ℕ) (j : ℕ) → get_elem? m j ≡ none → length m ≤ j
    get_elem?-le [] j e = omega arith
    get_elem?-le (x ∷ m) zero e = cc
    get_elem?-le (x ∷ m) (suc j) e = omega (arith, get_elem?-le m j e)

-- Every candidate is a solvable, also for an id that no name has.
pub all_candidates-valid :
    (p : AlpmPool) (nid : ℕ) → IsWf p → All (λ i. i < length p.solvables) (all_candidates p nid)
all_candidates-valid p nid h = All-of_contains _ (all_candidates p nid) valid
  where
    valid : (i : ℕ) → contains (all_candidates p nid) i ≡ true → i < length p.solvables
    valid i c = elim (Bool-cases (contains (own p.name_candidates nid) i)) [
      | inl mine ↦ own-lt p nid i h mine
      | inr other ↦
          let (l, m, k) =
            Aligned-lengths 0 p.solvables p.solvable_to_pkg p.packages p.pkg_provides h.aligned in
          let name = resolve_name p nid in
          let there : provides_at p.pkg_provides name i ≡ true =
            ground (arith, contains-all_candidates p nid i, h.provided name i) in
          omega (arith, provides_at-lt p.pkg_provides name i there)
    ]
