-- ===== src/Installer/Plan.antt =====
-- The outcomes of `plan_install` of src/package_manager/installer.rs on a well-formed pool.
use mathlib.Core.List.{tail-eq_of_cons-eq}
use mathlib.Core.Path.{subst}
use pacman_ostree.Base.{
  ℕ, ◌+◌, ◌%◌, ◌<◌, String, string_eq, nat_eq, ◌≡◌, refl, sym, ◌∙◌, true, false, none, some, List,
  [], ◌∷◌, arith, inl, inr, Option-cases, >>=-eq-ok, ok, length, All, map,
}
use pacman_ostree.Pool.Types.{AlpmPool}
use pacman_ostree.Pool.Types.{u32_mod}
use pacman_ostree.Base.{◌≤◌, pair_eq, ◌↔◌, ◌==◌, contains, Bool-cases, get_elem?}
use pacman_ostree.Pool.Types.{AlpmPackage}
use pacman_ostree.Installer.Package.{PackageInfo, explicit}
use pacman_ostree.Installer.Planned.{planned}
use pacman_ostree.Pool.Intern.{length-intern-le}
use pacman_ostree.Pool.Wf.Interning.{intern_version_set-IsWf}
use pacman_ostree.Pool.Names.{lookup_name, intern_version_set}
use pacman_ostree.Pool.Query.{conflicts}
use pacman_ostree.Pool.Wf.Invariant.{IsWf}
use pacman_ostree.Provider.Validate.{validate_requirements}
use pacman_ostree.Provider.Conflicting.{any_pair, validate_requirements-any_pair}
use pacman_ostree.Installer.Package.{InstallResult, u64_mod}
use pacman_ostree.Installer.Install.{
  Solved, solution, unsolvable, cancelled, requirement_ids, require_all, plan_solved, plan_install,
}
use pacman_ostree.Installer.Planned.{to_install, sum_sizes, plan_solution-to_install}

requirement_ids-known :
    (p : AlpmPool) (names : List String) {ids : List ℕ}
    → requirement_ids p names ≡ ok ids
    → map (lookup_name p) names ≡ map some ids
unfolding requirement_ids
requirement_ids-known p [] {ids} h = ground arith
requirement_ids-known p (name ∷ names) {ids} h = elim (Option-cases (lookup_name p name)) [
  | inl absent ↦ absurd (ground (arith, absent))
  | inr (id, found) ↦
      let (rest, e, k) =
        >>=-eq-ok (requirement_ids p names) (λ l. ok (id ∷ l)) {y = ids} (ground arith) in
      let known = requirement_ids-known p names {ids = rest} e in ground (arith, known)
]

no_conflict :
    (p : AlpmPool) (ids : List ℕ)
    → validate_requirements p ids ≡ none
    → any_pair (conflicts p) ids ≡ false
no_conflict p ids e = sym (validate_requirements-any_pair p ids) ∙ rw e refl

-- The result for a solution.
abbrev pub installing : AlpmPool → List String → List ℕ → InstallResult
installing p names ids = record {
  packages = to_install p names ids;
  total_size = sum_sizes p ids % u64_mod;
  success = true;
}

-- A solution is made of solvables of the pool that was given.
abbrev pub IsSolver : (AlpmPool → List ℕ → Solved) → Type 0
IsSolver solve =
    (q : AlpmPool) (requirements ids : List ℕ)
    → solve q requirements ≡ solution ids
    → All (λ i. i < length q.solvables) ids

-- A package of the plan is marked as asked for exactly where its name was given.
abbrev IsMarked : List String → PackageInfo → Type 0
IsMarked names info = (info.reason ≡ explicit) ↔ (contains names info.pkg.name ≡ true)

planned-IsMarked : (names : List String) (q : AlpmPackage) → IsMarked names (planned names q)
planned-IsMarked names q = elim (Bool-cases (contains names q.name)) [
  | inl given ↦ (λ e. given, λ e. ground (arith, given))
  | inr absent ↦ (λ e. absurd (ground (arith, absent, e)), λ e. absurd (ground (arith, absent, e)))
]

to_install-IsMarked :
    (p : AlpmPool) (names : List String) (ids : List ℕ)
    → All (IsMarked names) (to_install p names ids)
to_install-IsMarked p names [] = tt
to_install-IsMarked p names (i ∷ ids) =
    let rest = to_install-IsMarked p names ids in
    let Holds : List PackageInfo → Type 0 = λ l. All (IsMarked names) l in
    elim (Option-cases (get_elem? p.packages i)) [
      | inl absent ↦
          let e : to_install p names (i ∷ ids) ≡ to_install p names ids = ground (arith, absent) in
          subst Holds (sym e) rest
      | inr (q, at) ↦ elim (Bool-cases (q.repo == "local")) [
        | inl skip ↦
            let e : to_install p names (i ∷ ids) ≡ to_install p names ids =
              ground (arith, at, skip) in
            subst Holds (sym e) rest
        | inr add ↦
            let e : to_install p names (i ∷ ids) ≡ planned names q ∷ to_install p names ids =
              ground (arith, at, add) in
            subst Holds (sym e) (planned-IsMarked names q, rest)
      ]
    ]

-- What is true of a plan that is made.
pub record IsPlan (solve : AlpmPool → List ℕ → Solved) (p : AlpmPool) (names : List String)
    (r : InstallResult) : Type 0 where
  pub ids : List ℕ
  pub chosen : List ℕ
  pub known : map (lookup_name p) names ≡ map some ids
  pub compatible : any_pair (conflicts p) ids ≡ false
  pub solved : solve (require_all ids p).1 (require_all ids p).0 ≡ solution chosen
  pub result : r ≡ installing p names chosen
  pub marked : All (IsMarked names) r.packages

plan_solved-ok :
    (solve : AlpmPool → List ℕ → Solved) (p : AlpmPool) (names : List String) (s : Solved)
    {r : InstallResult}
    → IsWf p
    → ((ids : List ℕ) → s ≡ solution ids → All (λ i. i < length p.solvables) ids)
    → plan_solved solve p names s ≡ ok r
    → (ids : List ℕ) × (s ≡ solution ids) × (r ≡ installing p names ids)
unfolding plan_solved
plan_solved-ok solve p names (solution ids) {r} h valid e =
    (ids, refl, ground (arith, plan_solution-to_install p names ids h (valid ids refl)))
plan_solved-ok solve p names (unsolvable text) h valid e = cc
plan_solved-ok solve p names cancelled h valid e = cc

plan_install-Solved :
    (solve : AlpmPool → List ℕ → Solved) (p : AlpmPool) (names : List String) (ids : List ℕ)
    {r : InstallResult}
    → requirement_ids p names ≡ ok ids
    → plan_install solve p names ≡ ok r
    → (validate_requirements p ids ≡ none)
      × (plan_solved solve
            (require_all ids p).1
            names
            (solve (require_all ids p).1 (require_all ids p).0)
          ≡ ok r)
unfolding plan_install
plan_install-Solved solve p names ids {r} known e =
    elim (Option-cases (validate_requirements p ids)) [
      | inl fine ↦ (fine, ground (arith, known, fine))
      | inr ((a, b, text), clash) ↦ absurd (ground (arith, known, clash))
    ]

plan_install-ids :
    (solve : AlpmPool → List ℕ → Solved) (p : AlpmPool) (names : List String) {r : InstallResult}
    → plan_install solve p names ≡ ok r
    → (ids : List ℕ) × (requirement_ids p names ≡ ok ids)
unfolding plan_install
plan_install-ids solve p names {r} e =
    let (ids, known, rest) = >>=-eq-ok (requirement_ids p names) _ {y = r} e in (ids, known)

length-known :
    (p : AlpmPool) (names : List String) (ids : List ℕ)
    → map (lookup_name p) names ≡ map some ids
    → length ids ≡ length names
length-known p [] [] e = refl
length-known p [] (i ∷ ids) e = cc
length-known p (name ∷ names) [] e = cc
length-known p (name ∷ names) (i ∷ ids) e =
    omega (arith, length-known p names ids (tail-eq_of_cons-eq e))

-- The version sets of the requirements leave the rest of the pool alone.
require_all-keeps :
    (ids : List ℕ) (p : AlpmPool)
    → length p.vs_map + length ids ≤ u32_mod
    → IsWf p
    → IsWf (require_all ids p).1
      × ((require_all ids p).1.solvables ≡ p.solvables)
      × ((require_all ids p).1.packages ≡ p.packages)
unfolding require_all intern_version_set
require_all-keeps [] p room h = (h, refl, refl)
require_all-keeps (id ∷ ids) p room h =
    require_all-keeps ids (intern_version_set id ">= 0" p).1
      (omega (arith, length-intern-le (id, ">= 0") p.vs_map))
      (intern_version_set-IsWf id ">= 0" p (omega arith) h)

to_install-same :
    (p q : AlpmPool) (names : List String) (ids : List ℕ)
    → q.packages ≡ p.packages
    → (to_install q names ids ≡ to_install p names ids) × (sum_sizes q ids ≡ sum_sizes p ids)
to_install-same p q names [] e = (refl, refl)
to_install-same p q names (i ∷ ids) e =
    let (l, m) = to_install-same p q names ids e in (ground (arith, e, l), ground (arith, e, m))

installing-same :
    (p q : AlpmPool) (names : List String) (ids : List ℕ)
    → q.packages ≡ p.packages
    → installing q names ids ≡ installing p names ids
installing-same p q names ids e = let (l, m) = to_install-same p q names ids e in rw (l, m) refl

-- On a well-formed pool with room for the version sets of the requirements, for a solver that
-- answers with solvables of the pool: a plan is made only where every name is known, no name
-- conflicts with a later one, and the solver has found a solution; it then lists the packages of
-- the solution that are not installed, each marked as asked for exactly where its name was given,
-- with the sum of their sizes modulo 2^64.
pub plan_install-IsPlan :
    (solve : AlpmPool → List ℕ → Solved) (p : AlpmPool) (names : List String) {r : InstallResult}
    → IsWf p
    → length p.vs_map + length names ≤ u32_mod
    → IsSolver solve
    → plan_install solve p names ≡ ok r
    → IsPlan solve p names r
plan_install-IsPlan solve p names {r} h room solver e =
    let (ids, known) = plan_install-ids solve p names {r = r} e in
    let (fine, solved) = plan_install-Solved solve p names ids {r = r} known e in
    let names_known = requirement_ids-known p names {ids = ids} known in
    let q = (require_all ids p).1 in
    let reqs = (require_all ids p).0 in
    let (wf, same_solvables, same_packages) =
      require_all-keeps ids p (omega (arith, length-known p names ids names_known)) h in
    let (chosen, found, result) =
      plan_solved-ok solve q names (solve q reqs) {r = r} wf (λ l f. solver q reqs l f) solved in
    let same = result ∙ installing-same p q names chosen same_packages in
    record {
      ids = ids;
      chosen = chosen;
      known = names_known;
      compatible = no_conflict p ids fine;
      solved = found;
      result = same;
      marked =
          subst (λ (x : InstallResult). All (IsMarked names) x.packages) (sym same)
            (to_install-IsMarked p names chosen);
    }
