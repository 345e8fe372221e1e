-- ===== src/Installer/Planned.antt =====
-- What `plan_install` of src/package_manager/installer.rs returns on a well-formed pool.
use mathlib.Core.List.{append_assoc, append-nil}
use pacman_ostree.Base.{
  ℕ, ◌+◌, ◌%◌, ◌<◌, String, string_eq, nat_eq, ◌==◌, ◌≡◌, refl, Bool, false, not, none, some, List,
  [], ◌∷◌, ◌++◌, arith, inl, inr, if◌then◌else◌, Bool-cases, ok, length, get_elem?, All, push,
}
use pacman_ostree.Pool.Types.{Solvable, AlpmPackage, AlpmPool}
use pacman_ostree.Pool.Query.{get_package_size, get_package_pkgrel}
use pacman_ostree.Pool.Wf.Align.{StandsFor}
use pacman_ostree.Pool.Wf.Invariant.{IsWf}
use pacman_ostree.Pool.Laws.Queries.{queries_total}
use pacman_ostree.Installer.Package.{PackageInfo, add_u64, u64_mod, package_from, size_of}
use pacman_ostree.Installer.Install.{reason_for, plan_solvable, plan_solution}

-- Package `i` of the pool, if there is one.
abbrev pub is_remote : AlpmPool → ℕ → Bool
is_remote p i = elim (get_elem? p.packages i) [ none ↦ false | some q ↦ not (q.repo == "local") ]

abbrev pub planned : List String → AlpmPackage → PackageInfo
planned names q = record {
  pkg = record { name = q.name; version = q.version; pkgrel = q.pkgrel; repo = q.repo };
  reason = reason_for names q.name;
}

-- The packages behind the ids, except those that are installed.
abbrev pub to_install : AlpmPool → List String → List ℕ → List PackageInfo
to_install p names [] = []
to_install p names (i ∷ ids) =
    let rest = to_install p names ids in
    elim (get_elem? p.packages i) [
      | none ↦ rest
      | some q ↦ if q.repo == "local" then rest else planned names q ∷ rest
    ]

abbrev pub sum_sizes : AlpmPool → List ℕ → ℕ
sum_sizes p [] = 0
sum_sizes p (i ∷ ids) =
    let rest = sum_sizes p ids in
    elim (get_elem? p.packages i) [
      | none ↦ rest
      | some q ↦ if q.repo == "local" then rest else q.size + rest
    ]

-- The package that both planners make of a solvable is the one it stands for.
pub package_from-eq :
    (p : AlpmPool) (i : ℕ) (s : Solvable) (q : AlpmPackage)
    → StandsFor s q
    → get_package_pkgrel p i ≡ some q.pkgrel
    → package_from p i s
      ≡ record { name = q.name; version = q.version; pkgrel = q.pkgrel; repo = q.repo }
unfolding package_from
package_from-eq p i s q st e = rw (e, st.name, st.version, st.repo) refl

pub size_of-eq : (p : AlpmPool) (i n : ℕ) → get_package_size p i ≡ some n → size_of p i ≡ n
unfolding size_of
size_of-eq p i n e = rw e refl

plan_solvable-eq :
    (p : AlpmPool) (names : List String) (i total : ℕ) (packages : List PackageInfo)
    → IsWf p
    → i < length p.solvables
    → (q : AlpmPackage) × (get_elem? p.packages i ≡ some q)
      × (plan_solvable p names i (packages, total) ≡ (
          if q.repo == "local"
          then ok (packages, total)
          else ok (push packages (planned names q), add_u64 total q.size)))
unfolding plan_solvable
plan_solvable-eq p names i total packages h lt =
    let (s, q, a) = queries_total p i h lt in
    (
      q,
      a.stored,
      rw a.solvable (
          rw
            (
              package_from-eq p i s q a.same a.pkgrel,
              size_of-eq p i q.size a.size,
              a.same.name,
              a.same.repo,
            )
            refl),
    )

plan_solution-from :
    (p : AlpmPool) (names : List String) (ids : List ℕ) (total : ℕ) (packages : List PackageInfo)
    → IsWf p
    → All (λ i. i < length p.solvables) ids
    → plan_solution p names ids (packages, total % u64_mod)
      ≡ ok (packages ++ to_install p names ids, (total + sum_sizes p ids) % u64_mod)
unfolding plan_solution
plan_solution-from p names [] total packages h valid = ground (arith, append-nil packages)
plan_solution-from p names (i ∷ ids) total packages h (lt, valid) =
    let (q, at_q, e) = plan_solvable-eq p names i (total % u64_mod) packages h lt in
    elim (Bool-cases (q.repo == "local")) [
      | inl skip ↦
          ground (arith, e, at_q, skip, plan_solution-from p names ids total packages h valid)
      | inr add ↦
          let next : add_u64 (total % u64_mod) q.size ≡ (total + q.size) % u64_mod = omega arith in
          let sums : total + q.size + sum_sizes p ids ≡ total + (q.size + sum_sizes p ids) =
            omega arith in
          let rest =
            plan_solution-from p names ids (total + q.size) (push packages (planned names q)) h
              valid in
          ground (
            arith,
            e,
            at_q,
            add,
            next,
            sums,
            rest,
            append_assoc packages (planned names q ∷ []) (to_install p names ids),
          )
    ]

-- On a well-formed pool and ids of its solvables the loop over the solution does not panic: it
-- lists the packages that are not installed yet, in the order of the solution, and adds up their
-- sizes modulo 2^64.
pub plan_solution-to_install :
    (p : AlpmPool) (names : List String) (ids : List ℕ)
    → IsWf p
    → All (λ i. i < length p.solvables) ids
    → plan_solution p names ids ([], 0) ≡ ok (to_install p names ids, sum_sizes p ids % u64_mod)
plan_solution-to_install p names ids h valid =
    ground (arith, plan_solution-from p names ids 0 [] h valid)
