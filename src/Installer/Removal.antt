-- ===== src/Installer/Removal.antt =====
-- What `plan_uninstall` of src/package_manager/installer.rs removes for a name.
use pacman_ostree.Base.{
  ℕ, ◌<◌, String, string_eq, nat_eq, ◌≡◌, refl, sym, ◌∙◌, true, false, ◌⊎◌, none, some, List, [],
  ◌∷◌, arith, inl, inr, ok, err, length, get_elem?, contains, first, push, nat_beq_iff,
}
use pacman_ostree.Base.Text.{◌<>◌}
use pacman_ostree.Pool.Types.{AlpmPackage, AlpmPool}
use pacman_ostree.Pool.Names.{lookup_name}
use pacman_ostree.Pool.Candidates.{Candidates, get_candidates_for}
use pacman_ostree.Pool.Wf.Invariant.{IsWf}
use pacman_ostree.Pool.Laws.Queries.{queries_total}
use pacman_ostree.Pool.Laws.Answers.{answers, answers-lt}
use pacman_ostree.Pool.Laws.Favored.{VersionCmp, IsVersionOrder}
use pacman_ostree.Pool.Laws.Choice.{
  IsChoice, installed, available, local_at, get_candidates_for-IsChoice,
}
use pacman_ostree.Installer.Package.{PackageInfo, explicit, add_u64}
use pacman_ostree.Installer.Planned.{package_from-eq, size_of-eq}
use pacman_ostree.Installer.Uninstall.{remove_candidate, remove_name}

-- The entry of a plan for package `q`.
abbrev pub removed_entry : AlpmPackage → PackageInfo
removed_entry q = record {
  pkg = record { name = q.name; version = q.version; pkgrel = q.pkgrel; repo = q.repo };
  reason = explicit;
}

-- The package that is removed for the name: it answers to it, and it is an installed one if any
-- that answers is installed.
pub record IsRemoved (p : AlpmPool) (name : String) (q : AlpmPackage) : Type 0 where
  pub id : ℕ
  pub stored : get_elem? p.packages id ≡ some q
  pub answering : answers p.packages name id ≡ true
  pub preferred :
      (j : ℕ) → answers p.packages name j ≡ true → local_at p j ≡ true → local_at p id ≡ true

first_of :
    (l : List ℕ) (f : ℕ)
    → contains l f ≡ true
    → (i : ℕ) × (first l ≡ some i) × (contains l i ≡ true)
first_of [] f c = cc
first_of (x ∷ l) f c = (x, refl, ground (arith, nat_beq_iff x x))

-- The first candidate of a choice.
first_chosen :
    (vercmp : VersionCmp) (p : AlpmPool) (name : String) (c : Candidates)
    → IsChoice vercmp p name c
    → (i : ℕ) × (first c.candidates ≡ some i)
      × (answers p.packages name i ≡ true)
      × ((j : ℕ) → answers p.packages name j ≡ true → local_at p j ≡ true → local_at p i ≡ true)
first_chosen vercmp p name c (installed k lock fav loc ans exact) =
    let (i, head, there) = first_of c.candidates k (ground (arith, exact k)) in
    (i, head, ground (arith, exact i), λ j a l. ground (arith, exact i))
first_chosen vercmp p name c (available f lock fav free exact best) =
    let (i, head, there) = first_of c.candidates f best.offered in
    (i, head, sym (exact i) ∙ there, λ j a l. absurd (ground (arith, free j a)))

remove_candidate-first :
    (vercmp : VersionCmp) (p : AlpmPool) (c : Candidates) (packages : List PackageInfo)
    (freed i : ℕ)
    → IsWf p
    → first c.candidates ≡ some i
    → i < length p.solvables
    → (q : AlpmPackage) × (get_elem? p.packages i ≡ some q)
      × (remove_candidate vercmp p c (packages, freed)
          ≡ ok (push packages (removed_entry q), add_u64 freed q.size))
unfolding remove_candidate
remove_candidate-first vercmp p c packages freed i h head lt =
    let (s, q, a) = queries_total p i h lt in
    (
      q,
      a.stored,
      ground (
        arith,
        head,
        a.solvable,
        package_from-eq p i s q a.same a.pkgrel,
        size_of-eq p i q.size a.size,
      ),
    )

remove_name-found :
    (vercmp : VersionCmp) (p : AlpmPool) (name : String) (acc : List PackageInfo × ℕ) (nid : ℕ)
    (c : Candidates)
    → lookup_name p name ≡ some nid
    → get_candidates_for vercmp p nid ≡ ok (some c)
    → remove_name vercmp p name acc ≡ remove_candidate vercmp p c acc
unfolding remove_name
remove_name-found vercmp p name acc nid c known found = ground (arith, known, found)

remove_name-absent :
    (vercmp : VersionCmp) (p : AlpmPool) (name : String) (acc : List PackageInfo × ℕ) (nid : ℕ)
    → lookup_name p name ≡ some nid
    → get_candidates_for vercmp p nid ≡ ok none
    → remove_name vercmp p name acc ≡ err ("Package not found: " <> name)
unfolding remove_name
remove_name-absent vercmp p name acc nid known found = ground (arith, known, found)

-- Where versions are ordered, in a well-formed pool a known name is an error exactly when no
-- package answers to it. Otherwise one package is listed for it, which is an installed one if any
-- that answers is, and its size is added; where none is installed, a package of a repository is
-- listed all the same.
pub remove_name-IsRemoved :
    (vercmp : VersionCmp) (p : AlpmPool) (name : String) (packages : List PackageInfo) (freed : ℕ)
    {nid : ℕ}
    → IsVersionOrder vercmp
    → IsWf p
    → lookup_name p name ≡ some nid
    → ((remove_name vercmp p name (packages, freed) ≡ err ("Package not found: " <> name))
        × ((i : ℕ) → answers p.packages name i ≡ false))
      ⊎ ((q : AlpmPackage) × IsRemoved p name q
          × (remove_name vercmp p name (packages, freed)
              ≡ ok (push packages (removed_entry q), add_u64 freed q.size)))
remove_name-IsRemoved vercmp p name packages freed {nid} v h known =
    elim (get_candidates_for-IsChoice vercmp p name {nid = nid} v h known) [
      | inl (none_found, nobody) ↦
          inl (remove_name-absent vercmp p name (packages, freed) nid known none_found, nobody)
      | inr (c, found, choice) ↦
          let (i, head, ans, pref) = first_chosen vercmp p name c choice in
          let lt = answers-lt p name i h ans in
          let (q, at_q, done) = remove_candidate-first vercmp p c packages freed i h head lt in
          inr (
            q,
            record { id = i; stored = at_q; answering = ans; preferred = pref },
            remove_name-found vercmp p name (packages, freed) nid c known found ∙ done,
          )
    ]
