-- ===== src/Pool/Wf/Many.antt =====
-- The invariant of the pool of src/package_solver/pool.rs under the adding of many packages.
use pacman_ostree.Base.{
  ℕ, suc, ◌+◌, ◌≤◌, String, string_eq, nat_eq, pair_eq, ◌≡◌, refl, ◌∙◌, List, [], ◌∷◌, arith,
  length, ap, length-append,
}
use pacman_ostree.Pool.Types.{AlpmPackage, AlpmPool, u32_mod}
use pacman_ostree.Pool.Intern.{length-intern-le}
use pacman_ostree.Pool.Names.{intern_name}
use pacman_ostree.Pool.Add.{
  solvable_of, add_solvable, add_conflict, add_conflicts, add_package, add_packages,
}
use pacman_ostree.Pool.Wf.Invariant.{IsWf}
use pacman_ostree.Pool.Wf.Add.{add_package-IsWf}

-- The names that packages may add.
abbrev pub names_of : List AlpmPackage → ℕ
names_of [] = 0
names_of (q ∷ qs) = 1 + length q.conflicts + names_of qs

-- That the ids of all the packages fit into a `u32`.
pub record HasRoomFor (pkgs : List AlpmPackage) (p : AlpmPool) : Type 0 where
  pub solvables : length p.solvables + length pkgs ≤ u32_mod
  pub names : length p.name_to_id + names_of pkgs ≤ u32_mod

solvables-add_conflicts :
    (nid : ℕ) (name : String) (p : AlpmPool) (cs : List String)
    → (add_conflicts nid name p cs).solvables ≡ p.solvables
unfolding add_conflicts
solvables-add_conflicts nid name p [] = refl
solvables-add_conflicts nid name p (c ∷ cs) =
    solvables-add_conflicts nid name (add_conflict nid name p c) cs
    ∙ (unfold add_conflict in ground arith)

length-add_conflict :
    (nid : ℕ) (name : String) (p : AlpmPool) (c : String)
    → length (add_conflict nid name p c).name_to_id ≤ length p.name_to_id + 1
unfolding add_conflict
length-add_conflict nid name p c = ground (arith, length-intern-le c p.name_to_id)

length-add_conflicts :
    (nid : ℕ) (name : String) (p : AlpmPool) (cs : List String)
    → length (add_conflicts nid name p cs).name_to_id ≤ length p.name_to_id + length cs
unfolding add_conflicts
length-add_conflicts nid name p [] = omega arith
length-add_conflicts nid name p (c ∷ cs) = omega (
  arith,
  length-add_conflict nid name p c,
  length-add_conflicts nid name (add_conflict nid name p c) cs,
)

abbrev filled : AlpmPackage → AlpmPool → AlpmPool
filled pkg p = add_solvable pkg (intern_name pkg.name p).0 (intern_name pkg.name p).1

filled_sizes :
    (pkg : AlpmPackage) (p : AlpmPool)
    → (length (filled pkg p).solvables ≡ suc (length p.solvables))
      × (length (filled pkg p).name_to_id ≤ length p.name_to_id + 1)
unfolding intern_name add_solvable
filled_sizes pkg p = (
  omega (arith, length-append p.solvables (solvable_of pkg ∷ [])),
  length-intern-le pkg.name p.name_to_id,
)

pub add_package_sizes :
    (pkg : AlpmPackage) (p : AlpmPool)
    → (length (add_package pkg p).solvables ≡ suc (length p.solvables))
      × (length (add_package pkg p).name_to_id ≤ length p.name_to_id + 1 + length pkg.conflicts)
unfolding add_package
add_package_sizes pkg p =
    let nid = (intern_name pkg.name p).0 in
    (
      ap length (solvables-add_conflicts nid pkg.name (filled pkg p) pkg.conflicts)
          ∙ (filled_sizes pkg p).0,
      omega (
        arith,
        length-add_conflicts nid pkg.name (filled pkg p) pkg.conflicts,
        (filled_sizes pkg p).1,
      ),
    )

pub add_packages-IsWf :
    (pkgs : List AlpmPackage) (p : AlpmPool)
    → HasRoomFor pkgs p
    → IsWf p
    → IsWf (add_packages pkgs p)
unfolding add_packages
add_packages-IsWf [] p room h = h
add_packages-IsWf (pkg ∷ pkgs) p room h =
    let (one, names) = add_package_sizes pkg p in
    add_packages-IsWf pkgs (add_package pkg p)
      (record { solvables = omega arith; names = omega arith })
      (add_package-IsWf pkg p (record { solvables = omega arith; names = omega arith }) h)
