-- ===== src/Pool/Laws/Added.antt =====
-- What `add_package` of src/package_solver/pool.rs leaves in the tables of packages and version
-- sets.
use pacman_ostree.Base.{ℕ, String, string_eq, ◌≡◌, refl, sym, ap, ◌∙◌, List, [], ◌∷◌, ◌++◌, arith}
use mathlib.Core.List.{append_assoc, append-nil}
use pacman_ostree.Pool.Types.{AlpmPackage, AlpmPool}
use pacman_ostree.Pool.Names.{intern_name}
use pacman_ostree.Pool.Add.{add_solvable, add_conflict, add_conflicts, add_package, add_packages}

sets-add_conflicts :
    (nid : ℕ) (name : String) (p : AlpmPool) (cs : List String)
    → (add_conflicts nid name p cs).vs_map ≡ p.vs_map
unfolding add_conflicts
sets-add_conflicts nid name p [] = refl
sets-add_conflicts nid name p (c ∷ cs) =
    sets-add_conflicts nid name (add_conflict nid name p c) cs
    ∙ (unfold add_conflict intern_name in ground arith)

pub sets-add_package : (pkg : AlpmPackage) (p : AlpmPool) → (add_package pkg p).vs_map ≡ p.vs_map
unfolding add_package add_solvable intern_name
sets-add_package pkg p =
    sets-add_conflicts _ pkg.name
      (add_solvable pkg (intern_name pkg.name p).0 (intern_name pkg.name p).1) pkg.conflicts

pub sets-add_packages :
    (pkgs : List AlpmPackage) (p : AlpmPool) → (add_packages pkgs p).vs_map ≡ p.vs_map
unfolding add_packages
sets-add_packages [] p = refl
sets-add_packages (pkg ∷ pkgs) p =
    sets-add_packages pkgs (add_package pkg p) ∙ sets-add_package pkg p

packages-add_conflicts :
    (nid : ℕ) (name : String) (p : AlpmPool) (cs : List String)
    → (add_conflicts nid name p cs).packages ≡ p.packages
unfolding add_conflicts
packages-add_conflicts nid name p [] = refl
packages-add_conflicts nid name p (c ∷ cs) =
    packages-add_conflicts nid name (add_conflict nid name p c) cs
    ∙ (unfold add_conflict intern_name in ground arith)

pub packages-add_package :
    (pkg : AlpmPackage) (p : AlpmPool) → (add_package pkg p).packages ≡ p.packages ++ pkg ∷ []
unfolding add_package add_solvable intern_name
packages-add_package pkg p =
    ap (λ l. l ++ pkg ∷ [])
      (packages-add_conflicts _ pkg.name
        (add_solvable pkg (intern_name pkg.name p).0 (intern_name pkg.name p).1) pkg.conflicts)

pub packages-add_packages :
    (pkgs : List AlpmPackage) (p : AlpmPool) → (add_packages pkgs p).packages ≡ p.packages ++ pkgs
unfolding add_packages
packages-add_packages [] p = sym (append-nil p.packages)
packages-add_packages (pkg ∷ pkgs) p =
    packages-add_packages pkgs (add_package pkg p)
    ∙ (ap (λ l. l ++ pkgs) (packages-add_package pkg p) ∙ append_assoc p.packages (pkg ∷ []) pkgs)
