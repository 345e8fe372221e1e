-- ===== src/Installer/Package.antt =====
-- `Package` of src/package_manager/mod.rs, and the results of src/package_manager/installer.rs.
use mathlib.Core.Option.{get_or}
use pacman_ostree.Base.{ℕ, ◌+◌, ◌%◌, ◌^◌, String, Bool, List}
use pacman_ostree.Base.Text.{◌<>◌}
use pacman_ostree.Pool.Types.{Solvable, AlpmPool}
use pacman_ostree.Pool.Query.{get_package_size, get_package_pkgrel}

pub record Package : Type 0 where
  pub name : String
  pub version : String
  pub pkgrel : String
  pub repo : String

unfoldable pub display_name : Package → String
display_name p = p.name <> "-" <> p.version <> "-" <> p.pkgrel

unfoldable pub full_name : Package → String
full_name p = p.name <> "-" <> p.version <> "-" <> p.pkgrel <> "@" <> p.repo

pub data InstallReason : Type 0 where
  explicit as_dependency : InstallReason

pub record PackageInfo : Type 0 where
  pub pkg : Package
  pub reason : InstallReason

pub record InstallResult : Type 0 where
  pub packages : List PackageInfo
  pub total_size : ℕ
  pub success : Bool

pub record UninstallResult : Type 0 where
  pub packages : List PackageInfo
  pub freed_size : ℕ
  pub success : Bool

abbrev pub u64_mod : ℕ
u64_mod = 2 ^ 64

-- `+=` on a `u64`, as a release build wraps it.
abbrev pub add_u64 : ℕ → ℕ → ℕ
add_u64 a b = (a + b) % u64_mod

-- The package that both planners make of a solvable: `unwrap_or_else(|| "1")` for its `pkgrel`.
unfoldable pub package_from : AlpmPool → ℕ → Solvable → Package
unfolding get_package_pkgrel
package_from p id s = record {
  name = s.name;
  version = s.version;
  pkgrel = get_or (get_package_pkgrel p id) "1";
  repo = s.repo;
}

-- `get_package_size(id).unwrap_or(0)`
unfoldable pub size_of : AlpmPool → ℕ → ℕ
unfolding get_package_size
size_of p id = get_or (get_package_size p id) 0
