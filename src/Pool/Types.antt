-- ===== src/Pool/Types.antt =====
-- The data of src/package_solver/pool.rs. An id (`NameId`, `SolvableId`, `VersionSetId`,
-- `VersionSetUnionId`) is its `u32`.
use pacman_ostree.Base.{ℕ, ◌%◌, ◌^◌, String, Option, List, []}
use pacman_ostree.Base.Dict.{Dict}

pub record AlpmDep : Type 0 where
  pub name : String
  -- empty: any version
  pub constraint : String

pub record AlpmProvide : Type 0 where
  pub virtual_name : String
  pub virtual_version : String

pub record AlpmPackage : Type 0 where
  pub name : String
  pub version : String
  pub pkgrel : String
  pub repo : String
  pub size : ℕ
  pub deps : List AlpmDep
  pub provides : List AlpmProvide
  pub conflicts : List String

pub record Solvable : Type 0 where
  pub name : String
  pub version : String
  pub repo : String
  pub provide_version : Option String

-- `virtuals`: the package's name, the provided version, the solvable.
abbrev pub Provider : Type 0
Provider = String × String × ℕ

pub record AlpmPool : Type 0 where
  pub name_to_id : Dict String ℕ
  pub vs_map : Dict (ℕ × String) ℕ
  pub unions : List (List ℕ)
  pub solvables : List Solvable
  pub solvable_to_pkg : List ℕ
  pub packages : List AlpmPackage
  pub name_candidates : Dict ℕ (List ℕ)
  pub virtuals : Dict String (List Provider)
  pub pkg_provides : List (List AlpmProvide)
  pub conflict_graph : List (ℕ × ℕ)

-- `AlpmPool::new`
abbrev pub new : AlpmPool
new = record {
  name_to_id = [];
  vs_map = [];
  unions = [];
  solvables = [];
  solvable_to_pkg = [];
  packages = [];
  name_candidates = [];
  virtuals = [];
  pkg_provides = [];
  conflict_graph = [];
}

abbrev pub u32_mod : ℕ
u32_mod = 2 ^ 32

-- `as u32`
abbrev pub as_u32 : ℕ → ℕ
as_u32 n = n % u32_mod
