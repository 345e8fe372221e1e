-- ===== src/Repository/Alpm.antt =====
-- What the program reads from libalpm: the databases, their packages and dependencies, as values.
use pacman_ostree.Base.{ℕ, String, Option, List}

-- `DepMod` of the crate `alpm`
pub data DepMod : Type 0 where
  any_version eq ge le gt lt : DepMod

pub record Dep : Type 0 where
  pub name : String
  pub version : Option String
  pub depmod : DepMod

-- A signed number: `negsuc n` is -1 - n.
pub data ℤ : Type 0 where
  pos negsuc : ℕ → ℤ

-- `size` is an `i64`.
pub record AlpmPkg : Type 0 where
  pub name : String
  pub version : String
  pub size : ℤ
  pub filename : Option String
  pub groups : List String
  pub depends : List Dep
  pub provides : List Dep
  pub conflicts : List Dep

-- `db.pkg(name)` is the function `pkg`.
pub record Db : Type 0 where
  pub name : String
  pub pkgs : List AlpmPkg
  pub pkg : String → Option AlpmPkg
  pub servers : List String

pub record Alpm : Type 0 where
  pub syncdbs : List Db
  pub localdb : List AlpmPkg
