-- ===== src/Tests/Values.antt =====
-- The packages, and the pool with them, that the tests share.
use Prim.Native.Nat.{compare}
use pacman_ostree.Base.{ℕ, suc, String, List, [], ◌∷◌, arith}
use pacman_ostree.Pool.Types.{AlpmPackage, Provider, AlpmPool, new}
use pacman_ostree.Pool.Add.{add_packages}
use pacman_ostree.Base.Dict.{Dict}
use pacman_ostree.Pool.Wf.Invariant.{IsWf, new-IsWf}
use pacman_ostree.Pool.Wf.Many.{add_packages-IsWf}
use pacman_ostree.Pool.Laws.Favored.{VersionCmp, IsVersionOrder}

abbrev pub bash : AlpmPackage
bash = record {
  name = "bash";
  version = "5.2";
  pkgrel = "3";
  repo = "core";
  size = 9;
  deps =
      record { name = "glibc"; constraint = ">= 2" }
      ∷ record { name = "libreadline.so"; constraint = "" }
      ∷ [];
  provides = record { virtual_name = "sh"; virtual_version = "5" } ∷ [];
  conflicts = "dash" ∷ [];
}

abbrev pub dash : AlpmPackage
dash = record {
  name = "dash";
  version = "0.5";
  pkgrel = "1";
  repo = "local";
  size = 1;
  deps = record { name = "glibc"; constraint = "" } ∷ [];
  provides = [];
  conflicts = [];
}

abbrev pub newer_bash : AlpmPackage
newer_bash = record {
  name = "bash";
  version = "5.2.10";
  pkgrel = "1";
  repo = "core";
  size = 10;
  deps = [];
  provides = [];
  conflicts = [];
}

abbrev pub packages : List AlpmPackage
packages = bash ∷ dash ∷ newer_bash ∷ []

abbrev pub pool : AlpmPool
pool = add_packages packages new

pub pool-IsWf : IsWf pool
pool-IsWf =
    add_packages-IsWf packages new (record { solvables = omega arith; names = omega arith })
      new-IsWf

-- A comparison of versions: the longer is the newer.
abbrev pub count : String → ℕ
count String.[] = 0
count (String.◌∷◌ c s) = suc (count s)

abbrev pub by_length : VersionCmp
by_length a b = compare (count a) (count b)

pub by_length-IsVersionOrder : IsVersionOrder by_length
by_length-IsVersionOrder = record {
  swap = λ a b. ground arith;
  trans = λ a b c f g e. ground arith;
}

-- The order of a `HashMap`: here that of insertion.
abbrev pub values : Dict String (List Provider) → List (List Provider)
values [] = []
values ((k, v) ∷ m) = v ∷ values m
