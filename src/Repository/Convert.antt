-- ===== src/Repository/Convert.antt =====
-- `convert_dep` and `convert_package` of src/package_manager/alpm_integration.rs.
use mathlib.Core.Option.{get_or}
use pacman_ostree.Base.{String, Option, none, some, map}
use pacman_ostree.Base.Text.{◌<>◌, rsplit_once}
use pacman_ostree.Pool.Types.{AlpmDep, AlpmProvide, AlpmPackage}
use pacman_ostree.Repository.Alpm.{
  DepMod, any_version, eq, ge, le, gt, lt, Dep, pos, negsuc, AlpmPkg,
}

-- The operator's text; `none` is the early return.
unfoldable pub operator : DepMod → Option String
operator any_version = none
operator eq = some "="
operator ge = some ">="
operator le = some "<="
operator gt = some ">"
operator lt = some "<"

unfoldable pub constraint_of : Option String → DepMod → String
unfolding operator
constraint_of none depmod = ""
constraint_of (some ver) depmod = elim (operator depmod) [ none ↦ "" | some op ↦ op <> " " <> ver ]

unfoldable pub convert_dep : Dep → AlpmDep
unfolding constraint_of
convert_dep dep = record { name = dep.name; constraint = constraint_of dep.version dep.depmod }

unfoldable pub convert_provide : Dep → AlpmProvide
convert_provide p = record { virtual_name = p.name; virtual_version = get_or p.version "0" }

-- At the last "-"; without one the release is "1".
unfoldable pub split_full_version : String → String × String
unfolding rsplit_once
split_full_version full_version = elim (rsplit_once b'-' full_version) [
  | some (version, pkgrel) ↦ (version, pkgrel)
  | none ↦ (full_version, "1")
]

unfoldable pub convert_package : AlpmPkg → String → AlpmPackage
unfolding convert_dep convert_provide split_full_version
convert_package pkg repo =
    let (version, pkgrel) = split_full_version pkg.version in
    record {
      name = pkg.name;
      version = version;
      pkgrel = pkgrel;
      repo = repo;
      size = elim pkg.size [ pos n ↦ n | negsuc n ↦ 0 ];
      deps = map convert_dep pkg.depends;
      provides = map convert_provide pkg.provides;
      conflicts = map (λ (c : Dep). c.name) pkg.conflicts;
    }
