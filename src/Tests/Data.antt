-- ===== src/Tests/Data.antt =====
-- The properties of the repositories, the local database and the configuration at concrete values.
use mathlib.Core.Option.{get_or}
use mathlib.Core.Path.{subst}
use pacman_ostree.Base.{
  ℕ, ◌<◌, String, string_eq, ◌≡◌, refl, Bool, true, false, Option, none, some, List, [], ◌∷◌, arith,
  Result, ok, All, contains, if◌then◌else◌,
}
use pacman_ostree.Base.Text.{trim}
use pacman_ostree.Base.Text.Laws.{IsTidy}
use pacman_ostree.Pool.Version.{version_matches}
use pacman_ostree.Repository.Lookup.{expand_names}
use pacman_ostree.Repository.Expanded.{AllOffered, expand_names-AllOffered}
use pacman_ostree.Repository.Alpm.{pos, AlpmPkg, Db, Alpm, ge}
use pacman_ostree.Repository.Convert.{constraint_of}
use pacman_ostree.Repository.Constraints.{is_met, version_matches-constraint_of}
use pacman_ostree.LocalDb.PkgInfo.{PkgInfo, default}
use pacman_ostree.LocalDb.Write.{desc_text}
use pacman_ostree.LocalDb.Load.{load_desc}
use pacman_ostree.LocalDb.Written.{HasFields, misread, load_desc-desc_text}
use pacman_ostree.Hooks.Types.{operation_eq}
use pacman_ostree.Compose.Config.{ConfigYaml, includes, yaml_parse}
use pacman_ostree.Compose.Including.{IsRanked, yaml_parse-total}
use pacman_ostree.Tests.Values.{by_length}

version-IsTidy : IsTidy "5.2"
unfolding trim
version-IsTidy = record { start = refl; stop = refl; full = refl }

version_matches-constraint_of_example :
    version_matches by_length "5.2.1" (constraint_of (some "5.2") ge)
    ≡ is_met ge (by_length "5.2.1" "5.2")
version_matches-constraint_of_example =
    version_matches-constraint_of by_length "5.2.1" "5.2" ge version-IsTidy

abbrev glibc : AlpmPkg
glibc = record {
  name = "glibc";
  version = "2.40-1";
  size = pos 48;
  filename = some "glibc-2.40-1-x86_64.pkg.tar.zst";
  groups = [];
  depends = record { name = "linux-api-headers"; version = some "6"; depmod = ge } ∷ [];
  provides = [];
  conflicts = [];
}

abbrev core : Db
core = record {
  name = "core";
  pkgs = glibc ∷ [];
  pkg = λ name. some glibc;
  servers = "https://mirror/core" ∷ [];
}

abbrev handle : Alpm
handle = record { syncdbs = core ∷ []; localdb = glibc ∷ [] }

abbrev written : PkgInfo
written = record default { pkgname = "linux-headers"; pkgbase = some "linux"; pkgver = "6.12-1" }

written-HasFields : HasFields written
written-HasFields = record {
  pkgname = record { line = refl; not_name = refl; not_version = refl };
  pkgbase = record { line = refl; not_name = refl; not_version = refl };
  pkgver = record { line = refl; not_name = refl; not_version = refl };
  pkgdesc = record { line = refl; not_name = refl; not_version = refl };
  url = record { line = refl; not_name = refl; not_version = refl };
  arch = record { line = refl; not_name = refl; not_version = refl };
  packager = record { line = refl; not_name = refl; not_version = refl };
  named = refl;
}

load_desc-desc_text_example :
    load_desc (desc_text written "1700000000")
    ≡ some (misread (get_or written.pkgbase written.pkgname))
load_desc-desc_text_example =
    load_desc-desc_text written "1700000000" written-HasFields
      (record { line = refl; not_name = refl; not_version = refl })

abbrev config : Option (List String) → String → List String → ConfigYaml
config files branch packages = record {
  include = files;
  ref = branch;
  packages = packages;
  services = none;
  scripts = none;
  pacman_conf = none;
}

abbrev base_file : ConfigYaml
base_file = config none "base" ("linux" ∷ [])

abbrev desktop_file : ConfigYaml
desktop_file = config (some ("base.yaml" ∷ [])) "desktop" ("sway" ∷ [])

-- Every file but "desktop.yaml" is the base file.
abbrev is_desktop : String → Bool
is_desktop path = contains ("desktop.yaml" ∷ []) path

abbrev file_for : Bool → ConfigYaml
file_for desktop = if desktop then desktop_file else base_file

abbrev read_file : String → Result ConfigYaml
read_file path = ok (file_for (is_desktop path))

abbrev rank_for : Bool → ℕ
rank_for desktop = if desktop then 1 else 0

abbrev rank : String → ℕ
rank path = rank_for (is_desktop path)

file_for-below : (b : Bool) → All (λ f. rank f < rank_for b) (includes (file_for b))
file_for-below true = (omega arith, tt)
file_for-below false = tt

abbrev Below : ℕ → Result ConfigYaml → Type 0
Below n (ok c) = All (λ f. rank f < n) (includes c)
Below n _ = Unit

read_file-IsRanked : IsRanked read_file rank
read_file-IsRanked path c e = subst (Below (rank path)) e (file_for-below (is_desktop path))

yaml_parse-total_example :
    (r : Result ConfigYaml) × (yaml_parse read_file 2 "desktop.yaml" ≡ some r)
yaml_parse-total_example =
    yaml_parse-total read_file rank 2 "desktop.yaml" read_file-IsRanked (omega arith)

abbrev parse_file : String → Option (Result ConfigYaml)
parse_file path = some (read_file path)

glibc_expanded : expand_names handle ("glibc" ∷ []) ≡ ok ("glibc" ∷ [])
unfolding expand_names
glibc_expanded = refl

expand_names-AllOffered_example : AllOffered handle ("glibc" ∷ [])
expand_names-AllOffered_example =
    expand_names-AllOffered handle ("glibc" ∷ []) {l = "glibc" ∷ []} glibc_expanded
