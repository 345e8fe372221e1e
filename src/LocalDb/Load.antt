-- ===== src/LocalDb/Load.antt =====
-- `load_local_db_from_files` of src/package_installer.rs. The directory is a parameter: an entry
-- has `desc` if it is a directory that holds one, and `desc` is an error where it cannot be read.
use pacman_ostree.Base.{
  String, string_eq, ◌==◌, ◌||◌, Option, none, some, List, [], ◌∷◌, if◌then◌else◌, Result, ◌>>=◌,
  ok, push,
}
use pacman_ostree.Base.Text.{is_nil, lines, rsplit_once}
use pacman_ostree.Pool.Types.{AlpmPackage}

-- The variable `current`.
pub data Current : Type 0 where
  nothing in_name in_version : Current

pub record Reading : Type 0 where
  pub current : Current
  pub name : String
  pub version : String

abbrev pub start : Reading
start = record { current = nothing; name = ""; version = "" }

abbrev take_value : Current → String → Reading → Reading
take_value nothing line s = s
take_value in_name line s = record s { name = line }
take_value in_version line s = record s { version = line }

-- One round of the loop over the lines.
unfoldable pub desc_line : String → Reading → Reading
desc_line line s =
    if line == "%NAME%"
    then record s { current = in_name }
    else if line == "%VERSION%"
    then record s { current = in_version }
    else if is_nil line
    then s
    else take_value s.current line s

unfoldable pub desc_lines : List String → Reading → Reading
unfolding desc_line
desc_lines [] s = s
desc_lines (line ∷ ls) s = desc_lines ls (desc_line line s)

-- At the last "-": the version, and the release, which is "1" where there is none.
unfoldable pub split_version : String → String × String
unfolding rsplit_once
split_version version = elim (rsplit_once b'-' version) [
  | some (ver, pkgrel) ↦ (ver, pkgrel)
  | none ↦ (version, "1")
]

-- The package of one `desc`, if it has a name and a version.
unfoldable pub load_desc : String → Option AlpmPackage
unfolding lines desc_lines split_version
load_desc content =
    let s = desc_lines (lines content) start in
    if is_nil s.name || is_nil s.version
    then none
    else (let (ver, pkgrel) = split_version s.version in
        some (record {
          name = s.name;
          version = ver;
          pkgrel = pkgrel;
          repo = "local";
          size = 0;
          deps = [];
          provides = [];
          conflicts = [];
        }))

pub record LocalEntry : Type 0 where
  pub desc : Option (Result String)

abbrev add_loaded : Option AlpmPackage → List AlpmPackage → List AlpmPackage
add_loaded none packages = packages
add_loaded (some pkg) packages = push packages pkg

unfoldable pub load_entries :
    List (Result LocalEntry) → List AlpmPackage → Result (List AlpmPackage)
unfolding load_desc
load_entries [] packages = ok packages
load_entries (entry ∷ entries) packages = do
  e ← entry
  elim e.desc [
    | none ↦ load_entries entries packages
    | some content ↦ content >>= λ text. load_entries entries (add_loaded (load_desc text) packages)
  ]

-- A directory that cannot be listed is an empty database.
unfoldable pub load_local_db : Option (List (Result LocalEntry)) → Result (List AlpmPackage)
unfolding load_entries
load_local_db none = ok []
load_local_db (some entries) = load_entries entries []
