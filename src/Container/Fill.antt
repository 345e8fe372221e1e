-- ===== src/Container/Fill.antt =====
-- The package database in `container_encapsulate` of src/container.rs, and its loops up to
-- `create_meta`. The crate `alpm_db`, the directory and what a `HashMap` iterates over are
-- parameters; the commit is a tree and the files that it resolves paths in.
use pacman_ostree.Base.{
  ℕ, String, string_eq, nat_eq, ◌==◌, Bool, not, ◌&&◌, ◌||◌, Option, none, some, List, [], ◌∷◌, map,
  if◌then◌else◌, Result, ok, err, panic, push,
}
use pacman_ostree.Base
use pacman_ostree.Base.Dict.{Dict, insert}
use pacman_ostree.Base.Text.{◌<>◌, is_nil, trim, lines, ends_with, starts_with}
use pacman_ostree.Installer.Package.{add_u64}
use pacman_ostree.FsUtil.Path.{absolute_path}
use pacman_ostree.FsUtil.Resolve.{
  RepoFiles, Outcome, panicked, returned, and_then, ResolvedOstreePaths, Cache, Answer,
  resolve_ostree_paths,
}
use pacman_ostree.Container.Sets.{add_path, add_id}
use pacman_ostree.Container.Meta.{ObjectSourceMeta, MappingBuilder, Content, create_meta, u32_max}
use pacman_ostree.Container.Scan.{Children, recurse}

-- `DbDescFileV1`, the fields that are read.
pub record DbDesc : Type 0 where
  pub name : String
  pub version : String
  pub size : ℕ

-- An entry of the database: whether it has both files, what `desc` reads as, and the path of
-- `files`.
pub record DbEntry : Type 0 where
  pub has_files : Bool
  pub desc : Result DbDesc
  pub files_path : String

abbrev pub unpackaged : String
unpackaged = "pacmanostree-unpackaged-content"

abbrev pub unpackaged_meta : ObjectSourceMeta
unpackaged_meta = record {
  identifier = unpackaged;
  name = unpackaged;
  srcid = unpackaged;
  change_time_offset = u32_max;
  change_frequency = u32_max;
}

-- The state before the loops.
abbrev pub start : MappingBuilder
start = record {
  packagemeta = unpackaged_meta ∷ [];
  componentmeta = [];
  component_ids = [];
  checksum_paths = [];
  path_packages = [];
  path_components = [];
  unpackaged_id = unpackaged;
  skip = [];
  pacman_size = 0;
}

abbrev pub nevra_of : DbDesc → String
nevra_of desc = desc.name <> "-" <> desc.version

abbrev pub package_entry : DbDesc → ObjectSourceMeta
package_entry desc = record {
  identifier = nevra_of desc;
  name = desc.name;
  srcid = nevra_of desc;
  change_time_offset = 0;
  change_frequency = 1;
}

-- The state with `package_meta`, from a package to the path of its files.
abbrev pub Filling : Type 0
Filling = MappingBuilder × Dict String String

abbrev pub with_package : String → Filling → DbDesc → Filling
with_package files_path (state, packages) desc = (
  record state {
    pacman_size = add_u64 state.pacman_size desc.size;
    packagemeta = push state.packagemeta (package_entry desc);
  },
  insert (nevra_of desc) files_path packages,
)

unfoldable pub add_entry : DbEntry → Filling → Result Filling
unfolding insert
add_entry entry filling =
    if entry.has_files
    then Base.◌>>=◌ entry.desc (λ desc. ok (with_package entry.files_path filling desc))
    else ok filling

-- The loop over the directory, whose entries may be errors.
unfoldable pub read_db : List (Result DbEntry) → Filling → Result Filling
unfolding add_entry
read_db [] filling = ok filling
read_db (entry ∷ entries) filling =
    Base.◌>>=◌ entry λ e. Base.◌>>=◌ (add_entry e filling) λ filling'. read_db entries filling'

-- `file_type` by two tests, and `checksum`.
pub record Objects (files : RepoFiles) : Type 0 where
  pub is_regular : files.File → Bool
  pub is_symlink : files.File → Bool
  pub checksum : files.File → String

-- `Utf8PathBuf::from("/").join(rel_path)`
abbrev rooted : String → String
rooted rel_path = if starts_with rel_path "/" then rel_path else "/" <> rel_path

abbrev tail_of : List String → List String
tail_of [] = []
tail_of (x ∷ xs) = xs

module _ (files : RepoFiles) (objects : Objects files) (root : files.File) (fuel : ℕ) where
  abbrev pub Mapping : Type 0
  Mapping = MappingBuilder × Cache files

  abbrev pub add_owned :
      String → String → Option (ResolvedOstreePaths files) → MappingBuilder → MappingBuilder
  add_owned nevra path none state = state
  add_owned nevra path (some found) state =
      if objects.is_regular found.path || objects.is_symlink found.path
      then record state {
        checksum_paths = add_path (objects.checksum found.path) path state.checksum_paths;
        path_packages = add_id path nevra state.path_packages;
      }
      else state

  -- One line of the list of files.
  unfoldable pub map_line : String → String → Mapping → Outcome Mapping
  unfolding trim ends_with starts_with resolve_ostree_paths absolute_path add_path add_id
  map_line nevra line (state, cache) =
      let rel_path = trim line in
      let path = rooted rel_path in
      if is_nil rel_path || ends_with rel_path b'/'
      then returned (state, cache)
      else and_then (resolve_ostree_paths files root fuel (absolute_path path) cache)
          λ ((found, cache') : Answer files). returned (add_owned nevra path found state, cache')

  unfoldable pub map_lines : String → List String → Mapping → Outcome Mapping
  unfolding map_line
  map_lines nevra [] m = returned m
  map_lines nevra (line ∷ ls) m = and_then (map_line nevra line m) λ m'. map_lines nevra ls m'

  module _ (read_files : String → Result String) where
    abbrev pub read_lines :
        (List String → Outcome (Result Mapping)) → Result String → Outcome (Result Mapping)
    read_lines next (ok text) = next (tail_of (lines text))
    read_lines next (err e) = returned (err e)
    read_lines next panic = panicked

    -- The loop over the packages; the first line of a list is its header.
    unfoldable pub map_packages : Dict String String → Mapping → Outcome (Result Mapping)
    unfolding map_lines lines
    map_packages [] m = returned (ok m)
    map_packages ((nevra, files_path) ∷ packages) m =
        read_lines (λ ls. and_then (map_lines nevra ls m) λ m'. map_packages packages m')
          (read_files files_path)

    abbrev component_meta : String → ObjectSourceMeta
    component_meta name = record {
      identifier = name;
      name = name;
      srcid = "component:" <> name;
      change_time_offset = u32_max;
      change_frequency = u32_max;
    }

    -- The loop over the components, and `create_meta`.
    abbrev pub described : MappingBuilder → MappingBuilder × Content
    described state =
        let state' = record state { componentmeta = map component_meta state.component_ids } in
        (state', create_meta state')

    abbrev pub scanned : Children → Mapping → Result (MappingBuilder × Content)
    scanned tree (state, cache) =
        Base.◌>>=◌ (recurse tree "/" none state) λ state'. ok (described state')

    abbrev pub after_mapping : Children → Result Mapping → Result (MappingBuilder × Content)
    after_mapping tree r = Base.◌>>=◌ r (scanned tree)

    abbrev pub after_db :
        (Dict String String → Dict String String)
        → Children
        → Result Filling
        → Outcome (Result (MappingBuilder × Content))
    after_db iter tree (ok (state, packages)) =
        and_then (map_packages (iter packages) (state, [])) λ r. returned (after_mapping tree r)
    after_db iter tree (err e) = returned (err e)
    after_db iter tree panic = panicked

    -- What `container_encapsulate` does before the export: `none` stands for a database that does
    -- not exist.
    unfoldable pub content_of :
        (Dict String String → Dict String String)
        → Option (List (Result DbEntry))
        → Children
        → Outcome (Result (MappingBuilder × Content))
    unfolding read_db map_packages recurse create_meta
    content_of iter none tree = returned (err "Pacman DB path missing")
    content_of iter (some entries) tree = after_db iter tree (read_db entries (start, []))
