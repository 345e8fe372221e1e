-- ===== src/Transaction/Archive.antt =====
-- The archives of the packages, in src/package_installer.rs: what is asked of `tar`, and what is
-- written of a package to the database.
use pacman_ostree.Base.{
  ℕ, String, not, ◌&&◌, Option, none, some, List, [], ◌∷◌, ◌++◌, map, if◌then◌else◌, retain, dedup,
  string_eq, Result, ok, err,
}
use pacman_ostree.Base.Text.{◌<>◌, is_nil, lines, trim_start_matches, starts_with}
use pacman_ostree.LocalDb.PkgInfo.{PkgInfo, parse_pkginfo}
use pacman_ostree.LocalDb.Write.{desc_text, files_text, entry_name, show_u64}
use pacman_ostree.Installer.Package.{PackageInfo}
use pacman_ostree.System.Calls.{create_dir_all, write, History, Output, Host}
use pacman_ostree.System.Actions.{
  Action, pure, lift, asks, try_asks, ◌>>=◌, ◌>>◌, collect, fs, command_output,
}

abbrev pub cache_of : String → String
cache_of dest = dest <> "/var/cache/pacman/pkg"

abbrev pub archive_pattern : String → String → String
archive_pattern cache_dir name = cache_dir <> "/" <> name <> "-*.pkg.tar.zst"

abbrev pub extract_argv : String → String → List String
extract_argv pkg_file dest =
    "tar" ∷ "--extract" ∷ "--zstd" ∷ "--xattrs-include=*.*" ∷ "--numeric-owner"
    ∷ "--preserve-permissions" ∷ "--file" ∷ pkg_file ∷ "--directory" ∷ dest ∷ "--exclude=.PKGINFO"
    ∷ "--exclude=.BUILDINFO" ∷ "--exclude=.MTREE" ∷ "--exclude=.INSTALL" ∷ "--exclude=.CHANGELOG"
    ∷ []

abbrev pub to_stdout_argv : String → String → List String
to_stdout_argv pkg_file member =
    "tar" ∷ "--extract" ∷ "--zstd" ∷ "--to-stdout" ∷ "--file" ∷ pkg_file ∷ member ∷ []

abbrev pub list_argv : String → List String
list_argv pkg_file = "tar" ∷ "--list" ∷ "--zstd" ∷ "--file" ∷ pkg_file ∷ []

-- The loop over the lines of a listing.
unfoldable pub listed_files : String → List String
unfolding lines trim_start_matches starts_with
listed_files text =
    retain (λ line. not (starts_with line "/.") && not (is_nil line))
      (map (trim_start_matches b'.') (lines text))

abbrev pub concat : List (List String) → List String
concat [] = []
concat (l ∷ ls) = l ++ concat ls

-- The text, if there is any; `String::from_utf8(...)?` fails where it is not UTF-8.
unfoldable pub script_of : Output → Result (Option String)
script_of out =
    if out.success && not (is_nil out.lossy)
    then elim out.stdout [ some text ↦ ok (some text) | none ↦ err "invalid utf-8 sequence" ]
    else ok none

unfoldable pub pkginfo_of : Output → Result PkgInfo
unfolding parse_pkginfo
pkginfo_of out =
    if out.success
    then elim out.stdout [ some text ↦ parse_pkginfo text | none ↦ err "invalid utf-8 sequence" ]
    else err "Failed to extract .PKGINFO"

abbrev pub files_of : Output → List String
files_of out = if out.success then listed_files out.lossy else []

abbrev pub db_dir : String → PkgInfo → String
db_dir dest info = dest <> "/usr/share/pacman/local/" <> entry_name info

-- `{:?}` of an exit code
abbrev pub show_code : Option ℕ → String
show_code none = "None"
show_code (some code) = "Some(" <> show_u64 code <> ")"

module _ (host : Host) where
  -- `glob::glob(&pattern)?.filter_map(Result::ok).next()`
  unfoldable pub find_archive : String → PackageInfo → Action (Option String)
  find_archive cache_dir info =
      try_asks (λ h. host.glob h (archive_pattern cache_dir info.pkg.name))

  unfoldable pub extract_install_script : String → Action (Option String)
  unfolding script_of
  extract_install_script pkg_file = do
    out ← command_output host (to_stdout_argv pkg_file ".INSTALL")
    lift (script_of out)

  unfoldable pub extract_pkginfo : String → Action PkgInfo
  unfolding pkginfo_of
  extract_pkginfo pkg_file = do
    out ← command_output host (to_stdout_argv pkg_file ".PKGINFO")
    lift (pkginfo_of out)

  -- The files of one package, none where no archive of it is found.
  unfoldable pub list_archive : Option String → Action (List String)
  list_archive none = pure []
  list_archive (some pkg_file) = do
    out ← command_output host (list_argv pkg_file)
    pure (files_of out)

  unfoldable pub collect_installed_files : List PackageInfo → String → Action (List String)
  unfolding find_archive list_archive
  collect_installed_files packages cache_dir = do
    files ← collect (λ info. find_archive cache_dir info >>= list_archive) packages
    pure (dedup (concat files))

module _ (host : Host) (now : History → String) where
  -- What is written to the directory of the package.
  unfoldable pub write_entry : String → List String → PkgInfo → Action (Unit {0})
  unfolding desc_text files_text
  write_entry dir files info = do
    fs host (create_dir_all dir)
    installdate ← asks now
    fs host (write (dir <> "/desc") (desc_text info installdate))
    fs host (write (dir <> "/files") (files_text files))

  unfoldable pub write_found : String → List String → Option String → Action (Unit {0})
  unfolding extract_pkginfo write_entry
  write_found dest files none = lift (err "Package file not found")
  write_found dest files (some pkg_file) = do
    info ← extract_pkginfo host pkg_file
    write_entry (db_dir dest info) files info

  unfoldable pub write_package_to_database : PackageInfo → String → List String → Action (Unit {0})
  unfolding find_archive write_found
  write_package_to_database info dest files = do
    pkg_file ← find_archive host (cache_of dest) info
    write_found dest files pkg_file
