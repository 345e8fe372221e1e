-- ===== src/Transaction/Extracted.antt =====
-- What each step of `unpack_packages` of src/package_installer.rs has done when it succeeds.
use pacman_ostree.Base.{
  String, string_eq, ◌≡◌, true, false, Option, none, some, List, [], ◌∷◌, Result, ok, err, panic,
  retain, if◌then◌else◌,
}
use pacman_ostree.Base.Text.{◌<>◌, str_contains}
use pacman_ostree.Installer.Package.{PackageInfo}
use pacman_ostree.System.Calls.{Call, remove_file, status, output, History, Output}
use pacman_ostree.System.Actions.{Action, pure, for_each, collect, ◌>>=◌}
use pacman_ostree.System.Ending.{
  Does, after, weaken, Does-pure, Does-lift, Does-try_asks, Does-bind, Does-then, Does-fs,
  Does-when, Does-command_output, Does-checked_status, Does-dropped-itself, Does-pure_lift,
}
use pacman_ostree.Transaction.Archive.{
  find_archive, list_archive, listed_files, write_package_to_database,
}
use pacman_ostree.Transaction.Unpack.{
  FileType, regular, directory, symlink, socket, fifo, block_device, char_device, WalkEntry, Site,
  unpack_found, is_special, unpack_package, record_package, cleanup_entry,
}
use pacman_ostree.Transaction.Scripted.{pattern_of}

-- Sockets, pipes and devices.
pub data IsSpecial : FileType → Type 0 where
  a_socket : IsSpecial socket
  a_pipe : IsSpecial fifo
  a_block_device : IsSpecial block_device
  a_char_device : IsSpecial char_device

pub data IsKept : FileType → Type 0 where
  a_file : IsKept regular
  a_directory : IsKept directory
  a_link : IsKept symlink

module _ (site : Site) (dest : String) where
  -- The first archive of each package is extracted into the directory, if there is one.
  pub data Extracts : History → List PackageInfo → History → Type 0 where
    all_extracted : {h : History} → Extracts h [] h
    no_archive :
        {h h' : History} {info : PackageInfo} {infos : List PackageInfo}
        → site.host.glob h (pattern_of dest info) ≡ ok none
        → Extracts h infos h'
        → Extracts h (info ∷ infos) h'
    extracted :
        {h h' : History} {info : PackageInfo} {infos : List PackageInfo} {pkg_file : String}
        → site.host.glob h (pattern_of dest info) ≡ ok (some pkg_file)
        → Extracts
            (after h (
              status (
                "tar" ∷ "--extract" ∷ "--zstd" ∷ "--xattrs-include=*.*" ∷ "--numeric-owner"
                ∷ "--preserve-permissions" ∷ "--file" ∷ pkg_file ∷ "--directory" ∷ dest
                ∷ "--exclude=.PKGINFO" ∷ "--exclude=.BUILDINFO" ∷ "--exclude=.MTREE"
                ∷ "--exclude=.INSTALL" ∷ "--exclude=.CHANGELOG" ∷ [])
              ∷ []))
            infos
            h'
        → Extracts h (info ∷ infos) h'

  abbrev listing : String → Call
  listing pkg_file = output ("tar" ∷ "--list" ∷ "--zstd" ∷ "--file" ∷ pkg_file ∷ [])

  -- What is listed of an archive, where the command is a success.
  abbrev listed_of : Output → List String
  listed_of out = if out.success then listed_files out.lossy else []

  -- The archives are listed.
  pub data Lists : History → List PackageInfo → List (List String) → History → Type 0 where
    all_listed : {h : History} → Lists h [] [] h
    no_list :
        {h h' : History} {info : PackageInfo} {infos : List PackageInfo}
        {files : List (List String)}
        → site.host.glob h (pattern_of dest info) ≡ ok none
        → Lists h infos files h'
        → Lists h (info ∷ infos) ([] ∷ files) h'
    listed :
        {h h' : History} {info : PackageInfo} {infos : List PackageInfo}
        {files : List (List String)} {pkg_file : String} {out : Output}
        → site.host.glob h (pattern_of dest info) ≡ ok (some pkg_file)
        → site.host.command_output h ("tar" ∷ "--list" ∷ "--zstd" ∷ "--file" ∷ pkg_file ∷ [])
          ≡ ok out
        → Lists (after h (listing pkg_file ∷ [])) infos files h'
        → Lists h (info ∷ infos) (listed_of out ∷ files) h'

  -- Each package is written to the database, with the files whose paths have its name in them; an
  -- error of that is dropped.
  pub data Records (files : List String) : History → List PackageInfo → History → Type 0 where
    all_recorded : {h : History} → Records files h [] h
    recorded :
        {h h' : History} {info : PackageInfo} {infos : List PackageInfo}
        → Records files
            (write_package_to_database site.host site.now info dest
              (retain (λ p. str_contains p info.pkg.name) files)
              h).1
            infos
            h'
        → Records files h (info ∷ infos) h'

  -- Of what is found in the directory, exactly the sockets, pipes and devices are removed.
  pub data Cleans : History → List (Result WalkEntry) → History → Type 0 where
    all_clean : {h : History} → Cleans h [] h
    stays :
        {h h' : History} {entry : WalkEntry} {entries : List (Result WalkEntry)} {t : FileType}
        → entry.file_type ≡ ok t
        → IsKept t
        → Cleans h entries h'
        → Cleans h (ok entry ∷ entries) h'
    removed :
        {h h' : History} {entry : WalkEntry} {entries : List (Result WalkEntry)} {t : FileType}
        → entry.file_type ≡ ok t
        → IsSpecial t
        → Cleans (after h (remove_file entry.path ∷ [])) entries h'
        → Cleans h (ok entry ∷ entries) h'

  found_does :
      {info : PackageInfo} {infos : List PackageInfo} {h : History} (m : Action (Unit {0}))
      → ((h1 : History) → Does m h1 (λ _ h'. Extracts h1 infos h'))
      → (found : Option String) → site.host.glob h (pattern_of dest info) ≡ ok found
      → Does
          (unpack_found site dest info found)
          h
          (λ _ h1. Does m h1 (λ _ h'. Extracts h (info ∷ infos) h'))
  found_does m others none at = Does-pure tt _ _ (weaken (others _) λ u h' rest. no_archive at rest)
  found_does m others (some pkg_file) at =
      Does-checked_status site.host _ _ _ _ (weaken (others _) λ u h' rest. extracted at rest)

  pub extract_does :
      (infos : List PackageInfo) (h : History)
      → Does (for_each (unpack_package site dest) infos) h (λ _ h'. Extracts h infos h')
  unfolding for_each unpack_package find_archive
  extract_does [] h = Does-pure tt h _ all_extracted
  extract_does (info ∷ infos) h =
      Does-then _ _ _ _
        (Does-bind _ _ _ _ (Does-try_asks _ _ _ (found_does _ (extract_does infos))))

  more :
      {h h1 : History} {info : PackageInfo} {infos : List PackageInfo} {one : List String}
      (m : Action (List (List String)))
      → Does m h1 (λ files h'. Lists h1 infos files h')
      → ((files : List (List String)) (h' : History)
          → Lists h1 infos files h'
          → Lists h (info ∷ infos) (one ∷ files) h')
      → Does (m >>= λ files. pure (one ∷ files)) h1 (λ files h'. Lists h (info ∷ infos) files h')
  more m others f =
      Does-bind _ _ _ _ (weaken others λ files h' rest. Does-pure _ _ _ (f files h' rest))

  list_one :
      {info : PackageInfo} {infos : List PackageInfo} {h : History}
      (m : Action (List (List String)))
      → ((h1 : History) → Does m h1 (λ files h'. Lists h1 infos files h'))
      → (found : Option String) → site.host.glob h (pattern_of dest info) ≡ ok found
      → Does (list_archive site.host found) h (λ one h1.
        Does (m >>= λ files. pure (one ∷ files)) h1 (λ files h'. Lists h (info ∷ infos) files h'))
  unfolding list_archive
  list_one m others none at = Does-pure _ _ _ (more m (others _) λ files h' rest. no_list at rest)
  list_one m others (some pkg_file) at = Does-bind _ _ _ _ (
      Does-command_output site.host _ _ _
        λ out read. Does-pure _ _ _ (more m (others _) λ files h' rest. listed at read rest))

  pub list_does :
      (infos : List PackageInfo) (h : History)
      → Does
          (collect
            (λ info.
              find_archive site.host (dest <> "/var/cache/pacman/pkg") info
              >>= list_archive site.host)
            infos)
          h
          (λ files h'. Lists h infos files h')
  unfolding collect find_archive
  list_does [] h = Does-pure _ _ _ all_listed
  list_does (info ∷ infos) h =
      Does-bind _ _ _ _ (Does-bind _ _ _ _ (Does-try_asks _ _ _ (list_one _ (list_does infos))))

  pub record_does :
      (files : List String) (infos : List PackageInfo) (h : History)
      → Does (for_each (record_package site dest files) infos) h (λ _ h'. Records files h infos h')
  unfolding for_each record_package
  record_does files [] h = Does-pure tt h _ all_recorded
  record_does files (info ∷ infos) h =
      Does-then _ _ _ _
        (Does-dropped-itself _ _ _ (weaken (record_does files infos _) λ u h' rest. recorded rest))

  sorted_type :
      (t : FileType) → (is_special t ≡ true → IsSpecial t) × (is_special t ≡ false → IsKept t)
  sorted_type regular = (λ e. cc, λ e. a_file)
  sorted_type directory = (λ e. cc, λ e. a_directory)
  sorted_type symlink = (λ e. cc, λ e. a_link)
  sorted_type socket = (λ e. a_socket, λ e. cc)
  sorted_type fifo = (λ e. a_pipe, λ e. cc)
  sorted_type block_device = (λ e. a_block_device, λ e. cc)
  sorted_type char_device = (λ e. a_char_device, λ e. cc)

  pub clean_does :
      (entries : List (Result WalkEntry)) (h : History)
      → Does (for_each (cleanup_entry site) entries) h (λ _ h'. Cleans h entries h')
  unfolding for_each cleanup_entry
  clean_does [] h = Does-pure tt h _ all_clean
  clean_does (panic ∷ entries) h = Does-then _ _ _ _ (Does-bind _ _ _ _ (Does-lift _ _ _ λ a e. cc))
  clean_does (err t ∷ entries) h = Does-then _ _ _ _ (Does-bind _ _ _ _ (Does-lift _ _ _ λ a e. cc))
  clean_does (ok entry ∷ entries) h = Does-then _ _ _ _ (
      Does-bind _ _ _ _ (
        Does-pure_lift _ _ _ (
          Does-bind _ _ _ _ (
            Does-lift _ _ _ λ t typed.
              Does-when _ _ _ _
                (λ special. Does-fs site.host _ _ _ (
                  weaken (clean_does entries _)
                    λ u h' rest. removed typed ((sorted_type t).0 special) rest))
                (λ plain.
                  weaken (clean_does entries h)
                    λ u h' rest. stays typed ((sorted_type t).1 plain) rest)))))
