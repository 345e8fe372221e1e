-- ===== src/Compose/Image.antt =====
-- `compose_image` of src/compose.rs, with what it does in OSTree. OSTree, and the directory that
-- the image is made in, are parameters; a mutable tree is its number.
use pacman_ostree.Base.{
  ℕ, String, not, Option, none, some, List, [], ◌∷◌, Result, ok, err, panic, first,
}
use pacman_ostree.Base.Text.{◌<>◌}
use pacman_ostree.Bubblewrap.Run.{context}
use pacman_ostree.Compose.Config.{ConfigYaml}
use pacman_ostree.System.Calls.{
  RepoCall, create_at, open_at, begin_transaction, commit_transaction, write_root_metadata,
  write_dfd_to_mtree, write_mtree, ensure_dir, remove, set_contents_checksum, set_metadata_checksum,
  write_commit, encapsulate, repo, History,
}
use pacman_ostree.System.Actions.{
  Action, pure, lift, asks, try_asks, with_context, ◌>>=◌, ◌>>◌, when, fs,
}
use pacman_ostree.Transaction.Prepare.{Sources, install_packages}
use pacman_ostree.ComposePost.Post.{compose_post}

-- `MutableTree::lookup`: a file's checksum, a tree, or an error, of which one is "not found".
pub data Lookup : Type 0 where
  leaf : String → Lookup
  subdir : ℕ → Lookup
  not_found : Lookup
  failed : String → Lookup

pub data MtreeEntry : Type 0 where
  leaf : String → MtreeEntry
  directory : ℕ → MtreeEntry

pub record Ostree : Type 0 where
  pub lookup : History → ℕ → String → Lookup
  -- the tree that `ensure_dir` has made or found
  pub ensured : History → ℕ → String → Result ℕ
  pub contents_checksum : History → ℕ → String
  pub metadata_checksum : History → ℕ → String
  -- a new tree, `MutableTree::new`
  pub root_mtree : ℕ
  -- `SePolicy::new_at` and `policy.label`
  pub root_label : History → Result (Option String)
  pub commit_checksum : History → Result String
  -- the creation time, which may not be negative
  pub creation_time : History → Result ℕ
  pub temp_dir : History → Result String
  pub find_kernel_dir : History → Result (Option String)

abbrev pub etc : String
etc = "etc"

abbrev pub usr_etc : String
usr_etc = "usr/etc"

unfoldable pub require_dir : MtreeEntry → Result ℕ
require_dir (leaf checksum) = err "Expected a directory"
require_dir (directory t) = ok t

unfoldable pub found_entry : Lookup → Result (Option MtreeEntry)
found_entry (leaf checksum) = ok (some (leaf checksum))
found_entry (subdir t) = ok (some (directory t))
found_entry not_found = ok none
found_entry (failed e) = err e

-- `map(require_dir).transpose()?`
abbrev pub as_dir : String → Option MtreeEntry → Result (Option ℕ)
as_dir name none = ok none
as_dir name (some entry) = elim (context name (require_dir entry)) [
  | ok t ↦ ok (some t)
  | err e ↦ err e
  | panic ↦ panic
]

-- `security.selinux` with the label and a NUL.
unfoldable pub label_to_xattrs : Option String → Option (String × String)
label_to_xattrs none = none
label_to_xattrs (some label) = some ("security.selinux", label)

module _ (src : Sources) (ostree : Ostree) where
  abbrev pub ask : RepoCall → Action (Unit {0})
  ask c = fs src.site.host (repo c)

  unfoldable pub mtree_lookup : ℕ → String → Action (Option MtreeEntry)
  unfolding found_entry
  mtree_lookup t path = try_asks (λ h. found_entry (ostree.lookup h t path))

  unfoldable pub lookup_dir : ℕ → String → String → Action (Option ℕ)
  unfolding mtree_lookup require_dir
  lookup_dir t path name = mtree_lookup t path >>= λ entry. lift (as_dir name entry)

  -- `rootfs.lookup(USR)?.1.ok_or_else(...)`
  abbrev pub usr_of : Lookup → Result ℕ
  usr_of (subdir t) = ok t
  usr_of (leaf checksum) = err "Missing /usr"
  usr_of not_found = err "not found"
  usr_of (failed e) = err e

  -- The directory is written, and its checksums moved below /usr.
  unfoldable pub move_etc : ℕ → ℕ → Action (Unit {0})
  move_etc rootfs etc_dir = do
    ask (write_mtree etc_dir)
    usr ← try_asks (λ h. usr_of (ostree.lookup h rootfs "usr"))
    ask (ensure_dir usr etc)
    usretc ← try_asks (λ h. ostree.ensured h usr etc)
    contents ← asks (λ h. ostree.contents_checksum h etc_dir)
    ask (set_contents_checksum usretc contents)
    metadata ← asks (λ h. ostree.metadata_checksum h etc_dir)
    ask (set_metadata_checksum usretc metadata)
    ask (remove rootfs etc)

  unfoldable pub place_etc : ℕ → Option ℕ → Option ℕ → Action (Unit {0})
  unfolding move_etc
  place_etc rootfs none usr_etc_dir = pure tt
  place_etc rootfs (some etc_dir) none = move_etc rootfs etc_dir
  place_etc rootfs (some etc_dir) (some usr_etc_dir) = lift (err "Found both /etc and /usr/etc")

  unfoldable pub postprocess_mtree : ℕ → Action (Unit {0})
  unfolding lookup_dir place_etc
  postprocess_mtree rootfs = do
    etc_subdir ← lookup_dir rootfs etc "/etc"
    usr_etc_subdir ← lookup_dir rootfs usr_etc "/usr/etc"
    place_etc rootfs etc_subdir usr_etc_subdir

  -- The commit of the directory, in one transaction of the repository.
  unfoldable pub generate_commit_from_rootfs : Action String
  unfolding postprocess_mtree label_to_xattrs
  generate_commit_from_rootfs = do
    let root_mtree = ostree.root_mtree
    ask begin_transaction
    label ← try_asks ostree.root_label
    with_context "Writing root directory metadata"
        (ask (write_root_metadata (label_to_xattrs label)))
    metadata ← asks (λ h. ostree.metadata_checksum h root_mtree)
    ask (set_metadata_checksum root_mtree metadata)
    ask (write_dfd_to_mtree root_mtree)
    postprocess_mtree root_mtree
    ask (write_mtree root_mtree)
    creation_time ← with_context "Parsing creation time" (try_asks ostree.creation_time)
    ask (write_commit creation_time)
    commit ← try_asks ostree.commit_checksum
    ask commit_transaction
    pure commit

  -- The configuration is a list of at most one path, of which the first is taken.
  unfoldable pub install_packages_compose :
      String → List String → Option (List String) → Action (Unit {0})
  unfolding install_packages
  install_packages_compose dir package_names pacman_conf =
      install_packages src package_names dir
        (elim pacman_conf [ none ↦ none | some paths ↦ first paths ])

  abbrev pub conf_paths : Option String → Option (List String)
  conf_paths none = none
  conf_paths (some path) = some (path ∷ [])

  unfoldable pub open_repo : String → Action (Unit {0})
  open_repo repo_path = asks (λ h. src.site.host.exists h repo_path) >>= λ exists.
      when (not exists) (ask (create_at repo_path)) >> ask (open_at repo_path)

  -- What is done in the directory, once the configuration is read.
  unfoldable pub compose_in : ConfigYaml → String → String → String → Action (Unit {0})
  unfolding install_packages_compose compose_post open_repo generate_commit_from_rootfs
  compose_in config dir repo_path output = do
    install_packages_compose dir config.packages (conf_paths config.pacman_conf)
    compose_post src.site.host ostree.find_kernel_dir config dir
    open_repo repo_path
    commit ← generate_commit_from_rootfs
    ask (open_at repo_path)
    ask (encapsulate output commit (dir <> "/usr/share/pacman/local"))

  unfoldable pub compose_image :
      (String → Result ConfigYaml) → String → String → String → Action (Unit {0})
  unfolding compose_in
  compose_image parse manifest repo_path output = do
    exists ← asks (λ h. src.site.host.exists h manifest)
    when (not exists) (lift (err ("Config file " <> manifest <> " does not exist")))
    config ← lift (parse manifest)
    dir ← try_asks ostree.temp_dir
    compose_in config dir repo_path output
