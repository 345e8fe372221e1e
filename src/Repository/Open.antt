-- ===== src/Repository/Open.antt =====
-- `AlpmRepository::new` and its variants, and `get_stats`, in
-- src/package_manager/alpm_integration.rs, and src/package_manager/config.rs. The crates
-- `pacmanconf` and `alpm_utils` are a parameter.
use pacman_ostree.Base.{ℕ, ◌+◌, String, List, [], ◌∷◌, map, Result, ◌>>=◌, ok, length}
use pacman_ostree.Base.Text.{◌<>◌, join}
use pacman_ostree.LocalDb.Write.{show_u64}
use pacman_ostree.Bubblewrap.Run.{context}
use pacman_ostree.Repository.Alpm.{Db, Alpm}

-- `pacmanconf::Config`, its fields that are written.
pub record Config : Type 0 where
  pub root_dir : String
  pub db_path : String

pub record Opener : Type 0 where
  pub config_new : Result Config
  pub config_from_file : String → Result Config
  pub alpm_with_conf : Config → Result Alpm

module _ (opener : Opener) where
  unfoldable pub open_default : Result Alpm
  open_default = do
    config ← context "Failed to load pacman config" opener.config_new
    context "Failed to initialize ALPM" (opener.alpm_with_conf config)

  unfoldable pub with_config : String → Result Alpm
  with_config path = do
    config ← context "Failed to load custom pacman config" (opener.config_from_file path)
    context "Failed to initialize ALPM with custom config" (opener.alpm_with_conf config)

  unfoldable pub with_config_and_rootdir : String → String → Result Alpm
  with_config_and_rootdir path rootdir = do
    config ← context "Failed to load custom pacman config" (opener.config_from_file path)
    context "Failed to initialize ALPM with custom rootdir" (
        opener.alpm_with_conf
          (record config { root_dir = rootdir; db_path = rootdir <> "/var/lib/pacman" }))

  unfoldable pub load_config : Result Config
  load_config = context "Failed to load/parse /etc/pacman.conf" opener.config_new

  unfoldable pub load_config_from_file : String → Result Config
  load_config_from_file path =
      context "Failed to load pacman.conf from custom path" (opener.config_from_file path)

  unfoldable pub load_config_with_rootdir : String → String → Result Config
  load_config_with_rootdir path rootdir = do
    config ← context "Failed to load pacman.conf from custom path" (opener.config_from_file path)
    ok (record config { root_dir = rootdir; db_path = rootdir <> "/usr/share/pacman/" })

abbrev stat_line : Db → String
stat_line db = db.name <> ": " <> show_u64 (length db.pkgs) <> " packages"

abbrev pub total_packages : List Db → ℕ
total_packages [] = 0
total_packages (db ∷ dbs) = length db.pkgs + total_packages dbs

-- The counts are `usize`.
unfoldable pub get_stats : Alpm → String
unfolding show_u64 join
get_stats alpm =
    "Total repositories: "
    <> show_u64 (length alpm.syncdbs)
    <> ", Total packages: "
    <> show_u64 (total_packages alpm.syncdbs)
    <> "\n"
    <> join "\n" (map stat_line alpm.syncdbs)
