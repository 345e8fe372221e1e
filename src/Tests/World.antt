-- ===== src/Tests/World.antt =====
-- A system where everything succeeds, with one package in one repository, and its OSTree.
use pacman_ostree.Base.{ℕ, String, true, false, none, some, List, [], ◌∷◌, ok, length}
use pacman_ostree.Bubblewrap.Argv.{Environment}
use pacman_ostree.Bubblewrap.Run.{Processes}
use pacman_ostree.Pool.Types.{AlpmPool, Solvable}
use pacman_ostree.Installer.Install.{Solved, solution, unsolvable}
use pacman_ostree.Repository.Alpm.{pos, AlpmPkg, Db, Alpm}
use pacman_ostree.Compose.Config.{ConfigYaml}
use pacman_ostree.System.Calls.{Host}
use pacman_ostree.Transaction.Unpack.{Site}
use pacman_ostree.Transaction.Prepare.{Sources}
use pacman_ostree.Compose.Image.{Ostree, not_found}
use pacman_ostree.Tests.Values.{values}

abbrev pub environment : Environment
environment = record { running_in_nspawn = false; is_root = true }

abbrev pub processes : Processes
processes = record {
  Child = ℕ;
  spawn = λ launcher argv. ok (length argv);
  communicate = λ child input. ok (some []);
  wait_check = λ child. ok tt;
}

-- Every archive has the same text in every member, which is a script and a list of files.
abbrev pub host : Host
host = record {
  environment = environment;
  processes = λ h. processes;
  effect = λ h c. ok tt;
  exit_code = λ h argv. ok (some 0);
  command_output = λ h argv. ok (record {
    success = true;
    stdout = some "post_install() {\n  true\n}\n";
    lossy = "usr/bin/bash\n";
  });
  exists = λ h path. false;
  glob = λ h pattern. ok (some "/r/bash-5.2-1-x86_64.pkg.tar.zst");
}

abbrev pub site : Site
site = record {
  host = host;
  now = λ h. "1700000000";
  hook_dirs = λ h dest. [];
  walk = λ h root. [];
  pattern_new = λ pat. none;
}

abbrev pub bash_pkg : AlpmPkg
bash_pkg = record {
  name = "bash";
  version = "5.2-1";
  size = pos 9;
  filename = some "bash-5.2-1-x86_64.pkg.tar.zst";
  groups = [];
  depends = [];
  provides = [];
  conflicts = [];
}

abbrev pub core : Db
core = record {
  name = "core";
  pkgs = bash_pkg ∷ [];
  pkg = λ name. some bash_pkg;
  servers = "https://mirror/core" ∷ [];
}

abbrev pub handle : Alpm
handle = record { syncdbs = core ∷ []; localdb = [] }

-- The solver proposes the first solvable of the pool, if there is one.
abbrev pub first_of : List Solvable → Solved
first_of [] = unsolvable "nothing"
first_of (s ∷ ss) = solution (0 ∷ [])

abbrev pub solve : AlpmPool → List ℕ → Solved
solve p requirements = first_of p.solvables

abbrev pub sources : Sources
sources = record {
  site = site;
  alpm = λ h. ok handle;
  local_db = λ h path. none;
  fetch = λ h urls. ok urls;
  values = values;
  solve = solve;
}

abbrev pub bash_names : List String
bash_names = "bash" ∷ []

abbrev pub config : ConfigYaml
config = record {
  include = none;
  ref = "arch";
  packages = bash_names;
  services = some ("sshd" ∷ []);
  scripts = some ("/etc/post.sh" ∷ []);
  pacman_conf = some "/etc/pacman.conf";
}

abbrev pub ostree : Ostree
ostree = record {
  lookup = λ h t name. not_found;
  ensured = λ h t name. ok 1;
  contents_checksum = λ h t. "c0";
  metadata_checksum = λ h t. "d0";
  root_mtree = 0;
  root_label = λ h. ok none;
  commit_checksum = λ h. ok "e0";
  creation_time = λ h. ok 1700000000;
  temp_dir = λ h. ok "/r";
  find_kernel_dir = λ h. ok (some "usr/lib/modules/6.12");
}
