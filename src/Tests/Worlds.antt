-- ===== src/Tests/Worlds.antt =====
-- What is done, and the plan of an installation, in a system where everything succeeds.
use pacman_ostree.Base.{List, ◌<◌, ◌≡◌, refl, true, none, [], ◌∷◌, arith, ok, length, All}
use pacman_ostree.Pool.Types.{Solvable, new}
use pacman_ostree.Pool.Wf.Many.{HasRoomFor}
use pacman_ostree.Installer.Package.{explicit, InstallResult}
use pacman_ostree.Installer.Install.{Solved, solution}
use pacman_ostree.Installer.Plan.{IsSolver}
use pacman_ostree.Repository.Lookup.{expand_names}
use pacman_ostree.Repository.Pools.{load_sync_to_pool}
use pacman_ostree.Repository.Filled.{sync_packages}
use pacman_ostree.System.Actions.{
  lift, ◌>>=◌, ◌>>◌, for_each, try_asks, checked_status, collect, when, fs, run, dropped, asks,
  with_context, run_captured, command_output,
}
use mathlib.Core.Path.{subst}
use mathlib.Core.List.{flatten}
use pacman_ostree.Transaction.Archive.{extract_install_script}
use pacman_ostree.Transaction.Prepare.{resolved, ok_or_default, resolve_package_install}
use pacman_ostree.Transaction.Resolved.{IsPlanned, resolve_package_install-IsPlanned}
use pacman_ostree.ComposePost.Post.{compose_post}
use pacman_ostree.ComposePost.Posted.{IsPosted, compose_post-IsPosted}
use pacman_ostree.Compose.Image.{generate_commit_from_rootfs, compose_in}
use pacman_ostree.Compose.Committed.{IsCommitted, generate_commit_from_rootfs-IsCommitted}
use pacman_ostree.Compose.Composed.{IsComposed, compose_in-IsComposed}
use pacman_ostree.Tests.Values.{values}
use pacman_ostree.Tests.World.{host, handle, first_of, solve, sources, bash_names, config, ostree}

abbrev bash_plan : InstallResult
bash_plan = record {
  packages =
      record {
        pkg = record { name = "bash"; version = "5.2"; pkgrel = "1"; repo = "core" };
        reason = explicit;
      }
      ∷ [];
  total_size = 9;
  success = true;
}

expands : ok_or_default (expand_names handle bash_names) bash_names ≡ ok bash_names
unfolding expand_names
expands = refl

room : HasRoomFor (sync_packages handle.syncdbs) new
unfolding load_sync_to_pool
room = record { solvables = omega arith; names = omega arith }

resolved_bash : resolve_package_install values solve (ok handle) none bash_names ≡ ok bash_plan
unfolding resolve_package_install flatten
resolved_bash = refl

abbrev IsValid : List Solvable → Solved → Type 0
IsValid ss (solution ids) = All (λ k. k < length ss) ids
IsValid ss _ = Unit

first_of-IsValid : (ss : List Solvable) → IsValid ss (first_of ss)
first_of-IsValid [] = tt
first_of-IsValid (s ∷ ss) = (omega arith, tt)

solve-IsSolver : IsSolver solve
solve-IsSolver q requirements ids e = subst (IsValid q.solvables) e (first_of-IsValid q.solvables)

resolve_package_install-IsPlanned_example : IsPlanned values solve none handle bash_names bash_plan
resolve_package_install-IsPlanned_example =
    resolve_package_install-IsPlanned values solve (ok handle) none bash_names {alpm = handle}
      {expanded = bash_names} {r = bash_plan} refl expands room tt (omega arith) solve-IsSolver
      resolved_bash

post_processed : (compose_post host ostree.find_kernel_dir config "/r" []).0 ≡ ok tt
unfolding compose_post ◌>>=◌ ◌>>◌ asks when fs try_asks for_each checked_status run dropped
    with_context run_captured
post_processed = refl

compose_post-IsPosted_example :
    IsPosted host "/r" ostree.find_kernel_dir config []
      (compose_post host ostree.find_kernel_dir config "/r" []).1
compose_post-IsPosted_example =
    compose_post-IsPosted host "/r" ostree.find_kernel_dir config [] post_processed

commit_made : (generate_commit_from_rootfs sources ostree []).0 ≡ ok "e0"
unfolding generate_commit_from_rootfs ◌>>=◌ ◌>>◌ asks when fs try_asks with_context lift
commit_made = refl

generate_commit_from_rootfs-IsCommitted_example :
    IsCommitted sources ostree [] "e0" (generate_commit_from_rootfs sources ostree []).1
generate_commit_from_rootfs-IsCommitted_example =
    generate_commit_from_rootfs-IsCommitted sources ostree [] {commit = "e0"} commit_made

composed : (compose_in sources ostree config "/r" "/repo" "out.ociarchive" []).0 ≡ ok tt
unfolding compose_in ◌>>=◌ ◌>>◌ asks when fs try_asks resolved flatten for_each checked_status
    collect command_output extract_install_script run dropped with_context run_captured
composed = refl

compose_in-IsComposed_example :
    IsComposed sources ostree config "/r" "/repo" "out.ociarchive" []
      (compose_in sources ostree config "/r" "/repo" "out.ociarchive" []).1
compose_in-IsComposed_example =
    compose_in-IsComposed sources ostree config "/r" "/repo" "out.ociarchive" [] composed
