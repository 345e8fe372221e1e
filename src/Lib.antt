-- ===== src/Lib.antt =====
-- pacman-ostree: a model of the program that composes bootable OSTree images from Arch Linux
-- packages, and what it promises.
--
-- The parts, each a tree of modules beside this file:
-- Base: the helpers. Base/Lists and Base/Dict stand for vectors and maps, Base/Text for the methods
--   of `str`, Base/Paths for those of `Path`, Base/Sort for `sort_by`, Base/Results for
--   `anyhow::Result` with a case for a panic.
-- Pool: src/package_solver/pool.rs. Types has the data; Intern and Names the interning of names,
--   version sets and unions; Add the operations that fill the pool (`add_package`,
--   `finalize_virtuals`, `merge_local`); Query the ones that read it; Candidates what the solver asks
--   (`get_candidates_for`, `filter_candidates`, `get_favored_solvable`); Version `version_matches`.
--   Pool/Wf is the invariant, `IsWf`, by the operations, and the pools they reach; Pool/Laws has the
--   laws of such pools.
-- Provider: src/package_solver/provider.rs, the interface of the pool to the solver of resolvo.
-- Installer: src/package_manager/installer.rs, which plans installs and removals on a pool.
-- Repository: src/package_manager/alpm_integration.rs, which fills pools from libalpm's databases;
--   Open has its ways to open them, with src/package_manager/config.rs.
-- Hooks: src/package_manager/pacman_hooks.rs, pacman's hooks.
-- LocalDb: of src/package_installer.rs the parser of `.PKGINFO`, and the database of what is
--   installed, as it is written and as it is read.
-- Bubblewrap: src/bubblewrap.rs, the sandbox, with `build_bwrap_base` of its users.
-- System: the calls that the following parts make. Calls has the data, and what the surroundings
--   answer; Actions the small monad of calls and errors, with the helpers that run processes;
--   Ending has the judgement `Does`, what holds of the calls where a function succeeds, and its rules,
--   Making the rules of the calls that are made whatever was called before.
-- Transaction: of src/package_installer.rs the installation of packages. Archive has the calls of
--   `tar` and `write_package_to_database`; Unpack `unpack_packages`; Prepare resolving and downloading;
--   Merged and Resolved the pool that is planned on; Scripted, Hooked, Extracted, Unpacked and Fetched
--   what a success has done: of scripts, of hooks, of archives, and in whole.
-- ComposePost: src/composepost.rs, and `run_dracut` of src/initramfs.rs; Laid has the calls of the layout,
--   Posted what a success has done.
-- Compose: src/compose.rs. Config has the configuration, its merging and its include files; Image
--   the composition of an image and its commit; Committed and Composed what a success has done.
-- FsUtil: src/fsutil.rs. Path has the paths; Resolve the function `resolve_ostree_paths`; Resolving
--   a description, without the cache, of what a path resolves to and where a call panics.
-- Container: src/container.rs. Fill has the loops over the package database; Scan the recursion over
--   the commit; Meta the mapping of objects to layers, `create_meta`; Sets the ordered sets.
-- Tests: the properties at concrete values.
--
-- Compose installs the packages by Transaction, runs ComposePost, commits the directory and exports
-- the commit by what Container does. Transaction resolves the names first: Repository fills a pool,
-- Installer asks the solver for a solution through Provider, which reads the pool and interns into it,
-- and turns the solution into a plan. The plan is downloaded and unpacked; install scripts, and the
-- hooks that Hooks matches with the plan, run in the sandbox of Bubblewrap.
--
-- State is passed on explicitly: the `RefCell`s of the pool are fields of one record, and a function
-- that interns returns the pool as well. Indexing out of range, `unwrap` and `expect` are the result
-- `panic`. An id is the number in its `u32`; it wraps around where the source casts, and the
-- hypotheses `HasRoom` and `HasRoomFor` say that it does not. Sums of sizes are modulo 2^64, as a
-- release build adds. A `HashMap` is an association list, and where its order is read, that order is
-- a parameter.
-- A function that makes calls is an action: from what was called before, it adds its own calls with
-- whether each succeeded, and ends with a result. What the surroundings answer to a call is a function
-- of everything called before, the record `Host`, and may be anything.
-- The comparison of versions of libalpm, the solver of resolvo, the patterns of the crate glob, the
-- process library, OSTree and its trees are parameters too; what is assumed of them are the laws of an
-- order (`IsVersionOrder`), that a solution consists of solvables of the pool that was given
-- (`IsSolver`), and that a map iterates over its own entries (`IsIteration`).
-- Fuel: `yaml_parse` recurses over include files, on the depth of the calls, and enough is the rank of
-- a file in an order of the includes; `resolve_ostree_paths` has the depth of its calls too, and enough
-- is `depth`, that of the description of what the path resolves to; `show_u64` has the twenty digits
-- of a `u64`.
-- Paths of files are compared as texts; a `Utf8PathBuf` compares components, so for paths with a doubled
-- slash or a "/./" in them, which the file lists of packages do not have, the model may differ.
--
-- Not modelled: what is printed, with the displays of the planner; the reading of the
-- commit, `compute_sizes` and the encapsulation in src/container.rs, which are calls of ostree-ext; the
-- parsing of the arguments in src/main.rs by clap, whose one command is `compose_image`; the copies
-- of `build_bwrap_base` in three files, which share one definition.
pub mod Base
pub mod Pool
pub mod Provider
pub mod Installer
pub mod Hooks
pub mod LocalDb
pub mod Bubblewrap
pub mod Repository
pub mod FsUtil
pub mod System
pub mod Transaction
pub mod ComposePost
pub mod Compose
pub mod Container
pub mod Tests
