-- ===== src/Transaction/Resolved.antt =====
-- The pool that `resolve_package_install` of src/package_installer.rs plans on, and the plan.
use pacman_ostree.Base.{
  ℕ, ◌+◌, ◌>>=◌, ◌≤◌, String, ◌≡◌, refl, ap, sym, ◌∙◌, none, some, List, Result, ok, err, panic,
  length, arith,
}
use mathlib.Core.Path.{subst}
use pacman_ostree.Base.Dict.{Dict}
use pacman_ostree.Bubblewrap.Run.{context}
use pacman_ostree.Pool.Types.{AlpmPackage, Provider, AlpmPool, new, u32_mod}
use pacman_ostree.Pool.Wf.Invariant.{IsWf}
use pacman_ostree.Pool.Wf.Many.{HasRoomFor}
use pacman_ostree.Pool.Wf.Merge.{merge_local-IsWf}
use pacman_ostree.LocalDb.Load.{load_local_db}
use pacman_ostree.Installer.Package.{InstallResult}
use pacman_ostree.Installer.Install.{Solved, plan_install}
use pacman_ostree.Installer.Plan.{IsPlan, IsSolver, plan_install-IsPlan}
use pacman_ostree.Repository.Alpm.{Alpm}
use pacman_ostree.Repository.Lookup.{expand_names}
use pacman_ostree.Repository.Pools.{load_sync_to_pool}
use pacman_ostree.Repository.Filled.{sync_packages, load_sync_to_pool-IsWf}
use pacman_ostree.Transaction.Merged.{Knows, merge_installed-Knows, merge_installed-sets}
use pacman_ostree.Transaction.Prepare.{
  ok_or_default, LocalDir, local_pool, merge_loaded, merge_installed, resolve_package_install,
}

ok_inj : {A : Type 0} {a b : A} → ok a ≡ ok b → a ≡ b
ok_inj e = ground (arith, e)

context_ok : {A : Type 0} (name : String) (r : Result A) {y : A} → context name r ≡ ok y → r ≡ ok y
context_ok name (ok a) e = e
context_ok name (err t) e = cc
context_ok name panic e = cc

module _ (values : Dict String (List Provider) → List (List Provider)) where
  abbrev next_pool :
      (AlpmPool → List ℕ → Solved) → List String → Result AlpmPool → Result InstallResult
  next_pool solve expanded r =
      r >>= λ pool. context "Dependency resolution failed" (plan_install solve pool expanded)

  abbrev next_names :
      (AlpmPool → List ℕ → Solved) → LocalDir → Alpm → Result (List String) → Result InstallResult
  next_names solve local alpm r = r >>= λ expanded.
      next_pool solve expanded (merge_installed values local (load_sync_to_pool values alpm))

  abbrev next_alpm :
      (AlpmPool → List ℕ → Solved) → LocalDir → List String → Result Alpm → Result InstallResult
  next_alpm solve local names r = context "Failed to initialize ALPM" r >>= λ alpm.
      next_names solve local alpm (ok_or_default (expand_names alpm names) names)

  -- That the ids of what is installed fit too, if it can be read.
  abbrev pub HasRoomForLoaded : Result (List AlpmPackage) → AlpmPool → Type 0
  HasRoomForLoaded (ok packages) pool = HasRoomFor (local_pool values packages).packages pool
  HasRoomForLoaded (err e) pool = Unit
  HasRoomForLoaded panic pool = Unit

  abbrev pub HasRoomForLocal : LocalDir → AlpmPool → Type 0
  HasRoomForLocal none pool = Unit
  HasRoomForLocal (some listing) pool = HasRoomForLoaded (load_local_db listing) pool

  merged_loaded :
      (loaded : Result (List AlpmPackage)) (pool : AlpmPool) {merged : AlpmPool}
      → HasRoomForLoaded loaded pool
      → IsWf pool
      → merge_loaded values loaded pool ≡ ok merged
      → IsWf merged
  merged_loaded (ok packages) pool room h e =
      subst IsWf (ok_inj e) (merge_local-IsWf values (local_pool values packages) pool room h)
  merged_loaded (err t) pool room h e = subst IsWf (ok_inj e) h
  merged_loaded panic pool room h e = cc

  merge_installed-IsWf :
      (local : LocalDir) (pool : AlpmPool) {merged : AlpmPool}
      → HasRoomForLocal local pool
      → IsWf pool
      → merge_installed values local pool ≡ ok merged
      → IsWf merged
  unfolding merge_installed
  merge_installed-IsWf none pool room h e = subst IsWf (ok_inj e) h
  merge_installed-IsWf (some listing) pool room h e =
      merged_loaded (load_local_db listing) pool room h e

  resolve_package_install-next :
      (solve : AlpmPool → List ℕ → Solved) (opened : Result Alpm) (local : LocalDir)
      (names : List String) {alpm : Alpm} {expanded : List String}
      → opened ≡ ok alpm
      → ok_or_default (expand_names alpm names) names ≡ ok expanded
      → resolve_package_install values solve opened local names
        ≡ next_pool solve expanded (merge_installed values local (load_sync_to_pool values alpm))
  unfolding resolve_package_install
  resolve_package_install-next solve opened local names {alpm} opens expands =
      ap (λ o. next_alpm solve local names o) opens
      ∙ ap (λ x. next_names solve local alpm x) expands

  -- The pool that a plan is made on.
  pub record IsPlanned (solve : AlpmPool → List ℕ → Solved) (local : LocalDir) (alpm : Alpm)
      (expanded : List String) (r : InstallResult) : Type 0 where
    pub pool : AlpmPool
    pub knows : Knows (sync_packages alpm.syncdbs) local pool.packages
    pub well_formed : IsWf pool
    pub plan : IsPlan solve pool expanded r

  next_pool-IsPlanned :
      (solve : AlpmPool → List ℕ → Solved) (local : LocalDir) (alpm : Alpm) (expanded : List String)
      (merged : Result AlpmPool) {r : InstallResult}
      → merge_installed values local (load_sync_to_pool values alpm) ≡ merged
      → HasRoomFor (sync_packages alpm.syncdbs) new
      → HasRoomForLocal local (load_sync_to_pool values alpm)
      → length expanded ≤ u32_mod
      → IsSolver solve
      → next_pool solve expanded merged ≡ ok r
      → IsPlanned solve local alpm expanded r
  next_pool-IsPlanned solve local alpm expanded panic at room local_room sets solver e = cc
  next_pool-IsPlanned solve local alpm expanded (err t) at room local_room sets solver e = cc
  next_pool-IsPlanned solve local alpm expanded (ok pool) {r} at room local_room sets solver e =
      let wf =
        merge_installed-IsWf local (load_sync_to_pool values alpm) {merged = pool} local_room
          (load_sync_to_pool-IsWf values alpm room) at in
      let fits =
        subst (λ l. length l + length expanded ≤ u32_mod)
          (sym (merge_installed-sets values local alpm at)) (omega arith) in
      record {
        pool = pool;
        knows = merge_installed-Knows values local alpm at;
        well_formed = wf;
        plan =
            plan_install-IsPlan solve pool expanded {r = r} wf fits solver
              (context_ok "Dependency resolution failed" _ {y = r} e);
      }

  -- A resolution that succeeds, with the databases that open and the names as they expand, or as
  -- they are given where they do not, has planned on a well-formed pool: its packages are those of
  -- the databases in their order, and after them each installed package whose name is not among the
  -- installed ones known before, if the database of what is installed is there and can be read. The
  -- result is a plan for the expanded names on that pool. All ids fit into a `u32`, and the solver
  -- answers with solvables of the pool that it is given.
  pub resolve_package_install-IsPlanned :
      (solve : AlpmPool → List ℕ → Solved) (opened : Result Alpm) (local : LocalDir)
      (names : List String) {alpm : Alpm} {expanded : List String} {r : InstallResult}
      → opened ≡ ok alpm
      → ok_or_default (expand_names alpm names) names ≡ ok expanded
      → HasRoomFor (sync_packages alpm.syncdbs) new
      → HasRoomForLocal local (load_sync_to_pool values alpm)
      → length expanded ≤ u32_mod
      → IsSolver solve
      → resolve_package_install values solve opened local names ≡ ok r
      → IsPlanned solve local alpm expanded r
  resolve_package_install-IsPlanned solve opened local names {alpm} {expanded} opens expands room
        local_room sets solver e =
      next_pool-IsPlanned solve local alpm expanded _ refl room local_room sets solver
        (sym (resolve_package_install-next solve opened local names opens expands) ∙ e)
