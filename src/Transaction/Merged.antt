-- ===== src/Transaction/Merged.antt =====
-- The packages of the pools that src/package_installer.rs plans on.
use pacman_ostree.Base.{
  String, string_eq, ◌==◌, ◌≡◌, refl, sym, ap, ◌∙◌, Bool, true, false, Bool-cases, inl, inr, ◌&&◌,
  Option, none, some, List, [], ◌∷◌, ◌++◌, if◌then◌else◌, eq_iff, Result, ok, err, panic, arith,
  any,
}
use mathlib.Core.Path.{subst}
use pacman_ostree.Base.Dict.{Dict}
use pacman_ostree.Pool.Types.{AlpmPackage, Provider, AlpmPool, new}
use pacman_ostree.Pool.Add.{
  add_package, is_local_copy, merge_packages, merge_local, finalize_virtuals,
}
use pacman_ostree.LocalDb.Load.{LocalEntry, load_local_db}
use pacman_ostree.Repository.Alpm.{Alpm}
use pacman_ostree.Repository.Pools.{load_sync_to_pool}
use pacman_ostree.Repository.Filled.{sync_packages, load_dbs-eq}
use pacman_ostree.Transaction.Prepare.{LocalDir, local_pool, merge_loaded, merge_installed}
use pacman_ostree.Pool.Laws.Added.{
  packages-add_package, packages-add_packages, sets-add_package, sets-add_packages,
}

-- Of two packages, that the second is the installed package of the first one's name.
pub record IsInstalledCopy (pkg q : AlpmPackage) : Type 0 where
  pub named : q.name ≡ pkg.name
  pub local : q.repo ≡ "local"

-- Each package of the second list that is not known as installed is known afterwards.
pub data Merges : List AlpmPackage → List AlpmPackage → List AlpmPackage → Type 0 where
  all_merged : {known : List AlpmPackage} → Merges known [] known
  known_before :
      {known pkgs result : List AlpmPackage} {pkg : AlpmPackage} (before later : List AlpmPackage)
      (q : AlpmPackage)
      → known ≡ before ++ q ∷ later
      → IsInstalledCopy pkg q
      → Merges known pkgs result
      → Merges known (pkg ∷ pkgs) result
  merged :
      {known pkgs result : List AlpmPackage} {pkg : AlpmPackage}
      → ((before later : List AlpmPackage) (q : AlpmPackage)
          → known ≡ before ++ q ∷ later
          → ¬ IsInstalledCopy pkg q)
      → Merges (known ++ pkg ∷ []) pkgs result
      → Merges known (pkg ∷ pkgs) result

-- What is known of the databases, with what is installed where that can be read.
pub data Knows (synced : List AlpmPackage) : LocalDir → List AlpmPackage → Type 0 where
  no_database : Knows synced none synced
  unreadable :
      {listing : Option (List (Result LocalEntry))} {t : String}
      → load_local_db listing ≡ err t
      → Knows synced (some listing) synced
  read :
      {listing : Option (List (Result LocalEntry))} {installed result : List AlpmPackage}
      → load_local_db listing ≡ ok installed
      → Merges synced installed result
      → Knows synced (some listing) result

ok_eq : {A : Type 0} {a b : A} → ok a ≡ ok b → a ≡ b
ok_eq e = ground (arith, e)

both : (a b : Bool) → (a && b) ≡ true → (a ≡ true) × (b ≡ true)
both a b e = (ground (arith, e), ground (arith, e))

either_way : (a b : Bool) → a ≡ true → b ≡ true → (a && b) ≡ true
either_way a b e f = ground (arith, e, f)

module _ (values : Dict String (List Provider) → List (List Provider)) where
  copy_test :
      (pkg q : AlpmPackage)
      → ((q.name == pkg.name && q.repo == "local") ≡ true → IsInstalledCopy pkg q)
        × (IsInstalledCopy pkg q → (q.name == pkg.name && q.repo == "local") ≡ true)
  copy_test pkg q = (
    λ e.
        let (named, local) = both (q.name == pkg.name) (q.repo == "local") e in
        record {
          named = (eq_iff q.name pkg.name).0 named;
          local = (eq_iff q.repo "local").0 local;
        },
    λ c. either_way _ _ ((eq_iff q.name pkg.name).1 c.named) ((eq_iff q.repo "local").1 c.local),
  )

  copy_found :
      (pkg : AlpmPackage) (known : List AlpmPackage)
      → any (is_local_copy values pkg) known ≡ true
      → (before : List AlpmPackage) × (q : AlpmPackage) × (later : List AlpmPackage) × ((known
            ≡ before ++ q ∷ later)
          × IsInstalledCopy pkg q)
  copy_found pkg [] e = cc
  copy_found pkg (q ∷ qs) e = elim (Bool-cases (is_local_copy values pkg q)) [
    | inl here ↦ ([], q, qs, (refl, (copy_test pkg q).0 here))
    | inr other ↦
        let (before, r, later, (same, copy)) = copy_found pkg qs (ground (arith, e, other)) in
        (q ∷ before, r, later, (ap (λ l. q ∷ l) same, copy))
  ]

  any-middle :
      (pkg : AlpmPackage) (before : List AlpmPackage) (q : AlpmPackage) (later : List AlpmPackage)
      → is_local_copy values pkg q ≡ true
      → any (is_local_copy values pkg) (before ++ q ∷ later) ≡ true
  any-middle pkg [] q later e = ground (arith, e)
  any-middle pkg (b ∷ before) q later e = ground (arith, any-middle pkg before q later e)

  merge_packages-Merges :
      (pkgs : List AlpmPackage) (p : AlpmPool)
      → Merges p.packages pkgs (merge_packages values pkgs p).packages
  unfolding merge_packages
  merge_packages-Merges [] p = all_merged
  merge_packages-Merges (pkg ∷ pkgs) p =
      let rest : AlpmPool → Type 0 =
        λ x. Merges p.packages (pkg ∷ pkgs) (merge_packages values pkgs x).packages in
      elim (Bool-cases (any (is_local_copy values pkg) p.packages)) [
        | inl there ↦
            let (before, q, later, (same, copy)) = copy_found pkg p.packages there in
            subst (λ b. rest (if b then p else add_package pkg p)) (sym there)
              (known_before before later q same copy (merge_packages-Merges pkgs p))
        | inr new_one ↦
            subst (λ b. rest (if b then p else add_package pkg p)) (sym new_one)
              (merged
                (λ before later q same copy.
                  let hit = any-middle pkg before q later ((copy_test pkg q).1 copy) in
                  let again = ap (any (is_local_copy values pkg)) same in
                  let never : true ≡ false = sym hit ∙ (sym again ∙ new_one) in cc)
                (subst
                  (λ l. Merges l pkgs (merge_packages values pkgs (add_package pkg p)).packages)
                  (packages-add_package pkg p) (merge_packages-Merges pkgs (add_package pkg p))))
      ]

  synced-packages :
      (alpm : Alpm) → (load_sync_to_pool values alpm).packages ≡ sync_packages alpm.syncdbs
  unfolding load_sync_to_pool finalize_virtuals
  synced-packages alpm =
      ap (λ q. q.packages) (load_dbs-eq alpm.syncdbs new)
      ∙ packages-add_packages (sync_packages alpm.syncdbs) new

  local-packages : (pkgs : List AlpmPackage) → (local_pool values pkgs).packages ≡ pkgs
  unfolding finalize_virtuals
  local-packages pkgs = packages-add_packages pkgs new

  loaded-Knows :
      (listing : Option (List (Result LocalEntry))) (loaded : Result (List AlpmPackage))
      (p : AlpmPool) {pool : AlpmPool}
      → load_local_db listing ≡ loaded
      → merge_loaded values loaded p ≡ ok pool
      → Knows p.packages (some listing) pool.packages
  unfolding merge_local finalize_virtuals
  loaded-Knows listing (ok installed) p at e = read at (
      subst (λ l. Merges p.packages installed l) (ap (λ q. q.packages) (ok_eq e))
        (subst
          (λ l.
            Merges p.packages l
              (merge_packages values (local_pool values installed).packages p).packages)
          (local-packages installed)
          (merge_packages-Merges (local_pool values installed).packages p)))
  loaded-Knows listing (err t) p at e =
      subst (λ l. Knows p.packages (some listing) l) (ap (λ q. q.packages) (ok_eq e))
        (unreadable at)
  loaded-Knows listing panic p at e = cc

  pub merge_installed-Knows :
      (local : LocalDir) (alpm : Alpm) {pool : AlpmPool}
      → merge_installed values local (load_sync_to_pool values alpm) ≡ ok pool
      → Knows (sync_packages alpm.syncdbs) local pool.packages
  unfolding merge_installed
  merge_installed-Knows none alpm e =
      subst (λ l. Knows (sync_packages alpm.syncdbs) none l)
        (sym (synced-packages alpm) ∙ ap (λ q. q.packages) (ok_eq e)) no_database
  merge_installed-Knows (some listing) alpm {pool} e =
      subst (λ l. Knows l (some listing) pool.packages) (synced-packages alpm)
        (loaded-Knows listing (load_local_db listing) (load_sync_to_pool values alpm) refl e)

  sets-merge_packages :
      (pkgs : List AlpmPackage) (p : AlpmPool) → (merge_packages values pkgs p).vs_map ≡ p.vs_map
  unfolding merge_packages
  sets-merge_packages [] p = refl
  sets-merge_packages (pkg ∷ pkgs) p =
      sets-merge_packages pkgs
        (if any (is_local_copy values pkg) p.packages then p else add_package pkg p)
      ∙ one (any (is_local_copy values pkg) p.packages)
    where
      one : (b : Bool) → (if b then p else add_package pkg p).vs_map ≡ p.vs_map
      one true = refl
      one false = sets-add_package pkg p

  sets-merge_loaded :
      (loaded : Result (List AlpmPackage)) (p : AlpmPool) {pool : AlpmPool}
      → merge_loaded values loaded p ≡ ok pool
      → pool.vs_map ≡ p.vs_map
  unfolding merge_local finalize_virtuals
  sets-merge_loaded (ok installed) p e =
      sym (ap (λ q. q.vs_map) (ok_eq e))
      ∙ sets-merge_packages (local_pool values installed).packages p
  sets-merge_loaded (err t) p e = sym (ap (λ q. q.vs_map) (ok_eq e))
  sets-merge_loaded panic p e = cc

  synced_sets : (alpm : Alpm) → (load_sync_to_pool values alpm).vs_map ≡ []
  unfolding load_sync_to_pool finalize_virtuals
  synced_sets alpm =
      ap (λ q. q.vs_map) (load_dbs-eq alpm.syncdbs new)
      ∙ sets-add_packages (sync_packages alpm.syncdbs) new

  -- No version set is interned yet.
  pub merge_installed-sets :
      (local : LocalDir) (alpm : Alpm) {pool : AlpmPool}
      → merge_installed values local (load_sync_to_pool values alpm) ≡ ok pool
      → pool.vs_map ≡ []
  unfolding merge_installed
  merge_installed-sets none alpm e = sym (ap (λ q. q.vs_map) (ok_eq e)) ∙ synced_sets alpm
  merge_installed-sets (some listing) alpm e =
      sets-merge_loaded (load_local_db listing) (load_sync_to_pool values alpm) e ∙ synced_sets alpm
