-- ===== src/Bubblewrap/Running.antt =====
-- What the sandbox of src/bubblewrap.rs runs.
use pacman_ostree.Base.{
  ℕ, zero, suc, ◌+◌, ◌<◌, String, ◌≡◌, refl, ap, ◌∙◌, Option, none, some, List, [], ◌∷◌, arith, inl,
  inr, Bool-cases, Option-cases, ok, err, length, get_elem?, first,
}
use pacman_ostree.Bubblewrap.Argv.{
  Environment, Bubblewrap, new, push_ro_binds, push_capabilities, prepend_rootfs_bind, bind_read,
  bind_readwrite, setenv, build_bwrap_base,
}
use pacman_ostree.Bubblewrap.Run.{Processes, spawn}

-- The first argument of the child, that `spawn` names the process after.
abbrev pub child_name : Bubblewrap → Option String
child_name b = elim b.child_argv0 [ none ↦ none | some idx ↦ get_elem? b.argv idx ]

-- The launcher's own arguments come first, and the child's, if it has any, begin inside the vector.
pub record IsReady (b : Bubblewrap) : Type 0 where
  pub tail : List String
  pub starts : b.argv ≡ "bwrap" ∷ tail
  pub inside : (idx : ℕ) → b.child_argv0 ≡ some idx → (0 < idx) × (idx < length b.argv)

get_elem?-shift :
    (a b c d : String) (tail : List String) (idx : ℕ)
    → 0 < idx
    → get_elem? (a ∷ b ∷ c ∷ d ∷ tail) (idx + 3) ≡ get_elem? (a ∷ tail) idx
get_elem?-shift a b c d tail zero h = elim h [ ]
get_elem?-shift a b c d tail (suc j) h =
    let same : suc j + 3 ≡ suc (suc (suc (suc j))) = omega arith in
    ap (get_elem? (a ∷ b ∷ c ∷ d ∷ tail)) same

abbrev with_bind : String → String → List String → Option ℕ → Bubblewrap → Bubblewrap
with_bind src dest tail idx b = record b {
  argv = "bwrap" ∷ "--bind" ∷ src ∷ dest ∷ tail;
  child_argv0 = idx;
}

prepend_none :
    (src dest : String) (b : Bubblewrap) (tail : List String)
    → b.argv ≡ "bwrap" ∷ tail
    → b.child_argv0 ≡ none
    → prepend_rootfs_bind src dest b ≡ ok (with_bind src dest tail none b)
unfolding prepend_rootfs_bind
prepend_none src dest b tail e n = rw (e, n) refl

prepend_some :
    (src dest : String) (b : Bubblewrap) (tail : List String) (idx : ℕ)
    → b.argv ≡ "bwrap" ∷ tail
    → b.child_argv0 ≡ some idx
    → prepend_rootfs_bind src dest b ≡ ok (with_bind src dest tail (some (idx + 3)) b)
unfolding prepend_rootfs_bind
prepend_some src dest b tail idx e n = rw (e, n) refl

-- A bind put before the others keeps the first argument of the child, if it has one.
pub prepend_rootfs_bind-child_name :
    (src dest : String) (b : Bubblewrap)
    → IsReady b
    → (b' : Bubblewrap) × (prepend_rootfs_bind src dest b ≡ ok b')
      × IsReady b'
      × (child_name b' ≡ child_name b)
prepend_rootfs_bind-child_name src dest b h = elim (Option-cases b.child_argv0) [
  | inl absent ↦ (
    with_bind src dest h.tail none b,
    prepend_none src dest b h.tail h.starts absent,
    record { tail = "--bind" ∷ src ∷ dest ∷ h.tail; starts = refl; inside = λ idx e. cc },
    rw absent refl,
  )
  | inr (idx, at) ↦
      let (pos, below) = h.inside idx at in
      (
        with_bind src dest h.tail (some (idx + 3)) b,
        prepend_some src dest b h.tail idx h.starts at,
        record {
          tail = "--bind" ∷ src ∷ dest ∷ h.tail;
          starts = refl;
          inside = λ i e. ground (arith, ap length h.starts);
        },
        get_elem?-shift "bwrap" "--bind" src dest h.tail idx pos ∙ rw (at, h.starts) refl,
      )
]

-- After the first attempt to spawn, whatever came of it, every further one is refused and changes
-- nothing.
pub spawn_once :
    (os : Processes) (b : Bubblewrap)
    → spawn os (spawn os b).1 ≡ (err "Already executed", (spawn os b).1)
unfolding spawn
spawn_once os b = elim (Bool-cases b.executed) [
  | inl done ↦ rw done refl
  | inr fresh ↦ rw fresh refl
]

of_first : (l : List String) {x : String} → first l ≡ some x → (t : List String) × (l ≡ x ∷ t)
of_first [] e = cc
of_first (y ∷ l) e = (l, ground arith)

first-new : (env : Environment) (rootfs : String) → first (new env rootfs).argv ≡ some "bwrap"
unfolding new push_ro_binds push_capabilities
first-new env rootfs = elim (Bool-cases env.running_in_nspawn) [
  | inl nspawn ↦ elim (Bool-cases env.is_root) [
    | inl root ↦ rw (nspawn, root) refl
    | inr user ↦ rw (nspawn, user) refl
  ]
  | inr plain ↦ elim (Bool-cases env.is_root) [
    | inl root ↦ rw (plain, root) refl
    | inr user ↦ rw (plain, user) refl
  ]
]

no_child : (env : Environment) (rootfs : String) → (new env rootfs).child_argv0 ≡ none
unfolding new
no_child env rootfs = refl

-- What is added after the bind of the root.
abbrev with_mounts : Bubblewrap → Bubblewrap
with_mounts b = setenv "container" "systemd-nspawn" (
    setenv "SYSTEMD_OFFLINE" "1" (
      setenv "DBUS_SESSION_BUS_ADDRESS" "disabled:"
        (bind_readwrite "/run" "/run" (bind_readwrite "/tmp" "/tmp" (bind_read "/sys" "/sys" b)))))

build_bwrap_base_made :
    (env : Environment) (dest : String) (b : Bubblewrap)
    → prepend_rootfs_bind dest "/" (new env dest) ≡ ok b
    → build_bwrap_base env dest ≡ ok (with_mounts b)
unfolding build_bwrap_base
build_bwrap_base_made env dest b e = rw e refl

mounts_keep :
    (dest : String) (tail : List String) (b : Bubblewrap)
    → (t : List String) × ((with_mounts (with_bind dest "/" tail none b)).argv
        ≡ "bwrap" ∷ "--bind" ∷ dest ∷ "/" ∷ t)
      × ((with_mounts (with_bind dest "/" tail none b)).child_argv0 ≡ none)
unfolding bind_read bind_readwrite setenv
mounts_keep dest tail b = (_, refl, refl)

-- The sandbox for a directory is always made: its first arguments bind that directory as the root,
-- and no argument of a child has been appended.
pub build_bwrap_base_root :
    (env : Environment) (dest : String)
    → (b : Bubblewrap) × (t : List String) × (build_bwrap_base env dest ≡ ok b)
      × (b.argv ≡ "bwrap" ∷ "--bind" ∷ dest ∷ "/" ∷ t)
      × (b.child_argv0 ≡ none)
build_bwrap_base_root env dest =
    let (tail, starts) = of_first (new env dest).argv (first-new env dest) in
    let bound = with_bind dest "/" tail none (new env dest) in
    let (t, argv, child) = mounts_keep dest tail (new env dest) in
    (
      with_mounts bound,
      t,
      build_bwrap_base_made env dest bound
          (prepend_none dest "/" (new env dest) tail starts (no_child env dest)),
      argv,
      child,
    )
