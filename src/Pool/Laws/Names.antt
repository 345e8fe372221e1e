-- ===== src/Pool/Laws/Names.antt =====
-- Interning of names and version sets, in src/package_solver/pool.rs.
use pacman_ostree.Base.{
  ℕ, ◌+◌, ◌<◌, String, string_eq, nat_eq, pair_eq, ◌≡◌, ◌↔◌, some, arith, ok, length, eq_iff,
}
use pacman_ostree.Base.Dict.{lookup}
use pacman_ostree.Pool.Types.{AlpmPool, u32_mod}
use pacman_ostree.Pool.Intern.{
  intern, intern_old, length-intern-le, intern-Numbered, get_elem?-intern, get_elem?-intern_old,
  lookup-intern, lookup_inj,
}
use pacman_ostree.Pool.Names.{
  intern_name, lookup_name, resolve_name, intern_version_set, resolve_version_set,
}
use pacman_ostree.Pool.Wf.Invariant.{IsWf}

-- In a well-formed pool with room for one more name, a name that is interned resolves to itself and
-- is looked up at its id, and every older id resolves to what it did.
pub resolve_name-intern_name :
    (name : String) (p : AlpmPool)
    → length p.name_to_id < u32_mod
    → IsWf p
    → (resolve_name (intern_name name p).1 (intern_name name p).0 ≡ name)
      × (lookup_name (intern_name name p).1 name ≡ some (intern_name name p).0)
      × ((id : ℕ)
          → id < length p.name_to_id
          → resolve_name (intern_name name p).1 id ≡ resolve_name p id)
unfolding intern_name resolve_name lookup_name
resolve_name-intern_name name p room h = (
  ground (arith, get_elem?-intern name p.name_to_id room h.named.numbered),
  ground (arith, lookup-intern name name p.name_to_id, eq_iff name name),
  λ id lt. ground (arith, get_elem?-intern_old name p.name_to_id id lt),
)

interned_ids :
    (x y : String) (p : AlpmPool)
    → length p.name_to_id + 1 < u32_mod
    → IsWf p
    → (intern_name y (intern_name x p).1).0 ≡ (intern_name x p).0
    → x ≡ y
unfolding intern_name
interned_ids x y p room h same =
    let first = (intern x p.name_to_id).1 in
    let num = intern-Numbered x p.name_to_id (omega arith) h.named.numbered in
    let num' = intern-Numbered y first (omega (arith, length-intern-le x p.name_to_id)) num in
    let last = (intern y first).1 in
    let of_y : lookup y last ≡ some (intern x p.name_to_id).0 =
      ground (arith, lookup-intern y y first, eq_iff y y) in
    let of_x : lookup x last ≡ some (intern x p.name_to_id).0 =
      ground (arith, lookup-intern y x first, lookup-intern x x p.name_to_id, eq_iff x x) in
    lookup_inj x y last num' of_x of_y

-- In a well-formed pool with room for two more names, two names get the same id exactly when they
-- are equal.
pub intern_name_inj :
    (x y : String) (p : AlpmPool)
    → length p.name_to_id + 1 < u32_mod
    → IsWf p
    → ((intern_name y (intern_name x p).1).0 ≡ (intern_name x p).0) ↔ (x ≡ y)
intern_name_inj x y p room h = (
  interned_ids x y p room h,
  λ e.
      unfold intern_name in
      ground (
        arith,
        intern_old y (intern x p.name_to_id).1 {id = (intern x p.name_to_id).0},
        lookup-intern x y p.name_to_id,
        eq_iff x y,
      ),
)

-- In a well-formed pool with room for one more version set, an interned version set resolves to its
-- name and constraint, and every older one to what it did.
pub resolve_version_set-intern_version_set :
    (name : ℕ) (constraint : String) (p : AlpmPool)
    → length p.vs_map < u32_mod
    → IsWf p
    → (resolve_version_set
          (intern_version_set name constraint p).1
          (intern_version_set name constraint p).0
        ≡ ok (name, constraint))
      × ((id : ℕ)
          → id < length p.vs_map
          → resolve_version_set (intern_version_set name constraint p).1 id
            ≡ resolve_version_set p id)
unfolding intern_version_set resolve_version_set
resolve_version_set-intern_version_set name constraint p room h = (
  ground (arith, get_elem?-intern (name, constraint) p.vs_map room h.sets),
  λ id lt. ground (arith, get_elem?-intern_old (name, constraint) p.vs_map id lt),
)
