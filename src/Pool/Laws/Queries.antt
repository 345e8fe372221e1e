-- ===== src/Pool/Laws/Queries.antt =====
-- Queries of a well-formed pool, in src/package_solver/pool.rs.
use pacman_ostree.Base.{
  ℕ, ◌<◌, String, string_eq, nat_eq, pair_eq, ◌≡◌, refl, true, some, List, [], ◌∷◌, arith, inl, inr,
  Option-cases, is_some, ok, length, get_elem?, All_get,
}
use pacman_ostree.Base.Dict.{lookup}
use pacman_ostree.Pool.Types.{AlpmPackage, Solvable, AlpmPool}
use pacman_ostree.Pool.Intern.{get_elem?_of_lookup}
use pacman_ostree.Pool.Names.{lookup_name, resolve_name}
use pacman_ostree.Pool.Query.{
  resolve_solvable, solvable_name_id, get_deps, get_conflicts, get_package_name, get_package_size,
  get_package_pkgrel, conflicts,
}
use pacman_ostree.Pool.Wf.Align.{StandsFor, AlignedFrom-at}
use pacman_ostree.Pool.Wf.Graph.{conflicts-eq-contains}
use pacman_ostree.Pool.Wf.Invariant.{IsWf, declared}

-- What the queries answer about solvable `id`, whose package is `q`.
pub record Answers (p : AlpmPool) (id : ℕ) (s : Solvable) (q : AlpmPackage) : Type 0 where
  pub stored : get_elem? p.packages id ≡ some q
  pub solvable : resolve_solvable p id ≡ ok s
  pub same : StandsFor s q
  pub deps : get_deps p id ≡ ok q.deps
  pub conflicting : get_conflicts p id ≡ ok q.conflicts
  pub name : get_package_name p id ≡ ok q.name
  pub size : get_package_size p id ≡ some q.size
  pub pkgrel : get_package_pkgrel p id ≡ some q.pkgrel

pub package_at :
    (p : AlpmPool) (id : ℕ)
    → IsWf p
    → id < length p.solvables
    → (s : Solvable) × (q : AlpmPackage) × (get_elem? p.solvables id ≡ some s)
      × (get_elem? p.solvable_to_pkg id ≡ some id)
      × (get_elem? p.packages id ≡ some q)
      × (get_elem? p.pkg_provides id ≡ some q.provides)
      × StandsFor s q
package_at p id h lt =
    let (s, q, at_s, at_i, at_q, at_p, st) =
      AlignedFrom-at 0 p.solvables p.solvable_to_pkg p.packages p.pkg_provides id h.aligned lt in
    (s, q, at_s, ground arith, at_q, at_p, st)

-- In a well-formed pool no query panics at the id of a solvable: each answers from one package,
-- whose name, version and repository are those of the solvable.
pub queries_total :
    (p : AlpmPool) (id : ℕ)
    → IsWf p
    → id < length p.solvables
    → (s : Solvable) × (q : AlpmPackage) × Answers p id s q
unfolding resolve_solvable get_deps get_conflicts get_package_name get_package_size
    get_package_pkgrel
queries_total p id h lt =
    let (s, q, at_s, at_i, at_q, at_p, st) = package_at p id h lt in
    (
      s,
      q,
      record {
        stored = at_q;
        solvable = ground arith;
        same = st;
        deps = ground arith;
        conflicting = ground arith;
        name = ground arith;
        size = ground arith;
        pkgrel = ground arith;
      },
    )

-- In a well-formed pool the name of a solvable has an id, and that id resolves to the name.
pub solvable_name_id-resolves :
    (p : AlpmPool) (id : ℕ)
    → IsWf p
    → id < length p.solvables
    → (nid : ℕ) × (q : AlpmPackage) × (solvable_name_id p id ≡ ok nid)
      × (get_package_name p id ≡ ok q.name)
      × (resolve_name p nid ≡ q.name)
unfolding solvable_name_id get_package_name resolve_name
solvable_name_id-resolves p id h lt =
    let (s, q, at_s, at_i, at_q, at_p, st) = package_at p id h lt in
    let known : is_some (lookup s.name p.name_to_id) ≡ true =
      All_get (λ (t : Solvable). is_some (lookup t.name p.name_to_id) ≡ true) p.solvables id
        h.named.interned at_s in
    elim (Option-cases (lookup q.name p.name_to_id)) [
      | inl absent ↦ absurd (ground (arith, st.name))
      | inr (nid, found) ↦ (
        nid,
        q,
        ground arith,
        ground arith,
        ground (arith, get_elem?_of_lookup q.name p.name_to_id {i = nid} h.named.numbered found),
      )
    ]

declared_comm : (qs : List AlpmPackage) (x y : String) → declared qs x y ≡ declared qs y x
declared_comm [] x y = refl
declared_comm (q ∷ qs) x y = ground (arith, declared_comm qs x y)

-- In a well-formed pool two names conflict exactly when a package with one of the names lists the
-- other, which is not its own, among its conflicts; so conflicts are symmetric.
pub conflicts-eq-declared :
    (p : AlpmPool) (x y : String) {a b : ℕ}
    → IsWf p
    → lookup_name p x ≡ some a
    → lookup_name p y ≡ some b
    → conflicts p a b ≡ declared p.packages x y
unfolding lookup_name
conflicts-eq-declared p x y {a} {b} h ax by = ground (
  arith,
  conflicts-eq-contains p a b,
  h.graph.declared x y a b ax by,
  h.graph.declared y x b a by ax,
  declared_comm p.packages x y,
)
