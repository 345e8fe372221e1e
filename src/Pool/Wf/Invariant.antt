-- ===== src/Pool/Wf/Invariant.antt =====
-- The invariant of the pool of src/package_solver/pool.rs.
use pacman_ostree.Base.{
  ◌+◌, ◌≤◌, ◌<◌, String, string_eq, ◌==◌, ◌≡◌, refl, Bool, ◌&&◌, ◌||◌, not, List, length, any,
  any-push, contains, ◌++◌, nat_eq, pair_eq, [], ◌∷◌,
}
use pacman_ostree.Pool.Types.{AlpmPackage, AlpmPool, new, u32_mod}
use pacman_ostree.Base.Dict.{lookup}
use pacman_ostree.Pool.Intern.{Numbered}
use pacman_ostree.Pool.Wf.Own.{NamesOk}
use pacman_ostree.Pool.Wf.Provide.{VirtualsOk}
use pacman_ostree.Pool.Wf.Graph.{Relation, GraphOk}
use pacman_ostree.Pool.Wf.Align.{Aligned}

-- A package's conflicts, without its own name.
abbrev pub declares_against : AlpmPackage → String → Bool
declares_against q c = contains q.conflicts c && not (c == q.name)

abbrev pub declares : AlpmPackage → Relation
declares q x y = (q.name == x && declares_against q y) || (q.name == y && declares_against q x)

-- Some package that has one of the names declares a conflict with the other.
abbrev pub declared : List AlpmPackage → Relation
declared qs x y = any (λ (q : AlpmPackage). declares q x y) qs

pub record IsWf (p : AlpmPool) : Type 0 where
  pub named : NamesOk p.name_to_id p.solvables p.name_candidates
  pub sets : Numbered p.vs_map
  pub provided : VirtualsOk p.virtuals p.pkg_provides
  pub aligned : Aligned p.solvables p.solvable_to_pkg p.packages p.pkg_provides
  pub graph : GraphOk p.name_to_id p.conflict_graph (declared p.packages)

-- That the ids of one more package fit into a `u32`.
pub record HasRoom (pkg : AlpmPackage) (p : AlpmPool) : Type 0 where
  pub solvables : length p.solvables < u32_mod
  pub names : length p.name_to_id + 1 + length pkg.conflicts ≤ u32_mod

pub declared-push :
    (qs : List AlpmPackage) (q : AlpmPackage) (x y : String)
    → declared (qs ++ q ∷ []) x y ≡ (declared qs x y || declares q x y)
declared-push qs q x y = any-push (λ (r : AlpmPackage). declares r x y) qs q

pub new-IsWf : IsWf new
unfolding lookup
new-IsWf = record {
  named = record {
    numbered = tt;
    interned = tt;
    owned = λ name nid i h. cc;
    fresh = λ nid le. refl;
  };
  sets = tt;
  provided = λ name i. refl;
  aligned = tt;
  graph = record { declared = λ x y a b p q. cc; bounded = λ a b h. cc; known = λ x y h. cc };
}
