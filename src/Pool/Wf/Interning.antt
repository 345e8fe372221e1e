-- ===== src/Pool/Wf/Interning.antt =====
-- The invariant of the pool of src/package_solver/pool.rs under interning.
use pacman_ostree.Base.{ℕ, ◌<◌, List, String, string_eq, nat_eq, pair_eq, length}
use pacman_ostree.Pool.Types.{AlpmPool, u32_mod}
use pacman_ostree.Pool.Intern.{intern-Numbered}
use pacman_ostree.Pool.Names.{intern_name, intern_version_set, intern_union}
use pacman_ostree.Pool.Wf.Own.{NamesOk-intern}
use pacman_ostree.Pool.Wf.Graph.{GraphOk-intern}
use pacman_ostree.Pool.Wf.Invariant.{IsWf, declared}

pub intern_name-IsWf :
    (name : String) (p : AlpmPool)
    → length p.name_to_id < u32_mod
    → IsWf p
    → IsWf (intern_name name p).1
unfolding intern_name
intern_name-IsWf name p room h = record {
  named = NamesOk-intern name p.name_to_id p.solvables p.name_candidates room h.named;
  sets = h.sets;
  provided = h.provided;
  aligned = h.aligned;
  graph = GraphOk-intern name p.name_to_id p.conflict_graph (declared p.packages) room h.graph;
}

pub intern_version_set-IsWf :
    (name : ℕ) (constraint : String) (p : AlpmPool)
    → length p.vs_map < u32_mod
    → IsWf p
    → IsWf (intern_version_set name constraint p).1
unfolding intern_version_set
intern_version_set-IsWf name constraint p room h = record {
  named = h.named;
  sets = intern-Numbered (name, constraint) p.vs_map room h.sets;
  provided = h.provided;
  aligned = h.aligned;
  graph = h.graph;
}

pub intern_union-IsWf : (sets : List ℕ) (p : AlpmPool) → IsWf p → IsWf (intern_union sets p).1
unfolding intern_union
intern_union-IsWf sets p h = record {
  named = h.named;
  sets = h.sets;
  provided = h.provided;
  aligned = h.aligned;
  graph = h.graph;
}
