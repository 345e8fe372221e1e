-- ===== src/Pool/Wf/Reached.antt =====
-- The pools of src/package_solver/pool.rs that its operations lead to.
use pacman_ostree.Base.{ℕ, ◌<◌, String, List, length}
use pacman_ostree.Base.Dict.{Dict}
use pacman_ostree.Pool.Types.{AlpmPackage, Provider, AlpmPool, u32_mod}
use pacman_ostree.Pool.Names.{intern_name, intern_version_set, intern_union}
use pacman_ostree.Pool.Add.{add_package, finalize_virtuals, merge_local}
use pacman_ostree.Pool.Wf.Invariant.{IsWf, HasRoom}
use pacman_ostree.Pool.Wf.Add.{add_package-IsWf}
use pacman_ostree.Pool.Wf.Many.{HasRoomFor}
use pacman_ostree.Pool.Wf.Finalize.{finalize_virtuals-IsWf}
use pacman_ostree.Pool.Wf.Interning.{intern_name-IsWf, intern_version_set-IsWf, intern_union-IsWf}
use pacman_ostree.Pool.Wf.Merge.{merge_local-IsWf}
use pacman_ostree.Pool.Wf.Growing.{
  Extends, Extends-refl, Extends-trans, Extends-add_package, Extends-finalize_virtuals,
  Extends-merge_local, Extends-intern_name, Extends-intern_version_set, Extends-intern_union,
}

module _ (values : Dict String (List Provider) → List (List Provider)) where
  -- One operation that changes the pool, where its ids fit into a `u32`.
  pub data Step : AlpmPool → AlpmPool → Type 0 where
    add : (pkg : AlpmPackage) (p : AlpmPool) → HasRoom pkg p → Step p (add_package pkg p)
    finalize : (p : AlpmPool) → Step p (finalize_virtuals values p)
    merge : (local p : AlpmPool) → HasRoomFor local.packages p → Step p (merge_local values local p)
    name :
        (text : String) (p : AlpmPool)
        → length p.name_to_id < u32_mod
        → Step p (intern_name text p).1
    version_set :
        (id : ℕ) (constraint : String) (p : AlpmPool)
        → length p.vs_map < u32_mod
        → Step p (intern_version_set id constraint p).1
    union : (sets : List ℕ) (p : AlpmPool) → Step p (intern_union sets p).1

  -- Any number of operations.
  pub data Reached (p : AlpmPool) : AlpmPool → Type 0 where
    here : Reached p p
    step : {q r : AlpmPool} → Reached p q → Step q r → Reached p r

  Step-IsWf : {p q : AlpmPool} → Step p q → IsWf p → IsWf q
  Step-IsWf (add pkg p room) h = add_package-IsWf pkg p room h
  Step-IsWf (finalize p) h = finalize_virtuals-IsWf values p h
  Step-IsWf (merge local p room) h = merge_local-IsWf values local p room h
  Step-IsWf (name text p room) h = intern_name-IsWf text p room h
  Step-IsWf (version_set id constraint p room) h = intern_version_set-IsWf id constraint p room h
  Step-IsWf (union sets p) h = intern_union-IsWf sets p h

  Step-Extends : {p q : AlpmPool} → Step p q → Extends p q
  Step-Extends (add pkg p room) = Extends-add_package pkg p
  Step-Extends (finalize p) = Extends-finalize_virtuals values p
  Step-Extends (merge local p room) = Extends-merge_local values local p
  Step-Extends (name text p room) = Extends-intern_name text p
  Step-Extends (version_set id constraint p room) = Extends-intern_version_set id constraint p
  Step-Extends (union sets p) = Extends-intern_union sets p

  -- Whatever operations are made of a well-formed pool, in any order, where their ids fit into a
  -- `u32`: the pool stays well-formed, and the tables of names, version sets, unions and packages
  -- only grow at their ends, so that every id that was given out keeps its meaning.
  pub Reached-Extends : {p q : AlpmPool} → Reached p q → IsWf p → IsWf q × Extends p q
  Reached-Extends {p} here h = (h, Extends-refl p)
  Reached-Extends {p} (step {q} {r} past next) h =
      let (wf, extends) = Reached-Extends past h in
      (Step-IsWf next wf, Extends-trans p q r extends (Step-Extends next))
