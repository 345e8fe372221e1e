-- ===== src/Pool/Wf/Finalize.antt =====
-- The invariant of the pool under `finalize_virtuals` of src/package_solver/pool.rs.
use mathlib.Core.List.{flatten}
use mathlib.Core.Path.{subst}
use pacman_ostree.Base.{
  ℕ, zero, suc, String, string_eq, nat_eq, pair_eq, ◌≡◌, refl, sym, ◌∙◌, some, List, [], ◌∷◌, arith,
  inl, inr, Bool-cases, Option-cases, length, get_elem?, set, ltb, ◌⊎◌,
}
use pacman_ostree.Base.Dict.{Dict}
use pacman_ostree.Pool.Types.{Solvable, Provider, AlpmPool, as_u32}
use pacman_ostree.Pool.Add.{provided, set_provide, set_provides, finalize_virtuals}
use pacman_ostree.Pool.Wf.Own.{Interned, is_named}
use pacman_ostree.Pool.Wf.Align.{AlignedFrom-set}
use pacman_ostree.Pool.Wf.Invariant.{IsWf}

-- Filling in a version.
is_named-set :
    (ss : List Solvable) (j : ℕ) (s : Solvable) (v name : String) (i : ℕ)
    → get_elem? ss j ≡ some s
    → is_named (set ss j (provided s v)) name i ≡ is_named ss name i
is_named-set [] j s v name i h = refl
is_named-set (t ∷ ss) zero s v name zero h = ground arith
is_named-set (t ∷ ss) zero s v name (suc i) h = refl
is_named-set (t ∷ ss) (suc j) s v name zero h = refl
is_named-set (t ∷ ss) (suc j) s v name (suc i) h = is_named-set ss j s v name i h

Interned-set :
    (names : Dict String ℕ) (ss : List Solvable) (j : ℕ) (s : Solvable) (v : String)
    → get_elem? ss j ≡ some s
    → Interned names ss
    → Interned names (set ss j (provided s v))
Interned-set names [] j s v h int = tt
Interned-set names (t ∷ ss) zero s v h (i, int) = (ground arith, int)
Interned-set names (t ∷ ss) (suc j) s v h (i, int) = (i, Interned-set names ss j s v h int)

set-IsWf :
    (p : AlpmPool) (j : ℕ) (s : Solvable) (v : String)
    → get_elem? p.solvables j ≡ some s
    → IsWf p
    → IsWf (record p { solvables = set p.solvables j (provided s v) })
set-IsWf p j s v at h = record {
  named = record {
    numbered = h.named.numbered;
    interned = Interned-set p.name_to_id p.solvables j s v at h.named.interned;
    owned = λ name nid i found.
        h.named.owned name nid i found ∙ sym (is_named-set p.solvables j s v name i at);
    fresh = h.named.fresh;
  };
  sets = h.sets;
  provided = h.provided;
  aligned =
      AlignedFrom-set 0 p.solvables p.solvable_to_pkg p.packages p.pkg_provides j s v at h.aligned;
  graph = h.graph;
}

set_provide_cases :
    (ss : List Solvable) (pr : Provider)
    → (set_provide ss pr ≡ ss)
      ⊎ ((s : Solvable) × (get_elem? ss pr.2 ≡ some s)
          × (set_provide ss pr ≡ set ss pr.2 (provided s pr.1)))
unfolding set_provide
set_provide_cases ss (n, v, sid) = elim (Bool-cases (ltb sid (as_u32 (length ss)))) [
  | inl below ↦ elim (Option-cases (get_elem? ss sid)) [
    | inl absent ↦ inl (ground arith)
    | inr (s, at) ↦ inr (s, at, ground arith)
  ]
  | inr beyond ↦ inl (ground arith)
]

set_provide-IsWf :
    (p : AlpmPool) (pr : Provider)
    → IsWf p
    → IsWf (record p { solvables = set_provide p.solvables pr })
set_provide-IsWf p pr h = elim (set_provide_cases p.solvables pr) [
  | inl same ↦ subst (λ ss. IsWf (record p { solvables = ss })) (sym same) h
  | inr (s, at, e) ↦
      subst (λ ss. IsWf (record p { solvables = ss })) (sym e) (set-IsWf p pr.2 s pr.1 at h)
]

set_provides-IsWf :
    (entries : List Provider) (p : AlpmPool)
    → IsWf p
    → IsWf (record p { solvables = set_provides entries p.solvables })
unfolding set_provides
set_provides-IsWf [] p h = h
set_provides-IsWf (pr ∷ entries) p h =
    set_provides-IsWf entries (record p { solvables = set_provide p.solvables pr })
      (set_provide-IsWf p pr h)

module _ (values : Dict String (List Provider) → List (List Provider)) where
  -- In whatever order the map is read.
  pub finalize_virtuals-IsWf : (p : AlpmPool) → IsWf p → IsWf (finalize_virtuals values p)
  unfolding finalize_virtuals
  finalize_virtuals-IsWf p h = set_provides-IsWf (flatten (values p.virtuals)) p h
