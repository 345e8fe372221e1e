-- ===== src/Pool/Wf/Conflicts.antt =====
-- The loop over the conflicts of one package, in `add_package` of src/package_solver/pool.rs.
use pacman_ostree.Base.{
  ℕ, ◌+◌, ◌≤◌, ◌<◌, String, string_eq, ◌==◌, ◌≡◌, refl, ◌∙◌, true, false, ◌&&◌, ◌||◌, not, some,
  List, [], ◌∷◌, arith, inl, inr, Bool-cases, length, contains, eq_iff,
}
use pacman_ostree.Base.Dict.{lookup}
use pacman_ostree.Pool.Types.{AlpmPool, u32_mod}
use pacman_ostree.Pool.Intern.{intern, intern-Numbered, lookup-intern, length-intern-le}
use pacman_ostree.Pool.Add.{push_new, add_conflict, add_conflicts}
use pacman_ostree.Pool.Wf.Own.{NamesOk, NamesOk-intern}
use pacman_ostree.Pool.Wf.Graph.{
  Relation, GraphOk, GraphOk-ext, extend, GraphOk-intern, GraphOk-push_new,
}

-- What the loop leaves alone.
pub record SameTables (p q : AlpmPool) : Type 0 where
  pub solvables : q.solvables ≡ p.solvables
  pub solvable_to_pkg : q.solvable_to_pkg ≡ p.solvable_to_pkg
  pub packages : q.packages ≡ p.packages
  pub name_candidates : q.name_candidates ≡ p.name_candidates
  pub virtuals : q.virtuals ≡ p.virtuals
  pub pkg_provides : q.pkg_provides ≡ p.pkg_provides
  pub vs_map : q.vs_map ≡ p.vs_map
  pub unions : q.unions ≡ p.unions

pub SameTables-refl : (p : AlpmPool) → SameTables p p
SameTables-refl p = record {
  solvables = refl;
  solvable_to_pkg = refl;
  packages = refl;
  name_candidates = refl;
  virtuals = refl;
  pkg_provides = refl;
  vs_map = refl;
  unions = refl;
}

SameTables-trans : {p q r : AlpmPool} → SameTables p q → SameTables q r → SameTables p r
SameTables-trans s t = record {
  solvables = t.solvables ∙ s.solvables;
  solvable_to_pkg = t.solvable_to_pkg ∙ s.solvable_to_pkg;
  packages = t.packages ∙ s.packages;
  name_candidates = t.name_candidates ∙ s.name_candidates;
  virtuals = t.virtuals ∙ s.virtuals;
  pkg_provides = t.pkg_provides ∙ s.pkg_provides;
  vs_map = t.vs_map ∙ s.vs_map;
  unions = t.unions ∙ s.unions;
}

-- The relation after the loop.
abbrev pub extend_by : String → Relation → String → Relation
extend_by name D c x y =
    D x y || (not (c == name) && ((name == x && c == y) || (c == x && name == y)))

abbrev pub extend_all : String → Relation → List String → Relation
extend_all name D [] = D
extend_all name D (c ∷ cs) = extend_all name (extend_by name D c) cs

pub extend_all-eq :
    (name : String) (D : Relation) (cs : List String) (x y : String)
    → extend_all name D cs x y ≡ (
        D x y
        || ((name == x && (contains cs y && not (y == name)))
            || (name == y && (contains cs x && not (x == name)))))
extend_all-eq name D [] x y = ground arith
extend_all-eq name D (c ∷ cs) x y =
    extend_all-eq name (extend_by name D c) cs x y
    ∙ ground (
      arith,
      eq_iff c name,
      eq_iff c x,
      eq_iff c y,
      eq_iff name x,
      eq_iff name y,
      eq_iff x name,
      eq_iff y name,
    )

-- What holds before and after each round.
pub record Loop (name : String) (nid : ℕ) (p q : AlpmPool) (D : Relation) : Type 0 where
  pub own_id : lookup name q.name_to_id ≡ some nid
  pub named : NamesOk q.name_to_id p.solvables p.name_candidates
  pub graph : GraphOk q.name_to_id q.conflict_graph D
  pub same : SameTables p q

same_tables :
    (name : String) (nid : ℕ) (q : AlpmPool) (c : String) → SameTables q (add_conflict nid name q c)
unfolding add_conflict
same_tables name nid q c = record {
  solvables = ground arith;
  solvable_to_pkg = ground arith;
  packages = ground arith;
  name_candidates = ground arith;
  virtuals = ground arith;
  pkg_provides = ground arith;
  vs_map = ground arith;
  unions = ground arith;
}

add_conflict_skipped :
    (name : String) (nid : ℕ) (q : AlpmPool) (c : String)
    → (c == name) ≡ true
    → add_conflict nid name q c ≡ q
unfolding add_conflict
add_conflict_skipped name nid q c h = ground arith

abbrev pushed : ℕ → AlpmPool → String → AlpmPool
pushed nid q c =
    let cid = (intern c q.name_to_id).0 in
    record q {
      name_to_id = (intern c q.name_to_id).1;
      conflict_graph = push_new (cid, nid) (push_new (nid, cid) q.conflict_graph);
    }

add_conflict-pushed :
    (name : String) (nid : ℕ) (q : AlpmPool) (c : String)
    → (c == name) ≡ false
    → add_conflict nid name q c ≡ pushed nid q c
unfolding add_conflict
add_conflict-pushed name nid q c h = rw h

Loop-pushed :
    (name : String) (nid : ℕ) (p q : AlpmPool) (D : Relation) (c : String)
    → length q.name_to_id < u32_mod
    → (c == name) ≡ false
    → Loop name nid p q D
    → SameTables q (pushed nid q c)
    → Loop name nid p (pushed nid q c) (extend_by name D c)
Loop-pushed name nid p q D c room differ l same =
    let num = intern-Numbered c q.name_to_id room l.named.numbered in
    let own_id : lookup name (intern c q.name_to_id).1 ≡ some nid =
      ground (arith, lookup-intern c name q.name_to_id, l.own_id) in
    let its_id : lookup c (intern c q.name_to_id).1 ≡ some (intern c q.name_to_id).0 =
      ground (arith, lookup-intern c c q.name_to_id, eq_iff c c) in
    record {
      own_id = own_id;
      named = NamesOk-intern c q.name_to_id p.solvables p.name_candidates room l.named;
      graph =
          GraphOk-ext _ _ (extend D name c) (extend_by name D c) (λ x y. ground arith)
            (GraphOk-push_new _ q.conflict_graph D name c nid _ num own_id its_id
              (GraphOk-intern c q.name_to_id q.conflict_graph D room l.graph));
      same = SameTables-trans l.same same;
    }

Loop-step :
    (name : String) (nid : ℕ) (p q : AlpmPool) (D : Relation) (c : String)
    → length q.name_to_id < u32_mod
    → Loop name nid p q D
    → Loop name nid p (add_conflict nid name q c) (extend_by name D c)
Loop-step name nid p q D c room l = elim (Bool-cases (c == name)) [
  | inl same ↦ rw (add_conflict_skipped name nid q c same) (record {
    own_id = l.own_id;
    named = l.named;
    graph = GraphOk-ext _ _ D (extend_by name D c) (λ x y. ground arith) l.graph;
    same = l.same;
  })
  | inr differ ↦ rw (add_conflict-pushed name nid q c differ) (
      Loop-pushed name nid p q D c room differ l
        (rw (add_conflict-pushed name nid q c differ) at (same_tables name nid q c)))
]

length-add_conflict :
    (name : String) (nid : ℕ) (q : AlpmPool) (c : String)
    → length (add_conflict nid name q c).name_to_id ≤ length q.name_to_id + 1
unfolding add_conflict
length-add_conflict name nid q c = ground (arith, length-intern-le c q.name_to_id)

-- The whole loop: the names and the candidates stay in agreement, and the graph gains the pairs
-- that the package declares.
pub Loop-all :
    (name : String) (nid : ℕ) (p q : AlpmPool) (D : Relation) (cs : List String)
    → length q.name_to_id + length cs ≤ u32_mod
    → Loop name nid p q D
    → Loop name nid p (add_conflicts nid name q cs) (extend_all name D cs)
unfolding add_conflicts
Loop-all name nid p q D [] room l = l
Loop-all name nid p q D (c ∷ cs) room l =
    Loop-all name nid p (add_conflict nid name q c) (extend_by name D c) cs
      (omega (arith, length-add_conflict name nid q c)) (Loop-step name nid p q D c (omega arith) l)
