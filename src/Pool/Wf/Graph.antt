-- ===== src/Pool/Wf/Graph.antt =====
-- The conflict graph of src/package_solver/pool.rs against the conflicts that packages declare.
use pacman_ostree.Base.{
  ℕ, ◌<◌, String, string_eq, nat_eq, pair_eq, ◌==◌, ◌≡◌, refl, ◌∙◌, Bool, true, ◌&&◌, ◌||◌, none,
  some, List, [], ◌∷◌, arith, inl, inr, Option-cases, is_some, length, any, contains,
  contains-append, eq_iff, nat_beq_iff, lt_of_get_elem?,
}
use pacman_ostree.Base.Dict.{Dict, lookup}
use pacman_ostree.Pool.Types.{AlpmPool, u32_mod}
use pacman_ostree.Pool.Intern.{
  intern, intern_fresh, intern_old, Numbered, lookup-intern, lookup_inj, get_elem?_of_lookup,
  length-le-intern,
}
use pacman_ostree.Pool.Add.{push_new}
use pacman_ostree.Pool.Query.{conflicts}

-- That `x` and `y` conflict: one of them declares the other.
abbrev pub Relation : Type 0
Relation = String → String → Bool

abbrev pub IsKnown : Dict String ℕ → String → Type 0
IsKnown names x = is_some (lookup x names) ≡ true

pub record GraphOk (names : Dict String ℕ) (graph : List (ℕ × ℕ)) (D : Relation) : Type 0 where
  pub declared :
      (x y : String) (a b : ℕ)
      → lookup x names ≡ some a
      → lookup y names ≡ some b
      → contains graph (a, b) ≡ D x y
  pub bounded : (a b : ℕ) → contains graph (a, b) ≡ true → (a < length names) × (b < length names)
  pub known : (x y : String) → D x y ≡ true → IsKnown names x × IsKnown names y

pub GraphOk-ext :
    (names : Dict String ℕ) (graph : List (ℕ × ℕ)) (D E : Relation)
    → ((x y : String) → D x y ≡ E x y)
    → GraphOk names graph D
    → GraphOk names graph E
GraphOk-ext names graph D E same h = record {
  declared = λ x y a b p q. h.declared x y a b p q ∙ same x y;
  bounded = h.bounded;
  known = λ x y e. h.known x y (same x y ∙ e);
}

id-lt-length :
    (x : String) (names : Dict String ℕ) {a : ℕ}
    → Numbered names
    → lookup x names ≡ some a
    → a < length names
id-lt-length x names num h = lt_of_get_elem? names _ (get_elem?_of_lookup x names num h)

-- A new name conflicts with nothing yet.
GraphOk-fresh :
    (k : String) (names : Dict String ℕ) (graph : List (ℕ × ℕ)) (D : Relation)
    → length names < u32_mod
    → lookup k names ≡ none
    → GraphOk names graph D
    → (x y : String) (a b : ℕ) → lookup x (intern k names).1 ≡ some a
    → lookup y (intern k names).1 ≡ some b
    → contains graph (a, b) ≡ D x y
GraphOk-fresh k names graph D room fresh h x y a b p q = ground (
  arith,
  eq_iff k x,
  eq_iff k y,
  lookup-intern k x names,
  lookup-intern k y names,
  intern_fresh k names fresh,
  h.bounded a b,
  h.known x y,
  h.declared x y a b,
)

pub GraphOk-intern :
    (k : String) (names : Dict String ℕ) (graph : List (ℕ × ℕ)) (D : Relation)
    → length names < u32_mod
    → GraphOk names graph D
    → GraphOk (intern k names).1 graph D
GraphOk-intern k names graph D room h = record {
  declared = λ x y a b p q. elim (Option-cases (lookup k names)) [
    | inl fresh ↦ GraphOk-fresh k names graph D room fresh h x y a b p q
    | inr (id, old) ↦
        h.declared x y a b (rw (intern_old k names old) at p) (rw (intern_old k names old) at q)
  ];
  bounded = λ a b e.
      let (l, r) = h.bounded a b e in
      (omega (arith, length-le-intern k names), omega (arith, length-le-intern k names));
  known = λ x y e.
      let (l, r) = h.known x y e in
      (ground (arith, lookup-intern k x names), ground (arith, lookup-intern k y names));
}

contains-push_new :
    (pair : ℕ × ℕ) (graph : List (ℕ × ℕ)) (a b : ℕ)
    → contains (push_new pair graph) (a, b)
      ≡ (contains graph (a, b) || (pair.0 == a && pair.1 == b))
unfolding push_new
contains-push_new (c, d) graph a b =
    ground (arith, nat_beq_iff c a, nat_beq_iff d b, contains-append graph ((c, d) ∷ []) (a, b))

-- The relation with one more pair, both ways round.
abbrev pub extend : Relation → String → String → Relation
extend D n c x y = D x y || (n == x && c == y) || (c == x && n == y)

pub GraphOk-push_new :
    (names : Dict String ℕ) (graph : List (ℕ × ℕ)) (D : Relation) (n c : String) (i j : ℕ)
    → Numbered names
    → lookup n names ≡ some i
    → lookup c names ≡ some j
    → GraphOk names graph D
    → GraphOk names (push_new (j, i) (push_new (i, j) graph)) (extend D n c)
GraphOk-push_new names graph D n c i j num ni cj h = record {
  declared = λ x y a b p q. ground (
    arith,
    contains-push_new (j, i) (push_new (i, j) graph) a b,
    contains-push_new (i, j) graph a b,
    h.declared x y a b p q,
    eq_iff n x,
    eq_iff c y,
    eq_iff c x,
    eq_iff n y,
    nat_beq_iff i a,
    nat_beq_iff j b,
    nat_beq_iff j a,
    nat_beq_iff i b,
    lookup_inj n x names {i = i} num,
    lookup_inj c y names {i = j} num,
    lookup_inj c x names {i = j} num,
    lookup_inj n y names {i = i} num,
  );
  bounded = λ a b e. ground (
    arith,
    contains-push_new (j, i) (push_new (i, j) graph) a b,
    contains-push_new (i, j) graph a b,
    h.bounded a b,
    nat_beq_iff i a,
    nat_beq_iff j b,
    nat_beq_iff j a,
    nat_beq_iff i b,
    id-lt-length n names {a = i} num ni,
    id-lt-length c names {a = j} num cj,
  );
  known = λ x y e. ground (arith, h.known x y, eq_iff n x, eq_iff c y, eq_iff c x, eq_iff n y);
}

-- The query reads both directions of the graph.
pub conflicts-eq-contains :
    (p : AlpmPool) (a b : ℕ)
    → conflicts p a b ≡ (contains p.conflict_graph (a, b) || contains p.conflict_graph (b, a))
unfolding conflicts
conflicts-eq-contains p a b = both_ways p.conflict_graph
  where
    both_ways :
        (graph : List (ℕ × ℕ))
        → any (λ ((x, y) : ℕ × ℕ). (x == a && y == b) || (x == b && y == a)) graph
          ≡ (contains graph (a, b) || contains graph (b, a))
    both_ways [] = refl
    both_ways ((x, y) ∷ graph) = ground (arith, both_ways graph)
