-- ===== src/Provider/Asks.antt =====
-- What it means that version sets ask for dependencies, in src/package_solver/provider.rs.
use pacman_ostree.Base.{
  ℕ, ◌+◌, ◌≤◌, ◌<◌, string_eq, nat_eq, pair_eq, ◌≡◌, refl, ap, ◌∙◌, List, [], ◌∷◌, arith, ok,
  length, push, lt_of_get_elem?,
}
use pacman_ostree.Pool.Types.{AlpmDep, AlpmPool, u32_mod}
use pacman_ostree.Pool.Intern.{length-intern-le, length-le-intern, get_elem?-intern}
use pacman_ostree.Pool.Names.{intern_name, resolve_name, intern_version_set, resolve_version_set}
use pacman_ostree.Pool.Wf.Invariant.{IsWf}
use pacman_ostree.Pool.Wf.Interning.{intern_name-IsWf, intern_version_set-IsWf}
use pacman_ostree.Pool.Laws.Names.{resolve_name-intern_name, resolve_version_set-intern_version_set}

-- The version set is for the package name, with the constraint.
pub record Asks (p : AlpmPool) (vs : ℕ) (dep : AlpmDep) : Type 0 where
  pub name_id : ℕ
  pub resolved : resolve_version_set p vs ≡ ok (name_id, dep.constraint)
  pub named : resolve_name p name_id ≡ dep.name
  pub known : name_id < length p.name_to_id
  pub interned : vs < length p.vs_map

-- One version set for each dependency, in their order.
abbrev pub AskAll : AlpmPool → List ℕ → List AlpmDep → Type 0
AskAll p [] [] = Unit
AskAll p (vs ∷ sets) (dep ∷ deps) = Asks p vs dep × AskAll p sets deps
AskAll p _ _ = ⊥

abbrev pub named_in : AlpmDep → AlpmPool → ℕ × AlpmPool
named_in dep p = intern_name dep.name p

abbrev pub asked_in : AlpmDep → AlpmPool → ℕ × AlpmPool
asked_in dep p = intern_version_set (named_in dep p).0 dep.constraint (named_in dep p).1

-- The tables after one dependency.
pub record Grown (p q : AlpmPool) : Type 0 where
  pub wf : IsWf q
  pub names : length q.name_to_id ≤ length p.name_to_id + 1
  pub sets : length q.vs_map ≤ length p.vs_map + 1
  pub keeps : (vs : ℕ) (dep : AlpmDep) → Asks p vs dep → Asks q vs dep

pub sizes :
    (dep : AlpmDep) (p : AlpmPool)
    → (length p.name_to_id ≤ length (named_in dep p).1.name_to_id)
      × (length (named_in dep p).1.name_to_id ≤ length p.name_to_id + 1)
      × ((named_in dep p).1.vs_map ≡ p.vs_map)
      × ((asked_in dep p).1.name_to_id ≡ (named_in dep p).1.name_to_id)
      × (length p.vs_map ≤ length (asked_in dep p).1.vs_map)
      × (length (asked_in dep p).1.vs_map ≤ length p.vs_map + 1)
unfolding intern_name intern_version_set
sizes dep p = (
  length-le-intern dep.name p.name_to_id,
  length-intern-le dep.name p.name_to_id,
  refl,
  refl,
  length-le-intern _ p.vs_map,
  length-intern-le _ p.vs_map,
)

-- Ids are read alike where the tables are the same.
pub resolve_version_set-named :
    (dep : AlpmDep) (p : AlpmPool) (vs : ℕ)
    → resolve_version_set (named_in dep p).1 vs ≡ resolve_version_set p vs
unfolding intern_name resolve_version_set
resolve_version_set-named dep p vs = refl

resolve_name-asked :
    (dep : AlpmDep) (p : AlpmPool) (id : ℕ)
    → resolve_name (asked_in dep p).1 id ≡ resolve_name (named_in dep p).1 id
unfolding intern_version_set resolve_name
resolve_name-asked dep p id = refl

pub fresh_ids :
    (dep : AlpmDep) (p : AlpmPool)
    → length p.name_to_id < u32_mod
    → length p.vs_map < u32_mod
    → IsWf p
    → ((named_in dep p).0 < length (named_in dep p).1.name_to_id)
      × ((asked_in dep p).0 < length (asked_in dep p).1.vs_map)
unfolding intern_name intern_version_set
fresh_ids dep p names sets h = (
  lt_of_get_elem? _ _ (get_elem?-intern dep.name p.name_to_id names h.named.numbered),
  lt_of_get_elem? _ _ (get_elem?-intern _ p.vs_map sets h.sets),
)

module _ (dep : AlpmDep) (p : AlpmPool) (names : length p.name_to_id < u32_mod)
    (sets : length p.vs_map < u32_mod) (h : IsWf p) where
  pub named_IsWf : IsWf (named_in dep p).1
  named_IsWf = intern_name-IsWf dep.name p names h

  pub named_sets : length (named_in dep p).1.vs_map < u32_mod
  named_sets = let (a, b, c, d, e, f) = sizes dep p in rw c sets

  pub asked-Asks : Asks (asked_in dep p).1 (asked_in dep p).0 dep
  asked-Asks =
      let (a, b, c, d, e, f) = sizes dep p in
      let (lt_n, lt_s) = fresh_ids dep p names sets h in
      let (self, looked, old) = resolve_name-intern_name dep.name p names h in
      let (here, rest) =
        resolve_version_set-intern_version_set (named_in dep p).0 dep.constraint (named_in dep p).1
          named_sets named_IsWf in
      record {
        name_id = (named_in dep p).0;
        resolved = here;
        named = resolve_name-asked dep p (named_in dep p).0 ∙ self;
        known = omega (arith, ap length d, lt_n);
        interned = lt_s;
      }

  pub asked-keeps : (vs : ℕ) (d : AlpmDep) → Asks p vs d → Asks (asked_in dep p).1 vs d
  asked-keeps vs d k =
      let (a, b, c, same, e, f) = sizes dep p in
      let (self, looked, old) = resolve_name-intern_name dep.name p names h in
      let (here, rest) =
        resolve_version_set-intern_version_set (named_in dep p).0 dep.constraint (named_in dep p).1
          named_sets named_IsWf in
      record {
        name_id = k.name_id;
        resolved =
            rest vs (omega (arith, ap length c, k.interned))
            ∙ (resolve_version_set-named dep p vs ∙ k.resolved);
        named = resolve_name-asked dep p k.name_id ∙ (old k.name_id k.known ∙ k.named);
        known = omega (arith, ap length same, k.known);
        interned = omega (arith, k.interned);
      }

  pub asked-Grown : Grown p (asked_in dep p).1
  asked-Grown =
      let (a, b, c, same, e, f) = sizes dep p in
      record {
        wf =
            intern_version_set-IsWf (named_in dep p).0 dep.constraint (named_in dep p).1 named_sets
              named_IsWf;
        names = omega (arith, ap length same);
        sets = f;
        keeps = asked-keeps;
      }

pub AskAll-keeps :
    (p q : AlpmPool) (sets : List ℕ) (deps : List AlpmDep)
    → ((vs : ℕ) (dep : AlpmDep) → Asks p vs dep → Asks q vs dep)
    → AskAll p sets deps
    → AskAll q sets deps
AskAll-keeps p q [] [] keeps h = tt
AskAll-keeps p q (vs ∷ sets) (dep ∷ deps) keeps (a, h) =
    (keeps vs dep a, AskAll-keeps p q sets deps keeps h)
AskAll-keeps p q [] (dep ∷ deps) keeps h = elim h [ ]
AskAll-keeps p q (vs ∷ sets) [] keeps h = elim h [ ]

pub AskAll-push :
    (p : AlpmPool) (sets : List ℕ) (deps : List AlpmDep) (vs : ℕ) (dep : AlpmDep)
    → AskAll p sets deps
    → Asks p vs dep
    → AskAll p (push sets vs) (push deps dep)
AskAll-push p [] [] vs dep h a = (a, tt)
AskAll-push p (w ∷ sets) (d ∷ deps) vs dep (b, h) a = (b, AskAll-push p sets deps vs dep h a)
AskAll-push p [] (d ∷ deps) vs dep h a = elim h [ ]
AskAll-push p (w ∷ sets) [] vs dep h a = elim h [ ]

-- The state after some rounds, where the version sets stand for `deps`.
abbrev pub Stands : List ℕ × AlpmPool → List AlpmDep → Type 0
Stands r deps = IsWf r.1 × AskAll r.1 r.0 deps
