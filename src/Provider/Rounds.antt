-- ===== src/Provider/Rounds.antt =====
-- One round of the loop over the conflicts in `get_dependencies` of src/package_solver/provider.rs.
use mathlib.Core.Path.{subst}
use mathlib.Core.List.{append-nil}
use pacman_ostree.Base.{
  ℕ, ◌<◌, String, string_eq, nat_eq, pair_eq, ◌==◌, ◌≡◌, refl, sym, ap, ◌∙◌, true, false, Option,
  none, some, List, [], ◌∷◌, ◌++◌, map, arith, inl, inr, Bool-cases, ok, length, push, eq_iff,
  contains, All,
}
use pacman_ostree.Pool.Types.{AlpmDep, AlpmPool, u32_mod}
use pacman_ostree.Pool.Intern.{intern, intern_old, lookup-intern}
use pacman_ostree.Pool.Names.{intern_name}
use pacman_ostree.Pool.Candidates.{Candidates, get_candidates_for}
use pacman_ostree.Pool.Wf.Invariant.{IsWf}
use pacman_ostree.Pool.Wf.Interning.{intern_name-IsWf}
use pacman_ostree.Pool.Laws.Names.{resolve_name-intern_name}
use pacman_ostree.Pool.Laws.Favored.{VersionCmp, IsVersionOrder}
use pacman_ostree.Pool.Laws.Choice.{get_candidates_for-IsChoice}
use pacman_ostree.Provider.Asks.{
  AskAll, named_in, asked_in, Grown, AskAll-keeps, AskAll-push, asked-Asks, asked-Grown, sizes,
  resolve_version_set-named,
}
use pacman_ostree.Provider.Dependencies.{has_candidate, constrain}

-- A conflict asks for any version of the name.
abbrev pub against : String → AlpmDep
against conflict = record { name = conflict; constraint = "" }

-- A name that has just been interned is not interned again.
named_twice : (dep : AlpmDep) (p : AlpmPool) → named_in dep (named_in dep p).1 ≡ named_in dep p
unfolding intern_name
named_twice dep p =
    let again : intern dep.name (intern dep.name p.name_to_id).1 ≡ intern dep.name p.name_to_id =
      intern_old dep.name (intern dep.name p.name_to_id).1 {id = (intern dep.name p.name_to_id).0}
        (ground (arith, lookup-intern dep.name dep.name p.name_to_id, eq_iff dep.name dep.name)) in
    rw again refl

-- The three outcomes of a round.
constrain_own :
    (vercmp : VersionCmp) (i : ℕ) (own conflict : String) (cs : List ℕ) (p : AlpmPool)
    → (conflict == own) ≡ true
    → constrain vercmp i own conflict (cs, p) ≡ ok (cs, p)
unfolding constrain
constrain_own vercmp i own conflict cs p e = rw e refl

constrain_provided :
    (vercmp : VersionCmp) (i : ℕ) (own conflict : String) (cs : List ℕ) (p : AlpmPool)
    (found : Option Candidates)
    → (conflict == own) ≡ false
    → get_candidates_for vercmp (named_in (against conflict) p).1 (named_in (against conflict) p).0
      ≡ ok found
    → has_candidate found i ≡ true
    → constrain vercmp i own conflict (cs, p) ≡ ok (cs, (named_in (against conflict) p).1)
unfolding constrain
constrain_provided vercmp i own conflict cs p found e f g = ground (arith, e, f, g)

constrain_asked :
    (vercmp : VersionCmp) (i : ℕ) (own conflict : String) (cs : List ℕ) (p : AlpmPool)
    (found : Option Candidates)
    → (conflict == own) ≡ false
    → get_candidates_for vercmp (named_in (against conflict) p).1 (named_in (against conflict) p).0
      ≡ ok found
    → has_candidate found i ≡ false
    → constrain vercmp i own conflict (cs, p)
      ≡ ok (push cs (asked_in (against conflict) p).0, (asked_in (against conflict) p).1)
unfolding constrain
constrain_asked vercmp i own conflict cs p found e f g =
    ground (arith, e, f, g, named_twice (against conflict) p)

Grown-refl : (p : AlpmPool) → IsWf p → Grown p p
Grown-refl p h = record { wf = h; names = omega arith; sets = omega arith; keeps = λ vs dep k. k }

named-Grown :
    (dep : AlpmDep) (p : AlpmPool)
    → length p.name_to_id < u32_mod
    → IsWf p
    → Grown p (named_in dep p).1
named-Grown dep p room h =
    let (a, b, c, d, e, f) = sizes dep p in
    let (self, looked, old) = resolve_name-intern_name dep.name p room h in
    record {
      wf = intern_name-IsWf dep.name p room h;
      names = b;
      sets = omega (arith, ap length c);
      keeps = λ vs d k. record {
        name_id = k.name_id;
        resolved = resolve_version_set-named dep p vs ∙ k.resolved;
        named = old k.name_id k.known ∙ k.named;
        known = omega (arith, k.known);
        interned = omega (arith, ap length c, k.interned);
      };
    }

candidates_found :
    (vercmp : VersionCmp) (dep : AlpmDep) (p : AlpmPool)
    → IsVersionOrder vercmp
    → length p.name_to_id < u32_mod
    → IsWf p
    → (found : Option Candidates) × (get_candidates_for vercmp (named_in dep p).1 (named_in dep p).0
        ≡ ok found)
candidates_found vercmp dep p v room h =
    let (self, looked, old) = resolve_name-intern_name dep.name p room h in
    elim (get_candidates_for-IsChoice vercmp (named_in dep p).1 dep.name {nid = (named_in dep p).0}
      v (intern_name-IsWf dep.name p room h) looked) [
        | inl (e, nobody) ↦ (none, e)
        | inr (c, e, choice) ↦ (some c, e)
      ]

map-push :
    (done : List String) (c : String)
    → map against (done ++ c ∷ []) ≡ push (map against done) (against c)
map-push [] c = refl
map-push (d ∷ done) c = ap (◌∷◌ (against d)) (map-push done c)

-- A conflict that is constrained is one of the package's, and not on its own name.
abbrev pub IsForeign : List String → String → String → Type 0
IsForeign conflicts own c = (contains conflicts c ≡ true) × ((c == own) ≡ false)

pub IsForeign-cons :
    (conflict : String) (conflicts : List String) (own : String) (more : List String)
    → All (IsForeign conflicts own) more
    → All (IsForeign (conflict ∷ conflicts) own) more
IsForeign-cons conflict conflicts own [] h = tt
IsForeign-cons conflict conflicts own (c ∷ more) ((there, foreign), h) =
    ((ground arith, foreign), IsForeign-cons conflict conflicts own more h)

-- One round: the constraints stand for the conflicts so far, and perhaps for this one.
pub record Round (vercmp : VersionCmp) (i : ℕ) (own conflict : String) (cs : List ℕ)
    (done : List String) (p : AlpmPool) : Type 0 where
  pub sets : List ℕ
  pub pool : AlpmPool
  pub more : List String
  pub result : constrain vercmp i own conflict (cs, p) ≡ ok (sets, pool)
  pub grown : Grown p pool
  pub asks : AskAll pool sets (map against (done ++ more))
  pub foreign : All (IsForeign (conflict ∷ []) own) more

pub one_Round :
    (vercmp : VersionCmp) (i : ℕ) (own conflict : String) (cs : List ℕ) (done : List String)
    (p : AlpmPool)
    → IsVersionOrder vercmp
    → length p.name_to_id < u32_mod
    → length p.vs_map < u32_mod
    → IsWf p
    → AskAll p cs (map against done)
    → Round vercmp i own conflict cs done p
one_Round vercmp i own conflict cs done p v names sets h asks =
    let dep = against conflict in
    let (found, e) = candidates_found vercmp dep p v names h in
    let same = sym (append-nil done) in
    elim (Bool-cases (conflict == own)) [
      | inl self ↦ record {
        sets = cs;
        pool = p;
        more = [];
        result = constrain_own vercmp i own conflict cs p self;
        grown = Grown-refl p h;
        asks = subst (λ d. AskAll p cs (map against d)) same asks;
        foreign = tt;
      }
      | inr other ↦ elim (Bool-cases (has_candidate found i)) [
        | inl provided ↦
            let g = named-Grown dep p names h in
            record {
              sets = cs;
              pool = (named_in dep p).1;
              more = [];
              result = constrain_provided vercmp i own conflict cs p found other e provided;
              grown = g;
              asks =
                  subst (λ d. AskAll (named_in dep p).1 cs (map against d)) same
                    (AskAll-keeps p (named_in dep p).1 cs (map against done) g.keeps asks);
              foreign = tt;
            }
        | inr absent ↦
            let g = asked-Grown dep p names sets h in
            let q = (asked_in dep p).1 in
            record {
              sets = push cs (asked_in dep p).0;
              pool = q;
              more = conflict ∷ [];
              result = constrain_asked vercmp i own conflict cs p found other e absent;
              grown = g;
              asks =
                  subst (λ ds. AskAll q (push cs (asked_in dep p).0) ds)
                    (sym (map-push done conflict))
                    (AskAll-push q cs (map against done) (asked_in dep p).0 dep
                      (AskAll-keeps p q cs (map against done) g.keeps asks)
                      (asked-Asks dep p names sets h));
              foreign = ((ground (arith, eq_iff conflict conflict), other), tt);
            }
      ]
    ]
