-- ===== src/Pool/Wf/Growing.antt =====
-- What the operations of src/package_solver/pool.rs keep: the ids that they have given out.
use mathlib.Core.List.{append_assoc, append-nil}
use pacman_ostree.Base.{
  ℕ, String, string_eq, nat_eq, pair_eq, ◌==◌, ◌≡◌, refl, sym, ap, ◌∙◌, List, [], ◌∷◌, ◌++◌, Eq,
  inl, inr, Bool-cases, Option-cases, length, any,
}
use pacman_ostree.Base.Dict.{Dict, lookup}
use pacman_ostree.Pool.Types.{AlpmPackage, Provider, AlpmPool, as_u32}
use pacman_ostree.Pool.Intern.{intern, intern_fresh, intern_old}
use pacman_ostree.Pool.Names.{intern_name, intern_version_set, intern_union}
use pacman_ostree.Pool.Add.{
  add_solvable, add_conflict, add_conflicts, add_package, finalize_virtuals, is_local_copy,
  merge_packages, merge_local,
}

-- A table with more at its end.
abbrev pub Grows {ℓ} : {A : Type ℓ} → List A → List A → Type ℓ
Grows {A = A} xs ys = (more : List A) × (ys ≡ xs ++ more)

module _ {ℓ} {A : Type ℓ} where
  Grows-refl : (xs : List A) → Grows xs xs
  Grows-refl xs = ([], sym (append-nil xs))

  Grows-trans : (xs ys zs : List A) → Grows xs ys → Grows ys zs → Grows xs zs
  Grows-trans xs ys zs (m, e) (n, f) = (m ++ n, f ∙ (ap (λ l. l ++ n) e ∙ append_assoc xs m n))

Grows-intern : {K : Type 0} ⦃e : Eq K⦄ → (k : K) (m : Dict K ℕ) → Grows m (intern k m).1
Grows-intern k m = elim (Option-cases (lookup k m)) [
  | inl fresh ↦ rw (intern_fresh k m fresh) ((k, as_u32 (length m)) ∷ [], refl)
  | inr (id, old) ↦ rw (intern_old k m old) (Grows-refl m)
]

-- The tables that ids are read in only grow: every id means what it did.
pub record Extends (p q : AlpmPool) : Type 0 where
  pub names : Grows p.name_to_id q.name_to_id
  pub sets : Grows p.vs_map q.vs_map
  pub unions : Grows p.unions q.unions
  pub owners : Grows p.solvable_to_pkg q.solvable_to_pkg
  pub packages : Grows p.packages q.packages

pub Extends-refl : (p : AlpmPool) → Extends p p
Extends-refl p = record {
  names = Grows-refl p.name_to_id;
  sets = Grows-refl p.vs_map;
  unions = Grows-refl p.unions;
  owners = Grows-refl p.solvable_to_pkg;
  packages = Grows-refl p.packages;
}

pub Extends-trans : (p q r : AlpmPool) → Extends p q → Extends q r → Extends p r
Extends-trans p q r e f = record {
  names = Grows-trans p.name_to_id q.name_to_id r.name_to_id e.names f.names;
  sets = Grows-trans p.vs_map q.vs_map r.vs_map e.sets f.sets;
  unions = Grows-trans p.unions q.unions r.unions e.unions f.unions;
  owners = Grows-trans p.solvable_to_pkg q.solvable_to_pkg r.solvable_to_pkg e.owners f.owners;
  packages = Grows-trans p.packages q.packages r.packages e.packages f.packages;
}

pub Extends-intern_name : (name : String) (p : AlpmPool) → Extends p (intern_name name p).1
unfolding intern_name
Extends-intern_name name p = record {
  names = Grows-intern name p.name_to_id;
  sets = Grows-refl p.vs_map;
  unions = Grows-refl p.unions;
  owners = Grows-refl p.solvable_to_pkg;
  packages = Grows-refl p.packages;
}

pub Extends-intern_version_set :
    (name : ℕ) (constraint : String) (p : AlpmPool)
    → Extends p (intern_version_set name constraint p).1
unfolding intern_version_set
Extends-intern_version_set name constraint p = record {
  names = Grows-refl p.name_to_id;
  sets = Grows-intern (name, constraint) p.vs_map;
  unions = Grows-refl p.unions;
  owners = Grows-refl p.solvable_to_pkg;
  packages = Grows-refl p.packages;
}

pub Extends-intern_union : (sets : List ℕ) (p : AlpmPool) → Extends p (intern_union sets p).1
unfolding intern_union
Extends-intern_union sets p = record {
  names = Grows-refl p.name_to_id;
  sets = Grows-refl p.vs_map;
  unions = (sets ∷ [], refl);
  owners = Grows-refl p.solvable_to_pkg;
  packages = Grows-refl p.packages;
}

Extends-add_conflict :
    (nid : ℕ) (name : String) (p : AlpmPool) (c : String) → Extends p (add_conflict nid name p c)
unfolding add_conflict intern_name
Extends-add_conflict nid name p c = elim (Bool-cases (c == name)) [
  | inl own ↦ rw own (Extends-refl p)
  | inr other ↦ rw other (record {
    names = Grows-intern c p.name_to_id;
    sets = Grows-refl p.vs_map;
    unions = Grows-refl p.unions;
    owners = Grows-refl p.solvable_to_pkg;
    packages = Grows-refl p.packages;
  })
]

Extends-add_conflicts :
    (nid : ℕ) (name : String) (p : AlpmPool) (cs : List String)
    → Extends p (add_conflicts nid name p cs)
unfolding add_conflicts
Extends-add_conflicts nid name p [] = Extends-refl p
Extends-add_conflicts nid name p (c ∷ cs) =
    Extends-trans p (add_conflict nid name p c) _ (Extends-add_conflict nid name p c)
      (Extends-add_conflicts nid name (add_conflict nid name p c) cs)

Extends-add_solvable :
    (pkg : AlpmPackage) (nid : ℕ) (p : AlpmPool) → Extends p (add_solvable pkg nid p)
unfolding add_solvable
Extends-add_solvable pkg nid p = record {
  names = Grows-refl p.name_to_id;
  sets = Grows-refl p.vs_map;
  unions = Grows-refl p.unions;
  owners = (length p.packages ∷ [], refl);
  packages = Grows-refl p.packages;
}

Extends-push :
    (pkg : AlpmPackage) (p : AlpmPool) → Extends p (record p { packages = p.packages ++ pkg ∷ [] })
Extends-push pkg p = record {
  names = Grows-refl p.name_to_id;
  sets = Grows-refl p.vs_map;
  unions = Grows-refl p.unions;
  owners = Grows-refl p.solvable_to_pkg;
  packages = (pkg ∷ [], refl);
}

pub Extends-add_package : (pkg : AlpmPackage) (p : AlpmPool) → Extends p (add_package pkg p)
unfolding add_package
Extends-add_package pkg p =
    let (nid, p1) = intern_name pkg.name p in
    let p2 = add_solvable pkg nid p1 in
    let p3 = add_conflicts nid pkg.name p2 pkg.conflicts in
    Extends-trans p p1 _ (Extends-intern_name pkg.name p) (
      Extends-trans p1 p2 _ (Extends-add_solvable pkg nid p1) (
        Extends-trans p2 p3 _ (Extends-add_conflicts nid pkg.name p2 pkg.conflicts)
          (Extends-push pkg p3)))

module _ (values : Dict String (List Provider) → List (List Provider)) where
  pub Extends-finalize_virtuals : (p : AlpmPool) → Extends p (finalize_virtuals values p)
  unfolding finalize_virtuals
  Extends-finalize_virtuals p = record {
    names = Grows-refl p.name_to_id;
    sets = Grows-refl p.vs_map;
    unions = Grows-refl p.unions;
    owners = Grows-refl p.solvable_to_pkg;
    packages = Grows-refl p.packages;
  }

  Extends-merge_packages :
      (pkgs : List AlpmPackage) (p : AlpmPool) → Extends p (merge_packages values pkgs p)
  unfolding merge_packages
  Extends-merge_packages [] p = Extends-refl p
  Extends-merge_packages (pkg ∷ pkgs) p =
      elim (Bool-cases (any (is_local_copy values pkg) p.packages)) [
        | inl there ↦ rw there (Extends-merge_packages pkgs p)
        | inr new_one ↦ rw new_one (
            Extends-trans p (add_package pkg p) _ (Extends-add_package pkg p)
              (Extends-merge_packages pkgs (add_package pkg p)))
      ]

  pub Extends-merge_local : (local p : AlpmPool) → Extends p (merge_local values local p)
  unfolding merge_local
  Extends-merge_local local p =
      Extends-trans p (merge_packages values local.packages p) _
        (Extends-merge_packages local.packages p) (Extends-finalize_virtuals _)
